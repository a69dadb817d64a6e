-- ===== src/Client/Handlers/Effects.antt =====
-- What the handlers that change the game do to the infos of the other players.
use smoo_bazel.Base.{
  ◌≡◌, refl, sym, ap, ◌∙◌, inl, inr, Bool, true, false, ◌&&◌, Option, some, List, if◌then◌else◌,
  Bool-cases, ◌>>=◌, >>=-eq-some, if_intro, some_inj, Str, str_eq, FloatOps,
}
use smoo_bazel.Puppets.Info.{FlagTeam}
use smoo_bazel.Packets.{
  uid_of, ChangeStage, PlayerInf, TagInf, player_inf, CtfGameState, TeamAssignment, FlagHoldState,
  FlagDropped, Body, system,
}
use smoo_bazel.Modes.{
  is_mode, is_mode_and_active, object_as, hide_and_seek, capture_the_flag, ctf_mode, ModeObject,
  Manager,
}
use smoo_bazel.Client.State.{Client, Flags, World}
use smoo_bazel.Client.Flags.{edit_flag}
use smoo_bazel.Client.Infos.{update_player_info, update_puppet_tag, update_puppet_team}
use smoo_bazel.Client.Infos.Steps.{Step, tags, joins_team}
use smoo_bazel.Client.Handlers.{
  own_tag, with_client, with_manager, update_tag_info, edit_ctf, assign_team, update_ctf_team,
  game_state_step, update_ctf_game_state, update_ctf_win, with_flags, hold,
  update_ctf_flag_hold_state, drop_flag, drop_unless_first, update_ctf_flag_dropped, send_to_stage,
}

-- What a packet with the body `b` does: the infos and the connection count stay, or one handler of
-- infos ran.
pub data Change (uid : Str) (b : Body) (c c' : Client) : Type 0 where
  leaves : c'.puppet_infos ≡ c.puppet_infos → c'.connect_count ≡ c.connect_count → Change uid b c c'
  steps : Step uid c c' → Change uid b c c'
  moves :
      (fl : FloatOps) (anims : List Str) (m : PlayerInf)
      → b ≡ system (player_inf m)
      → update_player_info fl anims uid m c ≡ some c'
      → Change uid b c c'

pub same_client : {b : Body} (uid : Str) (c c' : Client) → c' ≡ c → Change uid b c c'
same_client uid c c' e =
    leaves (ap (λ (d : Client). d.puppet_infos) e) (ap (λ (d : Client). d.connect_count) e)

with_client-eq_some :
    (r : Option Client) (w w' : World) → (r >>= with_client w) ≡ some w' → r ≡ some w'.client
unfolding with_client
with_client-eq_some r w w' e =
    let (c, run, last) = >>=-eq-some r _ e in
    run ∙ ap some (ap (λ (v : World). v.client) (some_inj last))

with_manager-client :
    (r : Option Manager) (w w' : World) → (r >>= with_manager w) ≡ some w' → w'.client ≡ w.client
unfolding with_manager
with_manager-client r w w' e =
    let (m, _, last) = >>=-eq-some r _ e in sym (ap (λ (v : World). v.client) (some_inj last))

with_flags-client :
    (r : Option Flags) (w w' : World) → (r >>= with_flags w) ≡ some w' → w'.client ≡ w.client
unfolding with_flags
with_flags-client r w w' e =
    let (m, _, last) = >>=-eq-some r _ e in sym (ap (λ (v : World). v.client) (some_inj last))

pub some-client : (w w' : World) → some w ≡ some w' → w'.client ≡ w.client
some-client w w' e = sym (ap (λ (v : World). v.client) (some_inj e))

-- A handler that is guarded by a test either runs or leaves the world alone.
guarded-client :
    (b : Bool) (r : Option World) (w w' : World)
    → (r ≡ some w' → w'.client ≡ w.client)
    → (if b then r else some w) ≡ some w'
    → w'.client ≡ w.client
guarded-client true r w w' run e = run e
guarded-client false r w w' run e = some-client w w' e

pub update_tag_info-Change :
    {b : Body} (uid : Str) (t : TagInf) (w w' : World)
    → update_tag_info uid t w ≡ some w'
    → Change uid b w.client w'.client
unfolding update_tag_info
update_tag_info-Change uid t w w' e =
    elim (Bool-cases (str_eq (uid_of uid) w.client.user_id && is_mode hide_and_seek w.manager)) [
      | inl own ↦
          same_client uid w.client w'.client
            (with_manager-client (own_tag t w.manager) w w' (rw own at e))
      | inr other ↦ steps (
          tags t w.client w'.client
            (with_client-eq_some (update_puppet_tag uid t w.client) w w' (rw other at e)))
    ]

pub update_ctf_team-Change :
    {b : Body} (uid : Str) (t : TeamAssignment) (w w' : World)
    → update_ctf_team uid t w ≡ some w'
    → Change uid b w.client w'.client
unfolding update_ctf_team
update_ctf_team-Change uid t w w' e = elim (Bool-cases (str_eq (uid_of uid) w.client.user_id)) [
  | inl own ↦ same_client uid w.client w'.client (
      guarded-client (is_mode_and_active capture_the_flag w.manager) _ w w'
        (with_manager-client (edit_ctf (assign_team t) w.manager) w w') (rw own at e))
  | inr other ↦ steps (
      joins_team t.team w.client w'.client
        (with_client-eq_some (update_puppet_team uid t.team w.client) w w' (rw other at e)))
]

drop_unless_first-client :
    (d : FlagDropped) (w w' : World) (o : ModeObject)
    → drop_unless_first d w o ≡ some w'
    → w'.client ≡ w.client
unfolding drop_unless_first
drop_unless_first-client d w w' o e = elim (Bool-cases o.is_first_frame) [
  | inl first ↦ some-client w w' (rw first at e)
  | inr later ↦ with_flags-client (drop_flag d w.flags) w w' (rw later at e)
]

pub update_ctf_game_state-client :
    (s : CtfGameState) (w w' : World) → update_ctf_game_state s w ≡ some w' → w'.client ≡ w.client
unfolding update_ctf_game_state
update_ctf_game_state-client s w w' =
    guarded-client (is_mode_and_active capture_the_flag w.manager) _ w w'
      (with_manager-client (game_state_step s w.manager) w w')

pub update_ctf_win-client :
    (team : FlagTeam) (w w' : World) → update_ctf_win team w ≡ some w' → w'.client ≡ w.client
unfolding update_ctf_win
update_ctf_win-client team w w' =
    guarded-client (is_mode_and_active capture_the_flag w.manager) _ w w'
      (with_manager-client (edit_ctf (λ i. record i { winning_team = team }) w.manager) w w')

pub update_ctf_flag_hold_state-client :
    (uid : Str) (s : FlagHoldState) (w w' : World)
    → update_ctf_flag_hold_state uid s w ≡ some w'
    → w'.client ≡ w.client
unfolding update_ctf_flag_hold_state
update_ctf_flag_hold_state-client uid s w w' =
    with_flags-client
      (edit_flag (hold uid s) s.flag_team (record w.flags { latest_team = s.flag_team })) w w'

pub update_ctf_flag_dropped-client :
    (d : FlagDropped) (w w' : World) → update_ctf_flag_dropped d w ≡ some w' → w'.client ≡ w.client
unfolding update_ctf_flag_dropped
update_ctf_flag_dropped-client d w w' =
    guarded-client (is_mode_and_active capture_the_flag w.manager) _ w w' dropped
  where
    dropped :
        (object_as ctf_mode w.manager >>= drop_unless_first d w) ≡ some w' → w'.client ≡ w.client
    dropped q =
        let (o, _, last) = >>=-eq-some (object_as ctf_mode w.manager) _ q in
        drop_unless_first-client d w w' o last

pub send_to_stage-client : (m : ChangeStage) (w : World) → (send_to_stage m w).client ≡ w.client
unfolding send_to_stage
send_to_stage-client m w = if_intro (λ (v : World). v.client ≡ w.client) w.has_scene refl refl
