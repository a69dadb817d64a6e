-- ===== src/Client/Handlers/Keeps.antt =====
-- What the handlers that change the game leave of the state that the turns of capture the flag rely on.
use smoo_bazel.Base.{
  strcpy, ℕ, ◌%◌, ◌≤◌, ◌<◌, ◌≡◌, refl, sym, ap, ◌∙◌, subst, ◌⊎◌, inl, inr, Bool, true, false, ◌&&◌,
  none, some, arith, ◌==◌, if◌then◌else◌, Bool-cases, ◌>>=◌, >>=-eq-some, if_intro, some_inj,
  length, Str, str_eq,
}
use smoo_bazel.Packets.{
  uid_of, ChangeStage, TagInf, CtfGameState, TeamAssignment, FlagHoldState, FlagDropped,
}
use smoo_bazel.Modes.{
  is_mode, is_mode_and_active, object_as, as_hns, ctf_info_new, hide_and_seek, capture_the_flag,
  CtfInfo, ctf_info, hns_mode, ctf_mode, Manager,
}
use smoo_bazel.Client.State.{Flags, World}
use smoo_bazel.Client.Flags.{flag_index}
use smoo_bazel.Client.Flags.Edit.{edit_flag-length}
use smoo_bazel.Client.Infos.{update_puppet_tag, update_puppet_team}
use smoo_bazel.Client.Infos.Limit.{Step-KeepsMax}
use smoo_bazel.Client.Handlers.{
  set_player_tag_state, own_tag, with_client, with_manager, update_tag_info, edit_ctf, assign_team,
  update_ctf_team, reset_game_info, set_round_time, game_state_step, update_ctf_game_state,
  update_ctf_win, hold, update_ctf_flag_hold_state, drop_at, drop_flag, drop_unless_first,
  update_ctf_flag_dropped, send_to_stage,
}
use smoo_bazel.Client.Infos.Steps.{tags, joins_team}
use smoo_bazel.Puppets.Info.{FlagTeam}
use smoo_bazel.Client.Handlers.Tag.{own_tag-lem}
use smoo_bazel.Client.Handlers.Playing.{
  same-IsPlaying, client-IsPlaying, manager-IsPlaying, edit_ctf-lem, edit_ctf-IsPlaying,
  with_flags-IsPlaying, guarded-IsPlaying, IsPlaying,
}

abbrev pub TeamFits : TeamAssignment → Type 0
TeamFits t = t.should_hold_team_flag ≡ true → flag_index t.team < 3

own_tag-eq_some :
    (t : TagInf) (m m' : Manager) (i : CtfInfo)
    → m.info ≡ some (ctf_info i)
    → own_tag t m ≡ some m'
    → m' ≡ m
unfolding set_player_tag_state
own_tag-eq_some t m m' i at_i e = go (t.update_type % 2 == 1) (sym (own_tag-lem t m) ∙ e)
  where
    go : (b : Bool) → (if b then set_player_tag_state t.is_it m else some m) ≡ some m' → m' ≡ m
    go true run =
        let (o, _, run') = >>=-eq-some (object_as hns_mode m) _ run in
        let (k, as_k, _) = >>=-eq-some (as_hns m.info) _ run' in
        let clash : none ≡ some k = sym (ap as_hns at_i) ∙ as_k in cc
    go false q = sym (some_inj q)

pub update_tag_info-IsPlaying :
    (n : ℕ) (uid : Str) (t : TagInf) (w w' : World)
    → update_tag_info uid t w ≡ some w'
    → IsPlaying n w
    → IsPlaying n w'
unfolding update_tag_info with_manager with_client
update_tag_info-IsPlaying n uid t w w' e v =
    elim (Bool-cases (str_eq (uid_of uid) w.client.user_id && is_mode hide_and_seek w.manager)) [
      | inl own ↦
          let (m, run, last) = >>=-eq-some (own_tag t w.manager) _ (rw own at e) in
          let (i, at_i, low) = v.info in
          let same = own_tag-eq_some t w.manager m i at_i run in
          same-IsPlaying n (record w { manager = m }) w' last
            (subst (λ x. IsPlaying n (record w { manager = x })) (sym same) v)
      | inr other ↦
          let (c, run, last) = >>=-eq-some (update_puppet_tag uid t w.client) _ (rw other at e) in
          same-IsPlaying n (record w { client = c }) w' last
            (client-IsPlaying n w c (Step-KeepsMax uid w.client c (tags t w.client c run)) v)
    ]

assign_team-low :
    (t : TeamAssignment)
    → TeamFits t
    → (i : CtfInfo) (m : ℕ) → 3 ≤ m
    → flag_index i.held_flag < m
    → flag_index (assign_team t i).held_flag < m
unfolding assign_team
assign_team-low t fits i m many low = elim (Bool-cases t.should_hold_team_flag) [
  | inl turned_on ↦ rw turned_on (omega (arith, fits turned_on))
  | inr off ↦ rw off low
]

pub update_ctf_team-IsPlaying :
    (n : ℕ) (uid : Str) (t : TeamAssignment) (w w' : World)
    → TeamFits t
    → update_ctf_team uid t w ≡ some w'
    → IsPlaying n w
    → IsPlaying n w'
unfolding update_ctf_team with_client
update_ctf_team-IsPlaying n uid t w w' fits e v =
    elim (Bool-cases (str_eq (uid_of uid) w.client.user_id)) [
      | inl own ↦
          guarded-IsPlaying n (is_mode_and_active capture_the_flag w.manager) _ w w'
            (λ q. edit_ctf-IsPlaying n (assign_team t) w w' (assign_team-low t fits) q v)
            (rw own at e) v
      | inr other ↦
          let (c, run, last) =
            >>=-eq-some (update_puppet_team uid t.team w.client) _ (rw other at e) in
          same-IsPlaying n (record w { client = c }) w' last
            (client-IsPlaying n w c
              (Step-KeepsMax uid w.client c (joins_team t.team w.client c run)) v)
    ]

pub update_ctf_win-IsPlaying :
    (n : ℕ) (team : FlagTeam) (w w' : World)
    → update_ctf_win team w ≡ some w'
    → IsPlaying n w
    → IsPlaying n w'
unfolding update_ctf_win
update_ctf_win-IsPlaying n team w w' e v =
    guarded-IsPlaying n (is_mode_and_active capture_the_flag w.manager) _ w w'
      (λ q.
        edit_ctf-IsPlaying n (λ i. record i { winning_team = team }) w w' (λ i m many low. low) q v)
      e v

game_state-info :
    (s : CtfGameState) (m : Manager) (i : CtfInfo)
    → m.info ≡ some (ctf_info i)
    → (m' : Manager) → game_state_step s m ≡ some m'
    → (j : CtfInfo) × ((j ≡ i) ⊎ (j ≡ ctf_info_new))
      × (m' ≡ record m { info = some (ctf_info (set_round_time s j)) })
unfolding game_state_step reset_game_info set_round_time
game_state-info s m i at_i m' e = elim (Bool-cases s.reset_game) [
  | inl turned_on ↦
      let (x, run, last) = >>=-eq-some (reset_game_info m) _ (rw turned_on at e) in
      let (o, _, run') = >>=-eq-some (object_as ctf_mode m) _ run in
      let as_x : record m { info = some (ctf_info ctf_info_new) } ≡ x =
        some_inj (sym (edit_ctf-lem (λ k. ctf_info_new) m i at_i) ∙ run') in
      (
        ctf_info_new,
        inr refl,
        sym (
            some_inj (
              sym (
                edit_ctf-lem (set_round_time s) (record m { info = some (ctf_info ctf_info_new) })
                  ctf_info_new refl)
              ∙ ap (edit_ctf (set_round_time s)) as_x
              ∙ last)),
      )
  | inr off ↦
      (i, inl refl, sym (some_inj (sym (edit_ctf-lem (set_round_time s) m i at_i) ∙ (rw off at e))))
]

pub update_ctf_game_state-IsPlaying :
    (n : ℕ) (s : CtfGameState) (w w' : World)
    → update_ctf_game_state s w ≡ some w'
    → IsPlaying n w
    → IsPlaying n w'
unfolding update_ctf_game_state with_manager set_round_time
update_ctf_game_state-IsPlaying n s w w' e v =
    guarded-IsPlaying n (is_mode_and_active capture_the_flag w.manager) _ w w' run e v
  where
    low :
        (i j : CtfInfo)
        → flag_index i.held_flag < length w.flags.team_flags
        → (j ≡ i) ⊎ (j ≡ ctf_info_new)
        → flag_index j.held_flag < length w.flags.team_flags
    low i j h (inl e) = rw (sym e) at h
    low i j h (inr e) = rw e (omega (arith, v.many))

    run : (game_state_step s w.manager >>= with_manager w) ≡ some w' → IsPlaying n w'
    run q =
        let (m, stepped, last) = >>=-eq-some (game_state_step s w.manager) _ q in
        let (i, at_i, h) = v.info in
        let (j, which, as_m) = game_state-info s w.manager i at_i m stepped in
        same-IsPlaying n _ w' (rw as_m at last) (
          manager-IsPlaying n w (some (ctf_info (set_round_time s j)))
            (set_round_time s j, refl, low i j h which) v)

pub update_ctf_flag_hold_state-IsPlaying :
    (n : ℕ) (uid : Str) (s : FlagHoldState) (w w' : World)
    → update_ctf_flag_hold_state uid s w ≡ some w'
    → IsPlaying n w
    → IsPlaying n w'
unfolding update_ctf_flag_hold_state
update_ctf_flag_hold_state-IsPlaying n uid s w w' = with_flags-IsPlaying n _ w w' (λ fs run.
    edit_flag-length (hold uid s) s.flag_team (record w.flags { latest_team = s.flag_team }) run)

drop_flag-length :
    (d : FlagDropped) (fs fs' : Flags)
    → drop_flag d fs ≡ some fs'
    → length fs'.team_flags ≡ length fs.team_flags
unfolding drop_flag
drop_flag-length d fs fs' e =
    let (stage, _, run) = >>=-eq-some (strcpy 0x40 d.stage_name) _ e in
    edit_flag-length (drop_at d) d.flag_team
      (record fs { latest_team = d.flag_team; latest_position = d.at; latest_stage = stage }) run

pub update_ctf_flag_dropped-IsPlaying :
    (n : ℕ) (d : FlagDropped) (w w' : World)
    → update_ctf_flag_dropped d w ≡ some w'
    → IsPlaying n w
    → IsPlaying n w'
unfolding update_ctf_flag_dropped drop_unless_first
update_ctf_flag_dropped-IsPlaying n d w w' e v =
    guarded-IsPlaying n (is_mode_and_active capture_the_flag w.manager) _ w w' run e v
  where
    run : (object_as ctf_mode w.manager >>= drop_unless_first d w) ≡ some w' → IsPlaying n w'
    run q =
        let (o, _, last) = >>=-eq-some (object_as ctf_mode w.manager) _ q in
        elim (Bool-cases o.is_first_frame) [
          | inl first ↦ same-IsPlaying n w w' (rw first at last) v
          | inr later ↦
              with_flags-IsPlaying n (drop_flag d w.flags) w w' (drop_flag-length d w.flags)
                (rw later at last) v
        ]

pub send_to_stage-IsPlaying :
    (n : ℕ) (m : ChangeStage) (w : World) → IsPlaying n w → IsPlaying n (send_to_stage m w)
unfolding send_to_stage
send_to_stage-IsPlaying n m w v =
    if_intro (IsPlaying n) w.has_scene
      (record { bound = v.bound; object = v.object; many = v.many; info = v.info; mode = v.mode }) v
