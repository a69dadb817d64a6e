-- ===== src/Client/Handlers/Total.antt =====
-- The handlers that change the game do not fault while capture the flag is played.
use smoo_bazel.Base.{
  ℕ, ◌≤◌, ◌<◌, ◌≡◌, refl, sym, ap, ◌∙◌, inl, inr, Bool, true, false, Option, some, arith,
  if◌then◌else◌, Bool-cases, ◌>>=◌, >>=-eq-some, if_intro, some_inj, Defined, >>=-Defined, length,
  Str, str_eq, c_str, Fits, strcpy-Fits,
}
use smoo_bazel.Packets.{uid_of, TagInf, CtfGameState, TeamAssignment, FlagHoldState, FlagDropped}
use smoo_bazel.Puppets.Info.{FlagTeam}
use smoo_bazel.Modes.{
  is_mode_and_active, object_as, ctf_info_new, capture_the_flag, CtfInfo, ctf_info, ctf_mode,
  Manager,
}
use smoo_bazel.Client.State.{loop_bound, Client, Flags, World}
use smoo_bazel.Client.Flags.{flag_index, edit_flag}
use smoo_bazel.Client.Flags.Edit.{edit_flag-Defined}
use smoo_bazel.Client.Infos.{update_puppet_tag, update_puppet_team}
use smoo_bazel.Client.Infos.Total.{update_puppet_tag-returns, update_puppet_team-returns}
use smoo_bazel.Client.Handlers.{
  with_client, with_manager, update_tag_info, edit_ctf, assign_team, update_ctf_team,
  reset_game_info, set_round_time, game_state_step, update_ctf_game_state, update_ctf_win,
  with_flags, hold, update_ctf_flag_hold_state, drop_at, drop_flag, drop_unless_first,
  update_ctf_flag_dropped,
}
use smoo_bazel.Client.Handlers.Playing.{edit_ctf-lem, ctf_object, IsPlaying}

-- The infos that the lookups read are there.
abbrev pub Reads : World → Type 0
Reads w = loop_bound w.client.max_puppets ≤ length w.client.puppet_infos

then_client-Defined : (w : World) (r : Option Client) → Defined r → Defined (r >>= with_client w)
unfolding with_client
then_client-Defined w r (c, e) = (record w { client = c }, rw e refl)

pub update_tag_info-Defined :
    (n : ℕ) (uid : Str) (t : TagInf) (w : World)
    → IsPlaying n w
    → Reads w
    → Defined (update_tag_info uid t w)
unfolding update_tag_info
update_tag_info-Defined n uid t w v reads =
    elim (Bool-cases (str_eq (uid_of uid) w.client.user_id)) [
      | inl own ↦ rw (own, v.mode) other
      | inr not_own ↦ rw not_own other
    ]
  where
    other : Defined (update_puppet_tag uid t w.client >>= with_client w)
    other =
        then_client-Defined w (update_puppet_tag uid t w.client)
          (update_puppet_tag-returns uid t w.client reads)

edit_ctf-Defined :
    (n : ℕ) (f : CtfInfo → CtfInfo) (w : World)
    → IsPlaying n w
    → Defined (edit_ctf f w.manager >>= with_manager w)
unfolding with_manager
edit_ctf-Defined n f w v =
    let (i, at_i, low) = v.info in
    >>=-Defined (edit_ctf f w.manager) (with_manager w) (_, edit_ctf-lem f w.manager i at_i)
      (λ m _. (record w { manager = m }, refl))

pub update_ctf_team-Defined :
    (n : ℕ) (uid : Str) (t : TeamAssignment) (w : World)
    → IsPlaying n w
    → Reads w
    → Defined (update_ctf_team uid t w)
unfolding update_ctf_team
update_ctf_team-Defined n uid t w v reads =
    if_intro Defined (str_eq (uid_of uid) w.client.user_id)
      (if_intro Defined (is_mode_and_active capture_the_flag w.manager)
        (edit_ctf-Defined n (assign_team t) w v) (w, refl))
      (then_client-Defined w (update_puppet_team uid t.team w.client)
        (update_puppet_team-returns uid t.team w.client reads))

pub update_ctf_win-Defined :
    (n : ℕ) (team : FlagTeam) (w : World) → IsPlaying n w → Defined (update_ctf_win team w)
unfolding update_ctf_win
update_ctf_win-Defined n team w v =
    if_intro Defined (is_mode_and_active capture_the_flag w.manager)
      (edit_ctf-Defined n (λ i. record i { winning_team = team }) w v) (w, refl)

reset-as_ctf :
    (s : CtfGameState) (m : Manager) (i : CtfInfo)
    → m.info ≡ some (ctf_info i)
    → (m' : Manager) → (if s.reset_game then reset_game_info m else some m) ≡ some m'
    → (j : CtfInfo) × (m'.info ≡ some (ctf_info j))
unfolding reset_game_info
reset-as_ctf s m i at_i m' e = go s.reset_game e
  where
    go :
        (b : Bool)
        → (if b then reset_game_info m else some m) ≡ some m'
        → (j : CtfInfo) × (m'.info ≡ some (ctf_info j))
    go true q =
        let (o, _, run) = >>=-eq-some (object_as ctf_mode m) _ q in
        (
          ctf_info_new,
          ap (λ (x : Manager). x.info)
              (some_inj (sym run ∙ edit_ctf-lem (λ k. ctf_info_new) m i at_i)),
        )
    go false q = (i, ap (λ (x : Manager). x.info) (sym (some_inj q)) ∙ at_i)

game_state_step-Defined :
    (n : ℕ) (s : CtfGameState) (w : World) → IsPlaying n w → Defined (game_state_step s w.manager)
unfolding game_state_step reset_game_info
game_state_step-Defined n s w v =
    let (i, at_i, low) = v.info in
    let (o, at_o, kind) = v.object in
    >>=-Defined (if s.reset_game then reset_game_info w.manager else some w.manager)
      (edit_ctf (set_round_time s))
      (if_intro Defined s.reset_game
        (>>=-Defined (object_as ctf_mode w.manager) (λ _. edit_ctf (λ k. ctf_info_new) w.manager)
          (o, ctf_object w.manager o at_o kind)
          (λ _ _. (_, edit_ctf-lem (λ k. ctf_info_new) w.manager i at_i)))
        (w.manager, refl))
      (λ m e.
        let (j, at_j) = reset-as_ctf s w.manager i at_i m e in
        (_, edit_ctf-lem (set_round_time s) m j at_j))

pub update_ctf_game_state-Defined :
    (n : ℕ) (s : CtfGameState) (w : World) → IsPlaying n w → Defined (update_ctf_game_state s w)
unfolding update_ctf_game_state with_manager
update_ctf_game_state-Defined n s w v =
    if_intro Defined (is_mode_and_active capture_the_flag w.manager)
      (>>=-Defined (game_state_step s w.manager) (with_manager w) (game_state_step-Defined n s w v)
        (λ m _. (record w { manager = m }, refl)))
      (w, refl)

pub update_ctf_flag_hold_state-Defined :
    (n : ℕ) (uid : Str) (s : FlagHoldState) (w : World)
    → IsPlaying n w
    → flag_index s.flag_team < 3
    → Defined (update_ctf_flag_hold_state uid s w)
unfolding update_ctf_flag_hold_state with_flags
update_ctf_flag_hold_state-Defined n uid s w v low =
    >>=-Defined (edit_flag (hold uid s) s.flag_team (record w.flags { latest_team = s.flag_team }))
      (with_flags w)
      (edit_flag-Defined (hold uid s) s.flag_team (record w.flags { latest_team = s.flag_team })
        (omega (arith, v.many)))
      (λ fs _. (record w { flags = fs }, refl))

drop_flag-Defined :
    (d : FlagDropped) (fs : Flags)
    → flag_index d.flag_team < length fs.team_flags
    → Fits 0x40 d.stage_name
    → Defined (drop_flag d fs)
unfolding drop_flag
drop_flag-Defined d fs low fits = rw (strcpy-Fits 0x40 d.stage_name fits) (
    edit_flag-Defined (drop_at d) d.flag_team
      (record fs {
        latest_team = d.flag_team;
        latest_position = d.at;
        latest_stage = c_str d.stage_name;
      })
      low)

pub update_ctf_flag_dropped-Defined :
    (n : ℕ) (d : FlagDropped) (w : World)
    → IsPlaying n w
    → flag_index d.flag_team < 3
    → Fits 0x40 d.stage_name
    → Defined (update_ctf_flag_dropped d w)
unfolding update_ctf_flag_dropped drop_unless_first with_flags
update_ctf_flag_dropped-Defined n d w v low fits =
    let (o, at_o, kind) = v.object in
    if_intro Defined (is_mode_and_active capture_the_flag w.manager)
      (>>=-Defined (object_as ctf_mode w.manager) (drop_unless_first d w)
        (o, ctf_object w.manager o at_o kind)
        (λ o' _.
          if_intro Defined o'.is_first_frame (w, refl)
            (>>=-Defined (drop_flag d w.flags) (with_flags w)
              (drop_flag-Defined d w.flags (omega (arith, v.many)) fits)
              (λ fs _. (record w { flags = fs }, refl)))))
      (w, refl)
