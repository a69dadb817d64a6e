-- ===== src/Ctf/Play.antt =====
-- The frame of capture the flag: tags, pick-ups, the held flag and the win, from
-- CaptureTheFlagMode.cpp.
pub mod Tagged
pub mod Held
pub mod Win
pub mod Ends
pub mod Turn
pub mod SafeSteps
pub mod Safe
pub mod Frames
use smoo_bazel.Base.{
  ℕ, zero, suc, Bool, true, false, not, ◌&&◌, ◌||◌, Option, none, some, List, [], ◌∷◌,
  if◌then◌else◌, ◌>>=◌, f_zero,
}
use smoo_bazel.Puppets.Info.{team_eq, FlagTeam, invalid, PuppetInfo}
use smoo_bazel.Stages.{Coordinates}
use smoo_bazel.Socket.{send_flag_hold_state_packet, send_ctf_win_packet}
use smoo_bazel.Client.Flags.{get_flag_actor_for_team, is_flag_held}
use smoo_bazel.Game.{tag_distance, die, in_reach, Player, start_camera, show_team, Game}
use smoo_bazel.Ctf.State.{
  call, holds_opposing, drop_held_flag, respawn_held_flag, move_flag, all_teams, Round, Frame,
}
use smoo_bazel.Ctf.Place.{
  local_player, is_invulnerable, get_team_side, is_on_self_side, update_border, update_flags,
}

module _ (c : Coordinates) (g : Game) (f : Frame) where
  -- `queueHomeTeleport`
  pub queue_home_teleport : Round → Round
  queue_home_teleport r = elim (local_player c g f r) [
    | none ↦ r
    | some _ ↦ record r { calls = die r.calls }
  ]

  -- `processPlayerTagged`
  pub process_player_tagged : Round → Round
  process_player_tagged r =
      if holds_opposing r.info
      then r
      else queue_home_teleport (if holds_opposing r.info then respawn_held_flag r else r)

  -- May the player of the info tag a player of the team?
  pub can_tag : FlagTeam → PuppetInfo → Bool
  can_tag own x =
      x.is_connected
      && x.is_in_same_stage
      && not (team_eq x.ctf_team own || team_eq x.ctf_team invalid)

  pub tag_by : PuppetInfo → Round → Option Round
  tag_by x r = elim (local_player c g f r) [
    | none ↦ none
    | some p ↦
        some (if in_reach g p x && not (g.is_dead r.calls) then process_player_tagged r else r)
  ]

  -- The loop of `checkTagged`, with `n` rounds left; `none` where it leaves the array.
  pub tag_from : ℕ → List PuppetInfo → Round → Option Round
  tag_from zero infos r = some r
  tag_from (suc n) [] r = none
  tag_from (suc n) (x ∷ xs) r =
      (if can_tag r.info.player_team x then tag_by x r else some r) >>= tag_from n xs

  -- `checkTagged`
  pub check_tagged : Round → Option Round
  check_tagged r =
      if is_invulnerable c g f r
      then some (record r { invuln_time = g.fl.add r.invuln_time f.delta })
      else if is_on_self_side c g f r
      then some r
      else tag_from f.holder_size r.client.puppet_infos r

  -- Does the loop of `checkPickUpOrDropFlag` take the flag of the team?
  pub picks_up : Player → FlagTeam → Round → Option Bool
  picks_up p team r =
      if team_eq team invalid || team_eq team r.info.player_team
      then some false
      else get_flag_actor_for_team team r.flags >>= λ found. some (elim found [
        | none ↦ false
        | some a ↦ not (is_flag_held a) && g.fl.lt (g.distance a.trans p.trans) tag_distance
      ])

  pub pick_up_from : Player → List FlagTeam → Round → Option Round
  pick_up_from p [] r = some r
  pick_up_from p (team ∷ teams) r = picks_up p team r >>= λ b.
      if b
      then some (record r { info = record r.info { held_flag = team } })
      else pick_up_from p teams r

  -- `checkPickUpOrDropFlag`
  pub check_pick_up_or_drop_flag : Player → Round → Option Round
  check_pick_up_or_drop_flag p r =
      if not (f.hold_zl && f.trigger_zr)
      then some r
      else if not (team_eq r.info.held_flag invalid)
      then some (
          if team_eq r.info.held_flag r.info.player_team && not (is_on_self_side c g f r)
          then r
          else drop_held_flag r)
      else pick_up_from p all_teams r

  -- `sendFlagHoldStateUpdateIfHeld`
  pub send_flag_hold_state_if_held : Player → Round → Option Round
  send_flag_hold_state_if_held p r =
      if team_eq r.info.held_flag invalid
      then some r
      else move_flag p.trans p.rot r.info.held_flag (record r {
        outbox =
            send_flag_hold_state_packet (record { is_held = true; flag_team = r.info.held_flag })
              r.outbox;
      })

  -- `checkWin`
  pub check_win : Round → Round
  check_win r =
      if not (team_eq r.info.winning_team invalid)
      then r
      else if team_eq (get_team_side c g f r) invalid
      then r
      else if team_eq (get_team_side c g f r) r.info.player_team && holds_opposing r.info
      then record r { outbox = send_ctf_win_packet r.info.player_team r.outbox }
      else r

  -- `update`, from the first frame's part on
  pub enter : Round → Round
  enter r =
      if r.object.is_first_frame
      then record r {
        object = record r.object { is_first_frame = false };
        calls =
            if r.info.is_use_gravity_cam && f.has_ticket then start_camera ∷ r.calls else r.calls;
      }
      else r

  -- The rest of `update`
  pub play : Round → Option Round
  play r = elim (local_player c g f r) [
    | none ↦ some r
    | some p ↦ do
      r1 ← update_border c g f r
      r2 ← update_flags c g f r1
      r3 ← check_tagged r2
      r4 ← check_pick_up_or_drop_flag p r3
      r5 ← send_flag_hold_state_if_held p r4
      some (check_win r5)
  ]

  -- `update`
  pub update_ctf : Round → Option Round
  update_ctf r0 =
      let r = call (show_team r0.info.player_team) r0 in
      if g.fl.lt f_zero r.teleport_timer
      then some (record r { teleport_timer = g.fl.sub r.teleport_timer f.delta })
      else play (enter r)
