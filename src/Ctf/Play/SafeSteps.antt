-- ===== src/Ctf/Play/SafeSteps.antt =====
-- Where the steps of a frame of capture the flag do not fault.
use smoo_bazel.Base.{
  ℕ, zero, suc, ◌≤◌, ◌<◌, refl, sym, subst, true, false, not, ◌&&◌, ◌||◌, Option, none, some, List,
  [], ◌∷◌, arith, if◌then◌else◌, if_intro, Defined, >>=-Defined, length, get_elem?, All,
  get_elem?-some,
}
use smoo_bazel.Puppets.Info.{team_eq, FlagTeam, invalid, PuppetInfo}
use smoo_bazel.Stages.{Coordinates}
use smoo_bazel.Socket.{send_flag_hold_state_packet}
use smoo_bazel.Client.State.{loop_bound}
use smoo_bazel.Client.Flags.{flag_index, get_flag_actor_for_team, is_flag_held}
use smoo_bazel.Game.{tag_distance, in_reach, Player, Game}
use smoo_bazel.Ctf.State.{drop_held_flag, all_teams, Round, Frame}
use smoo_bazel.Ctf.Place.{local_player, is_invulnerable, is_on_self_side}
use smoo_bazel.Ctf.Play.{
  process_player_tagged, can_tag, tag_by, tag_from, check_tagged, picks_up, pick_up_from,
  check_pick_up_or_drop_flag, send_flag_hold_state_if_held,
}
use smoo_bazel.Ctf.Play.Tagged.{tag_or_skip-MakesCalls}
use smoo_bazel.Ctf.Place.Safe.{move_flag-Defined}

-- What a frame relies on: the infos of the players and of the puppets, the border, an entry for each
-- team's flag and for the held one.
pub record IsReady (r : Round) : Type 0 where
  pub infos : loop_bound r.client.max_puppets ≤ length r.client.puppet_infos
  pub border : Defined r.border
  pub many : 3 ≤ length r.flags.team_flags
  pub held : flag_index r.info.held_flag < length r.flags.team_flags

module _ (c : Coordinates) (g : Game) (f : Frame) where
  tag_by-Defined :
      (x : PuppetInfo) (r : Round) → Defined (local_player c g f r) → Defined (tag_by c g f x r)
  unfolding tag_by
  tag_by-Defined x r d = go (local_player c g f r) d
    where
      go :
          (p : Option Player)
          → Defined p
          → Defined (elim p [
            | none ↦ none
            | some p ↦ some (
                if in_reach g p x && not (g.is_dead r.calls)
                then process_player_tagged c g f r
                else r)
          ])
      go none (p, h) = cc
      go (some p) d = (
        if in_reach g p x && not (g.is_dead r.calls) then process_player_tagged c g f r else r,
        refl,
      )

  tag_from-Defined :
      (n : ℕ) (infos : List PuppetInfo) (r : Round)
      → n ≤ length infos
      → Defined (local_player c g f r)
      → Defined (tag_from c g f n infos r)
  unfolding tag_from local_player
  tag_from-Defined zero infos r h d = (r, refl)
  tag_from-Defined (suc n) [] r h d = elim h [ ]
  tag_from-Defined (suc n) (x ∷ xs) r h d =
      >>=-Defined (if can_tag c g f r.info.player_team x then tag_by c g f x r else some r)
        (tag_from c g f n xs)
        (if_intro Defined (can_tag c g f r.info.player_team x) (tag_by-Defined x r d) (r, refl))
        (λ r1 e. tag_from-Defined n xs r1 (omega arith) (
          subst (λ y. Defined (local_player c g f y))
            (sym (tag_or_skip-MakesCalls c g f x r e).as_made) d))

  pub check_tagged-Defined :
      (r : Round)
      → f.holder_size ≤ length r.client.puppet_infos
      → Defined (local_player c g f r)
      → Defined (check_tagged c g f r)
  unfolding check_tagged
  check_tagged-Defined r h d =
      if_intro Defined (is_invulnerable c g f r)
        (record r { invuln_time = g.fl.add r.invuln_time f.delta }, refl)
        (if_intro Defined (is_on_self_side c g f r) (r, refl)
          (tag_from-Defined f.holder_size r.client.puppet_infos r h d))

  picks_up-Defined :
      (p : Player) (team : FlagTeam) (r : Round)
      → flag_index team < length r.flags.team_flags
      → Defined (picks_up c g f p team r)
  unfolding picks_up get_flag_actor_for_team
  picks_up-Defined p team r h =
      if_intro Defined (team_eq team invalid || team_eq team r.info.player_team) (false, refl)
        (>>=-Defined (get_elem? r.flags.team_flags (flag_index team)) _
          (get_elem?-some r.flags.team_flags (flag_index team) h)
          (λ found _. (
            elim found [
              | none ↦ false
              | some a ↦ not (is_flag_held a) && g.fl.lt (g.distance a.trans p.trans) tag_distance
            ],
            refl,
          )))

  pick_up_from-Defined :
      (p : Player) (teams : List FlagTeam) (r : Round)
      → All (λ team. flag_index team < length r.flags.team_flags) teams
      → Defined (pick_up_from c g f p teams r)
  unfolding pick_up_from
  pick_up_from-Defined p [] r v = (r, refl)
  pick_up_from-Defined p (team ∷ teams) r v =
      >>=-Defined (picks_up c g f p team r) _ (picks_up-Defined p team r v.0) (λ b _.
        if_intro Defined b (record r { info = record r.info { held_flag = team } }, refl)
          (pick_up_from-Defined p teams r v.1))

  pub check_pick_up_or_drop_flag-Defined :
      (p : Player) (r : Round)
      → 3 ≤ length r.flags.team_flags
      → Defined (check_pick_up_or_drop_flag c g f p r)
  unfolding check_pick_up_or_drop_flag all_teams
  check_pick_up_or_drop_flag-Defined p r many =
      if_intro Defined (not (f.hold_zl && f.trigger_zr)) (r, refl)
        (if_intro Defined (not (team_eq r.info.held_flag invalid))
          (
            if team_eq r.info.held_flag r.info.player_team && not (is_on_self_side c g f r)
                then r
                else drop_held_flag r,
            refl,
          )
          (pick_up_from-Defined p all_teams r (omega arith, (omega arith, (omega arith, tt)))))

  pub send_flag_hold_state_if_held-Defined :
      (p : Player) (r : Round)
      → flag_index r.info.held_flag < length r.flags.team_flags
      → Defined (send_flag_hold_state_if_held c g f p r)
  unfolding send_flag_hold_state_if_held
  send_flag_hold_state_if_held-Defined p r h =
      if_intro Defined (team_eq r.info.held_flag invalid) (r, refl)
        (move_flag-Defined p.trans p.rot r.info.held_flag
          (record r {
            outbox =
                send_flag_hold_state_packet
                  (record { is_held = true; flag_team = r.info.held_flag }) r.outbox;
          })
          h)
