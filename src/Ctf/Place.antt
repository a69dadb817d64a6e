-- ===== src/Ctf/Place.antt =====
-- Where things are in capture the flag: the side of the player, the border and the flags, from
-- CaptureTheFlagMode.cpp and `getPlayerTransformInSameStage` of mod/src/server/Client.cpp.
pub mod Changes
pub mod Safe
pub mod Side
pub mod Follow
use mathlib.Core.Option
use smoo_bazel.Base.{
  ℕ, Bool, false, not, ◌&&◌, Option, none, some, if◌then◌else◌, ◌>>=◌, get_elem?, Str, str_eq,
  f_zero, quat_zero, Vec3, Quat,
}
use smoo_bazel.Puppets.Info.{team_eq, FlagTeam, invalid, red, blue}
use smoo_bazel.Stages.{get_border_transform, get_parent_stage_name, replace_position, Coordinates}
use smoo_bazel.Client.Find.{find_puppet_info}
use smoo_bazel.Client.Flags.{get_flag_actor_for_team, get_held_player}
use smoo_bazel.Game.{invuln_seconds, Player, set_clipping_obb, Game}
use smoo_bazel.Ctf.State.{
  call, make_border_alive, make_border_dead, set_border_transform, border_scale, far_corner,
  near_corner, border_normal, move_flag, BorderActor, Round, Frame,
}

module _ (c : Coordinates) (g : Game) (f : Frame) where
  -- `getLocalPlayer`
  unfoldable pub local_player : Round → Option Player
  local_player r =
      if r.object.is_first_frame
      then none
      else f.player >>= λ p. if p.has_info then some p else none

  -- `isInvulnerable`
  unfoldable pub is_invulnerable : Round → Bool
  is_invulnerable r = g.fl.le invuln_seconds r.invuln_time

  -- `getTeamSide` of a place and a border
  pub side_of : Vec3 → Vec3 → FlagTeam
  side_of p border =
      if g.fl.lt f_zero (g.dot border_normal (g.normalize (g.vec_sub p border))) then red else blue

  -- `getTeamSide` once the place is known
  side_in_stage : Vec3 → FlagTeam
  side_in_stage p = elim (get_border_transform c f.stage) [
    | some border ↦ side_of p border
    | none ↦ elim (get_parent_stage_name c f.stage) [
      | none ↦ invalid
      | some parent ↦
          elim (get_border_transform c
            (record { stage_name = parent; scenario_num = f.stage.scenario_num })) [
              | none ↦ invalid
              | some border ↦ side_of p border
            ]
    ]
  ]

  -- `getTeamSide`
  pub get_team_side : Round → FlagTeam
  get_team_side r = elim (local_player r) [
    | none ↦ invalid
    | some p ↦ side_in_stage (replace_position c p.trans f.stage)
  ]

  -- `isPlayerOnSelfTeamSide`
  unfoldable pub is_on_self_side : Round → Bool
  is_on_self_side r = team_eq (get_team_side r) r.info.player_team

  place_border : BorderActor → Round → Option Vec3 → Round
  place_border b r none = record r { border = some (if not b.dead then make_border_dead b else b) }
  place_border b r (some at) = call (set_clipping_obb near_corner far_corner) (record r {
    border = some (
        set_border_transform at quat_zero
          (record (if b.dead then make_border_alive b else b) { scale = border_scale }));
  })

  border_step : Round → Option BorderActor → Option Round
  border_step r none = none
  border_step r (some b) = some (place_border b r (get_border_transform c f.stage))

  -- `updateBorderPosition`
  pub update_border : Round → Option Round
  update_border r = border_step r r.border

  -- The place of a player who is an entry of the infos
  transform_of_info : Round → Option ℕ → Option (Option (Vec3 × Quat))
  transform_of_info r none = some none
  transform_of_info r (some k) = do
    x ← get_elem? r.client.puppet_infos k
    some (if x.is_in_same_stage then some (x.player_pos, x.player_rot) else none)

  -- `getPlayerTransformInSameStage`
  pub get_player_transform : Str → Round → Option (Option (Vec3 × Quat))
  get_player_transform id r =
      if str_eq id r.client.user_id
      then some (
          if f.has_scene && f.mode_active && not r.object.is_first_frame
          then Option.map (λ (p : Player). (p.trans, p.calc_rot)) f.player
          else none)
      else find_puppet_info id false r.client >>= transform_of_info r

  move_to : FlagTeam → Round → Option (Vec3 × Quat) → Option Round
  move_to team r none = some r
  move_to team r (some (v, q)) = move_flag v q team r

  follow_holder : FlagTeam → Round → Option Str → Option Round
  follow_holder team r none = some r
  follow_holder team r (some id) = get_player_transform id r >>= move_to team r

  -- The lambda `updateFlag`
  pub update_flag : FlagTeam → Round → Option Round
  update_flag team r = get_flag_actor_for_team team r.flags >>= λ found.
      follow_holder team r (found >>= get_held_player)

  -- `updateFlags`
  pub update_flags : Round → Option Round
  update_flags r = elim (local_player r) [
    | none ↦ some r
    | some _ ↦ update_flag red r >>= update_flag blue
  ]
