-- ===== src/Ctf/Place/Safe.antt =====
-- Where the placing of the border and of the flags does not fault.
use mathlib.Core.Option
use smoo_bazel.Base.{
  ℕ, ◌≤◌, ◌<◌, refl, sym, ◌∙◌, subst, false, not, ◌&&◌, Option, none, some, arith, if◌then◌else◌,
  ◌>>=◌, if_intro, some_inj, Defined, >>=-Defined, length, get_elem?, get_elem?-some, Str, str_eq,
  Vec3, Quat,
}
use smoo_bazel.Puppets.Info.{FlagTeam, red, blue}
use smoo_bazel.Stages.{get_border_transform, Coordinates}
use smoo_bazel.Client.State.{loop_bound}
use smoo_bazel.Client.Find.{find_puppet_info}
use smoo_bazel.Client.Find.Spec.{find_puppet_info-Finds, Finds}
use smoo_bazel.Client.Infos.Total.{Finds-inside}
use smoo_bazel.Client.Flags.{
  flag_index, get_flag_actor_for_team, make_flag_alive, set_transform, get_held_player, edit_flag,
}
use smoo_bazel.Client.Flags.Edit.{edit_flag-Defined}
use smoo_bazel.Game.{Player, Game}
use smoo_bazel.Ctf.State.{move_flag, BorderActor, Round, Frame}
use smoo_bazel.Ctf.Place.{
  local_player, place_border, border_step, update_border, transform_of_info, get_player_transform,
  move_to, follow_holder, update_flag, update_flags,
}
use smoo_bazel.Ctf.Place.Changes.{update_flag-MovesFlags, MovesFlags}

pub move_flag-Defined :
    (v : Vec3) (q : Quat) (team : FlagTeam) (r : Round)
    → flag_index team < length r.flags.team_flags
    → Defined (move_flag v q team r)
unfolding move_flag
move_flag-Defined v q team r h =
    >>=-Defined (edit_flag (λ a. set_transform v q (make_flag_alive a)) team r.flags) _
      (edit_flag-Defined (λ a. set_transform v q (make_flag_alive a)) team r.flags h)
      (λ fs _. (record r { flags = fs }, refl))

module _ (c : Coordinates) (g : Game) (f : Frame) where
  pub update_border-Defined : (r : Round) → Defined r.border → Defined (update_border c g f r)
  unfolding update_border border_step
  update_border-Defined r d = go r.border d
    where
      go : (b : Option BorderActor) → Defined b → Defined (border_step c g f r b)
      go none (b, h) = cc
      go (some b) d = (place_border c g f b r (get_border_transform c f.stage), refl)

  get_player_transform-Defined :
      (id : Str) (r : Round)
      → loop_bound r.client.max_puppets ≤ length r.client.puppet_infos
      → Defined (get_player_transform c g f id r)
  unfolding get_player_transform transform_of_info
  get_player_transform-Defined id r h =
      if_intro Defined (str_eq id r.client.user_id)
        (
          if f.has_scene && f.mode_active && not r.object.is_first_frame
              then Option.map (λ (p : Player). (p.trans, p.calc_rot)) f.player
              else none,
          refl,
        )
        (let (k, e, finds) = find_puppet_info-Finds id false r.client h in
          >>=-Defined (find_puppet_info id false r.client) (transform_of_info c g f r) (k, e)
            (λ k' e'. go k' (subst (Finds id false r.client) (some_inj (sym e ∙ e')) finds)))
    where
      go : (k : Option ℕ) → Finds id false r.client k → Defined (transform_of_info c g f r k)
      go none finds = (none, refl)
      go (some k) finds =
          let (x, at_k) = Finds-inside id false r.client (some k) k finds refl in
          (if x.is_in_same_stage then some (x.player_pos, x.player_rot) else none, rw at_k refl)

  update_flag-Defined :
      (team : FlagTeam) (r : Round)
      → loop_bound r.client.max_puppets ≤ length r.client.puppet_infos
      → flag_index team < length r.flags.team_flags
      → Defined (update_flag c g f team r)
  unfolding update_flag follow_holder move_to get_flag_actor_for_team
  update_flag-Defined team r h in_flags =
      >>=-Defined (get_elem? r.flags.team_flags (flag_index team)) _
        (get_elem?-some r.flags.team_flags (flag_index team) in_flags)
        (λ looked _. follow (looked >>= get_held_player))
    where
      moved : (t : Option (Vec3 × Quat)) → Defined (move_to c g f team r t)
      moved none = (r, refl)
      moved (some (v, q)) = move_flag-Defined v q team r in_flags

      follow : (id : Option Str) → Defined (follow_holder c g f team r id)
      follow none = (r, refl)
      follow (some id) =
          >>=-Defined (get_player_transform c g f id r) (move_to c g f team r)
            (get_player_transform-Defined id r h) (λ t _. moved t)

  pub update_flags-Defined :
      (r : Round)
      → loop_bound r.client.max_puppets ≤ length r.client.puppet_infos
      → 3 ≤ length r.flags.team_flags
      → Defined (update_flags c g f r)
  unfolding update_flags
  update_flags-Defined r h many = go (local_player c g f r)
    where
      blue_too : (r1 : Round) → MovesFlags r r1 → Defined (update_flag c g f blue r1)
      blue_too r1 m =
          subst (λ x. Defined (update_flag c g f blue x)) (sym m.as_moved)
            (update_flag-Defined blue (record r { flags = m.moved }) h (omega (arith, m.as_many)))

      go :
          (p : Option Player)
          → Defined (elim p [
            | none ↦ some r
            | some _ ↦ update_flag c g f red r >>= update_flag c g f blue
          ])
      go none = (r, refl)
      go (some _) =
          >>=-Defined (update_flag c g f red r) (update_flag c g f blue)
            (update_flag-Defined red r h (omega arith))
            (λ r1 e. blue_too r1 (update_flag-MovesFlags c g f red r e))
