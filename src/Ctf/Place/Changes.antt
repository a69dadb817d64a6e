-- ===== src/Ctf/Place/Changes.antt =====
-- What the placing of the border and of the flags changes in a round.
use smoo_bazel.Base.{
  ◌≡◌, refl, sym, ap, ◌∙◌, subst, not, Option, none, some, List, ◌∷◌, if◌then◌else◌, ◌>>=◌,
  >>=-eq-some, some_inj, length, Str, quat_zero, Vec3, Quat,
}
use smoo_bazel.Puppets.Info.{FlagTeam, red, blue}
use smoo_bazel.Stages.{get_border_transform, Coordinates}
use smoo_bazel.Client.State.{Flags}
use smoo_bazel.Client.Flags.{
  get_flag_actor_for_team, make_flag_alive, set_transform, get_held_player, edit_flag,
}
use smoo_bazel.Client.Flags.Edit.{edit_flag-length}
use smoo_bazel.Game.{Player, Call, set_clipping_obb, Game}
use smoo_bazel.Ctf.State.{
  call, make_border_alive, make_border_dead, set_border_transform, border_scale, far_corner,
  near_corner, move_flag, BorderActor, Round, Frame,
}
use smoo_bazel.Ctf.Place.{
  local_player, place_border, border_step, update_border, get_player_transform, move_to,
  follow_holder, update_flag, update_flags,
}

-- A round whose flags alone changed, with as many of them.
pub record MovesFlags (r r' : Round) : Type 0 where
  pub moved : Flags
  pub as_moved : r' ≡ record r { flags = moved }
  pub as_many : length moved.team_flags ≡ length r.flags.team_flags

pub MovesFlags-refl : (r : Round) → MovesFlags r r
MovesFlags-refl r = record { moved = r.flags; as_moved = refl; as_many = refl }

MovesFlags-trans : {r r' r'' : Round} → MovesFlags r r' → MovesFlags r' r'' → MovesFlags r r''
MovesFlags-trans {r} {r''} m n = record {
  moved = n.moved;
  as_moved = n.as_moved ∙ ap (λ (x : Round). record x { flags = n.moved }) m.as_moved;
  as_many = n.as_many ∙ ap (λ (x : Round). length x.flags.team_flags) m.as_moved ∙ m.as_many;
}

pub move_flag-MovesFlags :
    (v : Vec3) (q : Quat) (team : FlagTeam) (r : Round) {r' : Round}
    → move_flag v q team r ≡ some r'
    → MovesFlags r r'
unfolding move_flag
move_flag-MovesFlags v q team r h =
    let (fs, e, e') =
      >>=-eq-some (edit_flag (λ a. set_transform v q (make_flag_alive a)) team r.flags)
        (λ fs. some (record r { flags = fs })) h in
    record {
      moved = fs;
      as_moved = sym (some_inj e');
      as_many = edit_flag-length (λ a. set_transform v q (make_flag_alive a)) team r.flags e;
    }

module _ (c : Coordinates) (g : Game) (f : Frame) where
  place_border-lem :
      (b : BorderActor) (r : Round) (at : Option Vec3)
      → (b' : BorderActor) × (cs : List Call) × (place_border c g f b r at
          ≡ record r { border = some b'; calls = cs })
  unfolding place_border call
  place_border-lem b r none = (if not b.dead then make_border_dead b else b, r.calls, refl)
  place_border-lem b r (some at) = (
    set_border_transform at quat_zero
        (record (if b.dead then make_border_alive b else b) { scale = border_scale }),
    set_clipping_obb near_corner far_corner ∷ r.calls,
    refl,
  )

  -- The border is there afterwards too.
  pub update_border-lem :
      (r : Round) {r' : Round}
      → update_border c g f r ≡ some r'
      → (b : BorderActor) × (cs : List Call) × (r' ≡ record r { border = some b; calls = cs })
  unfolding update_border border_step
  update_border-lem r h = go r.border h
    where
      go :
          (b : Option BorderActor) {r' : Round}
          → border_step c g f r b ≡ some r'
          → (b' : BorderActor) × (cs : List Call) × (r' ≡ record r { border = some b'; calls = cs })
      go none h = cc
      go (some b) h =
          let (b', cs, e) = place_border-lem b r (get_border_transform c f.stage) in
          (b', cs, sym (some_inj h) ∙ e)

  pub update_flag-MovesFlags :
      (team : FlagTeam) (r : Round) {r' : Round}
      → update_flag c g f team r ≡ some r'
      → MovesFlags r r'
  unfolding update_flag follow_holder move_to
  update_flag-MovesFlags team r h =
      let (found, _, h') =
        >>=-eq-some (get_flag_actor_for_team team r.flags)
          (λ found. follow_holder c g f team r (found >>= get_held_player)) h in
      follow (found >>= get_held_player) h'
    where
      moved :
          (t : Option (Vec3 × Quat)) {r' : Round}
          → move_to c g f team r t ≡ some r'
          → MovesFlags r r'
      moved none h = subst (MovesFlags r) (some_inj h) (MovesFlags-refl r)
      moved (some (v, q)) h = move_flag-MovesFlags v q team r h

      follow :
          (id : Option Str) {r' : Round} → follow_holder c g f team r id ≡ some r' → MovesFlags r r'
      follow none h = subst (MovesFlags r) (some_inj h) (MovesFlags-refl r)
      follow (some id) h =
          let (t, _, h') = >>=-eq-some (get_player_transform c g f id r) (move_to c g f team r) h in
          moved t h'

  pub update_flags-MovesFlags :
      (r : Round) {r' : Round} → update_flags c g f r ≡ some r' → MovesFlags r r'
  unfolding update_flags
  update_flags-MovesFlags r = go (local_player c g f r)
    where
      go :
          (p : Option Player) {r' : Round}
          → elim p [ none ↦ some r | some _ ↦ update_flag c g f red r >>= update_flag c g f blue ]
            ≡ some r'
          → MovesFlags r r'
      go none h = subst (MovesFlags r) (some_inj h) (MovesFlags-refl r)
      go (some _) h =
          let (r1, e, h') = >>=-eq-some (update_flag c g f red r) (update_flag c g f blue) h in
          MovesFlags-trans (update_flag-MovesFlags red r e) (update_flag-MovesFlags blue r1 h')
