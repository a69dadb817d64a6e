-- ===== src/Ctf/Place/Side.antt =====
-- The side of a player in a sub-area.
use smoo_bazel.Base.{◌≡◌, ap, true, some, Vec3}
use smoo_bazel.Stages.{is_sub_area, replace_position, Coordinates}
use smoo_bazel.Stages.Lookup.{sub_area-border, sub_area-entrance}
use smoo_bazel.Game.{Player, Game}
use smoo_bazel.Ctf.State.{Round, Frame}
use smoo_bazel.Ctf.Place.{local_player, side_of, side_in_stage, get_team_side}

-- Wherever a player is in a sub-area, the side is that of the sub-area's entrance, which the border
-- of the cascade stage decides.
pub get_team_side-sub_area :
    (c : Coordinates) (g : Game) (f : Frame)
    → is_sub_area c f.stage ≡ true
    → (entrance : Vec3) × ((p : Vec3) → replace_position c p f.stage ≡ entrance)
      × ((r : Round) (p : Player)
          → local_player c g f r ≡ some p
          → get_team_side c g f r ≡ side_of c g f entrance c.border)
unfolding get_team_side side_in_stage
get_team_side-sub_area c g f h =
    let (entrance, at) = sub_area-entrance c f.stage h in
    let (_, parent, none_own, border) = sub_area-border c f.stage h in
    (
      entrance,
      at,
      λ r p here.
          rw (get_team_side, here, side_in_stage, none_own, parent, border)
            (ap (λ v. side_of c g f v c.border) (at p.trans)),
    )
