-- ===== src/Game.antt =====
-- What the frames of the two game modes, mod/src/server/hns/HideAndSeekMode.cpp and
-- mod/src/server/capturetheflag/CaptureTheFlagMode.cpp, ask of the game and read from it.
use smoo_bazel.Base.{Bool, ◌&&◌, List, ◌∷◌, bool_eq, Float, FloatOps, Vec3, Quat}
use smoo_bazel.Puppets.Info.{FlagTeam, PuppetInfo}

-- `PlayerActorBase`, as the modes read it.
pub record Player : Type 0 where
  -- Is `getPlayerInfo()` not null? It is null on the bowl racer.
  pub has_info : Bool
  pub trans : Vec3
  -- `al::getQuat` and `al::calcQuat`
  pub rot : Quat
  pub calc_rot : Quat
  pub is_2d : Bool

-- The calls that change the game.
pub data Call : Type 0 where
  start_camera end_camera : Call
  kill_player : Call
  start_demo_puppetable set_velocity_zero face_to_camera : Call
  end_sub_anim start_anim_dead : Call
  show_hiding show_seeking : Call
  show_team : FlagTeam → Call
  set_gravity set_cap_gravity : Vec3 → Call
  set_clipping_obb : Vec3 → Vec3 → Call

-- What the game and its engine compute: a parameter, since they are not code of the repository.
pub record Game : Type 0 where
  pub fl : FloatOps
  -- `al::calcDistance`
  pub distance : Vec3 → Vec3 → Float
  -- The operations of `sead::Vector3f`
  pub vec_sub : Vec3 → Vec3 → Vec3
  pub normalize : Vec3 → Vec3
  pub dot : Vec3 → Vec3 → Float
  pub vec_neg : Vec3 → Vec3
  -- `al::normalize`
  pub al_normalize : Vec3 → Vec3
  -- `PlayerFunction::isPlayerDeadStatus`, after the calls of the frame.
  pub is_dead : List Call → Bool

-- `200.f`, the distance of a tag and of a pick-up, and the 5 seconds of `mInvulnTime`.
abbrev pub tag_distance : Float
tag_distance = 0x43480000

abbrev pub invuln_seconds : Float
invuln_seconds = 0x40a00000

-- The calls that both modes make when the player was tagged, the last one first.
abbrev pub die : List Call → List Call
die calls =
    start_anim_dead ∷ end_sub_anim ∷ face_to_camera ∷ set_velocity_zero ∷ start_demo_puppetable
    ∷ kill_player ∷ calls

-- `killMainPlayer` of mod/src/helpers.cpp, likewise.
abbrev pub kill_main_player : List Call → List Call
kill_main_player calls =
    start_anim_dead ∷ end_sub_anim ∷ set_velocity_zero ∷ start_demo_puppetable ∷ kill_player ∷ calls

-- Is the player of the info within reach, in the same dimension?
abbrev pub in_reach : Game → Player → PuppetInfo → Bool
in_reach g p x = g.fl.lt (g.distance p.trans x.player_pos) tag_distance && bool_eq p.is_2d x.is_2d
