-- ===== src/Ctf/State.antt =====
-- The state of capture the flag, mod/src/server/capturetheflag/CaptureTheFlagMode.cpp: what a frame
-- reads and writes, the border of mod/src/actors/BorderActor.cpp, and the operations that need no more.
use smoo_bazel.Base.{
  ℕ, Bool, true, false, not, Option, none, some, List, [], ◌∷◌, if◌then◌else◌, ◌>>=◌, Float, Vec3,
  Quat,
}
use smoo_bazel.Puppets.Info.{team_eq, FlagTeam, invalid, red, blue, unlisted}
use smoo_bazel.Modes.{CtfInfo, ModeObject}
use smoo_bazel.Stages.{StageData}
use smoo_bazel.Socket.{send_flag_hold_state_packet, Outbox}
use smoo_bazel.Client.State.{Client, Flags}
use smoo_bazel.Client.Flags.{make_flag_alive, set_transform, edit_flag}
use smoo_bazel.Game.{Player, Call}

-- `BorderInfo`
pub record BorderInfo : Type 0 where
  pub at : Vec3
  pub rot : Quat

pub record BorderActor : Type 0 where
  pub dead : Bool
  pub scale : Vec3
  pub info : Option BorderInfo

-- What a frame reads and writes: the mode, its info, and what it shares with the client.
pub record Round : Type 0 where
  pub object : ModeObject
  pub info : CtfInfo
  pub invuln_time : Float
  pub teleport_timer : Float
  pub client : Client
  pub flags : Flags
  -- `BorderActor::singleton`
  pub border : Option BorderActor
  pub outbox : Outbox
  -- The calls of this frame, the last one first.
  pub calls : List Call

-- What a frame finds in the game.
pub record Frame : Type 0 where
  -- `rs::getPlayerActor`
  pub player : Option Player
  -- `getLocalPlayerStageData`
  pub stage : StageData
  pub delta : Float
  pub hold_zl : Bool
  pub trigger_zr : Bool
  -- `isModeAndActive(GameMode::CAPTURE_THE_FLAG)`
  pub mode_active : Bool
  -- `mSceneInfo && mSceneInfo->mSceneObjHolder`
  pub has_scene : Bool
  -- `mTicket` is not null
  pub has_ticket : Bool
  -- `mPuppetHolder->getSize()`
  pub holder_size : ℕ

unfoldable pub call : Call → Round → Round
call a r = record r { calls = a ∷ r.calls }

-- `makeActorAlive` and `makeActorDead`
pub make_border_alive : BorderActor → BorderActor
make_border_alive b = if b.dead then record b { dead = false } else b

pub make_border_dead : BorderActor → BorderActor
make_border_dead b = if not b.dead then record b { dead = true } else b

-- `BorderActor::setTransform`
pub set_border_transform : Vec3 → Quat → BorderActor → BorderActor
set_border_transform v q b = elim b.info [
  | none ↦ b
  | some i ↦ record b { info = some (record i { at = v; rot = q }) }
]

-- The scale 50, 300 and 0.1.
abbrev pub border_scale : Vec3
border_scale = record { x = 0x42480000; y = 0x43960000; z = 0x3dcccccd }

abbrev pub far_corner : Vec3
far_corner = record { x = 0x48f42400; y = 0x48f42400; z = 0x48f42400 }

abbrev pub near_corner : Vec3
near_corner = record { x = 0xc8f42400; y = 0xc8f42400; z = 0xc8f42400 }

-- `Vector3f(-0.71,0,-0.71)`
abbrev pub border_normal : Vec3
border_normal = record { x = 0xbf35c28f; y = 0; z = 0xbf35c28f }

-- `getOpposingTeam`
unfoldable pub get_opposing_team : FlagTeam → Option FlagTeam
get_opposing_team red = some blue
get_opposing_team blue = some red
get_opposing_team invalid = none
get_opposing_team (unlisted n) = none

-- A team compared with an `optional`: it is never equal to an empty one.
abbrev pub eq_optional : FlagTeam → Option FlagTeam → Bool
eq_optional t none = false
eq_optional t (some u) = team_eq t u

-- `mInfo->mHeldFlag == getOpposingTeam(…)`
unfoldable pub holds_opposing : CtfInfo → Bool
holds_opposing i = eq_optional i.held_flag (get_opposing_team i.player_team)

-- `dropHeldFlag`
unfoldable pub drop_held_flag : Round → Round
drop_held_flag r = if team_eq r.info.held_flag invalid then r else record r {
  outbox =
      send_flag_hold_state_packet (record { is_held = false; flag_team = r.info.held_flag })
        r.outbox;
  info = record r.info { held_flag = invalid };
}

-- `respawnHeldFlag`
unfoldable pub respawn_held_flag : Round → Round
respawn_held_flag r = if team_eq r.info.held_flag invalid then r else drop_held_flag r

-- The flag of a team, if there is one, is put alive at a place.
unfoldable pub move_flag : Vec3 → Quat → FlagTeam → Round → Option Round
move_flag v q team r = do
  fs ← edit_flag (λ a. set_transform v q (make_flag_alive a)) team r.flags
  some (record r { flags = fs })

-- The teams that the loop of `checkPickUpOrDropFlag` goes through.
unfoldable pub all_teams : List FlagTeam
all_teams = invalid ∷ red ∷ blue ∷ []
