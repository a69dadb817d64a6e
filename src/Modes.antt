-- ===== src/Modes.antt =====
-- mod/src/server/gamemode/GameModeBase.hpp, GameModeInfoBase.hpp, GameModeManager.hpp, and the infos of
-- hns/HideAndSeekMode.hpp and capturetheflag/CaptureTheFlagMode.hpp: the game mode that runs and
-- what is known of the game. A mode object's `mInfo` is the manager's `mModeInfo` since its `init`,
-- so the info is kept once, in the manager.
pub mod Scene
mod Tests
use smoo_bazel.Base.{◌≡◌, refl, Bool, true, false, ◌&&◌, Option, none, some, ◌>>=◌, Defined}
use smoo_bazel.Timer.{time_zero, GameTime}
use smoo_bazel.Puppets.Info.{FlagTeam, invalid}

-- `enum GameMode`
pub data GameMode : Type 0 where
  no_mode hide_and_seek capture_the_flag : GameMode

abbrev pub mode_eq : GameMode → GameMode → Bool
mode_eq no_mode no_mode = true
mode_eq hide_and_seek hide_and_seek = true
mode_eq capture_the_flag capture_the_flag = true
mode_eq _ _ = false

-- `HideAndSeekInfo`
pub record HnsInfo : Type 0 where
  pub is_player_it : Bool
  pub is_use_gravity : Bool
  pub is_use_gravity_cam : Bool
  pub hiding_time : GameTime

-- `CaptureTheFlagInfo`
pub record CtfInfo : Type 0 where
  pub player_team : FlagTeam
  pub is_use_gravity : Bool
  pub is_use_gravity_cam : Bool
  pub held_flag : FlagTeam
  pub winning_team : FlagTeam
  pub round_time : GameTime

-- The object behind a `GameModeInfoBase*`; its `mMode` is fixed by its constructor.
pub data ModeInfo : Type 0 where
  hns_info : HnsInfo → ModeInfo
  ctf_info : CtfInfo → ModeInfo

-- The object behind a `GameModeBase*`.
pub data ModeKind : Type 0 where
  hns_mode ctf_mode : ModeKind

pub record ModeObject : Type 0 where
  pub kind : ModeKind
  pub is_active : Bool
  pub is_first_frame : Bool

-- The object behind `mLastInitInfo`: a null pointer, an object, or one that was deleted.
pub data InitInfo : Type 0 where
  null_info live_info deleted_info : InitInfo

pub record Manager : Type 0 where
  pub active : Bool
  pub paused : Bool
  pub was_scene_trans : Bool
  pub was_set_mode : Bool
  pub cur_mode : GameMode
  pub base : Option ModeObject
  pub info : Option ModeInfo
  pub last_init_info : InitInfo

abbrev pub is_mode : GameMode → Manager → Bool
is_mode g m = mode_eq m.cur_mode g

abbrev pub is_mode_and_active : GameMode → Manager → Bool
is_mode_and_active g m = is_mode g m && m.active

-- `getMode<T>()` and then a member: undefined on a null pointer and on an object of another class.
abbrev pub object_as : ModeKind → Manager → Option ModeObject
object_as k m = m.base >>= same_kind k
  where
    same_kind : ModeKind → ModeObject → Option ModeObject
    same_kind hns_mode o = elim o.kind [ hns_mode ↦ some o | ctf_mode ↦ none ]
    same_kind ctf_mode o = elim o.kind [ hns_mode ↦ none | ctf_mode ↦ some o ]

-- `getInfo<HideAndSeekInfo>()` and `getInfo<CaptureTheFlagInfo>()`, likewise.
abbrev pub as_hns : Option ModeInfo → Option HnsInfo
as_hns none = none
as_hns (some (hns_info i)) = some i
as_hns (some (ctf_info i)) = none

abbrev pub as_ctf : Option ModeInfo → Option CtfInfo
as_ctf none = none
as_ctf (some (hns_info i)) = none
as_ctf (some (ctf_info i)) = some i

-- `HideAndSeekInfo()`
abbrev pub hns_info_new : HnsInfo
hns_info_new = record {
  is_player_it = false;
  is_use_gravity = false;
  is_use_gravity_cam = false;
  hiding_time = time_zero;
}

-- `CaptureTheFlagInfo{}`
abbrev pub ctf_info_new : CtfInfo
ctf_info_new = record {
  player_team = invalid;
  is_use_gravity = false;
  is_use_gravity_cam = false;
  held_flag = invalid;
  winning_team = invalid;
  round_time = time_zero;
}

-- The mode's own object is found as what it is.
pub object_as-kind :
    (m : Manager) (o : ModeObject)
    → o.kind ≡ hns_mode
    → Defined (object_as hns_mode (record m { base = some o }))
object_as-kind m o e = go o.kind e
  where
    go : (k : ModeKind) → k ≡ hns_mode → Defined (elim k [ hns_mode ↦ some o | ctf_mode ↦ none ])
    go hns_mode e = (o, refl)
    go ctf_mode e = cc
