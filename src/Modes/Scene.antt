-- ===== src/Modes/Scene.antt =====
-- mod/src/server/gamemode/GameModeManager.cpp: which mode runs, and its objects over the scenes. The
-- frames of the modes themselves are an argument of `update_manager`.
pub mod Objects
use smoo_bazel.Base.{Bool, true, false, not, ◌&&◌, ◌||◌, Option, none, some, if◌then◌else◌, ◌>>=◌}
use smoo_bazel.Modes.{
  mode_eq, hns_info, ctf_info, hns_info_new, ctf_info_new, GameMode, no_mode, hide_and_seek,
  capture_the_flag, ModeInfo, ModeKind, hns_mode, ctf_mode, ModeObject, InitInfo, null_info,
  live_info, deleted_info, Manager,
}

-- The constructor, without the heap.
abbrev pub manager_new : Manager
manager_new = record {
  active = false;
  paused = false;
  was_scene_trans = false;
  was_set_mode = true;
  cur_mode = capture_the_flag;
  base = none;
  info = none;
  last_init_info = null_info;
}

pub toggle_active : Manager → Manager
toggle_active m = record m { active = not m.active }

pub set_paused : Bool → Manager → Manager
set_paused p m = record m { paused = p }

unfoldable pub set_mode : GameMode → Manager → Manager
set_mode g m = record m { cur_mode = g; was_set_mode = true }

-- `HideAndSeekMode::begin` and `CaptureTheFlagMode::begin`, without their layouts.
begin_mode : ModeObject → ModeObject
begin_mode o = record o { is_active = true; is_first_frame = true }

end_mode : ModeObject → ModeObject
end_mode o = record o { is_active = false }

-- The begin and the end that `update` decides on; `in_scene` says if there is a scene heap.
settle : Bool → Manager → ModeObject → ModeObject
settle in_scene m o =
    let o' =
      if (m.active && in_scene && not m.paused && not o.is_active) || m.was_scene_trans
      then begin_mode o
      else o in
    if (not m.active || m.paused || not in_scene) && o'.is_active then end_mode o' else o'

-- `GameModeManager::update`; `frame` is the virtual `update` of the mode.
pub update_manager : (Manager → Manager) → Bool → Manager → Manager
update_manager frame in_scene m = elim m.base [
  | none ↦ m
  | some o ↦
      let o' = settle in_scene m o in
      let m' = record m { base = some o'; was_scene_trans = false } in
      if o'.is_active then frame m' else m'
]

-- `delete mLastInitInfo`, unless it is null; an object is deleted once.
delete_last : InitInfo → Option InitInfo
delete_last null_info = some null_info
delete_last live_info = some deleted_info
delete_last deleted_info = none

-- The mode that the factory creates.
abbrev pub kind_of : GameMode → Option ModeKind
kind_of no_mode = none
kind_of hide_and_seek = some hns_mode
kind_of capture_the_flag = some ctf_mode

new_mode : ModeKind → ModeObject
new_mode k = record { kind = k; is_active = false; is_first_frame = true }

-- The `mMode` that the constructor of an info sets.
abbrev pub info_mode : ModeInfo → GameMode
info_mode (hns_info i) = hide_and_seek
info_mode (ctf_info i) = capture_the_flag

new_info : ModeKind → ModeInfo
new_info hns_mode = hns_info hns_info_new
new_info ctf_mode = ctf_info ctf_info_new

-- The part of both `init`s that chooses the info: one of the mode `g` is kept, another is replaced.
init_info : ModeKind → GameMode → Option ModeInfo → ModeInfo
init_info k g none = new_info k
init_info k g (some i) = if mode_eq (info_mode i) g then i else new_info k

-- The last `if` of `initScene`.
init_base : Manager → Option ModeObject → Manager
init_base m none = m
init_base m (some o) = record m {
  info = some (init_info o.kind m.cur_mode m.info);
  was_scene_trans = if o.is_active then true else m.was_scene_trans;
}

-- The object after the mode was set again: the factory's, or the old one.
base_after : ModeKind → Manager → Option ModeObject
base_after k m = if m.was_set_mode then some (new_mode k) else m.base

init_with : Option ModeKind → InitInfo → Manager → Manager
init_with none l m = record m { base = none; info = none; last_init_info = l }
init_with (some k) l m =
    init_base (record m { base = base_after k m; was_set_mode = false; last_init_info = live_info })
      (base_after k m)

-- `GameModeManager::initScene`, undefined where it deletes an object twice.
pub init_scene : Manager → Option Manager
init_scene m = delete_last m.last_init_info >>= λ l. some (init_with (kind_of m.cur_mode) l m)
