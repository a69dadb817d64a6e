-- ===== src/Modes/Tests.antt =====
-- Managers over scene changes, and the theorems there.
use smoo_bazel.Base.{◌≡◌, refl, true, false, none, some, if◌then◌else◌}
use smoo_bazel.Modes.{ctf_info, ctf_info_new, ctf_mode, ModeObject, live_info, Manager}
use smoo_bazel.Modes.Scene.{manager_new, update_manager, init_scene}
use smoo_bazel.Modes.Scene.Objects.{update_manager-active, init_scene-Matches, Matches}

abbrev runner : ModeObject
runner = record { kind = ctf_mode; is_active = false; is_first_frame = true }

-- A capture-the-flag game in a scene.
abbrev game : Manager
game = record manager_new {
  active = true;
  was_set_mode = false;
  base = some runner;
  info = some (ctf_info ctf_info_new);
  last_init_info = live_info;
}

-- A frame of a mode that ends the game.
abbrev frame : Manager → Manager
frame m = record m { base = none }

update_manager-active_example :
    (o' : ModeObject) × (update_manager frame true game ≡ (
      if o'.is_active
      then frame (record game { base = some o'; was_scene_trans = false })
      else record game { base = some o'; was_scene_trans = false }))
    × (o'.is_active ≡ true)
    × (o'.kind ≡ ctf_mode)
update_manager-active_example = update_manager-active frame true game runner refl

init_scene-Matches_example :
    (m' : Manager) × (init_scene manager_new ≡ some m') × Matches ctf_mode m'
init_scene-Matches_example = init_scene-Matches ctf_mode manager_new refl (λ e. cc) (λ e. cc)

game-Matches : Matches ctf_mode game
game-Matches = record {
  object = runner;
  at_base = refl;
  object_kind = refl;
  mode_info = ctf_info ctf_info_new;
  at_info = refl;
  same_info = refl;
}
