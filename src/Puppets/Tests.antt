-- ===== src/Puppets/Tests.antt =====
-- A holder with two puppets, and its theorems there.
use smoo_bazel.Base.{
  ◌≡◌, refl, Bool, true, false, Option, none, some, List, [], ◌∷◌, map, arith, length, replicate,
  All, Str, codes,
}
use smoo_bazel.Puppets.Info.{info_new, PuppetInfo}
use smoo_bazel.Puppets.{
  set_stage_info, make_actor_alive, make_actor_dead, emit_join_effect, check_info_is_in_stage,
  show_or_hide, update_from, update, out_of_fuel, resize_holder, PuppetActor, PuppetHolder,
}
use smoo_bazel.Puppets.Stage.{IsShown, update-IsShown}
use smoo_bazel.Puppets.Resize.{resize_holder-loops}

abbrev sand : Str
sand = codes "SandWorldHomeStage"

abbrev hidden : PuppetActor
hidden = record {
  info = 0;
  dead = true;
  model_dead = true;
  cap_dead = true;
  name_tag = some [];
  join_effects = 0;
}

abbrev shown : PuppetActor
shown = record hidden { info = 1; dead = false; model_dead = false }

abbrev holder : PuppetHolder
holder = record {
  puppets = hidden ∷ shown ∷ [];
  capacity = 9;
  buffer_ready = true;
  debug_puppet = none;
  stage_name = sand;
  scenario_no = 3;
}

-- The first player came into the stage, the second one left the game.
abbrev infos : List PuppetInfo
infos =
    record info_new {
      puppet_name = codes "Peach";
      is_connected = true;
      scenario_no = 1;
      stage_name = sand;
    }
    ∷ record info_new { is_in_same_stage = true; stage_name = sand }
    ∷ []

-- Which actors are dead after a frame that does not fault.
deads : Option (PuppetHolder × List PuppetInfo) → List Bool
deads none = []
deads (some r) = map (λ a. a.dead) r.0.puppets

update-swaps : deads (update holder infos) ≡ false ∷ true ∷ []
unfolding deads update update_from check_info_is_in_stage show_or_hide make_actor_alive
    make_actor_dead emit_join_effect
update-swaps = refl

-- `setStageInfo` cuts the name to its 63 bytes.
set_stage_info-cuts : length (set_stage_info (replicate 70 b'a') 2 holder).stage_name ≡ 63
unfolding set_stage_info
set_stage_info-cuts = refl

update-IsShown_example :
    (r : PuppetHolder × List PuppetInfo) × (update holder infos ≡ some r)
    × All (IsShown holder r.1) r.0.puppets
    × (map (λ a. a.info) r.0.puppets ≡ 0 ∷ 1 ∷ [])
    × (length r.1 ≡ 2)
update-IsShown_example = update-IsShown holder infos (omega arith, (omega arith, tt))

resize_holder-loops_example : resize_holder 1000 true 12 holder ≡ out_of_fuel
resize_holder-loops_example =
    resize_holder-loops 1000 12 holder (λ e. absurd (omega arith)) (omega arith) refl (omega arith)
