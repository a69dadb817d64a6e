-- ===== src/Captures/Tests.antt =====
-- A stage with two puppets, and the theorems there.
use smoo_bazel.Base.{◌≡◌, refl, true, none, some, [], ◌∷◌, take, All, Str, codes, dec, pos}
use smoo_bazel.HackModels.{new_holder}
use smoo_bazel.HackModels.Room.{
  new_holder-IsValid, new_holder-has_room, new_holder-lists_none, new_holder-gets_none,
}
use smoo_bazel.Client.State.{loop_bound}
use smoo_bazel.Socket.Cap.{try_convert_name}
use smoo_bazel.Captures.{capture_strs, in_forest, create_hack_actor, init_obj_hook, Captures}
use smoo_bazel.Captures.Sync.{
  Has, OfSome, init_obj_hook-Has, init_obj_hook-overflows, IsAble, HasRoom,
}

abbrev stage : Captures
stage = record {
  puppets = new_holder ∷ new_holder ∷ [];
  debug_puppet = none;
  factory = record {
    max_players = pos 8;
    file_name = some (codes "CapWorldHomeStage");
    has_creator = true;
    made = 0;
  };
}

stage-IsAble : IsAble stage.factory
unfolding in_forest
stage-IsAble = record { outside = refl; few = refl; creator = refl }

new_holder-HasRoom : (name : Str) → HasRoom name new_holder
new_holder-HasRoom name = record {
  valid = new_holder-IsValid;
  room = new_holder-has_room;
  entry = λ e. new_holder-lists_none name;
}

-- With eight players the forest has no models, with nine no stage has.
forest-none :
    create_hack_actor (record {
      max_players = pos 8;
      file_name = some (codes "ForestWorldHomeStage");
      has_creator = true;
      made = 0;
    })
    ≡ (
      none,
      record {
        max_players = pos 8;
        file_name = some (codes "ForestWorldHomeStage");
        has_creator = true;
        made = 0;
      },
    )
unfolding create_hack_actor in_forest
forest-none = refl

init_obj_hook-Has_example :
    (c' : Captures) × (init_obj_hook (codes "TRexSleep") stage ≡ some c')
    × All
        (Has (try_convert_name (codes "TRexSleep")))
        (take (loop_bound (dec stage.factory.max_players)) c'.puppets)
    × OfSome (Has (try_convert_name (codes "TRexSleep"))) c'.debug_puppet
    × (init_obj_hook (codes "TRexSleep") c' ≡ some c')
unfolding capture_strs
init_obj_hook-Has_example =
    init_obj_hook-Has 28 (codes "TRexSleep") stage refl
      (new_holder-HasRoom _, (new_holder-HasRoom _, tt)) tt stage-IsAble

init_obj_hook-overflows_example : init_obj_hook (codes "AnagramAlphabetCharacter") stage ≡ none
init_obj_hook-overflows_example =
    init_obj_hook-overflows new_holder (new_holder ∷ []) 6 stage refl refl stage-IsAble
      new_holder-has_room (new_holder-gets_none (codes "AnagramAlphabetCharacter"))
