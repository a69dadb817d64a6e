-- ===== src/Puppets.antt =====
-- mod/src/puppets/PuppetInfo.h, PuppetHolder.hpp, PuppetHolder.cpp, and the parts of PuppetActor.cpp
-- that the holder calls: what the client knows of the other players, and the actors that show them.
-- An actor's `mInfo` is the index of its entry in the client's array of infos.
pub mod Info
pub mod Stage
pub mod Resize
pub mod Costume
mod Tests
use smoo_bazel.Base.{
  ℕ, zero, suc, ◌+◌, Bool, true, false, not, ◌&&◌, Option, none, some, List, [], ◌∷◌, ◌++◌, ltb,
  leb, ◌==◌, if◌then◌else◌, ◌>>=◌, length, get_elem?, set, take, Str, str_eq, c_str,
}
use Info.{PuppetInfo}

pub record PuppetActor : Type 0 where
  pub info : ℕ
  pub dead : Bool
  -- The model that is shown, and the cap.
  pub model_dead : Bool
  pub cap_dead : Bool
  pub name_tag : Option Str
  -- How often the join effect was emitted.
  pub join_effects : ℕ

-- `capacity` is the `mPtrNumMax` of the pointer array, and `buffer_ready` its `isBufferReady`.
pub record PuppetHolder : Type 0 where
  pub puppets : List PuppetActor
  pub capacity : ℕ
  pub buffer_ready : Bool
  pub debug_puppet : Option PuppetActor
  pub stage_name : Str
  pub scenario_no : ℕ

pub try_register_puppet : PuppetActor → PuppetHolder → Bool × PuppetHolder
try_register_puppet p h =
    if leb h.capacity (length h.puppets)
    then (false, h)
    else (true, record h { puppets = h.puppets ++ (p ∷ []) })

pub try_register_debug_puppet : PuppetActor → PuppetHolder → Bool × PuppetHolder
try_register_debug_puppet p h = (true, record h { debug_puppet = some p })

pub clear_puppets : PuppetHolder → PuppetHolder
clear_puppets h = record h { puppets = [] }

-- The stage name goes into a `FixedSafeString<0x40>`, which cuts what does not fit.
pub set_stage_info : Str → ℕ → PuppetHolder → PuppetHolder
set_stage_info stage scenario h = record h {
  stage_name = take 63 (c_str stage);
  scenario_no = scenario;
}

-- `PuppetActor::makeActorAlive`
make_actor_alive : PuppetInfo → PuppetActor → PuppetActor
make_actor_alive i a = record a {
  model_dead = false;
  name_tag = elim a.name_tag [ none ↦ none | some _ ↦ some i.puppet_name ];
  dead = false;
}

-- `PuppetActor::makeActorDead`
make_actor_dead : PuppetActor → PuppetActor
make_actor_dead a = record a { model_dead = true; cap_dead = true; dead = true }

emit_join_effect : PuppetActor → PuppetActor
emit_join_effect a = record a { join_effects = a.join_effects + 1 }

-- Scenarios below 15 of one stage are one place.
pub check_info_is_in_stage : PuppetHolder → PuppetInfo → Bool
check_info_is_in_stage h i =
    if i.is_connected
    then (if ltb i.scenario_no 15
        then str_eq h.stage_name i.stage_name
        else str_eq h.stage_name i.stage_name && (i.scenario_no == h.scenario_no))
    else false

-- One round of the loop of `update`, after `isInSameStage` is known.
show_or_hide : Bool → PuppetInfo → PuppetActor → PuppetActor
show_or_hide here i a =
    if here && a.dead
    then emit_join_effect (make_actor_alive i a)
    else (if not here && not a.dead then emit_join_effect (make_actor_dead a) else a)

-- `none` where an actor's info does not exist.
update_from :
    PuppetHolder → List PuppetActor → List PuppetInfo → Option (List PuppetActor × List PuppetInfo)
update_from h [] infos = some ([], infos)
update_from h (a ∷ as') infos = do
  i ← get_elem? infos a.info
  let here = check_info_is_in_stage h i
  let i' = record i { is_in_same_stage = here }
  (rest, infos') ← update_from h as' (set infos a.info i')
  some (show_or_hide here i' a ∷ rest, infos')

-- `PuppetHolder::update`
pub update : PuppetHolder → List PuppetInfo → Option (PuppetHolder × List PuppetInfo)
update h infos = do
  (puppets, infos') ← update_from h h.puppets infos
  some (record h { puppets = puppets }, infos')

-- `mPuppetArr[i]`, a null pointer outside of the array.
copy_puppet : List PuppetActor → ℕ → ℕ → List (Option PuppetActor) → List (Option PuppetActor)
copy_puppet old i size copied =
    if leb size (length copied) then copied else copied ++ (get_elem? old i ∷ [])

-- The condition `i < curPupCount > size ? size : curPupCount` of the copying loop, as C++ reads it:
-- the comparison of `i < curPupCount` (0 or 1) with `size` chooses the number that is tested.
resize_test : ℕ → ℕ → ℕ → Bool
resize_test i count size =
    not ((if ltb size (if ltb i count then 1 else 0) then size else count) == 0)

-- The copying loop on fuel; `none` when the fuel runs out.
resize_loop :
    ℕ → List PuppetActor → ℕ → ℕ → List (Option PuppetActor) → Option (List (Option PuppetActor))
resize_loop zero old size i copied = none
resize_loop (suc fuel) old size i copied =
    let rest = resize_loop fuel old size (i + 1) (copy_puppet old i size copied) in
    if resize_test i (length old) size then rest else some copied

-- `resizeHolder`; `alloc` is what the heap answers. The new array is only known when the loop ends.
pub data Resized : Type 0 where
  unchanged : Bool → Resized
  fresh : Bool → PuppetHolder → Resized
  copied : List (Option PuppetActor) → Resized
  out_of_fuel : Resized

pub resize_holder : ℕ → Bool → ℕ → PuppetHolder → Resized
resize_holder fuel alloc size h =
    if h.capacity == size
    then unchanged true
    else (if not h.buffer_ready
        then fresh alloc (if alloc then record h { capacity = size; buffer_ready = true } else h)
        else (if alloc
            then elim (resize_loop fuel h.puppets size 0 []) [
              | none ↦ out_of_fuel
              | some l ↦ copied l
            ]
            else unchanged false))
