-- ===== src/Client/Shines/Stage.antt =====
-- The shines of the stage and of the save file, in mod/src/server/Client.cpp: `tryRegisterShine`,
-- `findStageShine` and `updateShines`.
pub mod Got
pub mod Tests
use smoo_bazel.Puppets.{clear_puppets, PuppetHolder}
use smoo_bazel.Client.Shines.{reset_collected_shines, is_need_update_shines}
use smoo_bazel.Base.{
  ℕ, Bool, true, false, not, ◌&&◌, ◌||◌, Option, none, some, List, [], ◌∷◌, ◌++◌, ltb, ◌==◌,
  if◌then◌else◌, length, Str, codes, str_eq, is_neg, eq_ℤ, ℤ,
}
use smoo_bazel.Client.State.{Client}

-- What the game computes: `S` are its `Shine`s, `H` its `GameDataFile::HintInfo`s, and `G` is its
-- state, of which the save file is a part.
pub record ShineGame (S H G : Type 0) : Type 0 where
  -- `getHintInfoByUniqueID`
  pub hint_of : ℤ → Option H
  -- `getHintInfoByIndex(curShine, curShine->mShineIdx)->mUniqueID`
  pub unique_id : S → ℤ
  -- `GameDataFunction::isGotShine` and `GameDataFile::setGotShine`
  pub is_got_shine : H → G → Bool
  pub set_got_shine : H → G → G
  -- `Shine::isGot`, `al::isDead`, `makeActorAlive`, `getDirect` and `onSwitchGet`
  pub is_got : S → G → Bool
  pub is_dead : S → G → Bool
  pub make_alive : S → G → G
  pub get_direct : S → G → G
  pub on_switch_get : S → G → G
  -- `startShineCountAnim` and `updateCounterParts` of the layout
  pub update_layout : G → G

-- What `updateShines` reads and changes next to the array of collected shines.
pub record Scene (S G : Type 0) : Type 0 where
  pub stage_name : Str
  pub scenario : ℕ
  pub shines : List S
  pub game : G

-- The size of the buffer of `mShineArray`.
abbrev pub max_stage_shines : ℕ
max_stage_shines = 100

module _ {S H G : Type 0} (g : ShineGame S H G) where
  pub try_register_shine : S → Scene S G → Bool × Scene S G
  try_register_shine x s =
      if ltb (length s.shines) max_stage_shines && not (g.is_got x s.game)
      then (true, record s { shines = s.shines ++ (x ∷ []) })
      else (false, s)

  pub find_stage_shine : ℤ → List S → Option S
  find_stage_shine id [] = none
  find_stage_shine id (x ∷ xs) = if eq_ℤ (g.unique_id x) id then some x else find_stage_shine id xs

  -- What the loop does with the shine's actor, if the stage has one.
  pub get_on_stage : Option S → G → G
  get_on_stage none s = s
  get_on_stage (some x) s =
      g.on_switch_get x (g.get_direct x (if g.is_dead x s then g.make_alive x s else s))

  -- What the loop does with a shine that has a hint.
  pub get_hinted : ℤ → List S → H → G → G
  get_hinted id xs h s =
      if g.is_got_shine h s then s else g.set_got_shine h (get_on_stage (find_stage_shine id xs) s)

  -- The body of the loop of `updateShines`.
  pub get_shine : ℤ → List S → G → G
  get_shine id xs s =
      if is_neg id then s else elim (g.hint_of id) [ none ↦ s | some h ↦ get_hinted id xs h s ]

  pub get_shines : List ℤ → List S → G → G
  get_shines [] xs s = s
  get_shines (id ∷ ids) xs s = get_shines ids xs (get_shine id xs s)

  -- Is the player at the very start of the game?
  pub skips_shines : Scene S G → Bool
  skips_shines s =
      str_eq s.stage_name (codes "CapWorldHomeStage") && (s.scenario == 0 || s.scenario == 1)

  -- `updateShines`
  pub update_shines : Client → Scene S G → Client × Scene S G
  update_shines c s = if skips_shines s then (c, s) else (
    reset_collected_shines c,
    record s { game = g.update_layout (get_shines c.collected_shines s.shines s.game) },
  )

  -- What `update` does about shines.
  pub update_needed : Client → Scene S G → Client × Scene S G
  update_needed c s = if is_need_update_shines c then update_shines c s else (c, s)

-- `clearArrays`
pub clear_arrays : {S G : Type 0} → PuppetHolder × Scene S G → PuppetHolder × Scene S G
clear_arrays (p, s) = (clear_puppets p, record s { shines = [] })
