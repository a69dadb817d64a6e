-- ===== src/Stages.antt =====
-- mod/src/server/capturetheflag/StageManager.hpp and StageManager.cpp: the stages of a capture-the-flag
-- game, their borders and the places of their sub-areas.
pub mod Lookup
mod Tests
use mathlib.Core.Option
use smoo_bazel.Base.{
  ℕ, Bool, true, false, ◌&&◌, Option, none, some, List, [], ◌∷◌, ltb, ◌==◌, if◌then◌else◌, ◌>>=◌,
  length, get_elem?, Str, codes, str_eq, Vec3,
}
use smoo_bazel.Puppets.Info.{team_eq, FlagTeam, red, blue}

-- `scenarioNum` is a `u8`.
pub record StageData : Type 0 where
  pub stage_name : Str
  pub scenario_num : ℕ

-- `operator==`: scenarios below 15 of the left side are one stage.
pub stage_eq : StageData → StageData → Bool
stage_eq a b =
    if ltb a.scenario_num 15
    then str_eq a.stage_name b.stage_name
    else str_eq a.stage_name b.stage_name && (a.scenario_num == b.scenario_num)

-- `SubAreaEntranceLocation`
pub record SubArea : Type 0 where
  pub parent_stage_name : Str
  pub stage_data : StageData
  pub entrance_position : Vec3

abbrev pub waterfall : Str
waterfall = codes "WaterfallWorldHomeStage"

-- The coordinates of the five sub-area entrances and of the border, rounded to `float` as the
-- compiler does it: a parameter, since the rounding is not code of the repository.
pub record Coordinates : Type 0 where
  pub wind_blow : Vec3
  pub wanwan_clash : Vec3
  pub lift_2d : Vec3
  pub trex_poppun : Vec3
  pub cap_appear : Vec3
  pub border : Vec3

-- A cascade sub-area at scenario 0.
cascade : Str → Vec3 → SubArea
cascade name at = record {
  parent_stage_name = waterfall;
  stage_data = record { stage_name = name; scenario_num = 0 };
  entrance_position = at;
}

-- The loops over the tables return their first match.
first_sub_area : StageData → List SubArea → Option SubArea
first_sub_area d [] = none
first_sub_area d (a ∷ as') = if stage_eq d a.stage_data then some a else first_sub_area d as'

first_border : StageData → List (Str × Vec3) → Option Vec3
first_border d [] = none
first_border d ((name, at) ∷ bs) = if str_eq name d.stage_name then some at else first_border d bs

first_home : StageData → FlagTeam → List (Str × FlagTeam × Str) → Option (StageData × Str)
first_home d team [] = none
first_home d team ((name, t, entrance) ∷ hs) =
    if str_eq name d.stage_name && team_eq t team then some (d, entrance) else first_home d team hs

home_locations : List (Str × FlagTeam × Str)
home_locations = (waterfall, red, codes "CapAppearExExit") ∷ (waterfall, blue, []) ∷ []

-- `StageData(parentStageName.value(), -1)`, whose scenario is the `u8` 255.
pub parent_stage : Str → StageData
parent_stage name = record { stage_name = name; scenario_num = 255 }

module _ (c : Coordinates) where
  pub sub_areas : List SubArea
  sub_areas =
      cascade (codes "WindBlowExStage") c.wind_blow
      ∷ cascade (codes "WanwanClashExStage") c.wanwan_clash
      ∷ cascade (codes "Lift2DExStage") c.lift_2d
      ∷ cascade (codes "TrexPoppunExStage") c.trex_poppun
      ∷ cascade (codes "CapAppearExStage") c.cap_appear
      ∷ []

  border_transforms : List (Str × Vec3)
  border_transforms = (waterfall, c.border) ∷ []

  search_for_sub_area_data : StageData → Option SubArea
  search_for_sub_area_data d = first_sub_area d sub_areas

  pub get_border_transform : StageData → Option Vec3
  get_border_transform d = first_border d border_transforms

  pub get_parent_stage_name : StageData → Option Str
  get_parent_stage_name d =
      Option.map (λ (a : SubArea). a.parent_stage_name) (search_for_sub_area_data d)

  pub is_sub_area : StageData → Bool
  is_sub_area d = elim (search_for_sub_area_data d) [ none ↦ false | some _ ↦ true ]

  get_sub_area_entrance_location : StageData → Option Vec3
  get_sub_area_entrance_location d =
      Option.map (λ (a : SubArea). a.entrance_position) (search_for_sub_area_data d)

  pub replace_position : Vec3 → StageData → Vec3
  replace_position p d = elim (get_sub_area_entrance_location d) [ none ↦ p | some at ↦ at ]

  -- `getHomeTeleport`
  pub get_home_teleport : StageData → FlagTeam → Option (StageData × Str)
  get_home_teleport d team =
      if is_sub_area d
      then (get_parent_stage_name d >>= λ parent.
          first_home (parent_stage parent) team home_locations)
      else first_home d team home_locations

  pub get_sub_area_count : ℕ
  get_sub_area_count = length sub_areas

  -- `getSubAreaName` and `getSubAreaLocation`, with no result outside of the array.
  pub get_sub_area_name : ℕ → Option Str
  get_sub_area_name i =
      Option.map (λ (a : SubArea). a.stage_data.stage_name) (get_elem? sub_areas i)

  pub get_sub_area_location : ℕ → Option Vec3
  get_sub_area_location i =
      Option.map (λ (a : SubArea). a.entrance_position) (get_elem? sub_areas i)
