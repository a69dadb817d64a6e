-- ===== src/Stages/Lookup.antt =====
-- What the stage tables say of the sub-areas.
use smoo_bazel.Base.{
  ◌≤◌, ◌<◌, ◌≡◌, refl, subst, inl, inr, true, false, none, some, List, [], ◌∷◌, arith, Bool-cases,
  some_inj, All, codes, str_eq, str_eq→eq, str_eq_iff, Vec3,
}
use smoo_bazel.Puppets.Info.{invalid, red, blue}
use smoo_bazel.Stages.{
  stage_eq, waterfall, cascade, first_sub_area, first_border, first_home, home_locations,
  parent_stage, sub_areas, border_transforms, search_for_sub_area_data, get_border_transform,
  get_parent_stage_name, is_sub_area, get_sub_area_entrance_location, replace_position,
  get_home_teleport, StageData, SubArea, Coordinates,
}

-- What every row of the sub-area table satisfies.
abbrev IsCascade : SubArea → Type 0
IsCascade a =
    (a.parent_stage_name ≡ waterfall)
    × (a.stage_data.scenario_num ≡ 0)
    × (str_eq waterfall a.stage_data.stage_name ≡ false)

first_sub_area-eq_some :
    (d : StageData) (as' : List SubArea) {a : SubArea}
    → All IsCascade as'
    → first_sub_area d as' ≡ some a
    → IsCascade a × (stage_eq d a.stage_data ≡ true)
unfolding first_sub_area
first_sub_area-eq_some d [] v e = cc
first_sub_area-eq_some d (x ∷ as') {a} v e = elim (Bool-cases (stage_eq d x.stage_data)) [
  | inl hit ↦
      subst (λ y. IsCascade y × (stage_eq d y.stage_data ≡ true))
        (some_inj (rw (hit, first_sub_area) at e)) (v.0, hit)
  | inr miss ↦ first_sub_area-eq_some d as' v.1 (rw miss at e)
]

-- The comparison of stages is not symmetric: of two records of one stage name, one with a scenario
-- below 15 equals one with a scenario from 15 on, and not the other way round.
pub stage_eq_asymmetric :
    (a b : StageData)
    → a.stage_name ≡ b.stage_name
    → a.scenario_num < 15
    → 15 ≤ b.scenario_num
    → (stage_eq a b ≡ true) × (stage_eq b a ≡ false)
unfolding stage_eq
stage_eq_asymmetric a b same below above =
    ground
      (arith, (str_eq_iff a.stage_name b.stage_name).1, (str_eq_iff b.stage_name a.stage_name).1)

module _ (c : Coordinates) where
  sub_areas-IsCascade : All IsCascade (sub_areas c)
  unfolding sub_areas cascade
  sub_areas-IsCascade = ground arith

  search-IsCascade :
      (d : StageData) {a : SubArea}
      → search_for_sub_area_data c d ≡ some a
      → IsCascade a × (stage_eq d a.stage_data ≡ true)
  unfolding search_for_sub_area_data
  search-IsCascade d h = first_sub_area-eq_some d (sub_areas c) sub_areas-IsCascade h

  is_sub_area-search :
      (d : StageData)
      → is_sub_area c d ≡ true
      → (a : SubArea) × (search_for_sub_area_data c d ≡ some a)
  unfolding is_sub_area
  is_sub_area-search d h = ground arith

stage_eq-parts :
    (a b : StageData)
    → b.scenario_num ≡ 0
    → stage_eq a b ≡ true
    → (a.stage_name ≡ b.stage_name) × (a.scenario_num < 15)
unfolding stage_eq
stage_eq-parts a b zeroth e = ground (arith, str_eq→eq a.stage_name b.stage_name)

-- A sub-area is recognised at scenarios below 15 only. It has no border of its own, and its parent
-- stage is the cascade stage, which has the border of the table.
pub sub_area-border :
    (c : Coordinates) (d : StageData)
    → is_sub_area c d ≡ true
    → (d.scenario_num < 15)
      × (get_parent_stage_name c d ≡ some waterfall)
      × (get_border_transform c d ≡ none)
      × (get_border_transform c (record d { stage_name = waterfall }) ≡ some c.border)
unfolding get_parent_stage_name get_border_transform first_border border_transforms
sub_area-border c d h =
    let (a, found) = is_sub_area-search c d h in
    let (row, same) = search-IsCascade c d found in
    let (name, scenario) = stage_eq-parts d a.stage_data row.1 same in
    (scenario, rw (found, row.0) refl, rw (name, row.2) refl, refl)

-- A place in a sub-area counts as the entrance of the sub-area.
pub sub_area-entrance :
    (c : Coordinates) (d : StageData)
    → is_sub_area c d ≡ true
    → (entrance : Vec3) × ((p : Vec3) → replace_position c p d ≡ entrance)
unfolding replace_position get_sub_area_entrance_location
sub_area-entrance c d h =
    let (a, found) = is_sub_area-search c d h in
    (a.entrance_position, λ p. rw (replace_position, get_sub_area_entrance_location, found) refl)

-- From any sub-area the red and the blue team are sent home to their entrance of the cascade
-- stage, and a player without a team is sent nowhere.
pub sub_area-home :
    (c : Coordinates) (d : StageData)
    → is_sub_area c d ≡ true
    → (get_home_teleport c d red ≡ some (parent_stage waterfall, codes "CapAppearExExit"))
      × (get_home_teleport c d blue ≡ some (parent_stage waterfall, []))
      × (get_home_teleport c d invalid ≡ none)
unfolding get_home_teleport first_home home_locations parent_stage
sub_area-home c d h =
    let parent = (sub_area-border c d h).1 in
    (rw (h, parent) refl, rw (h, parent) refl, rw (h, parent) refl)

-- The stage of the 2D lift is a sub-area in its first scenario.
pub is_sub_area-lift :
    (c : Coordinates)
    → is_sub_area c (record { stage_name = codes "Lift2DExStage"; scenario_num = 1 }) ≡ true
unfolding is_sub_area search_for_sub_area_data sub_areas cascade first_sub_area stage_eq
is_sub_area-lift c = refl
