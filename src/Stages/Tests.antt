-- ===== src/Stages/Tests.antt =====
-- A sub-area of the cascade stage, and the theorems there.
use smoo_bazel.Base.{◌≡◌, refl, true, false, codes, Float, f_zero, Vec3}
use smoo_bazel.Stages.{
  stage_eq, cascade, first_sub_area, sub_areas, search_for_sub_area_data, is_sub_area,
  get_sub_area_entrance_location, replace_position, StageData, Coordinates,
}

abbrev at : Float → Vec3
at n = record { x = n; y = f_zero; z = f_zero }

abbrev places : Coordinates
places = record {
  wind_blow = at 1;
  wanwan_clash = at 2;
  lift_2d = at 3;
  trex_poppun = at 4;
  cap_appear = at 5;
  border = at 6;
}

abbrev lift : StageData
lift = record { stage_name = codes "Lift2DExStage"; scenario_num = 4 }

abbrev late_lift : StageData
late_lift = record lift { scenario_num = 20 }

lift-is_sub_area : is_sub_area places lift ≡ true
unfolding is_sub_area search_for_sub_area_data sub_areas cascade first_sub_area stage_eq
lift-is_sub_area = refl

late_lift-is_sub_area : is_sub_area places late_lift ≡ false
unfolding is_sub_area search_for_sub_area_data sub_areas cascade first_sub_area stage_eq
late_lift-is_sub_area = refl

replace_position-lift : replace_position places (at 9) lift ≡ at 3
unfolding replace_position get_sub_area_entrance_location search_for_sub_area_data sub_areas cascade
    first_sub_area stage_eq
replace_position-lift = refl
