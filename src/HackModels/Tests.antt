-- ===== src/HackModels/Tests.antt =====
-- A puppet that took two captures, and the theorems there.
use smoo_bazel.Base.{
  strcpy, ◌≡◌, refl, true, none, some, [], ◌∷◌, arith, set, replicate, Str, codes,
}
use smoo_bazel.HackModels.{
  empty_entry, new_holder, search_name, actor_at, get_capture, add_capture, set_current,
  get_current_actor, HackModelHolder,
}
use smoo_bazel.HackModels.Lookup.{get_capture-add_capture, IsValid}

abbrev frog : Str
frog = codes "Frog"

abbrev tank : Str
tank = codes "Tank"

abbrev with_frog : HackModelHolder
with_frog = record {
  count = 1;
  current = none;
  captures =
      record { actor = some 7; class_name = frog }
      ∷ replicate 127 (record { actor = none; class_name = [] });
}

abbrev with_both : HackModelHolder
with_both = record with_frog {
  count = 2;
  captures = set with_frog.captures 1 (record { actor = some 9; class_name = tank });
}

abbrev full : HackModelHolder
full = record with_frog { count = 128 }

add-frog : add_capture (some 7) frog new_holder ≡ some (true, with_frog)
unfolding add_capture strcpy new_holder empty_entry
add-frog = refl

-- A class name of 22 bytes has no room for its NUL.
add-long_name : add_capture (some 7) (replicate 22 b'a') new_holder ≡ none
unfolding add_capture strcpy new_holder
add-long_name = refl

with_frog-IsValid : IsValid with_frog
with_frog-IsValid = omega arith

full-IsValid : IsValid full
full-IsValid = omega arith

set_current-frog : get_current_actor (set_current frog with_frog).1 ≡ some 7
unfolding get_current_actor set_current actor_at search_name
set_current-frog = refl

get_capture-add_capture_example : (get_capture tank with_both ≡ some 9) × IsValid with_both
unfolding add_capture strcpy search_name
get_capture-add_capture_example =
    get_capture-add_capture (some 9) tank tank with_frog with_both with_frog-IsValid refl
