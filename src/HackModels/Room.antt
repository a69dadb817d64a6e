-- ===== src/HackModels/Room.antt =====
-- Adding capture models to a holder with room, and the empty holder.
use smoo_bazel.Base.{
  strcpy, ℕ, ◌+◌, ◌≤◌, ◌<◌, ◌≡◌, refl, true, false, Option, none, some, arith, lt→ltb, length, set,
  Str, c_str, Fits, strcpy-Fits,
}
use smoo_bazel.HackModels.{
  max_captures, class_name_size, new_holder, search_name, is_listed, actor_at, get_capture,
  add_capture, HackModelHolder,
}
use smoo_bazel.HackModels.Lookup.{IsValid}

-- A name that fits is added to a holder with room.
pub add_capture-Fits :
    (a : Option ℕ) (name : Str) (h : HackModelHolder)
    → h.count < max_captures
    → Fits class_name_size name
    → (h' : HackModelHolder) × (add_capture a name h ≡ some (true, h'))
unfolding add_capture
add_capture-Fits a name h room fits = (
  record h {
    captures = set h.captures h.count (record { actor = a; class_name = c_str name });
    count = h.count + 1;
  },
  rw (lt→ltb h.count max_captures room, strcpy-Fits class_name_size name fits) refl,
)

-- A name that does not fit is written past the end of its entry.
pub add_capture-overflows :
    (a : Option ℕ) (name : Str) (h : HackModelHolder)
    → h.count < max_captures
    → class_name_size ≤ length (c_str name)
    → add_capture a name h ≡ none
unfolding add_capture strcpy
add_capture-overflows a name h room long = ground (arith, room, long)

pub new_holder-IsValid : IsValid new_holder
unfolding new_holder
new_holder-IsValid = record { size = refl; within = omega arith }

pub new_holder-has_room : new_holder.count < max_captures
unfolding new_holder
new_holder-has_room = omega arith

pub new_holder-lists_none : (name : Str) → is_listed name new_holder ≡ false
unfolding new_holder search_name
new_holder-lists_none name = refl

pub new_holder-gets_none : (name : Str) → get_capture name new_holder ≡ none
unfolding new_holder get_capture search_name actor_at
new_holder-gets_none name = refl
