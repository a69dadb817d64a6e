-- ===== src/HackModels.antt =====
-- mod/src/puppets/HackModelHolder.hpp and mod/src/server/HackModelHolder.cpp: the capture models that
-- one puppet can take. `none` as a result is an access outside of the array of 128 entries, or a name
-- of more than 21 bytes.
pub mod Lookup
pub mod Room
mod Tests
use mathlib.Core.Option
use smoo_bazel.Base.{
  strcpy, ℕ, zero, suc, ◌+◌, Bool, true, false, Option, none, some, List, [], ◌∷◌, ltb, leb,
  if◌then◌else◌, ◌>>=◌, get_elem?, set, replicate, Str, codes, str_eq,
}

-- `CaptureEntry`. An actor is the number of the object that the pointer names.
pub record CaptureEntry : Type 0 where
  pub actor : Option ℕ
  pub class_name : Str

pub record HackModelHolder : Type 0 where
  pub count : ℕ
  -- `mCurCapture` points into the array.
  pub current : Option ℕ
  pub captures : List CaptureEntry

abbrev pub max_captures : ℕ
max_captures = 128

abbrev pub class_name_size : ℕ
class_name_size = 0x16

pub empty_entry : CaptureEntry
empty_entry = record { actor = none; class_name = [] }

-- `new HackModelHolder()` zeroes the object.
pub new_holder : HackModelHolder
new_holder = record { count = 0; current = none; captures = replicate max_captures empty_entry }

-- The loop that the lookups by name share: the first of the first `n` entries with this name.
pub search_name : Str → List CaptureEntry → ℕ → Option ℕ
search_name name es zero = none
search_name name [] (suc n) = none
search_name name (e ∷ es) (suc n) =
    if str_eq e.class_name name then some 0 else Option.map suc (search_name name es n)

-- Is there an entry of this name?
abbrev pub is_listed : Str → HackModelHolder → Bool
is_listed name h = elim (search_name name h.captures h.count) [ none ↦ false | some _ ↦ true ]

-- The actor of an entry that was found, `nullptr` otherwise.
actor_at : List CaptureEntry → Option ℕ → Option ℕ
actor_at es none = none
actor_at es (some i) = get_elem? es i >>= λ e. e.actor

-- `getCapture(const char*)`
pub get_capture : Str → HackModelHolder → Option ℕ
get_capture name h = actor_at h.captures (search_name name h.captures h.count)

-- `getCapture(int)`; the test lets `index == mCaptureCount` through.
pub get_capture_at : ℕ → HackModelHolder → Option (Option ℕ)
get_capture_at i h =
    if leb i h.count
    then Option.map (λ (e : CaptureEntry). e.actor) (get_elem? h.captures i)
    else some none

-- `getCaptureClass`
pub get_capture_class : ℕ → HackModelHolder → Option Str
get_capture_class i h =
    if leb i h.count
    then Option.map (λ (e : CaptureEntry). e.class_name) (get_elem? h.captures i)
    else some (codes "Unknown")

pub add_capture : Option ℕ → Str → HackModelHolder → Option (Bool × HackModelHolder)
add_capture actor name h =
    if ltb h.count max_captures
    then (do
      s ← strcpy class_name_size name
      some (
        true,
        record h {
          captures = set h.captures h.count (record { actor = actor; class_name = s });
          count = h.count + 1;
        },
      ))
    else some (false, h)

-- The entry stays in the list with no actor and the empty name.
clear_at : Option ℕ → HackModelHolder → Bool × HackModelHolder
clear_at none h = (false, h)
clear_at (some i) h = (true, record h { captures = set h.captures i empty_entry })

pub remove_capture : Str → HackModelHolder → Bool × HackModelHolder
remove_capture name h = clear_at (search_name name h.captures h.count) h

clear_first : ℕ → List CaptureEntry → List CaptureEntry
clear_first zero es = es
clear_first (suc n) [] = []
clear_first (suc n) (e ∷ es) = empty_entry ∷ clear_first n es

pub reset_list : HackModelHolder → HackModelHolder
reset_list h = record h { captures = clear_first h.count h.captures; count = 0 }

-- `setCurrent`
pub set_current : Str → HackModelHolder → Bool × HackModelHolder
set_current name h =
    let found = search_name name h.captures h.count in
    (elim found [ none ↦ false | some _ ↦ true ], record h { current = found })

-- `getCurrentActor`
pub get_current_actor : HackModelHolder → Option ℕ
get_current_actor h = actor_at h.captures h.current

-- `getCurrentActorName`, `nullptr` where there is no current capture.
pub get_current_actor_name : HackModelHolder → Option Str
get_current_actor_name h =
    h.current >>= λ i. Option.map (λ (e : CaptureEntry). e.class_name) (get_elem? h.captures i)
