-- ===== src/HackModels/Lookup.antt =====
-- Capture models are found by their names.
use mathlib.Core.Option
use native.Mathlib.Numerals.{add-one}
use smoo_bazel.Base.{
  strcpy, ℕ, zero, suc, ◌+◌, ◌≤◌, ◌<◌, ◌≡◌, refl, sym, ap, ◌∙◌, ◌↔◌, inl, inr, Bool, true, false,
  Option, none, some, List, [], ◌∷◌, arith, if◌then◌else◌, Bool-cases, Option-cases, ◌>>=◌, length,
  get_elem?, set, length-set, get_elem?-set_self, get_elem?-set_ne, get_elem?-lt, get_elem?-none→le,
  Str, str_eq, str_eq→eq, c_str,
}
use smoo_bazel.HackModels.{
  max_captures, empty_entry, search_name, is_listed, actor_at, get_capture, get_capture_at,
  add_capture, clear_at, remove_capture, clear_first, reset_list, CaptureEntry, HackModelHolder,
}

-- The array has its 128 entries, and the count is within it.
pub record IsValid (h : HackModelHolder) : Type 0 where
  pub size : length h.captures ≡ max_captures
  pub within : h.count ≤ max_captures

add_capture-IsValid :
    (a : Option ℕ) (name : Str) (h : HackModelHolder) (r : Bool × HackModelHolder)
    → IsValid h
    → add_capture a name h ≡ some r
    → IsValid r.1
unfolding add_capture strcpy
add_capture-IsValid a name h r v e =
    ground (arith, length-set h.captures h.count (record { actor = a; class_name = c_str name }))

clear_at-IsValid : (i : Option ℕ) (h : HackModelHolder) → IsValid h → IsValid (clear_at i h).1
unfolding clear_at
clear_at-IsValid none h v = v
clear_at-IsValid (some i) h v = ground (arith, length-set h.captures i empty_entry)

length-clear_first : (n : ℕ) (es : List CaptureEntry) → length (clear_first n es) ≡ length es
unfolding clear_first
length-clear_first zero es = refl
length-clear_first (suc n) [] = refl
length-clear_first (suc n) (e ∷ es) = ap suc (length-clear_first n es)

-- Writing behind the searched entries is seen once they reach it.
search_name-set :
    (name : Str) (es : List CaptureEntry) (n : ℕ) (e : CaptureEntry)
    → n < length es
    → search_name name (set es n e) (suc n) ≡ elim (search_name name es n) [
      | some i ↦ some i
      | none ↦ if str_eq e.class_name name then some n else none
    ]
unfolding search_name
search_name-set name [] n e h = elim h [ ]
search_name-set name (x ∷ es) zero e h = refl
search_name-set name (x ∷ es) (suc n) e h =
    ground (arith, search_name-set name es n e (omega arith))

search_name-lt :
    (name : Str) (es : List CaptureEntry) (n : ℕ) {i : ℕ} → search_name name es n ≡ some i → i < n
unfolding search_name
search_name-lt name es zero h = cc
search_name-lt name [] (suc n) h = cc
search_name-lt name (x ∷ es) (suc n) h = elim (Option-cases (search_name name es n)) [
  | inl miss ↦ ground (arith, miss)
  | inr (j, hit) ↦ ground (arith, hit, search_name-lt name es n hit)
]

add_capture-eq_some :
    (a : Option ℕ) (name : Str) (h h' : HackModelHolder)
    → add_capture a name h ≡ some (true, h')
    → (h.count < max_captures)
      × (h' ≡ record h {
        captures = set h.captures h.count (record { actor = a; class_name = c_str name });
        count = h.count + 1;
      })
unfolding add_capture strcpy
add_capture-eq_some a name h h' e = ground arith

actor_at-set :
    (es : List CaptureEntry) (n i : ℕ) (e : CaptureEntry)
    → i < n
    → actor_at (set es n e) (some i) ≡ actor_at es (some i)
unfolding actor_at
actor_at-set es n i e h =
    ap (λ o. o >>= λ x. x.actor) (get_elem?-set_ne es e (λ p. absurd (omega (arith, p))))

actor_at-none : (es : List CaptureEntry) → actor_at es none ≡ none
unfolding actor_at
actor_at-none es = refl

actor_at-set_self :
    (es : List CaptureEntry) (n : ℕ) (e : CaptureEntry)
    → n < length es
    → actor_at (set es n e) (some n) ≡ e.actor
unfolding actor_at
actor_at-set_self es n e h = rw (get_elem?-set_self es n e h)

actor_at-search_name-set :
    (name : Str) (es : List CaptureEntry) (n : ℕ) (e : CaptureEntry)
    → n < length es
    → actor_at (set es n e) (search_name name (set es n e) (suc n)) ≡ (
        if elim (search_name name es n) [ none ↦ false | some _ ↦ true ]
        then actor_at es (search_name name es n)
        else (if str_eq e.class_name name then e.actor else none))
actor_at-search_name-set name es n e h =
    rw (search_name-set name es n e h) (elim (Option-cases (search_name name es n)) [
      | inl miss ↦ rw miss (elim (Bool-cases (str_eq e.class_name name)) [
        | inl hit ↦ rw hit (actor_at-set_self es n e h)
        | inr differs ↦ rw differs (actor_at-none (set es n e))
      ])
      | inr (j, hit) ↦ rw hit (actor_at-set es n j e (search_name-lt name es n hit))
    ])

-- After a capture was added, a lookup by name finds the entry that it found before, if there was
-- one, and otherwise the new capture exactly under its own name. The array and its count stay valid.
pub get_capture-add_capture :
    (a : Option ℕ) (name other : Str) (h h' : HackModelHolder)
    → IsValid h
    → add_capture a name h ≡ some (true, h')
    → get_capture other h' ≡ (
        if is_listed other h
        then get_capture other h
        else (if str_eq (c_str name) other then a else none))
      × IsValid h'
unfolding get_capture
get_capture-add_capture a name other h h' v e =
    let (room, same) = add_capture-eq_some a name h h' e in
    (
      rw (same, add-one)
          (actor_at-search_name-set other h.captures h.count
            (record { actor = a; class_name = c_str name }) (omega arith)),
      add_capture-IsValid a name h (true, h') v e,
    )

actor_at-suc :
    (e : CaptureEntry) (es : List CaptureEntry) (o : Option ℕ)
    → actor_at (e ∷ es) (Option.map suc o) ≡ actor_at es o
unfolding actor_at
actor_at-suc e es none = refl
actor_at-suc e es (some i) = refl

search_name-cons :
    (name : Str) (e : CaptureEntry) (es : List CaptureEntry) (n : ℕ)
    → str_eq e.class_name name ≡ false
    → search_name name (e ∷ es) (suc n) ≡ Option.map suc (search_name name es n)
unfolding search_name
search_name-cons name e es n h = rw h

search_name-zero : (name : Str) (es : List CaptureEntry) → search_name name es 0 ≡ none
unfolding search_name
search_name-zero name es = refl

search_name-hit :
    (name : Str) (e : CaptureEntry) (es : List CaptureEntry) (n : ℕ)
    → str_eq e.class_name name ≡ true
    → actor_at (e ∷ es) (search_name name (e ∷ es) (suc n)) ≡ e.actor
unfolding search_name actor_at
search_name-hit name e es n h = rw h

-- Clearing an entry of another name leaves a lookup of a name that is not empty alone.
actor_at-clear :
    (other : Str) (es : List CaptureEntry) (n i : ℕ) (blank : CaptureEntry)
    → str_eq blank.class_name other ≡ false
    → ((x : CaptureEntry) → get_elem? es i ≡ some x → str_eq x.class_name other ≡ false)
    → actor_at (set es i blank) (search_name other (set es i blank) n)
      ≡ actor_at es (search_name other es n)
actor_at-clear other [] n i blank named differs = refl
actor_at-clear other (x ∷ es) zero i blank named differs =
    rw (search_name-zero other (set (x ∷ es) i blank), search_name-zero other (x ∷ es))
      (actor_at-none (set (x ∷ es) i blank) ∙ sym (actor_at-none (x ∷ es)))
actor_at-clear other (x ∷ es) (suc n) zero blank named differs =
    rw (search_name-cons other blank es n named, search_name-cons other x es n (differs x refl))
      (actor_at-suc blank es _ ∙ sym (actor_at-suc x es _))
actor_at-clear other (x ∷ es) (suc n) (suc i) blank named differs =
    elim (Bool-cases (str_eq x.class_name other)) [
      | inl hit ↦
          search_name-hit other x (set es i blank) n hit ∙ sym (search_name-hit other x es n hit)
      | inr miss ↦
          rw (search_name-cons other x (set es i blank) n miss, search_name-cons other x es n miss)
            (actor_at-suc x (set es i blank) _
              ∙ actor_at-clear other es n i blank named differs
              ∙ sym (actor_at-suc x es _))
    ]

search_name-name :
    (name : Str) (es : List CaptureEntry) (n i : ℕ) (x : CaptureEntry)
    → search_name name es n ≡ some i
    → get_elem? es i ≡ some x
    → str_eq x.class_name name ≡ true
unfolding search_name
search_name-name name es zero i x found at_i = cc
search_name-name name [] (suc n) i x found at_i = cc
search_name-name name (e ∷ es) (suc n) i x found at_i =
    elim (Option-cases (search_name name es n)) [
      | inl miss ↦ ground (arith, miss)
      | inr (j, hit) ↦ ground (arith, hit, search_name-name name es n j x hit)
    ]

-- Removing the capture of one name leaves the lookup of any other name as it was, unless that is
-- the empty name. The number of entries stays, so the place is not used again, and the array and
-- its count stay valid.
pub remove_capture-keeps :
    (name other : Str) (h : HackModelHolder)
    → IsValid h
    → str_eq name other ≡ false
    → str_eq [] other ≡ false
    → (get_capture other (remove_capture name h).1 ≡ get_capture other h)
      × ((remove_capture name h).1.count ≡ h.count)
      × IsValid (remove_capture name h).1
unfolding remove_capture get_capture clear_at empty_entry
remove_capture-keeps name other h v differs named =
    elim (Option-cases (search_name name h.captures h.count)) [
      | inl miss ↦ rw (miss, clear_at) (refl, refl, v)
      | inr (i, hit) ↦
          rw (hit, clear_at)
            (
              actor_at-clear other h.captures h.count i empty_entry named (λ x at_i.
                  rw
                    (str_eq→eq x.class_name name
                      (search_name-name name h.captures h.count i x hit at_i))
                    differs),
              refl,
              clear_at-IsValid (some i) h v,
            )
    ]

-- A lookup by index faults exactly at the index 128 of a full array, one past its end; at every
-- other index it answers.
pub get_capture_at-faults :
    (i : ℕ) (h : HackModelHolder)
    → IsValid h
    → (get_capture_at i h ≡ none) ↔ ((i ≡ max_captures) × (h.count ≡ max_captures))
unfolding get_capture_at
get_capture_at-faults i h v = elim (Option-cases (get_elem? h.captures i)) [
  | inl miss ↦
      let past = get_elem?-none→le h.captures i miss in
      (λ e. ground (arith, miss, past, e), λ e. ground (arith, miss, past, e.0, e.1))
  | inr (x, hit) ↦
      let inside = get_elem?-lt h.captures i hit in
      (λ e. ground (arith, hit, inside, e), λ e. absurd (omega (arith, inside, e.0)))
]

-- After a reset no name finds a capture, there are no entries, and the array stays valid.
pub reset_list-finds_none :
    (name : Str) (h : HackModelHolder)
    → IsValid h
    → (get_capture name (reset_list h) ≡ none) × ((reset_list h).count ≡ 0) × IsValid (reset_list h)
unfolding reset_list get_capture
reset_list-finds_none name h v = (
  rw (search_name-zero name (clear_first h.count h.captures)) (actor_at-none _),
  refl,
  record { size = length-clear_first h.count h.captures ∙ v.size; within = omega arith },
)
