-- ===== src/Client/Find/Spec.antt =====
-- `findPuppetInfo` against a description of what it finds.
use mathlib.Core.Option
use smoo_bazel.Base.{
  ℕ, zero, suc, ◌+◌, ◌≤◌, ◌<◌, ◌≡◌, refl, ap, ◌∙◌, ◌⊎◌, inl, inr, Bool, true, false, not, ◌&&◌,
  Option, none, some, List, [], ◌∷◌, arith, if◌then◌else◌, Bool-cases, length, get_elem?, Str,
  str_eq,
}
use smoo_bazel.Client.Find.{next_available, find_from, find_puppet_info}
use smoo_bazel.Client.State.{loop_bound, Client}
use smoo_bazel.Puppets.Info.{PuppetInfo}

-- `k` is the first of the first `n` indices whose info passes the test.
pub record IsFirst (test : PuppetInfo → Bool) (infos : List PuppetInfo) (n k : ℕ) : Type 0 where
  pub within : k < n
  pub info : PuppetInfo
  pub at_k : get_elem? infos k ≡ some info
  pub passes : test info ≡ true
  pub earlier : (j : ℕ) (x : PuppetInfo) → j < k → get_elem? infos j ≡ some x → test x ≡ false

-- None of the first `n` infos passes the test.
abbrev pub NonePasses : (PuppetInfo → Bool) → List PuppetInfo → ℕ → Type 0
NonePasses test infos n =
    (j : ℕ) (x : PuppetInfo) → j < n → get_elem? infos j ≡ some x → test x ≡ false

first_index : (PuppetInfo → Bool) → List PuppetInfo → ℕ → Option ℕ
first_index test infos zero = none
first_index test [] (suc n) = none
first_index test (x ∷ xs) (suc n) =
    if test x then some 0 else Option.map suc (first_index test xs n)

IsFirst-suc :
    (test : PuppetInfo → Bool) (x : PuppetInfo) (xs : List PuppetInfo) (n k : ℕ)
    → test x ≡ false
    → IsFirst test xs n k
    → IsFirst test (x ∷ xs) (suc n) (suc k)
IsFirst-suc test x xs n k fails f = record {
  within = omega (arith, f.within);
  info = f.info;
  at_k = f.at_k;
  passes = f.passes;
  earlier = before;
}
  where
    before : (j : ℕ) (y : PuppetInfo) → j < suc k → get_elem? (x ∷ xs) j ≡ some y → test y ≡ false
    before zero y h e = ground (arith, fails, e)
    before (suc j) y h e = f.earlier j y (omega arith) e

NonePasses-suc :
    (test : PuppetInfo → Bool) (x : PuppetInfo) (xs : List PuppetInfo) (n : ℕ)
    → test x ≡ false
    → NonePasses test xs n
    → NonePasses test (x ∷ xs) (suc n)
NonePasses-suc test x xs n fails rest zero y h e = ground (arith, fails, e)
NonePasses-suc test x xs n fails rest (suc j) y h e = rest j y (omega arith) e

first_index_lem :
    (test : PuppetInfo → Bool) (infos : List PuppetInfo) (n : ℕ)
    → ((k : ℕ) × (first_index test infos n ≡ some k) × IsFirst test infos n k)
      ⊎ ((first_index test infos n ≡ none) × NonePasses test infos n)
unfolding first_index
first_index_lem test infos zero = inr (refl, λ j x h e. elim h [ ])
first_index_lem test [] (suc n) = inr (refl, λ j x h e. cc)
first_index_lem test (x ∷ xs) (suc n) = elim (Bool-cases (test x)) [
  | inl hit ↦ inl (
    0,
    rw hit refl,
    record {
      within = omega arith;
      info = x;
      at_k = refl;
      passes = hit;
      earlier = λ j y h e. elim h [ ];
    },
  )
  | inr fails ↦ elim (first_index_lem test xs n) [
    | inl (k, e, f) ↦ inl (suc k, rw (fails, e) refl, IsFirst-suc test x xs n k fails f)
    | inr (e, rest) ↦ inr (rw (fails, e) refl, NonePasses-suc test x xs n fails rest)
  ]
]

abbrev or_else : Option ℕ → Option ℕ → Option ℕ
or_else none o = o
or_else (some k) o = some k

abbrev shift : ℕ → Option ℕ → Option ℕ
shift i none = none
shift i (some k) = some (i + k)

shift-zero : (o : Option ℕ) → shift 0 o ≡ o
shift-zero none = refl
shift-zero (some k) = ap some (omega arith)

shift-suc : (i : ℕ) (o : Option ℕ) → shift (i + 1) o ≡ shift i (Option.map suc o)
shift-suc i none = refl
shift-suc i (some k) = ap some (omega arith)

-- The info has this id; the info may be taken by a new player.
abbrev pub has_id : Str → PuppetInfo → Bool
has_id id x = str_eq x.player_id id

abbrev pub is_free : Bool → PuppetInfo → Bool
is_free find_available x = find_available && not x.is_connected

next_available-or_else :
    (av : Bool) (first : Option ℕ) (x : PuppetInfo) (i : ℕ) (o : Option ℕ)
    → or_else (next_available av first x i) (shift i (Option.map suc o))
      ≡ or_else first (shift i (if is_free av x then some 0 else Option.map suc o))
unfolding next_available
next_available-or_else av none x i o = elim (Bool-cases (is_free av x)) [
  | inl free ↦ rw free (ap some (omega arith))
  | inr taken ↦ rw taken refl
]
next_available-or_else av (some f) x i o = refl

find_from_lem :
    (id : Str) (av : Bool) (infos : List PuppetInfo) (n i : ℕ) (first : Option ℕ)
    → n ≤ length infos
    → find_from id av infos n i first
      ≡ some (
          or_else
            (shift i (first_index (has_id id) infos n))
            (or_else first (shift i (first_index (is_free av) infos n))))
unfolding find_from first_index
find_from_lem id av infos zero i none h = refl
find_from_lem id av infos zero i (some f) h = refl
find_from_lem id av [] (suc n) i first h = elim h [ ]
find_from_lem id av (x ∷ xs) (suc n) i first h = elim (Bool-cases (str_eq x.player_id id)) [
  | inl hit ↦ rw hit (ap (λ k. some (some k)) (omega arith))
  | inr miss ↦ rw miss (
      find_from_lem id av xs n (i + 1) (next_available av first x i) (omega arith)
      ∙ rw (shift-suc i (first_index (has_id id) xs n), shift-suc i (first_index (is_free av) xs n))
          (ap (λ o. some (or_else (shift i (Option.map suc (first_index (has_id id) xs n))) o))
            (next_available-or_else av first x i (first_index (is_free av) xs n))))
]

find_at_zero :
    (id : Str) (av : Bool) (infos : List PuppetInfo) (n : ℕ)
    → n ≤ length infos
    → find_from id av infos n 0 none
      ≡ some (or_else (first_index (has_id id) infos n) (first_index (is_free av) infos n))
find_at_zero id av infos n h =
    find_from_lem id av infos n 0 none h
    ∙ rw
        (
          shift-zero (first_index (has_id id) infos n),
          shift-zero (first_index (is_free av) infos n),
        )
        refl

-- What `findPuppetInfo` returns: the first info with the id; where there is none, the first info
-- that nobody is connected to, if one is asked for; and otherwise a null pointer.
pub data Finds (id : Str) (find_available : Bool) (c : Client) (r : Option ℕ) : Type 0 where
  found :
      (k : ℕ)
      → r ≡ some k
      → IsFirst (has_id id) c.puppet_infos (loop_bound c.max_puppets) k
      → Finds id find_available c r
  available :
      (k : ℕ)
      → r ≡ some k
      → NonePasses (has_id id) c.puppet_infos (loop_bound c.max_puppets)
      → IsFirst (is_free find_available) c.puppet_infos (loop_bound c.max_puppets) k
      → Finds id find_available c r
  missing :
      r ≡ none
      → NonePasses (has_id id) c.puppet_infos (loop_bound c.max_puppets)
      → NonePasses (is_free find_available) c.puppet_infos (loop_bound c.max_puppets)
      → Finds id find_available c r

-- Where the array has as many infos as the server lets in puppets, `findPuppetInfo` stays inside
-- the array and returns what `Finds` describes.
pub find_puppet_info-Finds :
    (id : Str) (find_available : Bool) (c : Client)
    → loop_bound c.max_puppets ≤ length c.puppet_infos
    → (r : Option ℕ) × (find_puppet_info id find_available c ≡ some r) × Finds id find_available c r
unfolding find_puppet_info
find_puppet_info-Finds id av c h =
    let n = loop_bound c.max_puppets in
    let code = find_at_zero id av c.puppet_infos n h in
    elim (first_index_lem (has_id id) c.puppet_infos n) [
      | inl (k, e, f) ↦ (some k, code ∙ rw e refl, found k refl f)
      | inr (e, no_match) ↦ elim (first_index_lem (is_free av) c.puppet_infos n) [
        | inl (k, e', f) ↦ (some k, code ∙ rw (e, e') refl, available k refl no_match f)
        | inr (e', no_free) ↦ (none, code ∙ rw (e, e') refl, missing refl no_match no_free)
      ]
    ]

find_from-none :
    (id : Str) (av : Bool) (infos : List PuppetInfo) (n i : ℕ) (first : Option ℕ)
    → length infos < n
    → NonePasses (has_id id) infos (length infos)
    → find_from id av infos n i first ≡ none
unfolding find_from
find_from-none id av infos zero i first h v = elim h [ ]
find_from-none id av [] (suc n) i first h v = refl
find_from-none id av (x ∷ xs) (suc n) i first h v = rw (v 0 x (omega arith) refl) (
    find_from-none id av xs n (i + 1) (next_available av first x i) (omega arith)
      (λ j y below e. v (suc j) y (omega arith) e))

-- A server that lets in more puppets than the array has infos makes the lookup of any id that the
-- array does not hold read past its end.
pub find_puppet_info-faults :
    (id : Str) (find_available : Bool) (c : Client)
    → length c.puppet_infos < loop_bound c.max_puppets
    → NonePasses (has_id id) c.puppet_infos (length c.puppet_infos)
    → find_puppet_info id find_available c ≡ none
unfolding find_puppet_info
find_puppet_info-faults id av c h v =
    find_from-none id av c.puppet_infos (loop_bound c.max_puppets) 0 none h v
