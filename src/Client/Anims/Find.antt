-- ===== src/Client/Anims/Find.antt =====
-- `FindType` of mod/src/algorithms/PlayerAnims.h, which the headers of the other tables share, and
-- `FindStr` after it.
use smoo_bazel.Base.{
  ℕ, zero, suc, ◌≤◌, ◌<◌, ◌≡◌, refl, ap, ◌∙◌, ◌⊎◌, inl, inr, true, some, List, [], ◌∷◌, arith,
  length, get_elem?, Str, ℤ, pos, negsuc,
}
use smoo_bazel.Packets.{s16_of}
use smoo_bazel.Crc.{hash_str}
use smoo_bazel.Crc.Index.{hash_array, find_index}
use smoo_bazel.Crc.Index.Lookup.{ascending, find_index-listed, find_index-found, find_index-cases}
use smoo_bazel.Client.Infos.{find_str}
use smoo_bazel.Client.Anims.{player_anims}

-- `FindType`, with `s_Hashes` made of the names; the number that `FindIndex` returns goes through a
-- `uint16_t` to the `s16` of the type.
pub find_type : List Str → Str → ℤ
find_type strs s = s16_of (find_index (hash_array strs) s)

pub get_elem?-lt-length :
    (xs : List Str) (k : ℕ) (s : Str) → get_elem? xs k ≡ some s → k < length xs
get_elem?-lt-length [] k s e = cc
get_elem?-lt-length (x ∷ xs) zero s e = omega arith
get_elem?-lt-length (x ∷ xs) (suc k) s e = omega (arith, get_elem?-lt-length xs k s e)

lt-length-get_elem? :
    (xs : List Str) (k : ℕ) → k < length xs → (s : Str) × (get_elem? xs k ≡ some s)
lt-length-get_elem? [] k h = absurd (omega arith)
lt-length-get_elem? (x ∷ xs) zero h = (x, refl)
lt-length-get_elem? (x ∷ xs) (suc k) h = lt-length-get_elem? xs k (omega arith)

pub s16_of-pos : (k : ℕ) → k < 32768 → s16_of (pos k) ≡ pos k
s16_of-pos k h = ground arith

-- A table of at most 32768 names with different hashes.
pub record IsIndexed (strs : List Str) : Type 0 where
  pub hashes : ascending (hash_array strs) ≡ true
  pub size : length strs ≤ 32768

pub find_type-listed :
    (strs : List Str) (k : ℕ) (s : Str)
    → IsIndexed strs
    → get_elem? strs k ≡ some s
    → find_type strs s ≡ pos k
unfolding find_type
find_type-listed strs k s v e =
    ap s16_of (find_index-listed strs k s v.hashes e)
    ∙ s16_of-pos k (omega (arith, v.size, get_elem?-lt-length strs k s e))

pub find_str-listed :
    (strs : List Str) (k : ℕ) (s : Str) → get_elem? strs k ≡ some s → find_str strs (pos k) ≡ s
unfolding find_str
find_str-listed strs k s e = ground (arith, e)

-- `FindStr` and then `FindType` return the number that they started from, for the numbers of the
-- table.
pub find_type-find_str :
    (strs : List Str) (k : ℕ)
    → IsIndexed strs
    → k < length strs
    → find_type strs (find_str strs (pos k)) ≡ pos k
find_type-find_str strs k v h =
    let (s, e) = lt-length-get_elem? strs k h in
    rw (find_str-listed strs k s e) (find_type-listed strs k s v e)

-- `FindType` returns -1, or the number of a name that has the same hash.
pub find_type-cases :
    (strs : List Str) (s : Str)
    → IsIndexed strs
    → (find_type strs s ≡ negsuc 0)
      ⊎ ((k : ℕ) × (t : Str) × (find_type strs s ≡ pos k)
          × (get_elem? strs k ≡ some t)
          × (hash_str t ≡ hash_str s))
unfolding find_type
find_type-cases strs s v = elim (find_index-cases (hash_array strs) s) [
  | inl unknown ↦ inl (ap s16_of unknown)
  | inr (k, e) ↦
      let (t, at, hash) = find_index-found strs k s e in
      let small = s16_of-pos k (omega (arith, v.size, get_elem?-lt-length strs k t at)) in
      inr (k, t, ap s16_of e ∙ small, at, hash)
]

pub player_anims-IsIndexed : IsIndexed player_anims
unfolding ascending hash_array player_anims hash_str
player_anims-IsIndexed = record { hashes = refl; size = omega arith }
