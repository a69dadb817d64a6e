-- ===== src/Captures/Names.antt =====
-- The table of the classes that can be captured.
use smoo_bazel.Base.{
  ℕ, zero, suc, ◌≤◌, ◌≡◌, refl, subst, Bool, true, ◌&&◌, some, List, [], ◌∷◌, arith, ltb, ltb→lt,
  some_inj, and_split, length, get_elem?, drop, Str, codes, str_eq, c_str, Fits,
}
use smoo_bazel.HackModels.{class_name_size}
use smoo_bazel.Client.Anims.Find.{find_type-listed, IsIndexed}
use smoo_bazel.Socket.Cap.{try_convert_name}
use smoo_bazel.Crc.{hash_str}
use smoo_bazel.Crc.Index.{hash_array}
use smoo_bazel.Crc.Index.Lookup.{ascending}
use smoo_bazel.Captures.{capture_strs, is_in_capture_list}

pub capture_strs-IsIndexed : IsIndexed capture_strs
unfolding ascending hash_array capture_strs hash_str
capture_strs-IsIndexed = record { hashes = refl; size = omega arith }

pub listed-is_in_capture_list :
    (k : ℕ) (name : Str) → get_elem? capture_strs k ≡ some name → is_in_capture_list name ≡ true
unfolding is_in_capture_list
listed-is_in_capture_list k name e =
    rw (find_type-listed capture_strs k name capture_strs-IsIndexed e) refl

-- Is the name, as the hook converts it, one that fits in an entry, and has it no NUL?
fits_entry : Str → Bool
fits_entry s =
    str_eq (c_str (try_convert_name s)) (try_convert_name s)
    && ltb (length (c_str (try_convert_name s))) class_name_size

fitting_entries : List Str → Bool
fitting_entries [] = true
fitting_entries (s ∷ ss) = fits_entry s && fitting_entries ss

-- All names but the first one.
fitting-tail : fitting_entries (drop 1 capture_strs) ≡ true
unfolding fitting_entries fits_entry capture_strs try_convert_name
fitting-tail = refl

get_elem?-fits_entry :
    (ss : List Str) (k : ℕ) (s : Str)
    → fitting_entries ss ≡ true
    → get_elem? ss k ≡ some s
    → fits_entry s ≡ true
unfolding fitting_entries
get_elem?-fits_entry [] k s f e = cc
get_elem?-fits_entry (x ∷ ss) zero s f e =
    subst (λ t. fits_entry t ≡ true) (some_inj e)
      (and_split (fits_entry x) (fitting_entries ss) f).0
get_elem?-fits_entry (x ∷ ss) (suc k) s f e =
    get_elem?-fits_entry ss k s (and_split (fits_entry x) (fitting_entries ss) f).1 e

-- A name that the entries can hold.
pub record IsShort (name : Str) : Type 0 where
  pub no_nul : str_eq (c_str name) name ≡ true
  pub fits : Fits class_name_size name

pub converted-IsShort :
    (k : ℕ) (name : Str)
    → get_elem? capture_strs (suc k) ≡ some name
    → IsShort (try_convert_name name)
unfolding fits_entry capture_strs
converted-IsShort k name e =
    let (no_nul, fits) =
      and_split _ _ (get_elem?-fits_entry (drop 1 capture_strs) k name fitting-tail e) in
    record { no_nul = no_nul; fits = ltb→lt _ _ fits }

-- Its name is not converted, and too long.
pub anagram-kept :
    try_convert_name (codes "AnagramAlphabetCharacter") ≡ codes "AnagramAlphabetCharacter"
unfolding try_convert_name
anagram-kept = refl

pub anagram-long : class_name_size ≤ length (c_str (codes "AnagramAlphabetCharacter"))
anagram-long = omega arith

pub anagram-listed : is_in_capture_list (codes "AnagramAlphabetCharacter") ≡ true
unfolding capture_strs
anagram-listed = listed-is_in_capture_list 0 (codes "AnagramAlphabetCharacter") refl
