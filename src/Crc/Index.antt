-- ===== src/Crc/Index.antt =====
-- `HashArray` of mod/src/algorithms/crc32.h: the hashes of an array of names with their places, in
-- order of the hash, and the search for a name in it. `std::sort` is an insertion sort here.
pub mod Lookup
mod Tests
use smoo_bazel.Base.{ℕ, ◌+◌, List, [], ◌∷◌, ltb, ◌==◌, if◌then◌else◌, Str, ℤ, pos, negsuc}
use smoo_bazel.Crc.{hash_str}

-- `PairType`
abbrev pub Row : Type 0
Row = ℕ × ℕ

-- The loop of the constructor of `HashArray`, from the place `i` on.
pub rows_from : ℕ → List Str → List Row
rows_from i [] = []
rows_from i (s ∷ ss) = (hash_str s, i) ∷ rows_from (i + 1) ss

pub insert_row : Row → List Row → List Row
insert_row r [] = r ∷ []
insert_row r (x ∷ xs) = if ltb x.0 r.0 then x ∷ insert_row r xs else r ∷ x ∷ xs

pub sort_rows : List Row → List Row
sort_rows [] = []
sort_rows (r ∷ rs) = insert_row r (sort_rows rs)

-- `HashArray`
unfoldable pub hash_array : List Str → List Row
unfolding rows_from insert_row sort_rows
hash_array strs = sort_rows (rows_from 0 strs)

-- `std::ranges::lower_bound`: the rows from the first one on whose hash is not below.
pub lower_bound : ℕ → List Row → List Row
lower_bound h [] = []
lower_bound h (x ∷ xs) = if ltb x.0 h then lower_bound h xs else x ∷ xs

-- What `FindIndex` does at the place that it found.
pub index_at : ℕ → List Row → ℤ
index_at h [] = negsuc 0
index_at h (x ∷ xs) = if x.0 == h then pos x.1 else negsuc 0

-- `FindIndex`
pub find_index : List Row → Str → ℤ
find_index rows s = index_at (hash_str s) (lower_bound (hash_str s) rows)
