-- ===== src/Crc.antt =====
-- Names and their numbers by hash, mod/src/algorithms/crc32.h: `hash_str` is `HashStr`, and
-- Crc/Index.antt is `HashArray`. A byte of a name is its unsigned value: the sign of a `char` reaches
-- only bits that the code masks.
pub mod Table
pub mod Index
use Prim.Native.Nat.{bit_xor}
use smoo_bazel.Base.{ℕ, zero, suc, ◌/◌, ◌%◌, List, [], ◌∷◌, Str}
use smoo_bazel.Crc.Table.{crc_table}

-- `s_Table[i]`
table_at : List ℕ → ℕ → ℕ
table_at [] i = 0
table_at (x ∷ xs) zero = x
table_at (x ∷ xs) (suc i) = table_at xs i

-- The body of the loop of `HashStr`.
hash_step : ℕ → ℕ → ℕ
hash_step crc c = bit_xor (crc / 256) (table_at crc_table (bit_xor crc c % 256))

hash_from : ℕ → Str → ℕ
hash_from crc [] = crc
hash_from crc (c ∷ s) = hash_from (hash_step crc c) s

-- `HashStr`
unfoldable pub hash_str : Str → ℕ
unfolding hash_from hash_step table_at
hash_str s = bit_xor (hash_from 0xffffffff s) 0xffffffff
