-- ===== src/Crc/Index/Tests.antt =====
-- The hash and the search at concrete names.
use smoo_bazel.Base.{◌≡◌, refl, codes}
use smoo_bazel.Crc.{table_at, hash_step, hash_from, hash_str}

check_value : hash_str (codes "123456789") ≡ 0xcbf43926
unfolding hash_str hash_from hash_step table_at
check_value = refl
