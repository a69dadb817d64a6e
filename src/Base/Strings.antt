-- ===== src/Base/Strings.antt =====
-- Byte strings, and C strings in buffers of a fixed size.
use Prim.Native.Nat.{ℕ, ◌<◌}
use Prim.Native.Char.{code}
use Prim.Native.String.{String}
use mathlib.Core.Path.{◌≡◌, refl}
use mathlib.Core.Logic.{◌↔◌}
use mathlib.Core.Bool.{Bool, true, false, ◌&&◌}
use mathlib.Core.List.{List, [], ◌∷◌}
use mathlib.Core.Option.{Option, none, some}
use native.Mathlib.Omega.{arith}
use smoo_bazel.Base.Tests.{ltb, ◌==◌, if◌then◌else◌}
use smoo_bazel.Base.Lists.{length}

-- The bytes of a text.
abbrev pub Str : Type 0
Str = List ℕ

-- An ASCII literal of the source.
abbrev pub codes : String → Str
codes String.[] = []
codes (String.◌∷◌ c s) = code c ∷ codes s

-- `al::isEqualString`, `strcmp(a, b) == 0`, `memcmp(a, b, n) == 0` over equal lengths.
abbrev pub str_eq : Str → Str → Bool
str_eq [] [] = true
str_eq [] (y ∷ ys) = false
str_eq (x ∷ xs) [] = false
str_eq (x ∷ xs) (y ∷ ys) = (x == y) && str_eq xs ys

pub str_eq_refl : (xs : Str) → str_eq xs xs ≡ true
str_eq_refl [] = refl
str_eq_refl (x ∷ xs) = ground (arith, str_eq_refl xs)

pub str_eq→eq : (xs ys : Str) → str_eq xs ys ≡ true → xs ≡ ys
str_eq→eq [] [] h = refl
str_eq→eq [] (y ∷ ys) h = cc
str_eq→eq (x ∷ xs) [] h = cc
str_eq→eq (x ∷ xs) (y ∷ ys) h = ground (arith, str_eq→eq xs ys)

pub str_eq_iff : (xs ys : Str) → (str_eq xs ys ≡ true) ↔ (xs ≡ ys)
str_eq_iff xs ys = (str_eq→eq xs ys, λ e. ground (arith, e, str_eq_refl xs))

-- What `c_str()` shows to a C function: the bytes before the first NUL.
abbrev pub c_str : Str → Str
c_str [] = []
c_str (x ∷ xs) = if x == 0 then [] else x ∷ c_str xs

-- `strcpy` of a string into a buffer of `cap` bytes; past the end it is undefined behaviour.
unfoldable pub strcpy : ℕ → Str → Option Str
strcpy cap s = if ltb (length (c_str s)) cap then some (c_str s) else none

-- The string and its NUL fit in `cap` bytes.
abbrev pub Fits : ℕ → Str → Type 0
Fits cap s = length (c_str s) < cap

pub strcpy-Fits : (cap : ℕ) (s : Str) → Fits cap s → strcpy cap s ≡ some (c_str s)
unfolding strcpy
strcpy-Fits cap s h = ground arith
