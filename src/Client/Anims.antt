-- ===== src/Client/Anims.antt =====
-- The table of animation names, `s_Strs` of mod/src/algorithms/PlayerAnims.h, and what it is to the
-- buffers of a player's info.
pub mod Find
mod Part1
mod Part2
mod Part3
mod Part4
mod Part5
use Prim.Native.String.{String}
use smoo_bazel.Base.{
  ℕ, zero, suc, ◌≡◌, refl, subst, Bool, true, ◌&&◌, Option, none, some, List, [], ◌∷◌, ◌++◌, map,
  arith, ltb, ltb→lt, some_inj, and_split, length, get_elem?, Str, codes, c_str, Fits, ℤ, pos,
  negsuc,
}
use smoo_bazel.Puppets.Info.{anim_size}
use smoo_bazel.Client.Infos.{find_str}
use smoo_bazel.Client.Anims.Part1.{part_1}
use smoo_bazel.Client.Anims.Part2.{part_2}
use smoo_bazel.Client.Anims.Part3.{part_3}
use smoo_bazel.Client.Anims.Part4.{part_4}
use smoo_bazel.Client.Anims.Part5.{part_5}

-- `s_Strs`
anim_names : List String
anim_names = part_1 ++ part_2 ++ part_3 ++ part_4 ++ part_5

unfoldable pub player_anims : List Str
unfolding anim_names
player_anims = map codes anim_names

-- Does the name with its NUL fit in `curAnimStr`?
fits_anim : String → Bool
fits_anim s = ltb (length (c_str (codes s))) anim_size

fitting : List String → Bool
fitting [] = true
fitting (s ∷ ss) = fits_anim s && fitting ss

anim_names-fitting : fitting anim_names ≡ true
unfolding anim_names fitting fits_anim
anim_names-fitting = refl

get_elem?-Fits :
    (ss : List String) (i : ℕ) (s : Str)
    → fitting ss ≡ true
    → get_elem? (map codes ss) i ≡ some s
    → Fits anim_size s
unfolding fitting fits_anim
get_elem?-Fits [] i s h e = cc
get_elem?-Fits (x ∷ ss) zero s h e =
    subst (Fits anim_size) (some_inj e)
      (ltb→lt (length (c_str (codes x))) anim_size (and_split (fits_anim x) (fitting ss) h).0)
get_elem?-Fits (x ∷ ss) (suc i) s h e =
    get_elem?-Fits ss i s (and_split (fits_anim x) (fitting ss) h).1 e

-- Every number of an animation stands for a name that fits, or for none.
pub find_str-Fits : (t : ℤ) → Fits anim_size (find_str player_anims t)
unfolding find_str player_anims
find_str-Fits (negsuc n) = omega arith
find_str-Fits (pos n) = go (get_elem? player_anims n) refl
  where
    go :
        (o : Option Str)
        → get_elem? player_anims n ≡ o
        → Fits anim_size (elim o [ none ↦ [] | some s ↦ s ])
    go none e = omega arith
    go (some s) e = get_elem?-Fits anim_names n s anim_names-fitting e
