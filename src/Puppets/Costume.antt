-- ===== src/Puppets/Costume.antt =====
-- The names of costumes, from mod/src/helpers.hpp and mod/src/helpers.cpp: what PuppetActor.cpp and
-- PuppetCapActor.cpp load for a puppet.
use Prim.Native.String.{String}
use mathlib.Core.List.{Mem, mem-cons, mem-cons_self, mem-cons_of_mem, not-mem-nil}
use mathlib.Core.Logic.Or
use smoo_bazel.Base.{
  ◌≡◌, refl, sym, subst, inl, inr, Bool, true, false, List, [], ◌∷◌, map, if◌then◌else◌, Bool-cases,
  Str, codes, str_eq, str_eq_refl, str_eq→eq,
}
use smoo_bazel.Puppets.Info.{PuppetInfo}

-- `costumeNames`
costume_names : List String
costume_names =
    "Mario" ∷ "Mario64" ∷ "Mario64Metal" ∷ "MarioAloha" ∷ "MarioArmor" ∷ "MarioBone" ∷ "MarioClown"
    ∷ "MarioColorClassic" ∷ "MarioColorGold" ∷ "MarioColorLuigi" ∷ "MarioColorWaluigi"
    ∷ "MarioColorWario" ∷ "MarioCook" ∷ "MarioDiddyKong" ∷ "MarioDoctor" ∷ "MarioExplorer"
    ∷ "MarioFootball" ∷ "MarioGolf" ∷ "MarioGunman" ∷ "MarioHakama" ∷ "MarioHappi" ∷ "MarioKing"
    ∷ "MarioKoopa" ∷ "MarioMaker" ∷ "MarioMechanic" ∷ "MarioNew3DS" ∷ "MarioPainter" ∷ "MarioPeach"
    ∷ "MarioPilot" ∷ "MarioPirate" ∷ "MarioPoncho" ∷ "MarioPrimitiveMan" ∷ "MarioSailor"
    ∷ "MarioScientist" ∷ "MarioShopman" ∷ "MarioSnowSuit" ∷ "MarioSpaceSuit" ∷ "MarioSuit"
    ∷ "MarioSwimwear" ∷ "MarioTailCoat" ∷ "MarioTuxedo" ∷ "MarioUnderwear" ∷ []

pub costume_strs : List Str
unfolding costume_names
costume_strs = map codes costume_names

-- The loop of `isInCostumeList` over the names that are left.
is_among : List Str → Str → Bool
is_among [] name = false
is_among (c ∷ cs) name = if str_eq c name then true else is_among cs name

-- `isInCostumeList`
pub is_in_costume_list : Str → Bool
is_in_costume_list name = is_among costume_strs name

listed_or_mario : Str → Str
listed_or_mario name = if is_in_costume_list name then name else codes "Mario"

-- `tryGetPuppetCapName`; the array `costumeHead` is never a null pointer.
unfoldable pub try_get_puppet_cap_name : PuppetInfo → Str
unfolding listed_or_mario
try_get_puppet_cap_name x = listed_or_mario x.costume_head

-- `tryGetPuppetBodyName`
unfoldable pub try_get_puppet_body_name : PuppetInfo → Str
unfolding listed_or_mario
try_get_puppet_body_name x = listed_or_mario x.costume_body

is_among-Mem : (cs : List Str) (name : Str) → is_among cs name ≡ true → Mem name cs
unfolding is_among
is_among-Mem [] name e = cc
is_among-Mem (c ∷ cs) name e = elim (Bool-cases (str_eq c name)) [
  | inl here ↦ subst (λ n. Mem n (c ∷ cs)) (str_eq→eq c name here) mem-cons_self
  | inr there ↦ mem-cons_of_mem c (is_among-Mem cs name (rw there at e))
]

Mem-is_among : (cs : List Str) (name : Str) → Mem name cs → is_among cs name ≡ true
unfolding is_among
Mem-is_among [] name m = absurd (not-mem-nil m)
Mem-is_among (c ∷ cs) name m = elim (Bool-cases (str_eq c name)) [
  | inl here ↦ rw here refl
  | inr there ↦ rw there (
      Or.elim is_true_prop (mem-cons.0 m) (λ e. absurd (differ e there))
        (λ rest. Mem-is_among cs name rest))
]
  where
    is_true_prop : IsProp (is_among cs name ≡ true)
    is_true_prop = hlevel

    differ : name ≡ c → str_eq c name ≡ false → ⊥
    differ e there =
        let yes_eq : str_eq c name ≡ true =
          subst (λ n. str_eq c n ≡ true) (sym e) (str_eq_refl c) in
        cc

-- What is shown for a name: the name itself, if it is listed, and the plain costume, if not.
pub record Shown (name shown : Str) : Type 0 where
  pub listed : Mem shown costume_strs
  pub kept : Mem name costume_strs → shown ≡ name
  pub plain : ¬ (Mem name costume_strs) → shown ≡ codes "Mario"

mario-Mem : Mem (codes "Mario") costume_strs
unfolding is_among costume_strs
mario-Mem = is_among-Mem costume_strs (codes "Mario") refl

listed_or_mario-Shown : (name : Str) → Shown name (listed_or_mario name)
unfolding listed_or_mario is_in_costume_list
listed_or_mario-Shown name = elim (Bool-cases (is_among costume_strs name)) [
  | inl known ↦
      let m = is_among-Mem costume_strs name known in
      record { listed = rw known m; kept = λ _. rw known refl; plain = λ other. absurd (other m) }
  | inr new ↦ record {
    listed = rw new mario-Mem;
    kept =
        λ m. let known : is_among costume_strs name ≡ true = Mem-is_among costume_strs name m in cc;
    plain = λ _. rw new refl;
  }
]

pub try_get_puppet_cap_name-Shown :
    (x : PuppetInfo) → Shown x.costume_head (try_get_puppet_cap_name x)
unfolding try_get_puppet_cap_name
try_get_puppet_cap_name-Shown x = listed_or_mario-Shown x.costume_head

pub try_get_puppet_body_name-Shown :
    (x : PuppetInfo) → Shown x.costume_body (try_get_puppet_body_name x)
unfolding try_get_puppet_body_name
try_get_puppet_body_name-Shown x = listed_or_mario-Shown x.costume_body
