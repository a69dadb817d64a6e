-- ===== src/Hns/Catch.antt =====
-- Which puppets catch the player in hide and seek.
use smoo_bazel.Base.{
  ℕ, zero, suc, ◌<◌, ◌≡◌, refl, sym, ap, ◌∙◌, ◌⊎◌, inl, inr, Bool, true, false, not, ◌&&◌, ◌||◌,
  some, List, [], ◌∷◌, arith, bool_eq, if◌then◌else◌, Bool-cases, some_inj, get_elem?, take, any,
}
use smoo_bazel.Puppets.Info.{PuppetInfo}
use smoo_bazel.Game.{tag_distance, Player, Call, Game}
use smoo_bazel.Hns.{catches}

-- Closer than 200, in the same dimension.
abbrev pub IsClose : Game → Player → PuppetInfo → Type 0
IsClose g p x =
    (g.fl.lt (g.distance p.trans x.player_pos) tag_distance ≡ true)
    × (bool_eq p.is_2d x.is_2d ≡ true)

-- The puppet of the info catches a player who is dead or not.
pub record Catcher (g : Game) (p : Player) (dead : Bool) (x : PuppetInfo) : Type 0 where
  pub joined : x.is_connected ≡ true
  pub here : x.is_in_same_stage ≡ true
  pub seeks : x.is_it ≡ true
  pub meets : (IsClose g p x × (dead ≡ false)) ⊎ ((¬ IsClose g p x) × (dead ≡ true))

pub and_true : (a b : Bool) → (a && b) ≡ true → (a ≡ true) × (b ≡ true)
and_true true b e = (refl, e)
and_true false b e = cc

pub true_and : {a b : Bool} → a ≡ true → b ≡ true → (a && b) ≡ true
true_and {b = b} ea eb = ap (λ a. a && b) ea ∙ eb

meets-tests :
    (a b dead : Bool)
    → (if a && b then not dead else dead) ≡ true
    → (((a ≡ true) × (b ≡ true)) × (dead ≡ false)) ⊎ ((¬ ((a ≡ true) × (b ≡ true))) × (dead ≡ true))
meets-tests true true true e = cc
meets-tests true true false e = inl ((refl, refl), refl)
meets-tests true false dead e = inr (λ q. let no : false ≡ true = q.1 in cc, e)
meets-tests false b dead e = inr (λ q. let no : false ≡ true = q.0 in cc, e)

tests-meets :
    (a b dead : Bool)
    → (((a ≡ true) × (b ≡ true)) × (dead ≡ false)) ⊎ ((¬ ((a ≡ true) × (b ≡ true))) × (dead ≡ true))
    → (if a && b then not dead else dead) ≡ true
tests-meets true true dead (inl (q, e)) = ap not e
tests-meets true true dead (inr (n, e)) = absurd (n (refl, refl))
tests-meets true false dead (inl (q, e)) = let no : false ≡ true = q.1 in cc
tests-meets true false dead (inr (n, e)) = e
tests-meets false b dead (inl (q, e)) = let no : false ≡ true = q.0 in cc
tests-meets false b dead (inr (n, e)) = e

module _ (g : Game) (p : Player) (calls : List Call) where
  pub catches-Catcher :
      (x : PuppetInfo)
      → catches g p calls x ≡ true
      → (p.has_info ≡ true) × Catcher g p (g.is_dead calls) x
  unfolding catches
  catches-Catcher x e =
      let (e3, tested) = and_true _ _ e in
      let (e2, info) = and_true _ p.has_info e3 in
      let (e1, seeks) = and_true _ x.is_it e2 in
      let (joined, here) = and_true x.is_connected x.is_in_same_stage e1 in
      (
        info,
        record {
          joined = joined;
          here = here;
          seeks = seeks;
          meets = meets-tests _ _ (g.is_dead calls) tested;
        },
      )

  pub Catcher-catches :
      (x : PuppetInfo)
      → p.has_info ≡ true
      → Catcher g p (g.is_dead calls) x
      → catches g p calls x ≡ true
  unfolding catches
  Catcher-catches x info v =
      true_and (true_and (true_and (true_and v.joined v.here) v.seeks) info)
        (tests-meets _ _ (g.is_dead calls) v.meets)

pub any-found :
    (q : PuppetInfo → Bool) (n : ℕ) (xs : List PuppetInfo)
    → any q (take n xs) ≡ true
    → (k : ℕ) × (x : PuppetInfo) × (k < n) × (get_elem? xs k ≡ some x) × (q x ≡ true)
any-found q zero xs e = cc
any-found q (suc n) [] e = cc
any-found q (suc n) (x ∷ xs) e = elim (Bool-cases (q x)) [
  | inl yes_x ↦ (0, x, omega arith, refl, yes_x)
  | inr not_x ↦
      let (k, y, inside, at_k, found) =
        any-found q n xs (sym (ap (λ b. b || any q (take n xs)) not_x) ∙ e) in
      (suc k, y, omega arith, at_k, found)
]

pub found-any :
    (q : PuppetInfo → Bool) (n : ℕ) (xs : List PuppetInfo) (k : ℕ) (x : PuppetInfo)
    → k < n
    → get_elem? xs k ≡ some x
    → q x ≡ true
    → any q (take n xs) ≡ true
found-any q zero xs k x inside at_k e = absurd (omega arith)
found-any q (suc n) [] zero x inside at_k e = cc
found-any q (suc n) [] (suc k) x inside at_k e = cc
found-any q (suc n) (y ∷ ys) zero x inside at_k e =
    ap (λ b. b || any q (take n ys)) (ap q (some_inj at_k) ∙ e)
found-any q (suc n) (y ∷ ys) (suc k) x inside at_k e =
    or_true (q y) (found-any q n ys k x (omega arith) at_k e)
  where
    or_true : (a : Bool) {b : Bool} → b ≡ true → (a || b) ≡ true
    or_true true e = refl
    or_true false e = e
