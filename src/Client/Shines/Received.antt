-- ===== src/Client/Shines/Received.antt =====
-- Which shines the array holds after a sequence of packets.
use mathlib.Core.Path.{ap₂, subst₂}
use mathlib.Core.Logic.Or
use mathlib.Core.List.{append-nil, Mem, mem-cons, mem-cons_self, mem-cons_of_mem, not-mem-nil}
use smoo_bazel.Base.{
  ℕ, zero, suc, ◌+◌, ◌-◌, ◌<◌, min, ◌≡◌, refl, sym, ap, ◌∙◌, subst, ◌↔◌, inl, inr, Bool, true,
  false, not, ◌&&◌, List, [], ◌∷◌, ◌++◌, arith, if◌then◌else◌, Bool-cases, if_intro, length, set,
  take, replicate, length-append, length-take, is_neg, ltb_ℤ, eq_ℤ, ℤ, pos,
}
use smoo_bazel.Client.Infos.Limit.{KeepsMax}
use smoo_bazel.Client.State.{max_shines, Client}
use smoo_bazel.Client.Shines.{
  no_shine, update_shine_info, holds_shine, is_shine_collected, reset_collected_shines, remove_from,
  remove_shine, receive_shines,
}

set-append :
    (xs ys : List ℤ) (y v : ℤ) → set (xs ++ (y ∷ ys)) (length xs) v ≡ (xs ++ (v ∷ [])) ++ ys
set-append [] ys y v = refl
set-append (x ∷ xs) ys y v = ap (λ l. x ∷ l) (set-append xs ys y v)

-- The array holds `done` and then `r` free places, and the count says so.
record Holds (done : List ℤ) (r : ℕ) (c : Client) : Type 0 where
  size : length done + r ≡ max_shines
  count : c.collected_shine_count ≡ pos (length done)
  shines : c.collected_shines ≡ done ++ replicate r no_shine

pub update_shine_info-keeps :
    (id : ℤ) (c : Client)
    → ((update_shine_info id c).puppet_infos ≡ c.puppet_infos)
      × ((update_shine_info id c).connect_count ≡ c.connect_count)
unfolding update_shine_info
update_shine_info-keeps id c =
    if_intro
      (λ (d : Client). (d.puppet_infos ≡ c.puppet_infos) × (d.connect_count ≡ c.connect_count))
      (ltb_ℤ c.collected_shine_count (pos 127)) (refl, refl) (refl, refl)

pub update_shine_info-KeepsMax : (id : ℤ) (c : Client) → KeepsMax c (update_shine_info id c)
unfolding update_shine_info
update_shine_info-KeepsMax id c =
    if_intro (KeepsMax c) (ltb_ℤ c.collected_shine_count (pos 127)) refl refl

update-below :
    (n : ℕ) (id : ℤ) (c : Client)
    → c.collected_shine_count ≡ pos n
    → n < 127
    → update_shine_info id c ≡ record c {
      collected_shines = set c.collected_shines n id;
      collected_shine_count = pos (suc n);
    }
unfolding update_shine_info
update-below n id c e h = ground (arith, e)

update-Holds :
    (done : List ℤ) (r : ℕ) (id : ℤ) (c : Client)
    → Holds done (suc (suc r)) c
    → Holds (done ++ (id ∷ [])) (suc r) (update_shine_info id c)
update-Holds done r id c h =
    rw (update-below (length done) id c h.count (omega (arith, h.size))) (record {
      size = omega (arith, h.size, longer);
      count = ap pos (omega (arith, longer));
      shines = rw h.shines (set-append done (replicate (suc r) no_shine) no_shine id);
    })
  where
    longer : length (done ++ (id ∷ [])) ≡ length done + 1
    longer = length-append done (id ∷ [])

update-Holds_full :
    (done : List ℤ) (id : ℤ) (c : Client) → Holds done 1 c → update_shine_info id c ≡ c
unfolding update_shine_info
update-Holds_full done id c h = ground (arith, h.size, h.count)

take-nil : (n : ℕ) → take {A = ℤ} n [] ≡ []
take-nil zero = refl
take-nil (suc n) = refl

append-cons : (xs ys : List ℤ) (y : ℤ) → (xs ++ (y ∷ [])) ++ ys ≡ xs ++ (y ∷ ys)
append-cons [] ys y = refl
append-cons (x ∷ xs) ys y = ap (λ l. x ∷ l) (append-cons xs ys y)

receive-Holds :
    (ids done : List ℤ) (r : ℕ) (c : Client)
    → Holds done (suc r) c
    → Holds (done ++ take r ids) (suc (r - length ids)) (receive_shines ids c)
unfolding receive_shines
receive-Holds [] done r c h =
    subst₂ (λ d n. Holds d n c) (sym (append-nil done) ∙ ap (◌++◌ done) (sym (take-nil r)))
      (omega arith) h
receive-Holds (id ∷ ids) done zero c h = rw (update-Holds_full done id c h) (
    subst (λ n. Holds (done ++ []) n (receive_shines ids c)) (omega arith)
      (receive-Holds ids done zero c h))
receive-Holds (id ∷ ids) done (suc r) c h =
    subst₂ (λ d n. Holds d n (receive_shines ids (update_shine_info id c)))
      (append-cons done (take r ids) id) (omega arith)
      (receive-Holds ids (done ++ (id ∷ [])) r (update_shine_info id c)
        (update-Holds done r id c h))

reset-Holds : (c : Client) → Holds [] max_shines (reset_collected_shines c)
unfolding reset_collected_shines
reset-Holds c = record { size = refl; count = refl; shines = refl }

pub holds_shine-free : (id : ℤ) (r : ℕ) → holds_shine id (replicate r no_shine) ≡ false
unfolding holds_shine
holds_shine-free id zero = refl
holds_shine-free id (suc r) = holds_shine-free id r

holds_shine-append :
    (id : ℤ) (xs : List ℤ) (r : ℕ) → holds_shine id (xs ++ replicate r no_shine) ≡ holds_shine id xs
unfolding holds_shine
holds_shine-append id [] r = holds_shine-free id r
holds_shine-append id (x ∷ xs) r =
    ap (λ b. if not (is_neg x) && eq_ℤ x id then true else b) (holds_shine-append id xs r)

pub test_hit : (id x : ℤ) → (not (is_neg x) && eq_ℤ x id) ≡ true → (id ≡ x) × (is_neg id ≡ false)
test_hit id x h = ground arith

test_self : (id : ℤ) → is_neg id ≡ false → (not (is_neg id) && eq_ℤ id id) ≡ true
test_self id sign = ground arith

holds_shine_self : (id : ℤ) (xs : List ℤ) → is_neg id ≡ false → holds_shine id (id ∷ xs) ≡ true
unfolding holds_shine
holds_shine_self id xs sign = rw (test_self id sign) refl

holds_shine-cons :
    (id x : ℤ) (xs : List ℤ) → holds_shine id xs ≡ true → holds_shine id (x ∷ xs) ≡ true
unfolding holds_shine
holds_shine-cons id x xs h = rw h (if_same (not (is_neg x) && eq_ℤ x id))
  where
    if_same : (b : Bool) → (if b then true else true) ≡ true
    if_same true = refl
    if_same false = refl

holds_shine-mem :
    (id : ℤ) (xs : List ℤ) → holds_shine id xs ≡ true → (is_neg id ≡ false) × Mem id xs
unfolding holds_shine
holds_shine-mem id [] h = cc
holds_shine-mem id (x ∷ xs) h = elim (Bool-cases (not (is_neg x) && eq_ℤ x id)) [
  | inl hit ↦ let (same_id, sign) = test_hit id x hit in (sign, rw same_id mem-cons_self)
  | inr miss ↦ let (sign, m) = holds_shine-mem id xs (rw miss at h) in (sign, mem-cons_of_mem x m)
]

mem-holds_shine : (id : ℤ) (xs : List ℤ) → is_neg id ≡ false → Mem id xs → holds_shine id xs ≡ true
mem-holds_shine id [] sign m = absurd (not-mem-nil m)
mem-holds_shine id (x ∷ xs) sign m =
    Or.elim is_true_prop (mem-cons.0 m)
      (λ e. subst (λ y. holds_shine id (y ∷ xs) ≡ true) e (holds_shine_self id xs sign))
      (λ rest. holds_shine-cons id x xs (mem-holds_shine id xs sign rest))
  where
    is_true_prop : IsProp (holds_shine id (x ∷ xs) ≡ true)
    is_true_prop = hlevel

-- After a reset and any sequence of collected shines the array holds the first 127 of them in
-- order, and then free places; the count is the number of shines in it.
pub receive_shines-first :
    (ids : List ℤ) (c : Client)
    → let c' = receive_shines ids (reset_collected_shines c) in
      (c'.collected_shines ≡ take 127 ids ++ replicate (suc (127 - length ids)) no_shine)
      × (c'.collected_shine_count ≡ pos (min 127 (length ids)))
receive_shines-first ids c =
    let h = receive-Holds ids [] 127 (reset_collected_shines c) (reset-Holds c) in
    (h.shines, h.count ∙ ap pos (length-take 127 ids))

-- After a reset and any sequence of collected shines, a shine counts as collected exactly if its
-- id is not negative and is among the first 127 that came in.
pub is_shine_collected-mem :
    (id : ℤ) (ids : List ℤ) (c : Client)
    → (is_shine_collected id (receive_shines ids (reset_collected_shines c)) ≡ true)
      ↔ ((is_neg id ≡ false) × Mem id (take 127 ids))
unfolding is_shine_collected
is_shine_collected-mem id ids c =
    rw
      (
        (receive_shines-first ids c).0,
        holds_shine-append id (take 127 ids) (suc (127 - length ids)),
      )
      (holds_shine-mem id (take 127 ids), λ m. mem-holds_shine id (take 127 ids) m.0 m.1)

test_other : (id x : ℤ) → eq_ℤ x id ≡ false → (not (is_neg x) && eq_ℤ x id) ≡ false
test_other id x h = ground (arith, h)

-- The client after a reset, the shines `a` and `b`, and the removal of `a`.
removed : ℤ → ℤ → Client → Client
removed a b c = record c {
  collected_shines = no_shine ∷ b ∷ replicate 126 no_shine;
  collected_shine_count = pos 1;
}

remove_from-free :
    (a : ℤ) (r : ℕ) (n : ℤ)
    → is_neg a ≡ false
    → remove_from a (replicate r no_shine) n ≡ (replicate r no_shine, n)
unfolding remove_from
remove_from-free a zero n h = refl
remove_from-free a (suc r) n h = rw (free_differs a h, remove_from-free a r n h) refl
  where
    free_differs : (a : ℤ) → is_neg a ≡ false → eq_ℤ no_shine a ≡ false
    free_differs a h = ground arith

eq_ℤ_self : (a : ℤ) → eq_ℤ a a ≡ true
eq_ℤ_self a = ground arith

remove_from-two :
    (a b : ℤ) (rest : List ℤ)
    → eq_ℤ b a ≡ false
    → remove_from a rest (pos 1) ≡ (rest, pos 1)
    → remove_from a (a ∷ b ∷ rest) (pos 2) ≡ (no_shine ∷ b ∷ rest, pos 1)
unfolding remove_from
remove_from-two a b rest hab h = rw (eq_ℤ_self a, hab, h) refl

remove_shine-eq :
    (a : ℤ) (c : Client) (xs ys : List ℤ) (m n : ℤ)
    → c.collected_shines ≡ xs
    → c.collected_shine_count ≡ m
    → remove_from a xs m ≡ (ys, n)
    → remove_shine a c ≡ record c { collected_shines = ys; collected_shine_count = n }
unfolding remove_shine
remove_shine-eq a c xs ys m n shines count h =
    ap (λ (p : List ℤ × ℤ). record c { collected_shines = p.0; collected_shine_count = p.1 })
      (ap (λ (p : List ℤ × ℤ). remove_from a p.0 p.1) (ap₂ (λ l k. (l, k)) shines count) ∙ h)

remove_shine-removed :
    (a b : ℤ) (c : Client)
    → is_neg a ≡ false
    → eq_ℤ b a ≡ false
    → remove_shine a (receive_shines (a ∷ b ∷ []) (reset_collected_shines c)) ≡ removed a b c
unfolding receive_shines reset_collected_shines update_shine_info removed
remove_shine-removed a b c ha hab =
    remove_shine-eq a (receive_shines (a ∷ b ∷ []) (reset_collected_shines c))
      (a ∷ b ∷ replicate 126 no_shine) (no_shine ∷ b ∷ replicate 126 no_shine) (pos 2) (pos 1) refl
      refl (remove_from-two a b (replicate 126 no_shine) hab (remove_from-free a 126 (pos 1) ha))

-- A removed shine leaves its place free but lowers the count, so the next shine that comes in
-- overwrites one that is still held: after `a` and `b` are collected and `a` is removed, `b` is
-- held; the shine `x` then takes the place of `b`, and `b` does not count as collected.
pub remove_shine-loses :
    (a b x : ℤ) (c : Client)
    → is_neg a ≡ false
    → is_neg b ≡ false
    → eq_ℤ b a ≡ false
    → eq_ℤ x b ≡ false
    → let c' = remove_shine a (receive_shines (a ∷ b ∷ []) (reset_collected_shines c)) in
      (is_shine_collected b c' ≡ true) × (is_shine_collected b (update_shine_info x c') ≡ false)
unfolding is_shine_collected removed update_shine_info holds_shine
remove_shine-loses a b x c ha hb hab hxb =
    rw (remove_shine-removed a b c ha hab)
      (rw (test_self b hb) refl, rw (test_other b x hxb, holds_shine-free b 126) refl)
