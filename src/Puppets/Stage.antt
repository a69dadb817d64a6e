-- ===== src/Puppets/Stage.antt =====
-- Which puppets the holder shows.
use mathlib.Core.Path.{ap₂}
use smoo_bazel.Base.{
  ℕ, ◌<◌, ◌≡◌, refl, sym, ap, ◌∙◌, subst, Bool, not, some, List, [], ◌∷◌, map, arith, ℕ_discrete,
  length, get_elem?, set, All, length-set, get_elem?-set_self, get_elem?-set_ne, get_elem?-lt,
  get_elem?-some,
}
use smoo_bazel.Puppets.Info.{PuppetInfo}
use smoo_bazel.Puppets.{
  make_actor_alive, make_actor_dead, emit_join_effect, check_info_is_in_stage, show_or_hide,
  update_from, update, PuppetActor, PuppetHolder,
}

-- The info at index `k` is of a player who is in this stage or not, as `here` says, and says so.
pub record Settled (h : PuppetHolder) (infos : List PuppetInfo) (k : ℕ) (here : Bool) : Type 0 where
  pub info : PuppetInfo
  pub at_k : get_elem? infos k ≡ some info
  pub flag : info.is_in_same_stage ≡ here
  pub checked : check_info_is_in_stage h info ≡ here

-- An actor is alive exactly when its player is in this stage.
abbrev pub IsShown : PuppetHolder → List PuppetInfo → PuppetActor → Type 0
IsShown h infos a = Settled h infos a.info (not a.dead)

abbrev pub HasInfo : List PuppetInfo → PuppetActor → Type 0
HasInfo infos a = a.info < length infos

show_or_hide_lem :
    (here : Bool) (i : PuppetInfo) (a : PuppetActor)
    → (not (show_or_hide here i a).dead ≡ here) × ((show_or_hide here i a).info ≡ a.info)
unfolding show_or_hide emit_join_effect make_actor_alive make_actor_dead
show_or_hide_lem here i a = ground arith

module _ (h : PuppetHolder) where
  mark : PuppetInfo → PuppetInfo
  mark i = record i { is_in_same_stage = check_info_is_in_stage h i }

  check-mark : (i : PuppetInfo) → check_info_is_in_stage h (mark i) ≡ check_info_is_in_stage h i
  unfolding mark check_info_is_in_stage
  check-mark i = refl

  set-Settled :
      (infos : List PuppetInfo) (j : ℕ) (i : PuppetInfo)
      → get_elem? infos j ≡ some i
      → Settled h (set infos j (mark i)) j (check_info_is_in_stage h i)
  unfolding mark
  set-Settled infos j i e = record {
    info = mark i;
    at_k = get_elem?-set_self infos j (mark i) (get_elem?-lt infos j e);
    flag = refl;
    checked = check-mark i;
  }

  keep-Settled :
      (infos : List PuppetInfo) (j k : ℕ) (i : PuppetInfo) (here : Bool)
      → get_elem? infos j ≡ some i
      → Settled h infos k here
      → Settled h (set infos j (mark i)) k here
  keep-Settled infos j k i here e s = elim (ℕ_discrete j k) [
    | yes p ↦
        subst (λ b. Settled h (set infos j (mark i)) k b) (same p)
          (subst (λ m. Settled h (set infos j (mark i)) m (check_info_is_in_stage h i)) p
            (set-Settled infos j i e))
    | no p ↦ record {
      info = s.info;
      at_k = get_elem?-set_ne infos (mark i) p ∙ s.at_k;
      flag = s.flag;
      checked = s.checked;
    }
  ]
    where
      same : j ≡ k → check_info_is_in_stage h i ≡ here
      same p = ground (arith, ap (get_elem? infos) p, e, s.at_k, s.checked)

  -- The loop settles the info of every actor, and leaves what it has settled.
  update_from-Settled :
      (as' : List PuppetActor) (infos : List PuppetInfo)
      → All (HasInfo infos) as'
      → (r : List PuppetActor × List PuppetInfo) × (update_from h as' infos ≡ some r)
        × (length r.1 ≡ length infos)
        × (map (λ a. a.info) r.0 ≡ map (λ a. a.info) as')
        × All (IsShown h r.1) r.0
        × ((k : ℕ) (here : Bool) → Settled h infos k here → Settled h r.1 k here)
  unfolding update_from mark
  update_from-Settled [] infos v = (([], infos), refl, refl, refl, tt, λ k here s. s)
  update_from-Settled (a ∷ rest) infos v =
      let (i, e) = get_elem?-some infos a.info v.0 in
      let marked = set infos a.info (mark i) in
      let size = length-set infos a.info (mark i) in
      let here = check_info_is_in_stage h i in
      let a' = show_or_hide here (mark i) a in
      let (flag, ident) = show_or_hide_lem here (mark i) a in
      let (r, q, len, indices, shown, keep) =
        update_from-Settled rest marked
          (subst (λ n. All (λ (b : PuppetActor). b.info < n) rest) (sym size) v.1) in
      (
        (a' ∷ r.0, r.1),
        rw (e, q) refl,
        len ∙ size,
        ap₂ ◌∷◌ ident indices,
        (rw (flag, ident) (keep a.info here (set-Settled infos a.info i e)), shown),
        λ k b s. keep k b (keep-Settled infos a.info k i b e s),
      )

-- Where each actor's info exists, a frame of the holder does not fault. Then each actor is alive
-- exactly when its player is in this stage, its info says so, and the actors still have the infos
-- that they had.
pub update-IsShown :
    (h : PuppetHolder) (infos : List PuppetInfo)
    → All (HasInfo infos) h.puppets
    → (r : PuppetHolder × List PuppetInfo) × (update h infos ≡ some r)
      × All (IsShown h r.1) r.0.puppets
      × (map (λ a. a.info) r.0.puppets ≡ map (λ a. a.info) h.puppets)
      × (length r.1 ≡ length infos)
unfolding update
update-IsShown h infos v =
    let (r, q, len, indices, shown, keep) = update_from-Settled h h.puppets infos v in
    ((record h { puppets = r.0 }, r.1), rw q refl, shown, indices, len)
