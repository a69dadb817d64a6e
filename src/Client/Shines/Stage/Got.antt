-- ===== src/Client/Shines/Stage/Got.antt =====
-- That the collected shines are got in the game.
use smoo_bazel.Base.{
  ◌≡◌, refl, sym, ◌⊎◌, inl, inr, true, false, not, ◌&&◌, Option, none, some, List, [], ◌∷◌,
  Bool-cases, if_intro, is_neg, eq_ℤ, ℤ,
}
use smoo_bazel.Client.State.{max_shines, Client}
use smoo_bazel.Client.Shines.{
  holds_shine, is_shine_collected, reset_collected_shines, is_need_update_shines,
}
use smoo_bazel.Client.Shines.Received.{holds_shine-free, test_hit}
use smoo_bazel.Client.Shines.Stage.{
  find_stage_shine, get_on_stage, get_hinted, get_shine, get_shines, skips_shines, update_shines,
  update_needed, ShineGame, Scene,
}

-- The save file has a shine that was set, and no call takes a shine away.
pub record KeepsShines {S H G : Type 0} (g : ShineGame S H G) : Type 0 where
  pub sets : (h : H) (s : G) → g.is_got_shine h (g.set_got_shine h s) ≡ true
  pub set_keeps :
      (h k : H) (s : G) → g.is_got_shine h s ≡ true → g.is_got_shine h (g.set_got_shine k s) ≡ true
  pub alive_keeps :
      (h : H) (x : S) (s : G)
      → g.is_got_shine h s ≡ true
      → g.is_got_shine h (g.make_alive x s) ≡ true
  pub direct_keeps :
      (h : H) (x : S) (s : G)
      → g.is_got_shine h s ≡ true
      → g.is_got_shine h (g.get_direct x s) ≡ true
  pub switch_keeps :
      (h : H) (x : S) (s : G)
      → g.is_got_shine h s ≡ true
      → g.is_got_shine h (g.on_switch_get x s) ≡ true
  pub layout_keeps :
      (h : H) (s : G) → g.is_got_shine h s ≡ true → g.is_got_shine h (g.update_layout s) ≡ true

module _ {S H G : Type 0} (g : ShineGame S H G) (laws : KeepsShines g) (h : H) where
  get_on_stage-keeps :
      (x : Option S) (s : G)
      → g.is_got_shine h s ≡ true
      → g.is_got_shine h (get_on_stage g x s) ≡ true
  unfolding get_on_stage
  get_on_stage-keeps none s e = e
  get_on_stage-keeps (some x) s e = laws.switch_keeps h x _ (
      laws.direct_keeps h x _ (
        if_intro (λ (s' : G). g.is_got_shine h s' ≡ true) (g.is_dead x s) (laws.alive_keeps h x s e)
          e))

  get_hinted-keeps :
      (id : ℤ) (xs : List S) (k : H) (s : G)
      → g.is_got_shine h s ≡ true
      → g.is_got_shine h (get_hinted g id xs k s) ≡ true
  unfolding get_hinted
  get_hinted-keeps id xs k s e =
      if_intro (λ (s' : G). g.is_got_shine h s' ≡ true) (g.is_got_shine k s) e
        (laws.set_keeps h k _ (get_on_stage-keeps (find_stage_shine g id xs) s e))

  get_shine-keeps :
      (id : ℤ) (xs : List S) (s : G)
      → g.is_got_shine h s ≡ true
      → g.is_got_shine h (get_shine g id xs s) ≡ true
  unfolding get_shine
  get_shine-keeps id xs s e =
      if_intro (λ (s' : G). g.is_got_shine h s' ≡ true) (is_neg id) e (hinted (g.hint_of id))
    where
      hinted :
          (o : Option H)
          → g.is_got_shine h (elim o [ none ↦ s | some k ↦ get_hinted g id xs k s ]) ≡ true
      hinted none = e
      hinted (some k) = get_hinted-keeps id xs k s e

  get_shines-keeps :
      (ids : List ℤ) (xs : List S) (s : G)
      → g.is_got_shine h s ≡ true
      → g.is_got_shine h (get_shines g ids xs s) ≡ true
  unfolding get_shines
  get_shines-keeps [] xs s e = e
  get_shines-keeps (id ∷ ids) xs s e = get_shines-keeps ids xs _ (get_shine-keeps id xs s e)

  get_hinted-gets :
      (id : ℤ) (xs : List S) (s : G) → g.is_got_shine h (get_hinted g id xs h s) ≡ true
  unfolding get_hinted
  get_hinted-gets id xs s = elim (Bool-cases (g.is_got_shine h s)) [
    | inl got ↦ rw got got
    | inr new ↦ rw new (laws.sets h _)
  ]

  get_shine-gets :
      (id : ℤ) (xs : List S) (s : G)
      → is_neg id ≡ false
      → g.hint_of id ≡ some h
      → g.is_got_shine h (get_shine g id xs s) ≡ true
  unfolding get_shine
  get_shine-gets id xs s sign e = rw (sign, e) (get_hinted-gets id xs s)

  get_shines-gets :
      (id : ℤ) (ids : List ℤ) (xs : List S) (s : G)
      → g.hint_of id ≡ some h
      → holds_shine id ids ≡ true
      → g.is_got_shine h (get_shines g ids xs s) ≡ true
  unfolding get_shines holds_shine
  get_shines-gets id [] xs s e held = cc
  get_shines-gets id (y ∷ ys) xs s e held = elim (Bool-cases (not (is_neg y) && eq_ℤ y id)) [
    | inl hit ↦
        let (same_id, sign) = test_hit id y hit in
        get_shines-keeps ys xs _
          (get_shine-gets y xs s (rw (sym same_id) sign) (rw (sym same_id) e))
    | inr miss ↦ get_shines-gets id ys xs _ e (rw miss at held)
  ]

  -- Where the game keeps the shines that were got, and outside of the first two scenarios of
  -- CapWorldHomeStage: after a frame whose client has a shine to add, a shine is got in the save file
  -- if it was got there before or if its id was collected, and no shine is collected any more and the
  -- next frame has nothing to add.
  pub update_needed-gets :
      (id : ℤ) (c : Client) (s : Scene S G)
      → is_need_update_shines c ≡ true
      → skips_shines g s ≡ false
      → (g.is_got_shine h s.game ≡ true)
        ⊎ ((is_shine_collected id c ≡ true) × (g.hint_of id ≡ some h))
      → let (c', s') = update_needed g c s in
        (g.is_got_shine h s'.game ≡ true)
        × (is_shine_collected id c' ≡ false)
        × (is_need_update_shines c' ≡ false)
  unfolding update_needed update_shines is_shine_collected reset_collected_shines
      is_need_update_shines
  update_needed-gets id c s need there got =
      rw (need, there)
        (
          laws.layout_keeps h _ (elim got [
            | inl before ↦ get_shines-keeps c.collected_shines s.shines s.game before
            | inr (held, e) ↦ get_shines-gets id c.collected_shines s.shines s.game e held
          ]),
          holds_shine-free id max_shines,
          refl,
        )
