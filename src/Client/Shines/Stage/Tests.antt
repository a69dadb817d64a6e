-- ===== src/Client/Shines/Stage/Tests.antt =====
-- A game whose save file is the list of its shines.
use smoo_bazel.Base.{
  ◌≡◌, refl, inr, Bool, true, false, not, ◌||◌, none, some, List, [], ◌∷◌, arith, if◌then◌else◌,
  codes, ltb_ℤ, eq_ℤ, ℤ, pos,
}
use smoo_bazel.Client.State.{Client}
use smoo_bazel.Client.Shines.{
  update_shine_info, holds_shine, is_shine_collected, reset_collected_shines, is_need_update_shines,
  receive_shines,
}
use smoo_bazel.Client.Shines.Stage.{
  try_register_shine, find_stage_shine, get_on_stage, get_hinted, get_shine, get_shines,
  skips_shines, update_shines, update_needed, ShineGame, Scene,
}
use smoo_bazel.Client.Shines.Stage.Got.{update_needed-gets, KeepsShines}
use smoo_bazel.Client.Tests.{client}

holds : ℤ → List ℤ → Bool
holds h [] = false
holds h (k ∷ ks) = eq_ℤ k h || holds h ks

-- The stage's shines and the hints are ids, and the ids from 200 have no hint.
abbrev shine_game : ShineGame ℤ ℤ (List ℤ)
shine_game = record {
  hint_of = λ id. if ltb_ℤ id (pos 200) then some id else none;
  unique_id = λ x. x;
  is_got_shine = holds;
  set_got_shine = λ h s. h ∷ s;
  is_got = holds;
  is_dead = λ x s. not (holds x s);
  make_alive = λ x s. s;
  get_direct = λ x s. x ∷ s;
  on_switch_get = λ x s. s;
  update_layout = λ s. s;
}

holds_self : (h : ℤ) (s : List ℤ) → holds h (h ∷ s) ≡ true
unfolding holds
holds_self h s = ground arith

holds-cons : (h k : ℤ) (s : List ℤ) → holds h s ≡ true → holds h (k ∷ s) ≡ true
unfolding holds
holds-cons h k s e = ground (arith, e)

shine_game-KeepsShines : KeepsShines shine_game
shine_game-KeepsShines = record {
  sets = holds_self;
  set_keeps = λ h k s e. holds-cons h k s e;
  alive_keeps = λ h x s e. e;
  direct_keeps = λ h x s e. holds-cons h x s e;
  switch_keeps = λ h x s e. e;
  layout_keeps = λ h s e. e;
}

-- A stage with the shine 9, of which the save file has the shine 3.
abbrev scene : Scene ℤ (List ℤ)
scene = record {
  stage_name = codes "SandWorldHomeStage";
  scenario = 1;
  shines = pos 9 ∷ [];
  game = pos 3 ∷ [];
}

-- The shines 4, 9 and 250 came in.
abbrev collecting : Client
collecting = receive_shines (pos 4 ∷ pos 9 ∷ pos 250 ∷ []) (reset_collected_shines client)

gets-stage_shine :
    (update_needed shine_game collecting scene).1.game ≡ pos 9 ∷ pos 9 ∷ pos 4 ∷ pos 3 ∷ []
unfolding update_needed update_shines get_shines get_shine get_hinted get_on_stage find_stage_shine
    skips_shines is_need_update_shines receive_shines update_shine_info holds reset_collected_shines
gets-stage_shine = refl

-- At the start of the game the shines are kept for later.
keeps-at_start :
    update_needed shine_game collecting (record scene { stage_name = codes "CapWorldHomeStage" })
    ≡ (collecting, record scene { stage_name = codes "CapWorldHomeStage" })
unfolding update_needed update_shines skips_shines is_need_update_shines receive_shines
    update_shine_info reset_collected_shines
keeps-at_start = refl

registers-new : (try_register_shine shine_game (pos 5) scene).0 ≡ true
unfolding try_register_shine holds
registers-new = refl

refuses-got : try_register_shine shine_game (pos 3) scene ≡ (false, scene)
unfolding try_register_shine holds
refuses-got = refl

update_needed-gets_example :
    let (c', s') = update_needed shine_game collecting scene in
    (holds (pos 9) s'.game ≡ true)
    × (is_shine_collected (pos 9) c' ≡ false)
    × (is_need_update_shines c' ≡ false)
unfolding receive_shines update_shine_info is_shine_collected holds_shine is_need_update_shines
    reset_collected_shines skips_shines
update_needed-gets_example =
    update_needed-gets shine_game shine_game-KeepsShines (pos 9) (pos 9) collecting scene refl refl
      (inr (refl, refl))
