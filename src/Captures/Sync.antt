-- ===== src/Captures/Sync.antt =====
-- Which models a stage gives the puppets.
use smoo_bazel.Base.{
  ℕ, zero, suc, ◌+◌, ◌<◌, ◌≡◌, refl, ap, ◌∙◌, inl, inr, true, false, ◌&&◌, Option, none, some, List,
  [], ◌∷◌, Option-cases, get_elem?, take, All, Str, codes, dec, ltb_ℤ, eq_ℤ, pos,
}
use smoo_bazel.HackModels.{max_captures, is_listed, get_capture, HackModelHolder}
use smoo_bazel.HackModels.Room.{add_capture-Fits, add_capture-overflows}
use smoo_bazel.HackModels.Lookup.{get_capture-add_capture, IsValid}
use smoo_bazel.Socket.Cap.{try_convert_name}
use smoo_bazel.Client.State.{loop_bound}
use smoo_bazel.Captures.Names.{
  listed-is_in_capture_list, converted-IsShort, anagram-kept, anagram-long, anagram-listed, IsShort,
}
use smoo_bazel.Captures.{
  capture_strs, in_forest, create_hack_actor, add_made, sync_one, sync_from, sync_debug, sync_all,
  init_obj_hook, Factory, Captures,
}

-- The factory makes an actor whenever it is asked: there are fewer than eight players, or eight outside
-- of ForestWorldHomeStage, and the game has a creator of the actor.
pub record IsAble (f : Factory) : Type 0 where
  pub outside : (eq_ℤ f.max_players (pos 8) && in_forest f.file_name) ≡ false
  pub few : ltb_ℤ (pos 8) f.max_players ≡ false
  pub creator : f.has_creator ≡ true

create_hack_actor-able :
    (f : Factory) → IsAble f → create_hack_actor f ≡ (some f.made, record f { made = f.made + 1 })
unfolding create_hack_actor
create_hack_actor-able f v = rw (v.outside, v.few, v.creator) refl

-- A holder with room, in which an entry of the name has an actor.
pub record HasRoom (name : Str) (h : HackModelHolder) : Type 0 where
  pub valid : IsValid h
  pub room : h.count < max_captures
  pub entry : get_capture name h ≡ none → is_listed name h ≡ false

abbrev pub Has : Str → HackModelHolder → Type 0
Has name h = (a : ℕ) × (get_capture name h ≡ some a)

abbrev pub OfSome : (HackModelHolder → Type 0) → Option HackModelHolder → Type 0
OfSome P none = Unit {0}
OfSome P (some h) = P h

module _ (name : Str) (short : IsShort name) where
  sync_one-Has :
      (h : HackModelHolder) (f : Factory)
      → HasRoom name h
      → IsAble f
      → (h' : HackModelHolder) × (f' : Factory) × (sync_one name h f ≡ some (h', f'))
        × Has name h'
        × (f'.max_players ≡ f.max_players)
        × IsAble f'
  unfolding sync_one add_made
  sync_one-Has h f v able = elim (Option-cases (get_capture name h)) [
    | inr (a, known) ↦ (h, f, rw (known, sync_one) refl, (a, known), refl, able)
    | inl new ↦
        let (h', e) = add_capture-Fits (some f.made) name h v.room short.fits in
        let found = (get_capture-add_capture (some f.made) name name h h' v.valid e).0 in
        (
          h',
          record f { made = f.made + 1 },
          rw (new, sync_one, create_hack_actor-able f able, e) refl,
          (f.made, rw (v.entry new, short.no_nul) at found),
          refl,
          record { outside = able.outside; few = able.few; creator = able.creator },
        )
  ]

  sync_one-again :
      (h : HackModelHolder) (f : Factory) → Has name h → sync_one name h f ≡ some (h, f)
  unfolding sync_one
  sync_one-again h f (a, known) = rw (known, sync_one) refl

  -- The first `n` puppets each get a model of the name, and the rest is as before.
  sync_from-Has :
      (n : ℕ) (hs : List HackModelHolder) (f : Factory)
      → All (HasRoom name) hs
      → IsAble f
      → (hs' : List HackModelHolder) × (f' : Factory) × (sync_from name n hs f ≡ some (hs', f'))
        × All (Has name) (take n hs')
        × (f'.max_players ≡ f.max_players)
        × IsAble f'
  unfolding sync_from
  sync_from-Has zero hs f v able = (hs, f, refl, tt, refl, able)
  sync_from-Has (suc n) [] f v able = ([], f, refl, tt, refl, able)
  sync_from-Has (suc n) (h ∷ hs) f v able =
      let (h', f₁, e₁, has, players, able₁) = sync_one-Has h f v.0 able in
      let (hs', f₂, e₂, rest, players', able₂) = sync_from-Has n hs f₁ v.1 able₁ in
      (h' ∷ hs', f₂, rw (e₁, e₂) refl, (has, rest), players' ∙ players, able₂)

  sync_from-again :
      (n : ℕ) (hs : List HackModelHolder) (f : Factory)
      → All (Has name) (take n hs)
      → sync_from name n hs f ≡ some (hs, f)
  unfolding sync_from
  sync_from-again zero hs f v = refl
  sync_from-again (suc n) [] f v = refl
  sync_from-again (suc n) (h ∷ hs) f v =
      rw (sync_one-again h f v.0, sync_from-again n hs f v.1) refl

  sync_debug-Has :
      (d : Option HackModelHolder) (f : Factory)
      → OfSome (HasRoom name) d
      → IsAble f
      → (d' : Option HackModelHolder) × (f' : Factory) × (sync_debug name d f ≡ some (d', f'))
        × OfSome (Has name) d'
        × (f'.max_players ≡ f.max_players)
  unfolding sync_debug
  sync_debug-Has none f v able = (none, f, refl, tt, refl)
  sync_debug-Has (some h) f v able =
      let (h', f', e, has, players, creator) = sync_one-Has h f v able in
      (some h', f', rw e refl, has, players)

  sync_debug-again :
      (d : Option HackModelHolder) (f : Factory)
      → OfSome (Has name) d
      → sync_debug name d f ≡ some (d, f)
  unfolding sync_debug
  sync_debug-again none f v = refl
  sync_debug-again (some h) f v = rw (sync_one-again h f v) refl

  sync_all-Has :
      (c : Captures)
      → All (HasRoom name) c.puppets
      → OfSome (HasRoom name) c.debug_puppet
      → IsAble c.factory
      → (c' : Captures) × (sync_all name c ≡ some c')
        × All (Has name) (take (loop_bound (dec c.factory.max_players)) c'.puppets)
        × OfSome (Has name) c'.debug_puppet
        × (sync_all name c' ≡ some c')
  unfolding sync_all
  sync_all-Has c v d able =
      let n : ℕ = loop_bound (dec c.factory.max_players) in
      let (hs, f, e, has, players, able') = sync_from-Has n c.puppets c.factory v able in
      let (d', f', e', has', players') = sync_debug-Has c.debug_puppet f d able' in
      let same : loop_bound (dec f'.max_players) ≡ n =
        ap (λ x. loop_bound (dec x)) (players' ∙ players) in
      (
        record { puppets = hs; debug_puppet = d'; factory = f' },
        rw (e, e') refl,
        has,
        has',
        rw (same, sync_from-again n hs f' has, sync_debug-again d' f' has') refl,
      )

-- Where the factory makes an actor for every call, with at most eight players and with eight outside of
-- ForestWorldHomeStage, and each holder has room: a placement of any class of
-- the table but the first, AnagramAlphabetCharacter, gives each of the first `max_players - 1` puppets
-- and the debug puppet a model of the converted name, and a second placement of the class makes
-- nothing new.
pub init_obj_hook-Has :
    (k : ℕ) (class_name : Str) (c : Captures)
    → get_elem? capture_strs (suc k) ≡ some class_name
    → All (HasRoom (try_convert_name class_name)) c.puppets
    → OfSome (HasRoom (try_convert_name class_name)) c.debug_puppet
    → IsAble c.factory
    → (c' : Captures) × (init_obj_hook class_name c ≡ some c')
      × All
          (Has (try_convert_name class_name))
          (take (loop_bound (dec c.factory.max_players)) c'.puppets)
      × OfSome (Has (try_convert_name class_name)) c'.debug_puppet
      × (init_obj_hook class_name c' ≡ some c')
unfolding init_obj_hook
init_obj_hook-Has k class_name c e v d able =
    let (c', done, has, has', again) =
      sync_all-Has (try_convert_name class_name) (converted-IsShort k class_name e) c v d able in
    (
      c',
      rw (listed-is_in_capture_list (suc k) class_name e) done,
      has,
      has',
      rw (listed-is_in_capture_list (suc k) class_name e) again,
    )

-- Where the factory makes an actor for every call, with at most eight players and with eight outside of
-- ForestWorldHomeStage, there are two or more players, and the first
-- puppet's holder has room and no model of AnagramAlphabetCharacter: a placement of that class writes
-- its name past the end of an entry.
pub init_obj_hook-overflows :
    (h : HackModelHolder) (hs : List HackModelHolder) (n : ℕ) (c : Captures)
    → c.puppets ≡ h ∷ hs
    → loop_bound (dec c.factory.max_players) ≡ suc n
    → IsAble c.factory
    → h.count < max_captures
    → get_capture (codes "AnagramAlphabetCharacter") h ≡ none
    → init_obj_hook (codes "AnagramAlphabetCharacter") c ≡ none
unfolding init_obj_hook sync_all sync_from sync_one add_made
init_obj_hook-overflows h hs n c puppets players able room new =
    rw
      (
        anagram-listed,
        anagram-kept,
        puppets,
        players,
        new,
        sync_one,
        create_hack_actor-able c.factory able,
        add_capture-overflows (some c.factory.made) _ h room anagram-long,
      )
      refl
