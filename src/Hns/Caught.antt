-- ===== src/Hns/Caught.antt =====
-- Who is caught in a frame of hide and seek.
use smoo_bazel.Base.{
  ℕ, zero, suc, ◌<◌, ◌≡◌, refl, sym, ap, ◌∙◌, subst, ◌↔◌, ◌⊎◌, inl, inr, Bool, true, false, not,
  ◌&&◌, ◌||◌, Option, some, List, [], ◌∷◌, if◌then◌else◌, ◌>>=◌, >>=-eq-some, some_inj, get_elem?,
  take, any,
}
use smoo_bazel.Timer.{disable_timer}
use smoo_bazel.Puppets.Info.{PuppetInfo}
use smoo_bazel.Modes.{ModeObject}
use smoo_bazel.Game.{invuln_seconds, die, in_reach, Player, Call, start_camera, show_seeking, Game}
use smoo_bazel.Hns.{
  save_time, catches, send_tag, become_it, meet, meet_from, start_frame, tick, look, hide, gravity,
  change_sides, hunt, update_hns, Hunt, HnsFrame,
}
use smoo_bazel.Hns.Clock.{send_tag-lem, gravity-lem}
use smoo_bazel.Hns.Catch.{
  and_true, true_and, catches-Catcher, Catcher-catches, any-found, found-any, Catcher,
}

abbrev is_it : Hunt → Bool
is_it h = h.info.is_player_it

module _ (g : Game) (f : HnsFrame) where
  -- The calls that the frame's first part makes.
  abbrev pub entered : Hunt → List Call
  entered h = (start_frame g f h).calls

  send_tag-it : (h : Hunt) {h' : Hunt} → send_tag g f h ≡ some h' → is_it h' ≡ is_it h
  send_tag-it h e = let (o, e') = send_tag-lem g f h e in ap is_it e'

  -- One puppet catches the player or leaves everything as it is.
  meet-it :
      (p : Player) (x : PuppetInfo) (h : Hunt) {h' : Hunt}
      → meet g f p x h ≡ some h'
      → ((catches g p h.calls x ≡ true) × (is_it h' ≡ true))
        ⊎ ((catches g p h.calls x ≡ false) × (h' ≡ h))
  unfolding meet become_it
  meet-it p x h e = go (catches g p h.calls x) e
    where
      caught : Hunt
      caught = record h {
        info = record h.info { is_player_it = true };
        timer = disable_timer h.timer;
        calls = show_seeking ∷ (if in_reach g p x then die h.calls else h.calls);
      }

      go :
          (b : Bool) {h' : Hunt}
          → (if b then send_tag g f caught else some h) ≡ some h'
          → ((b ≡ true) × (is_it h' ≡ true)) ⊎ ((b ≡ false) × (h' ≡ h))
      go true e = inl (refl, send_tag-it caught e)
      go false e = inr (refl, sym (some_inj e))

  meet_from-stays :
      (p : Player) (n : ℕ) (infos : List PuppetInfo) (h : Hunt) {h' : Hunt}
      → meet_from g f p n infos h ≡ some h'
      → is_it h ≡ true
      → is_it h' ≡ true
  unfolding meet_from
  meet_from-stays p zero infos h e it = ap is_it (sym (some_inj e)) ∙ it
  meet_from-stays p (suc n) [] h e it = cc
  meet_from-stays p (suc n) (x ∷ xs) h e it =
      let (h1, e1, e2) = >>=-eq-some (meet g f p x h) (meet_from g f p n xs) e in
      meet_from-stays p n xs h1 e2
        (elim (meet-it p x h e1) [ inl (_, it') ↦ it' | inr (_, same) ↦ ap is_it same ∙ it ])

  meet_from-it :
      (p : Player) (n : ℕ) (infos : List PuppetInfo) (h : Hunt) {h' : Hunt}
      → meet_from g f p n infos h ≡ some h'
      → is_it h ≡ false
      → is_it h' ≡ any (catches g p h.calls) (take n infos)
  unfolding meet_from
  meet_from-it p zero infos h e free = ap is_it (sym (some_inj e)) ∙ free
  meet_from-it p (suc n) [] h e free = cc
  meet_from-it p (suc n) (x ∷ xs) h {h'} e free =
      let (h1, e1, e2) = >>=-eq-some (meet g f p x h) (meet_from g f p n xs) e in
      elim (meet-it p x h e1) [
        | inl (c, it) ↦
            meet_from-stays p n xs h1 e2 it
            ∙ sym (ap (λ b. b || any (catches g p h.calls) (take n xs)) c)
        | inr (c, same) ↦
            meet_from-it p n xs h (subst (λ y. meet_from g f p n xs y ≡ some h') same e2) free
            ∙ sym (ap (λ b. b || any (catches g p h.calls) (take n xs)) c)
      ]

  hide-it :
      (p : Player) (h : Hunt) {h' : Hunt}
      → hide g f p h ≡ some h'
      → is_it h ≡ false
      → is_it h' ≡ (
          g.fl.le invuln_seconds h.invuln_time
          && any (catches g p h.calls) (take f.holder_size h.client.puppet_infos))
  unfolding hide look tick
  hide-it p h e free = look_at (is_it h) free e
    where
      seen : Bool
      seen = any (catches g p h.calls) (take f.holder_size h.client.puppet_infos)

      looked : Bool → Option Hunt
      looked b =
          if b
          then meet_from g f p f.holder_size h.client.puppet_infos h
          else some (record h { invuln_time = g.fl.add h.invuln_time f.delta })

      after : (b : Bool) {h1 : Hunt} → looked b ≡ some h1 → is_it h1 ≡ (b && seen)
      after true e = meet_from-it p f.holder_size h.client.puppet_infos h e free
      after false e = ap is_it (sym (some_inj e)) ∙ free

      look_at :
          (b : Bool) {h' : Hunt}
          → b ≡ false
          → (if not b
              then (looked (g.fl.le invuln_seconds h.invuln_time) >>= λ x. some (tick g f x))
              else some h)
            ≡ some h'
          → is_it h' ≡ (g.fl.le invuln_seconds h.invuln_time && seen)
      look_at true n e = cc
      look_at false n e =
          let (h1, e1, e2) =
            >>=-eq-some (looked (g.fl.le invuln_seconds h.invuln_time)) (λ x. some (tick g f x))
              e in
          ap is_it (sym (some_inj e2)) ∙ after (g.fl.le invuln_seconds h.invuln_time) e1

  gravity-it : (p : Player) (h : Hunt) {h' : Hunt} → gravity g f p h ≡ some h' → is_it h' ≡ is_it h
  gravity-it p h {h'} e = let (b, cs, e') = gravity-lem g f p h h' e in ap is_it e'

  start_frame-lem :
      (h : Hunt)
      → (o : ModeObject) × (start_frame g f h ≡ record h { object = o; calls = entered h })
  unfolding start_frame
  start_frame-lem h = go h.object.is_first_frame
    where
      started : Hunt
      started = record h {
        object = record h.object { is_first_frame = false };
        calls =
            if h.info.is_use_gravity_cam && f.has_ticket then start_camera ∷ h.calls else h.calls;
      }

      go :
          (b : Bool)
          → (o : ModeObject) × ((if b then started else h)
              ≡ record h { object = o; calls = (if b then started else h).calls })
      go true = (started.object, refl)
      go false = (h.object, refl)

  change_sides-idle :
      (h : Hunt) {h' : Hunt}
      → (f.trigger_up && not f.hold_zl) ≡ false
      → change_sides g f h ≡ some h'
      → h' ≡ h
  unfolding change_sides
  change_sides-idle h up e = sym (some_inj (rw up at e))

  hunt-catches :
      (p : Player) (h : Hunt) {h' : Hunt}
      → (f.trigger_up && not f.hold_zl) ≡ false
      → h.info.is_player_it ≡ false
      → hunt g f p h ≡ some h'
      → is_it h' ≡ (
          g.fl.le invuln_seconds h.invuln_time
          && any (catches g p (entered h)) (take f.holder_size h.client.puppet_infos))
  unfolding hunt save_time
  hunt-catches p h up free e =
      let (o, start) = start_frame-lem h in
      let (h1, e1, k) = >>=-eq-some (hide g f p (start_frame g f h)) _ e in
      let (h2, e2, k2) = >>=-eq-some (gravity g f p h1) _ k in
      let (h3, e3, k') = >>=-eq-some (change_sides g f h2) (λ x. some (save_time x)) k2 in
      let started : is_it (start_frame g f h) ≡ false = ap is_it start ∙ free in
      ap is_it (sym (some_inj k'))
      ∙ ap is_it (change_sides-idle h2 up e3)
      ∙ gravity-it p h1 e2
      ∙ hide-it p (start_frame g f h) e1 started
      ∙ ap
          (λ (x : Hunt).
            g.fl.le invuln_seconds x.invuln_time
            && any (catches g p (entered h)) (take f.holder_size x.client.puppet_infos))
          start

  update_hns-any :
      (h h' : Hunt) (p : Player)
      → f.player ≡ some p
      → (f.trigger_up && not f.hold_zl) ≡ false
      → h.info.is_player_it ≡ false
      → update_hns g f h ≡ some h'
      → h'.info.is_player_it ≡ (
          g.fl.le invuln_seconds h.invuln_time
          && any (catches g p (entered h)) (take f.holder_size h.client.puppet_infos))
  unfolding update_hns
  update_hns-any h h' p here up free e =
      let (p', at_p, e') = >>=-eq-some f.player (λ p. hunt g f p h) e in
      hunt-catches p h up free (subst (λ q. hunt g f q h ≡ some h') (some_inj (sym at_p ∙ here)) e')

  -- In a frame in which Up is not pressed, a hiding player becomes it exactly if 5 seconds of
  -- invulnerability have passed, the player is not the bowl racer, and one of the first puppets, as many
  -- as the holder has, catches the player: the puppet's player is connected, in the same stage and it,
  -- and either closer than 200 in the same dimension, while the player is alive, or not so, while the
  -- player is dead.
  pub update_hns-catches :
      (h h' : Hunt) (p : Player)
      → f.player ≡ some p
      → (f.trigger_up && not f.hold_zl) ≡ false
      → h.info.is_player_it ≡ false
      → update_hns g f h ≡ some h'
      → (h'.info.is_player_it ≡ true) ↔ (
          (g.fl.le invuln_seconds h.invuln_time ≡ true)
          × (p.has_info ≡ true)
          × (k : ℕ) × (x : PuppetInfo) × (k < f.holder_size)
          × (get_elem? h.client.puppet_infos k ≡ some x)
          × Catcher g p (g.is_dead (entered h)) x)
  update_hns-catches h h' p here up free e =
      let by_any = update_hns-any h h' p here up free e in
      (
        λ it.
            let (waited, seen) =
              and_true (g.fl.le invuln_seconds h.invuln_time) _ (sym by_any ∙ it) in
            let (k, x, inside, at_k, c) =
              any-found (catches g p (entered h)) f.holder_size h.client.puppet_infos seen in
            let (info, v) = catches-Catcher g p (entered h) x c in
            (waited, info, k, x, inside, at_k, v),
        λ (waited, info, k, x, inside, at_k, v).
            by_any
            ∙ true_and waited (
                found-any (catches g p (entered h)) f.holder_size h.client.puppet_infos k x inside
                  at_k (Catcher-catches g p (entered h) x info v)),
      )
