-- ===== src/Hns/Safe.antt =====
-- Where a frame of hide and seek does not fault.
use smoo_bazel.Base.{
  ℕ, zero, suc, ◌≤◌, ◌≡◌, refl, sym, ap, ◌∙◌, subst, inl, inr, Bool, true, false, not, ◌&&◌, Option,
  none, some, List, [], ◌∷◌, arith, if◌then◌else◌, Bool-cases, ◌>>=◌, if_intro, some_inj, Defined,
  length, All, Vec3,
}
use smoo_bazel.Timer.{disable_timer}
use smoo_bazel.Puppets.Info.{PuppetInfo}
use smoo_bazel.Modes.{object_as-kind, hns_info, hns_mode}
use smoo_bazel.Socket.Safe.{send_tag_inf_packet-Defined}
use smoo_bazel.Client.State.{Client}
use smoo_bazel.Game.{
  invuln_seconds, die, kill_main_player, in_reach, Player, start_camera, end_camera, show_seeking,
  Game,
}
use smoo_bazel.Hns.{
  save_time, catches, send_tag, become_it, meet, meet_from, start_frame, tick, look, hide, pull,
  toggle_camera, gravity_pad, gravity, change_sides, hunt, update_hns, run_hunt, Hunt, HnsFrame,
}

-- The mode's object is hide and seek's, and the client is the given one.
abbrev pub Sound : Client → Hunt → Type 0
Sound c h = (h.object.kind ≡ hns_mode) × (h.client ≡ c)

-- A step that does not fault and leaves a sound hunt.
abbrev pub SoundStep : Client → Option Hunt → Type 0
SoundStep c m = (h : Hunt) × (m ≡ some h) × Sound c h

then_sound :
    (c : Client) (m : Option Hunt) (k : Hunt → Option Hunt)
    → SoundStep c m
    → ((h : Hunt) → Sound c h → SoundStep c (k h))
    → SoundStep c (m >>= k)
then_sound c none k (h, e, v) next = cc
then_sound c (some a) k (h, e, v) next = next a (subst (Sound c) (sym (some_inj e)) v)

-- Who presses the buttons of the gravity camera has its ticket.
abbrev pub HasTicket : HnsFrame → Type 0
HasTicket f = (f.pad.hold_l && f.trigger_right) ≡ true → f.has_ticket ≡ true

-- What a frame relies on, among so many infos.
abbrev pub FrameFits : ℕ → HnsFrame → Type 0
FrameFits n f = Defined f.player × (f.holder_size ≤ n) × HasTicket f

module _ (g : Game) (f : HnsFrame) (c : Client) where
  send_tag-SoundStep : (h : Hunt) → Sound c h → SoundStep c (send_tag g f h)
  unfolding send_tag
  send_tag-SoundStep h v =
      let m = record f.manager { base = some h.object; info = some (hns_info h.info) } in
      let (o, e) =
        send_tag_inf_packet-Defined m h.outbox (object_as-kind f.manager h.object v.0)
          (h.info, refl) in
      (record h { outbox = o }, rw e refl, v)

  meet-SoundStep :
      (p : Player) (x : PuppetInfo) (h : Hunt) → Sound c h → SoundStep c (meet g f p x h)
  unfolding meet become_it
  meet-SoundStep p x h v =
      if_intro (SoundStep c) (catches g p h.calls x)
        (send_tag-SoundStep
          (record h {
            info = record h.info { is_player_it = true };
            timer = disable_timer h.timer;
            calls = show_seeking ∷ (if in_reach g p x then die h.calls else h.calls);
          })
          v)
        (h, refl, v)

  meet_from-SoundStep :
      (p : Player) (n : ℕ) (infos : List PuppetInfo) (h : Hunt)
      → n ≤ length infos
      → Sound c h
      → SoundStep c (meet_from g f p n infos h)
  unfolding meet_from
  meet_from-SoundStep p zero infos h le v = (h, refl, v)
  meet_from-SoundStep p (suc n) [] h le v = elim le [ ]
  meet_from-SoundStep p (suc n) (x ∷ xs) h le v =
      then_sound c (meet g f p x h) (meet_from g f p n xs) (meet-SoundStep p x h v)
        (λ h1 v1. meet_from-SoundStep p n xs h1 (omega arith) v1)

  hide-SoundStep :
      (p : Player) (h : Hunt)
      → f.holder_size ≤ length c.puppet_infos
      → Sound c h
      → SoundStep c (hide g f p h)
  unfolding hide look tick
  hide-SoundStep p h le v =
      if_intro (SoundStep c) (not h.info.is_player_it)
        (then_sound c (look g f p h) (λ x. some (tick g f x))
          (if_intro (SoundStep c) (g.fl.le invuln_seconds h.invuln_time)
            (meet_from-SoundStep p f.holder_size h.client.puppet_infos h
              (subst (λ (x : Client). f.holder_size ≤ length x.puppet_infos) (sym v.1) le) v)
            (record h { invuln_time = g.fl.add h.invuln_time f.delta }, refl, v))
          (λ h1 v1. (tick g f h1, refl, v1)))
        (h, refl, v)

  gravity-SoundStep :
      (p : Player) (h : Hunt) → HasTicket f → Sound c h → SoundStep c (gravity g f p h)
  unfolding gravity gravity_pad toggle_camera pull
  gravity-SoundStep p h ticket v =
      if_intro (SoundStep c) (h.info.is_use_gravity && p.has_info) (padded f.ground) (h, refl, v)
    where
      camera :
          (b a : Bool) (x : Hunt)
          → (b ≡ true → f.has_ticket ≡ true)
          → Sound c x
          → SoundStep c (
              if b
              then (if not f.has_ticket
                  then none
                  else if a
                  then some (record x {
                    calls = end_camera ∷ x.calls;
                    info = record x.info { is_use_gravity_cam = false };
                  })
                  else some (record x {
                    calls = start_camera ∷ x.calls;
                    info = record x.info { is_use_gravity_cam = true };
                  }))
              else some x)
      camera true a x has w = rw (has refl) (if_intro (SoundStep c) a (_, refl, w) (_, refl, w))
      camera false a x has w = (x, refl, w)

      pad_step : (x : Hunt) → Sound c x → SoundStep c (gravity_pad g f x)
      pad_step x w = elim (Bool-cases f.pad.hold_l) [
        | inl held ↦ rw held (
            camera f.trigger_right (f.camera_active x.calls) x
              (λ pressed. ticket (ap (λ b. b && f.trigger_right) held ∙ pressed)) w)
        | inr free ↦ rw free (
            if_intro (SoundStep c) (f.trigger_zl && f.pad.trigger_left)
              (record x { calls = kill_main_player x.calls }, refl, w) (x, refl, w))
      ]

      padded : (ground : Option Vec3) → SoundStep c (gravity_pad g f (pull g f ground h))
      padded none = pad_step h v
      padded (some d) = pad_step (pull g f (some d) h) v

  change_sides-SoundStep : (h : Hunt) → Sound c h → SoundStep c (change_sides g f h)
  unfolding change_sides
  change_sides-SoundStep h v =
      if_intro (SoundStep c) (f.trigger_up && not f.hold_zl)
        (send_tag-SoundStep _ (if_intro (Sound c) h.info.is_player_it v v)) (h, refl, v)

  pub update_hns-SoundStep :
      (h : Hunt) → FrameFits (length c.puppet_infos) f → Sound c h → SoundStep c (update_hns g f h)
  unfolding update_hns hunt save_time start_frame
  update_hns-SoundStep h ((p, here), le, ticket) v =
      subst (λ (q : Option Player). SoundStep c (q >>= λ p. hunt g f p h)) (sym here)
        (then_sound c (hide g f p (start_frame g f h)) _
          (hide-SoundStep p (start_frame g f h) le (if_intro (Sound c) h.object.is_first_frame v v))
          (λ h1 v1. then_sound c (gravity g f p h1) _ (gravity-SoundStep p h1 ticket v1) (λ h2 v2.
            then_sound c (change_sides g f h2) (λ x. some (save_time x))
              (change_sides-SoundStep h2 v2) (λ h3 v3. (save_time h3, refl, v3)))))

-- Frames of hide and seek's own object do not fault, however many there are, where each has a player,
-- no more puppets in the holder than there are infos, and a camera ticket if the buttons that
-- switch the gravity camera are pressed. They leave the client as it is.
pub run_hunt-returns :
    (g : Game) (fs : List HnsFrame) (h : Hunt)
    → h.object.kind ≡ hns_mode
    → All (FrameFits (length h.client.puppet_infos)) fs
    → (h' : Hunt) × (run_hunt g fs h ≡ some h')
      × (h'.object.kind ≡ hns_mode)
      × (h'.client ≡ h.client)
unfolding run_hunt
run_hunt-returns g fs h kind each = let (h', e, v) = go fs h each (kind, refl) in (h', e, v.0, v.1)
  where
    go :
        (gs : List HnsFrame) (h1 : Hunt)
        → All (FrameFits (length h.client.puppet_infos)) gs
        → Sound h.client h1
        → SoundStep h.client (run_hunt g gs h1)
    go [] h1 each v = (h1, refl, v)
    go (f ∷ gs) h1 each v =
        then_sound h.client (update_hns g f h1) (run_hunt g gs)
          (update_hns-SoundStep g f h.client h1 each.0 v) (λ h2 v2. go gs h2 each.1 v2)
