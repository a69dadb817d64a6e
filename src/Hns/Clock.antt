-- ===== src/Hns/Clock.antt =====
-- The clock of hide and seek runs exactly while the player hides.
use smoo_bazel.Base.{
  ℕ, zero, suc, ◌≡◌, refl, sym, ap, ◌∙◌, subst, Bool, true, false, not, ◌&&◌, Option, none, some,
  List, [], ◌∷◌, if◌then◌else◌, ◌>>=◌, >>=-eq-some, if_intro, some_inj, f_zero, Vec3,
}
use smoo_bazel.Timer.{toggle_timer, enable_timer, disable_timer, Timer}
use smoo_bazel.Timer.Laws.{update_timer-IsTime, update_timer-switches, IsTime}
use smoo_bazel.Puppets.Info.{PuppetInfo}
use smoo_bazel.Modes.{hns_info}
use smoo_bazel.Socket.{send_tag_inf_packet, Outbox}
use smoo_bazel.Game.{
  invuln_seconds, die, kill_main_player, in_reach, Player, Call, start_camera, end_camera,
  show_hiding, show_seeking, Game,
}
use smoo_bazel.Hns.{
  begin_hns, save_time, catches, send_tag, become_it, meet, meet_from, start_frame, tick, look,
  hide, pull, toggle_camera, gravity_pad, gravity, change_sides, hunt, update_hns, run_hunt, Hunt,
  HnsFrame,
}

-- The clock of a player who is it or not: it runs exactly while the player is not, counts up, and
-- shows a time of day.
pub record IsClocked (is_it : Bool) (t : Timer) : Type 0 where
  pub runs : t.is_enabled ≡ not is_it
  pub counts_up : t.is_count_up ≡ true
  pub shows : IsTime t.time

abbrev pub Clocked : Hunt → Type 0
Clocked h = IsClocked h.info.is_player_it h.timer

begin_hns-Clocked :
    (h : Hunt) → h.timer.is_count_up ≡ true → IsTime h.timer.time → Clocked (begin_hns h)
unfolding begin_hns enable_timer disable_timer
begin_hns-Clocked h up shows = go h.info.is_player_it
  where
    go : (b : Bool) → IsClocked b (if not b then enable_timer h.timer else disable_timer h.timer)
    go true = record { runs = refl; counts_up = up; shows = shows }
    go false = record { runs = refl; counts_up = up; shows = shows }

module _ (g : Game) (f : HnsFrame) where
  pub send_tag-lem :
      (h : Hunt) {h' : Hunt}
      → send_tag g f h ≡ some h'
      → (o : Outbox) × (h' ≡ record h { outbox = o })
  unfolding send_tag
  send_tag-lem h e =
      let (o, _, e') =
        >>=-eq-some
          (send_tag_inf_packet
            (record f.manager { base = some h.object; info = some (hns_info h.info) }) h.outbox)
          _ e in
      (o, sym (some_inj e'))

  send_tag-Clocked : (h : Hunt) {h' : Hunt} → send_tag g f h ≡ some h' → Clocked h → Clocked h'
  send_tag-Clocked h e v = let (o, e') = send_tag-lem h e in subst Clocked (sym e') v

  meet-Clocked :
      (p : Player) (x : PuppetInfo) (h : Hunt) {h' : Hunt}
      → meet g f p x h ≡ some h'
      → Clocked h
      → Clocked h'
  unfolding meet become_it disable_timer
  meet-Clocked p x h e v = go (catches g p h.calls x) e
    where
      caught : Hunt
      caught = record h {
        info = record h.info { is_player_it = true };
        timer = disable_timer h.timer;
        calls = show_seeking ∷ (if in_reach g p x then die h.calls else h.calls);
      }

      go :
          (b : Bool) {h' : Hunt}
          → (if b then send_tag g f caught else some h) ≡ some h'
          → Clocked h'
      go true e =
          send_tag-Clocked caught e
            (record { runs = refl; counts_up = v.counts_up; shows = v.shows })
      go false e = subst Clocked (some_inj e) v

  meet_from-Clocked :
      (p : Player) (n : ℕ) (infos : List PuppetInfo) (h : Hunt) {h' : Hunt}
      → meet_from g f p n infos h ≡ some h'
      → Clocked h
      → Clocked h'
  unfolding meet_from
  meet_from-Clocked p zero infos h e v = subst Clocked (some_inj e) v
  meet_from-Clocked p (suc n) [] h e v = cc
  meet_from-Clocked p (suc n) (x ∷ xs) h e v =
      let (h1, e1, e2) = >>=-eq-some (meet g f p x h) (meet_from g f p n xs) e in
      meet_from-Clocked p n xs h1 e2 (meet-Clocked p x h e1 v)

  tick-Clocked : (h : Hunt) → Clocked h → Clocked (tick g f h)
  unfolding tick
  tick-Clocked h v =
      let (enabled, up) = update_timer-switches g.fl f.pad f.delta h.timer v.counts_up in
      record {
        runs = enabled ∙ v.runs;
        counts_up = up;
        shows = update_timer-IsTime g.fl f.pad f.delta h.timer v.shows v.counts_up;
      }

  hide-Clocked :
      (p : Player) (h : Hunt) {h' : Hunt} → hide g f p h ≡ some h' → Clocked h → Clocked h'
  unfolding hide look
  hide-Clocked p h e v = go (not h.info.is_player_it) (g.fl.le invuln_seconds h.invuln_time) e
    where
      looked : Bool → Option Hunt
      looked b =
          if b
          then meet_from g f p f.holder_size h.client.puppet_infos h
          else some (record h { invuln_time = g.fl.add h.invuln_time f.delta })

      after : (b : Bool) {h1 : Hunt} → looked b ≡ some h1 → Clocked h1
      after true e = meet_from-Clocked p f.holder_size h.client.puppet_infos h e v
      after false e = subst Clocked (some_inj e) v

      go :
          (a b : Bool) {h' : Hunt}
          → (if a then (looked b >>= λ x. some (tick g f x)) else some h) ≡ some h'
          → Clocked h'
      go true b e =
          let (h1, e1, e2) = >>=-eq-some (looked b) (λ x. some (tick g f x)) e in
          subst Clocked (some_inj e2) (tick-Clocked h1 (after b e1))
      go false b e = subst Clocked (some_inj e) v

  start_frame-Clocked : (h : Hunt) → Clocked h → Clocked (start_frame g f h)
  unfolding start_frame
  start_frame-Clocked h v = if_intro Clocked h.object.is_first_frame v v

  -- The gravity part changes the calls and the setting of the camera.
  pub gravity-lem :
      (p : Player) (h h' : Hunt)
      → gravity g f p h ≡ some h'
      → (b : Bool) × (cs : List Call) × (h'
          ≡ record h { calls = cs; info = record h.info { is_use_gravity_cam = b } })
  unfolding gravity gravity_pad toggle_camera pull
  gravity-lem p h =
      if_intro (Turned h) (h.info.is_use_gravity && p.has_info) (padded f.ground) (still h)
    where
      Turned : Hunt → Option Hunt → Type 0
      Turned x m =
          (h' : Hunt)
          → m ≡ some h'
          → (b : Bool) × (cs : List Call) × (h'
              ≡ record x { calls = cs; info = record x.info { is_use_gravity_cam = b } })

      still : (x : Hunt) → Turned x (some x)
      still x h' e = (x.info.is_use_gravity_cam, x.calls, sym (some_inj e))

      camera :
          (b : Bool) (cs : List Call) (x : Hunt)
          → Turned x
              (some (record x { calls = cs; info = record x.info { is_use_gravity_cam = b } }))
      camera b cs x h' e = (b, cs, sym (some_inj e))

      no_ticket : (x : Hunt) → Turned x none
      no_ticket x h' e = cc

      pad_step : (x : Hunt) → Turned x (gravity_pad g f x)
      pad_step x =
          if_intro (Turned x) f.pad.hold_l
            (if_intro (Turned x) f.trigger_right
              (if_intro (Turned x) (not f.has_ticket) (no_ticket x) (
                if_intro (Turned x) (f.camera_active x.calls)
                  (camera false (end_camera ∷ x.calls) x) (camera true (start_camera ∷ x.calls) x)))
              (still x))
            (if_intro (Turned x) (f.trigger_zl && f.pad.trigger_left)
              (camera x.info.is_use_gravity_cam (kill_main_player x.calls) x) (still x))

      padded : (ground : Option Vec3) → Turned h (gravity_pad g f (pull g f ground h))
      padded none = pad_step h
      padded (some d) = pad_step (pull g f (some d) h)

  gravity-Clocked :
      (p : Player) (h : Hunt) {h' : Hunt} → gravity g f p h ≡ some h' → Clocked h → Clocked h'
  gravity-Clocked p h {h'} e v =
      let (b, cs, e') = gravity-lem p h h' e in
      subst Clocked (sym e') (record { runs = v.runs; counts_up = v.counts_up; shows = v.shows })

  change_sides-Clocked :
      (h : Hunt) {h' : Hunt} → change_sides g f h ≡ some h' → Clocked h → Clocked h'
  unfolding change_sides toggle_timer
  change_sides-Clocked h e v = go (f.trigger_up && not f.hold_zl) e
    where
      hiding : Hunt
      hiding = record h {
        info = record h.info { is_player_it = false };
        timer = toggle_timer h.timer;
        invuln_time = f_zero;
        calls = show_hiding ∷ h.calls;
      }

      seeking : Hunt
      seeking = record h {
        info = record h.info { is_player_it = true };
        timer = toggle_timer h.timer;
        calls = show_seeking ∷ h.calls;
      }

      turned : (b : Bool) → h.timer.is_enabled ≡ not b → Clocked (if b then hiding else seeking)
      turned true r = record { runs = ap not r; counts_up = v.counts_up; shows = v.shows }
      turned false r = record { runs = ap not r; counts_up = v.counts_up; shows = v.shows }

      go :
          (b : Bool) {h' : Hunt}
          → (if b then send_tag g f (if h.info.is_player_it then hiding else seeking) else some h)
            ≡ some h'
          → Clocked h'
      go true e =
          send_tag-Clocked (if h.info.is_player_it then hiding else seeking) e
            (turned h.info.is_player_it v.runs)
      go false e = subst Clocked (some_inj e) v

  -- The clock is right after a frame, and its time is the one that the info holds.
  update_hns-Clocked :
      (h : Hunt) {h' : Hunt}
      → update_hns g f h ≡ some h'
      → Clocked h
      → Clocked h' × (h'.info.hiding_time ≡ h'.timer.time)
  unfolding update_hns hunt save_time
  update_hns-Clocked h e v =
      let (p, _, e0) = >>=-eq-some f.player (λ p. hunt g f p h) e in
      let (h1, e1, k) = >>=-eq-some (hide g f p (start_frame g f h)) _ e0 in
      let (h2, e2, k2) = >>=-eq-some (gravity g f p h1) _ k in
      let (h3, e3, k') = >>=-eq-some (change_sides g f h2) (λ x. some (save_time x)) k2 in
      let v1 = hide-Clocked p (start_frame g f h) e1 (start_frame-Clocked h v) in
      let v3 = change_sides-Clocked h2 e3 (gravity-Clocked p h1 e2 v1) in
      subst (λ x. Clocked x × (x.info.hiding_time ≡ x.timer.time)) (some_inj k') (v3, refl)

module _ (g : Game) where
  run_hunt-keeps :
      (fs : List HnsFrame) (h : Hunt) {h' : Hunt}
      → run_hunt g fs h ≡ some h'
      → Clocked h
      → Clocked h'
  unfolding run_hunt
  run_hunt-keeps [] h e v = subst Clocked (some_inj e) v
  run_hunt-keeps (f ∷ fs) h e v =
      let (h1, e1, e2) = >>=-eq-some (update_hns g f h) (run_hunt g fs) e in
      run_hunt-keeps fs h1 e2 (update_hns-Clocked g f h e1 v).0

  -- After the begin of the mode, with a clock that counts up and shows a time of day, and any number of
  -- frames, at least one, with no packet and no other change between them: the clock runs exactly while
  -- the player is not it, it shows a time of day, and that is the time that the info holds for the next
  -- tag packet.
  pub run_hunt-Clocked :
      (fs : List HnsFrame) (f : HnsFrame) (h h1 h' : Hunt)
      → h.timer.is_count_up ≡ true
      → IsTime h.timer.time
      → run_hunt g fs (begin_hns h) ≡ some h1
      → update_hns g f h1 ≡ some h'
      → IsClocked h'.info.is_player_it h'.timer × (h'.info.hiding_time ≡ h'.timer.time)
  run_hunt-Clocked fs f h h1 h' up shows e e' =
      update_hns-Clocked g f h1 e'
        (run_hunt-keeps fs (begin_hns h) e (begin_hns-Clocked h up shows))
