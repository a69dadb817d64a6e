-- ===== src/Ctf/Play/Turn.antt =====
-- What a whole frame of capture the flag changes in a round.
use smoo_bazel.Base.{
  ◌≡◌, refl, sym, ap, ◌∙◌, subst, Bool, true, false, ◌&&◌, Option, none, some, List, ◌∷◌, arith,
  if◌then◌else◌, ◌>>=◌, >>=-eq-some, some_inj, length, Float, f_zero,
}
use smoo_bazel.Modes.{ModeObject}
use smoo_bazel.Stages.{Coordinates}
use smoo_bazel.Socket.Bound.{Quiet-same}
use smoo_bazel.Client.State.{Flags}
use smoo_bazel.Game.{invuln_seconds, Player, Call, start_camera, show_team, Game}
use smoo_bazel.Ctf.State.{call, BorderActor, Round, Frame}
use smoo_bazel.Ctf.Place.{local_player, is_invulnerable, update_border, update_flags}
use smoo_bazel.Ctf.Place.Changes.{update_border-lem, update_flags-MovesFlags}
use smoo_bazel.Ctf.Play.{
  check_tagged, check_pick_up_or_drop_flag, send_flag_hold_state_if_held, check_win, enter, play,
  update_ctf,
}
use smoo_bazel.Ctf.Play.Tagged.{check_tagged-lem}
use smoo_bazel.Ctf.Play.Held.{check_pick_up_or_drop_flag-PickStep, PickStep}
use smoo_bazel.Ctf.Play.Ends.{sends, ends, keeps_info, Turn}

module _ (c : Coordinates) (g : Game) (f : Frame) where
  -- Up to the tags.
  pub starts :
      (r : Round) {r1 r2 r3 : Round}
      → update_border c g f r ≡ some r1
      → update_flags c g f r1 ≡ some r2
      → check_tagged c g f r2 ≡ some r3
      → (b : BorderActor) × (fs : Flags) × (t : Float) × (cs : List Call) × (r3
          ≡ record r { border = some b; flags = fs; invuln_time = t; calls = cs })
        × (length fs.team_flags ≡ length r.flags.team_flags)
        × (is_invulnerable c g f r ≡ false → t ≡ r.invuln_time)
  unfolding is_invulnerable
  starts r {r1} {r2} h1 h2 h3 =
      let (b, cs, e1) = update_border-lem c g f r h1 in
      let m = update_flags-MovesFlags c g f r1 h2 in
      let (t, cs', e3, v) = check_tagged-lem c g f r2 h3 in
      let e2 = m.as_moved ∙ ap (λ (x : Round). record x { flags = m.moved }) e1 in
      let at_invuln = ap (λ (x : Round). x.invuln_time) e2 in
      (
        b,
        m.moved,
        t,
        cs',
        e3 ∙ ap (λ (x : Round). record x { invuln_time = t; calls = cs' }) e2,
        m.as_many ∙ ap (λ (x : Round). length x.flags.team_flags) e1,
        λ n. v (ap (λ x. g.fl.le invuln_seconds x) at_invuln ∙ n) ∙ at_invuln,
      )

  -- The pieces of a frame of a player.
  joins :
      (p : Player) (r : Round) {r3 r4 r5 : Round} (b : BorderActor) (fs : Flags) (t : Float)
      (cs : List Call)
      → r3 ≡ record r { border = some b; flags = fs; invuln_time = t; calls = cs }
      → length fs.team_flags ≡ length r.flags.team_flags
      → (is_invulnerable c g f r ≡ false → t ≡ r.invuln_time)
      → PickStep c g f p r3 r4
      → send_flag_hold_state_if_held c g f p r4 ≡ some r5
      → Turn c g f r (check_win c g f r5)
  unfolding is_invulnerable
  joins p r {r4 = r4} b fs t cs e l v s h =
      let r3' : Round = record r { border = some b; flags = fs; invuln_time = t; calls = cs } in
      let (fs', o, e', l', q, silent, idle) = sends c g f p r4 h in
      let step = ends c g f p r3' fs' o (subst (λ x. PickStep c g f p x r4) e s) l' q silent idle in
      subst (Turn c g f r) (sym e') (record {
        info = step.info;
        same_client = step.same_client;
        bordered = λ _. step.bordered (b, refl);
        in_flags = λ h. step.in_flags (omega arith);
        as_many = step.as_many ∙ l;
        quiet = step.quiet;
        few = step.few;
        tagged = λ n. step.tagged (ap (λ x. g.fl.le invuln_seconds x) (v n) ∙ n) ∙ v n;
      })

  play-Turn : (r : Round) {r' : Round} → play c g f r ≡ some r' → Turn c g f r r'
  unfolding play
  play-Turn r = go (local_player c g f r)
    where
      stays : Turn c g f r r
      stays = record {
        info = keeps_info refl;
        same_client = refl;
        bordered = λ d. d;
        in_flags = λ h. h;
        as_many = refl;
        quiet = Quiet-same 3 r.outbox;
        few = omega arith;
        tagged = λ _. refl;
      }

      with_player : Player → Option Round
      with_player p = do
        r1 ← update_border c g f r
        r2 ← update_flags c g f r1
        r3 ← check_tagged c g f r2
        r4 ← check_pick_up_or_drop_flag c g f p r3
        r5 ← send_flag_hold_state_if_held c g f p r4
        some (check_win c g f r5)

      go :
          (p : Option Player) {r' : Round}
          → elim p [ none ↦ some r | some p ↦ with_player p ] ≡ some r'
          → Turn c g f r r'
      go none h = subst (Turn c g f r) (some_inj h) stays
      go (some p) h =
          let (r1, h1, k1) = >>=-eq-some (update_border c g f r) _ h in
          let (r2, h2, k2) = >>=-eq-some (update_flags c g f r1) _ k1 in
          let (r3, h3, k3) = >>=-eq-some (check_tagged c g f r2) _ k2 in
          let (r4, h4, k4) = >>=-eq-some (check_pick_up_or_drop_flag c g f p r3) _ k3 in
          let (r5, h5, k5) = >>=-eq-some (send_flag_hold_state_if_held c g f p r4) _ k4 in
          let (b, fs, t, cs, e, l, v) = starts r h1 h2 h3 in
          subst (Turn c g f r) (some_inj k5)
            (joins p r b fs t cs e l v (check_pick_up_or_drop_flag-PickStep c g f p r3 h4) h5)

  pub enter-lem :
      (r : Round)
      → (o : ModeObject) × (cs : List Call) × (enter c g f r ≡ record r { object = o; calls = cs })
  unfolding enter
  enter-lem r = go r.object.is_first_frame
    where
      entered : Round
      entered = record r {
        object = record r.object { is_first_frame = false };
        calls =
            if r.info.is_use_gravity_cam && f.has_ticket then start_camera ∷ r.calls else r.calls;
      }

      go :
          (b : Bool)
          → (o : ModeObject) × (cs : List Call) × ((if b then entered else r)
              ≡ record r { object = o; calls = cs })
      go true = (entered.object, entered.calls, refl)
      go false = (r.object, r.calls, refl)

  pub update_ctf-Turn : (r : Round) {r' : Round} → update_ctf c g f r ≡ some r' → Turn c g f r r'
  unfolding update_ctf call is_invulnerable
  update_ctf-Turn r = go (g.fl.lt f_zero r.teleport_timer)
    where
      shown : Round
      shown = record r { calls = show_team r.info.player_team ∷ r.calls }

      from_calls :
          (o : ModeObject) (cs : List Call) {r' : Round}
          → Turn c g f (record r { object = o; calls = cs }) r'
          → Turn c g f r r'
      from_calls o cs t = record {
        info = t.info;
        same_client = t.same_client;
        bordered = t.bordered;
        in_flags = t.in_flags;
        as_many = t.as_many;
        quiet = t.quiet;
        few = t.few;
        tagged = t.tagged;
      }

      go :
          (b : Bool) {r' : Round}
          → (if b
              then some (record shown { teleport_timer = g.fl.sub shown.teleport_timer f.delta })
              else play c g f (enter c g f shown))
            ≡ some r'
          → Turn c g f r r'
      go true h = subst (Turn c g f r) (some_inj h) (record {
        info = keeps_info refl;
        same_client = refl;
        bordered = λ d. d;
        in_flags = λ h. h;
        as_many = refl;
        quiet = Quiet-same 3 r.outbox;
        few = omega arith;
        tagged = λ _. refl;
      })
      go false {r'} h =
          let (o, cs, e) = enter-lem shown in
          from_calls o cs (subst (λ x. Turn c g f x r') e (play-Turn (enter c g f shown) h))
