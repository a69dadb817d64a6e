-- ===== src/Ctf/Play/Safe.antt =====
-- Where a frame of capture the flag does not fault.
use smoo_bazel.Base.{
  ◌≤◌, ◌<◌, ◌≡◌, refl, sym, ap, ◌∙◌, subst, Option, none, some, List, ◌∷◌, arith, if◌then◌else◌,
  ◌>>=◌, if_intro, Defined, >>=-Defined, length, f_zero,
}
use smoo_bazel.Modes.{ModeObject}
use smoo_bazel.Stages.{Coordinates}
use smoo_bazel.Client.State.{loop_bound, Client, Flags}
use smoo_bazel.Client.Flags.{flag_index}
use smoo_bazel.Game.{Player, Call, show_team, Game}
use smoo_bazel.Ctf.State.{call, BorderActor, Round, Frame}
use smoo_bazel.Ctf.Place.{local_player, update_border, update_flags}
use smoo_bazel.Ctf.Place.Changes.{update_border-lem, update_flags-MovesFlags}
use smoo_bazel.Ctf.Play.{
  check_tagged, check_pick_up_or_drop_flag, send_flag_hold_state_if_held, check_win, play,
  update_ctf,
}
use smoo_bazel.Ctf.Play.Held.{check_pick_up_or_drop_flag-PickStep}
use smoo_bazel.Ctf.Place.Safe.{update_border-Defined, update_flags-Defined}
use smoo_bazel.Ctf.Play.Ends.{PickStep-in_flags, Turn}
use smoo_bazel.Ctf.Play.Turn.{starts, enter-lem, update_ctf-Turn}
use smoo_bazel.Ctf.Play.SafeSteps.{
  check_tagged-Defined, check_pick_up_or_drop_flag-Defined, send_flag_hold_state_if_held-Defined,
  IsReady,
}

module _ (c : Coordinates) (g : Game) (f : Frame) where
  local_player-same :
      (r r' : Round)
      → r'.object ≡ r.object
      → Defined (local_player c g f r)
      → Defined (local_player c g f r')
  unfolding local_player
  local_player-same r r' e d =
      subst
        (λ (o : ModeObject). Defined (
          if o.is_first_frame then none else f.player >>= λ p. if p.has_info then some p else none))
        (sym e) d

  -- From the pick-up on.
  ends-Defined :
      (p : Player) (r : Round)
      → 3 ≤ length r.flags.team_flags
      → flag_index r.info.held_flag < length r.flags.team_flags
      → Defined (
          check_pick_up_or_drop_flag c g f p r >>= λ r4.
          send_flag_hold_state_if_held c g f p r4 >>= λ r5. some (check_win c g f r5))
  ends-Defined p r many held =
      >>=-Defined (check_pick_up_or_drop_flag c g f p r) _
        (check_pick_up_or_drop_flag-Defined c g f p r many)
        (λ r4 e.
          >>=-Defined (send_flag_hold_state_if_held c g f p r4) _
            (send_flag_hold_state_if_held-Defined c g f p r4
              (PickStep-in_flags c g f p r (check_pick_up_or_drop_flag-PickStep c g f p r e) held))
            (λ r5 _. (check_win c g f r5, refl)))

  play-Defined :
      (r : Round)
      → IsReady r
      → f.holder_size ≤ length r.client.puppet_infos
      → Defined (play c g f r)
  unfolding play
  play-Defined r v shown = go (local_player c g f r) refl
    where
      moved :
          {r1 r2 : Round}
          → update_border c g f r ≡ some r1
          → update_flags c g f r1 ≡ some r2
          → (b : BorderActor) × (cs : List Call) × (fs : Flags) × (r2
              ≡ record r { border = some b; calls = cs; flags = fs })
      moved {r1} h1 h2 =
          let (b, cs, e) = update_border-lem c g f r h1 in
          let m = update_flags-MovesFlags c g f r1 h2 in
          (b, cs, m.moved, m.as_moved ∙ ap (λ (x : Round). record x { flags = m.moved }) e)

      tags :
          (r2 : Round) (p : Player)
          → local_player c g f r ≡ some p
          → (b : BorderActor) (cs : List Call) (fs : Flags)
          → r2 ≡ record r { border = some b; calls = cs; flags = fs }
          → Defined (check_tagged c g f r2)
      tags r2 p here b cs fs e =
          check_tagged-Defined c g f r2
            (subst (λ (x : Round). f.holder_size ≤ length x.client.puppet_infos) (sym e) shown)
            (local_player-same r r2 (ap (λ (x : Round). x.object) e) (p, here))

      go :
          (p : Option Player)
          → local_player c g f r ≡ p
          → Defined (elim p [
            | none ↦ some r
            | some p ↦ do
              r1 ← update_border c g f r
              r2 ← update_flags c g f r1
              r3 ← check_tagged c g f r2
              r4 ← check_pick_up_or_drop_flag c g f p r3
              r5 ← send_flag_hold_state_if_held c g f p r4
              some (check_win c g f r5)
          ])
      go none here = (r, refl)
      go (some p) here =
          >>=-Defined (update_border c g f r) _ (update_border-Defined c g f r v.border) (λ r1 h1.
            let (b, cs, e) = update_border-lem c g f r h1 in
            >>=-Defined (update_flags c g f r1) _
              (subst (λ x. Defined (update_flags c g f x)) (sym e)
                (update_flags-Defined c g f (record r { border = some b; calls = cs }) v.infos
                  v.many))
              (λ r2 h2.
                let (b', cs', fs', e2) = moved h1 h2 in
                >>=-Defined (check_tagged c g f r2) _ (tags r2 p here b' cs' fs' e2) (λ r3 h3.
                  let (b3, fs, t, cs3, e3, l, _) = starts c g f r h1 h2 h3 in
                  subst
                    (λ x. Defined (
                      check_pick_up_or_drop_flag c g f p x >>= λ r4.
                      send_flag_hold_state_if_held c g f p r4 >>= λ r5. some (check_win c g f r5)))
                    (sym e3)
                    (ends-Defined p
                      (record r { border = some b3; flags = fs; invuln_time = t; calls = cs3 })
                      (omega (arith, v.many)) (omega (arith, v.held))))))

  update_ctf-Defined :
      (r : Round)
      → IsReady r
      → f.holder_size ≤ length r.client.puppet_infos
      → Defined (update_ctf c g f r)
  unfolding update_ctf call
  update_ctf-Defined r v shown =
      if_intro Defined (g.fl.lt f_zero r.teleport_timer)
        (record shown_team { teleport_timer = g.fl.sub r.teleport_timer f.delta }, refl)
        (let (o, cs, e) = enter-lem c g f shown_team in
          subst (λ x. Defined (play c g f x)) (sym e)
            (play-Defined (record shown_team { object = o; calls = cs })
              (record { infos = v.infos; border = v.border; many = v.many; held = v.held }) shown))
    where
      shown_team : Round
      shown_team = record r { calls = show_team r.info.player_team ∷ r.calls }

  -- A frame of a ready round, in a puppet holder with no more puppets than there are infos, does not
  -- fault, and leaves the round ready.
  pub update_ctf-IsReady :
      (r : Round)
      → IsReady r
      → f.holder_size ≤ length r.client.puppet_infos
      → (r' : Round) × (update_ctf c g f r ≡ some r') × IsReady r'
  update_ctf-IsReady r v shown =
      let (r', e) = update_ctf-Defined r v shown in (r', e, ready r' (update_ctf-Turn c g f r e))
    where
      ready : (r' : Round) → Turn c g f r r' → IsReady r'
      ready r' t = record {
        infos =
            subst (λ (x : Client). loop_bound x.max_puppets ≤ length x.puppet_infos)
              (sym t.same_client) v.infos;
        border = t.bordered v.border;
        many = omega (arith, t.as_many, v.many);
        held = t.in_flags v.held;
      }
