-- ===== src/Ctf/Play/Ends.antt =====
-- What a frame of capture the flag changes from the pick-up on.
use smoo_bazel.Base.{
  ◌+◌, ◌≤◌, ◌<◌, ◌≡◌, refl, sym, ap, ◌∙◌, subst, ◌≢◌, inl, inr, Bool, true, false, some, arith,
  if◌then◌else◌, Defined, length, get_elem?-lt,
}
use smoo_bazel.Puppets.Info.{team_eq, ne→team_eq, FlagTeam, invalid}
use smoo_bazel.Modes.{CtfInfo}
use smoo_bazel.Stages.{Coordinates}
use smoo_bazel.Socket.{send_flag_hold_state_packet, send_ctf_win_packet, Outbox}
use smoo_bazel.Socket.Bound.{
  queued, Quiet, Quiet-same, Quiet-more, Quiet-then, send_flag_hold_state_packet-Quiet,
  send_ctf_win_packet-Quiet, send_flag_hold_state_packet-queued, send_ctf_win_packet-queued,
}
use smoo_bazel.Client.State.{Flags}
use smoo_bazel.Client.Flags.{flag_index}
use smoo_bazel.Game.{Player, Game}
use smoo_bazel.Ctf.State.{drop_held_flag, Round, Frame}
use smoo_bazel.Ctf.Place.{is_invulnerable}
use smoo_bazel.Ctf.Play.{send_flag_hold_state_if_held, check_win}
use smoo_bazel.Ctf.Play.Held.{Pressed, PickStep, keeps, drops, takes}
use smoo_bazel.Ctf.Play.Win.{opposing-listed, check_win-Wins, send_flag_hold_state_if_held-lem}

-- The info after a frame: the same, or with a flag dropped or taken by the buttons.
pub data InfoStep (f : Frame) (i i' : CtfInfo) : Type 0 where
  keeps_info : i' ≡ i → InfoStep f i i'
  drops_flag :
      Pressed f → i.held_flag ≢ invalid → i' ≡ record i { held_flag = invalid } → InfoStep f i i'
  takes_flag :
      Pressed f
      → i.held_flag ≡ invalid
      → (team : FlagTeam) → team ≢ invalid
      → team ≢ i.player_team
      → i' ≡ record i { held_flag = team }
      → InfoStep f i i'

pub record Turn (c : Coordinates) (g : Game) (f : Frame) (r r' : Round) : Type 0 where
  pub info : InfoStep f r.info r'.info
  pub same_client : r'.client ≡ r.client
  pub bordered : Defined r.border → Defined r'.border
  pub in_flags :
      flag_index r.info.held_flag < length r.flags.team_flags
      → flag_index r'.info.held_flag < length r'.flags.team_flags
  pub as_many : length r'.flags.team_flags ≡ length r.flags.team_flags
  pub quiet : Quiet 3 r.outbox r'.outbox
  pub few : queued r'.outbox ≤ queued r.outbox + 2
  pub tagged : is_invulnerable c g f r ≡ false → r'.invuln_time ≡ r.invuln_time

module _ (c : Coordinates) (g : Game) (f : Frame) where
  check_win-lem :
      (r : Round)
      → (o : Outbox) × (check_win c g f r ≡ record r { outbox = o })
        × (queued o ≤ queued r.outbox + 1)
        × Quiet 1 r.outbox o
        × (r.info.held_flag ≡ invalid → queued o ≤ queued r.outbox)
  check_win-lem r = elim (check_win-Wins c g f r) [
    | inl (w, e) ↦ (
      send_ctf_win_packet r.info.player_team r.outbox,
      e,
      send_ctf_win_packet-queued r.info.player_team r.outbox,
      send_ctf_win_packet-Quiet r.info.player_team r.outbox,
      λ i. absurd ((opposing-listed r.info.player_team r.info.held_flag w.carried).1 i),
    )
    | inr (_, e) ↦ (r.outbox, e, omega arith, Quiet-same 1 r.outbox, λ _. omega arith)
  ]

  -- From the sending of the held flag on.
  pub sends :
      (p : Player) (r : Round) {r' : Round}
      → send_flag_hold_state_if_held c g f p r ≡ some r'
      → (fs : Flags) × (o : Outbox) × (check_win c g f r' ≡ record r { flags = fs; outbox = o })
        × (length fs.team_flags ≡ length r.flags.team_flags)
        × (queued o ≤ queued r.outbox + 2)
        × Quiet 2 r.outbox o
        × (r.info.held_flag ≡ invalid → queued o ≤ queued r.outbox)
  sends p r {r'} h =
      let (fs, o, e, l, q, silent, idle) = send_flag_hold_state_if_held-lem c g f p r h in
      let (o', e', q', silent', idle') = check_win-lem r' in
      let to_o : queued r'.outbox ≡ queued o = ap (λ (x : Round). queued x.outbox) e in
      (
        fs,
        o',
        e' ∙ ap (λ (x : Round). record x { outbox = o' }) e,
        l,
        omega arith,
        Quiet-then 1 1 r.outbox o o' q silent
            (subst (λ (x : Round). Quiet 1 x.outbox o') e silent'),
        λ i.
            let same : queued r'.outbox ≡ queued r.outbox =
              ap (λ (x : Round). queued x.outbox) (idle i) in
            let still = idle' (ap (λ (x : Round). x.info.held_flag) e ∙ i) in omega arith,
      )

  drop_held_flag-lem :
      (r : Round)
      → r.info.held_flag ≢ invalid
      → (o : Outbox) × (drop_held_flag r
          ≡ record r { outbox = o; info = record r.info { held_flag = invalid } })
        × (queued o ≤ queued r.outbox + 1)
        × Quiet 1 r.outbox o
  unfolding drop_held_flag
  drop_held_flag-lem r held = (
    send_flag_hold_state_packet (record { is_held = false; flag_team = r.info.held_flag }) r.outbox,
    go (team_eq r.info.held_flag invalid) (ne→team_eq r.info.held_flag invalid held),
    send_flag_hold_state_packet-queued (record { is_held = false; flag_team = r.info.held_flag })
        r.outbox,
    send_flag_hold_state_packet-Quiet (record { is_held = false; flag_team = r.info.held_flag })
        r.outbox,
  )
    where
      dropped : Round
      dropped = record r {
        outbox =
            send_flag_hold_state_packet (record { is_held = false; flag_team = r.info.held_flag })
              r.outbox;
        info = record r.info { held_flag = invalid };
      }

      go : (b : Bool) → b ≡ false → (if b then r else dropped) ≡ dropped
      go true e = cc
      go false e = refl

  pub PickStep-in_flags :
      (p : Player) (r : Round) {r4 : Round}
      → PickStep c g f p r r4
      → flag_index r.info.held_flag < length r.flags.team_flags
      → flag_index r4.info.held_flag < length r4.flags.team_flags
  PickStep-in_flags p r s h = elim s [
    | keeps e ↦ subst InFlags (sym e) h
    | takes _ _ team free e ↦
        subst InFlags (sym e) (get_elem?-lt r.flags.team_flags (flag_index team) free.at_team)
    | drops _ held _ e ↦
        let (_, e', _, _) = drop_held_flag-lem r held in subst InFlags (sym (e ∙ e')) (omega arith)
  ]
    where
      InFlags : Round → Type 0
      InFlags x = flag_index x.info.held_flag < length x.flags.team_flags

  -- From the pick-up on.
  pub ends :
      (p : Player) (r : Round) {r4 : Round} (fs : Flags) (o : Outbox)
      → PickStep c g f p r r4
      → length fs.team_flags ≡ length r4.flags.team_flags
      → queued o ≤ queued r4.outbox + 2
      → Quiet 2 r4.outbox o
      → (r4.info.held_flag ≡ invalid → queued o ≤ queued r4.outbox)
      → Turn c g f r (record r4 { flags = fs; outbox = o })
  ends p r {r4} fs o s l q silent idle =
      let in_range = PickStep-in_flags p r s in
      elim s [
        | keeps e ↦ record {
          info = keeps_info (ap (λ (x : Round). x.info) e);
          same_client = ap (λ (x : Round). x.client) e;
          bordered = subst Defined (sym (ap (λ (x : Round). x.border) e));
          in_flags = λ h. omega (arith, in_range h, l);
          as_many = l ∙ many e;
          quiet =
              Quiet-more 2 3 r.outbox o (omega arith)
                (subst (λ (x : Round). Quiet 2 x.outbox o) e silent);
          few = omega (arith, box e);
          tagged = λ _. ap (λ (x : Round). x.invuln_time) e;
        }
        | takes pressed empty team free e ↦ record {
          info =
              takes_flag pressed empty team free.listed free.other (ap (λ (x : Round). x.info) e);
          same_client = ap (λ (x : Round). x.client) e;
          bordered = subst Defined (sym (ap (λ (x : Round). x.border) e));
          in_flags = λ h. omega (
            arith,
            ap (λ (x : Round). flag_index x.info.held_flag) e,
            l,
            many e,
            get_elem?-lt r.flags.team_flags (flag_index team) free.at_team,
          );
          as_many = l ∙ many e;
          quiet =
              Quiet-more 2 3 r.outbox o (omega arith)
                (subst (λ (x : Round). Quiet 2 x.outbox o) e silent);
          few = omega (arith, box e);
          tagged = λ _. ap (λ (x : Round). x.invuln_time) e;
        }
        | drops pressed held home e ↦
            let (d, e', q', silent') = drop_held_flag-lem r held in
            let t = e ∙ e' in
            let at_d : queued r4.outbox ≡ queued d = box t in
            let still = idle (ap (λ (x : Round). x.info.held_flag) t) in
            record {
              info = drops_flag pressed held (ap (λ (x : Round). x.info) t);
              same_client = ap (λ (x : Round). x.client) t;
              bordered = subst Defined (sym (ap (λ (x : Round). x.border) t));
              in_flags =
                  λ h. omega (arith, ap (λ (x : Round). flag_index x.info.held_flag) t, l, many t);
              as_many = l ∙ many t;
              quiet =
                  Quiet-then 1 2 r.outbox d o q' silent'
                    (subst (λ (x : Round). Quiet 2 x.outbox o) t silent);
              few = omega arith;
              tagged = λ _. ap (λ (x : Round). x.invuln_time) t;
            }
      ]
    where
      many : {x y : Round} → x ≡ y → length x.flags.team_flags ≡ length y.flags.team_flags
      many e = ap (λ (x : Round). length x.flags.team_flags) e

      box : {x y : Round} → x ≡ y → queued x.outbox ≡ queued y.outbox
      box e = ap (λ (x : Round). queued x.outbox) e
