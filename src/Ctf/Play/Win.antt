-- ===== src/Ctf/Play/Win.antt =====
-- What wins a round, and what is sent while a flag is held.
use smoo_bazel.Base.{
  ◌+◌, ◌≤◌, ◌≡◌, refl, sym, ap, ◌∙◌, ◌≢◌, ◌⊎◌, inl, inr, Bool, true, false, ◌&&◌, some, arith,
  if◌then◌else◌, Bool-cases, some_inj, and_split, true_ne_false, length,
}
use smoo_bazel.Puppets.Info.{
  team_eq, team_eq_refl, team_eq-ne, team_eq→eq, FlagTeam, invalid, red, blue, unlisted,
}
use smoo_bazel.Modes.{CtfInfo}
use smoo_bazel.Stages.{Coordinates}
use smoo_bazel.Socket.{send_flag_hold_state_packet, send_ctf_win_packet, Outbox}
use smoo_bazel.Socket.Bound.{
  queued, Quiet, Quiet-same, send_flag_hold_state_packet-Quiet, send_flag_hold_state_packet-queued,
}
use smoo_bazel.Client.State.{Flags}
use smoo_bazel.Game.{Player, Game}
use smoo_bazel.Ctf.State.{get_opposing_team, eq_optional, holds_opposing, move_flag, Round, Frame}
use smoo_bazel.Ctf.Place.{get_team_side}
use smoo_bazel.Ctf.Place.Changes.{move_flag-MovesFlags}
use smoo_bazel.Ctf.Play.{send_flag_hold_state_if_held, check_win}

-- The own side is reached with the opposing flag, in a round that nobody has won.
pub record Wins (c : Coordinates) (g : Game) (f : Frame) (r : Round) : Type 0 where
  pub unwon : r.info.winning_team ≡ invalid
  pub home : get_team_side c g f r ≡ r.info.player_team
  pub carried : get_opposing_team r.info.player_team ≡ some r.info.held_flag

holds_opposing-carried :
    (i : CtfInfo)
    → holds_opposing i ≡ true
    → (get_opposing_team i.player_team ≡ some i.held_flag) × (i.player_team ≢ invalid)
unfolding holds_opposing get_opposing_team
holds_opposing-carried i h = go i.player_team i.held_flag h
  where
    go :
        (own held : FlagTeam)
        → eq_optional held (get_opposing_team own) ≡ true
        → (get_opposing_team own ≡ some held) × (own ≢ invalid)
    go invalid held h = cc
    go red held h = (ap some (sym (team_eq→eq held blue h)), team_eq-ne red invalid refl)
    go blue held h = (ap some (sym (team_eq→eq held red h)), team_eq-ne blue invalid refl)
    go (unlisted n) held h = cc

pub carried-holds_opposing :
    (i : CtfInfo) → get_opposing_team i.player_team ≡ some i.held_flag → holds_opposing i ≡ true
unfolding holds_opposing
carried-holds_opposing i h = ap (eq_optional i.held_flag) h ∙ team_eq_refl i.held_flag

pub opposing-listed :
    (own held : FlagTeam) → get_opposing_team own ≡ some held → (own ≢ invalid) × (held ≢ invalid)
unfolding get_opposing_team
opposing-listed invalid held h = cc
opposing-listed red held h = (team_eq-ne red invalid refl, λ e. cc)
opposing-listed blue held h = (team_eq-ne blue invalid refl, λ e. cc)
opposing-listed (unlisted n) held h = cc

module _ (c : Coordinates) (g : Game) (f : Frame) where
  -- The win of the own team is sent where the player wins, and otherwise nothing happens.
  pub check_win-Wins :
      (r : Round)
      → (Wins c g f r
          × (check_win c g f r
              ≡ record r { outbox = send_ctf_win_packet r.info.player_team r.outbox }))
        ⊎ (¬ Wins c g f r × (check_win c g f r ≡ r))
  unfolding check_win
  check_win-Wins r = elim (Bool-cases (team_eq r.info.winning_team invalid)) [
    | inr n ↦
        inr (λ (w : Wins c g f r). team_eq-ne r.info.winning_team invalid n w.unwon, rw n refl)
    | inl y ↦ elim (Bool-cases (team_eq (get_team_side c g f r) invalid)) [
      | inl s ↦ inr (
        λ w.
            (opposing-listed r.info.player_team r.info.held_flag w.carried).0
              (sym w.home ∙ team_eq→eq (get_team_side c g f r) invalid s),
        rw (y, s) refl,
      )
      | inr s ↦
          elim (Bool-cases
            (team_eq (get_team_side c g f r) r.info.player_team && holds_opposing r.info)) [
              | inl w ↦
                  let (h, o) =
                    and_split (team_eq (get_team_side c g f r) r.info.player_team)
                      (holds_opposing r.info) w in
                  inl (
                    record {
                      unwon = team_eq→eq r.info.winning_team invalid y;
                      home = team_eq→eq (get_team_side c g f r) r.info.player_team h;
                      carried = (holds_opposing-carried r.info o).0;
                    },
                    rw (y, s, w) refl,
                  )
              | inr w ↦ inr (
                λ (v : Wins c g f r). true_ne_false (
                    sym (
                      rw
                        (
                          v.home,
                          team_eq_refl r.info.player_team,
                          carried-holds_opposing r.info v.carried,
                        )
                        refl)
                    ∙ w),
                rw (y, s, w) refl,
              )
            ]
    ]
  ]

  pub send_flag_hold_state_if_held-lem :
      (p : Player) (r : Round) {r' : Round}
      → send_flag_hold_state_if_held c g f p r ≡ some r'
      → (fs : Flags) × (o : Outbox) × (r' ≡ record r { flags = fs; outbox = o })
        × (length fs.team_flags ≡ length r.flags.team_flags)
        × (queued o ≤ queued r.outbox + 1)
        × Quiet 1 r.outbox o
        × (r.info.held_flag ≡ invalid → r' ≡ r)
  unfolding send_flag_hold_state_if_held
  send_flag_hold_state_if_held-lem p r h = go (team_eq r.info.held_flag invalid) refl h
    where
      sending : Outbox
      sending =
          send_flag_hold_state_packet (record { is_held = true; flag_team = r.info.held_flag })
            r.outbox

      go :
          (b : Bool) {r' : Round}
          → team_eq r.info.held_flag invalid ≡ b
          → (if b
              then some r
              else move_flag p.trans p.rot r.info.held_flag (record r { outbox = sending }))
            ≡ some r'
          → (fs : Flags) × (o : Outbox) × (r' ≡ record r { flags = fs; outbox = o })
            × (length fs.team_flags ≡ length r.flags.team_flags)
            × (queued o ≤ queued r.outbox + 1)
            × Quiet 1 r.outbox o
            × (r.info.held_flag ≡ invalid → r' ≡ r)
      go true e h = (
        r.flags,
        r.outbox,
        sym (some_inj h),
        refl,
        omega arith,
        Quiet-same 1 r.outbox,
        λ _. sym (some_inj h),
      )
      go false e h =
          let m =
            move_flag-MovesFlags p.trans p.rot r.info.held_flag (record r { outbox = sending }) h in
          (
            m.moved,
            sending,
            m.as_moved,
            m.as_many,
            send_flag_hold_state_packet-queued
                (record { is_held = true; flag_team = r.info.held_flag }) r.outbox,
            send_flag_hold_state_packet-Quiet
                (record { is_held = true; flag_team = r.info.held_flag }) r.outbox,
            λ i. absurd (team_eq-ne r.info.held_flag invalid e i),
          )
