-- ===== src/Ctf/Play/Held.antt =====
-- When a player takes, drops and brings home a flag.
use smoo_bazel.Base.{
  ◌≡◌, refl, sym, ap, ◌∙◌, ◌≢◌, inl, inr, Bool, true, false, not, ◌&&◌, ◌||◌, Option, none, some,
  List, [], ◌∷◌, if◌then◌else◌, Bool-cases, ◌>>=◌, >>=-eq-some, some_inj, and_split, or_split,
  not_split, true_ne_false, get_elem?,
}
use smoo_bazel.Puppets.Info.{team_eq, team_eq_refl, team_eq-ne, team_eq→eq, FlagTeam, invalid}
use smoo_bazel.Stages.{Coordinates}
use smoo_bazel.Client.State.{FlagActor}
use smoo_bazel.Client.Flags.{flag_index, get_flag_actor_for_team, is_flag_held}
use smoo_bazel.Game.{tag_distance, Player, Game}
use smoo_bazel.Ctf.State.{drop_held_flag, all_teams, Round, Frame}
use smoo_bazel.Ctf.Place.{get_team_side, is_on_self_side}
use smoo_bazel.Ctf.Play.{picks_up, pick_up_from, check_pick_up_or_drop_flag}

-- The flag of a team that a player may take: one of another team, that nobody holds, within reach.
pub record IsFree (g : Game) (p : Player) (r : Round) (team : FlagTeam) : Type 0 where
  pub listed : team ≢ invalid
  pub other : team ≢ r.info.player_team
  pub flag : FlagActor
  pub at_team : get_elem? r.flags.team_flags (flag_index team) ≡ some (some flag)
  pub unheld : is_flag_held flag ≡ false
  pub near : g.fl.lt (g.distance flag.trans p.trans) tag_distance ≡ true

-- ZL is held and ZR pressed.
abbrev pub Pressed : Frame → Type 0
Pressed f = (f.hold_zl ≡ true) × (f.trigger_zr ≡ true)

pub data PickStep (c : Coordinates) (g : Game) (f : Frame) (p : Player) (r r' : Round)
    : Type 0 where
  keeps : r' ≡ r → PickStep c g f p r r'
  drops :
      Pressed f
      → r.info.held_flag ≢ invalid
      → (r.info.held_flag ≡ r.info.player_team → get_team_side c g f r ≡ r.info.player_team)
      → r' ≡ drop_held_flag r
      → PickStep c g f p r r'
  takes :
      Pressed f
      → r.info.held_flag ≡ invalid
      → (team : FlagTeam) → IsFree g p r team
      → r' ≡ record r { info = record r.info { held_flag = team } }
      → PickStep c g f p r r'

module _ (c : Coordinates) (g : Game) (f : Frame) where
  picks_up-IsFree :
      (p : Player) (team : FlagTeam) (r : Round)
      → picks_up c g f p team r ≡ some true
      → IsFree g p r team
  unfolding picks_up get_flag_actor_for_team
  picks_up-IsFree p team r h = go (team_eq team invalid || team_eq team r.info.player_team) refl h
    where
      look : Option FlagActor → Bool
      look found = elim found [
        | none ↦ false
        | some a ↦ not (is_flag_held a) && g.fl.lt (g.distance a.trans p.trans) tag_distance
      ]

      found_free :
          (team_eq team invalid || team_eq team r.info.player_team) ≡ false
          → (found : Option FlagActor) → get_elem? r.flags.team_flags (flag_index team) ≡ some found
          → some (look found) ≡ some true
          → IsFree g p r team
      found_free n none at h = cc
      found_free n (some a) at h =
          let (i, o) = or_split (team_eq team invalid) (team_eq team r.info.player_team) n in
          let (u, near) =
            and_split (not (is_flag_held a)) (g.fl.lt (g.distance a.trans p.trans) tag_distance)
              (some_inj h) in
          record {
            listed = team_eq-ne team invalid i;
            other = team_eq-ne team r.info.player_team o;
            flag = a;
            at_team = at;
            unheld = not_split (is_flag_held a) u;
            near = near;
          }

      go :
          (b : Bool)
          → (team_eq team invalid || team_eq team r.info.player_team) ≡ b
          → (if b
              then some false
              else get_elem? r.flags.team_flags (flag_index team) >>= λ found. some (look found))
            ≡ some true
          → IsFree g p r team
      go true n h = cc
      go false n h =
          let (found, at, h') =
            >>=-eq-some (get_elem? r.flags.team_flags (flag_index team))
              (λ found. some (look found)) h in
          found_free n found at h'

  pick_up_from-step :
      (p : Player) (teams : List FlagTeam) (r : Round) {r' : Round}
      → Pressed f
      → r.info.held_flag ≡ invalid
      → pick_up_from c g f p teams r ≡ some r'
      → PickStep c g f p r r'
  unfolding pick_up_from
  pick_up_from-step p [] r pressed empty h = keeps (sym (some_inj h))
  pick_up_from-step p (team ∷ teams) r {r'} pressed empty h =
      let (b, e, h') = >>=-eq-some (picks_up c g f p team r) _ h in
      go b e (pick_up_from-step p teams r pressed empty) h'
    where
      go :
          (b : Bool)
          → picks_up c g f p team r ≡ some b
          → (pick_up_from c g f p teams r ≡ some r' → PickStep c g f p r r')
          → (if b
              then some (record r { info = record r.info { held_flag = team } })
              else pick_up_from c g f p teams r)
            ≡ some r'
          → PickStep c g f p r r'
      go true e rest h = takes pressed empty team (picks_up-IsFree p team r e) (sym (some_inj h))
      go false e rest h = rest h

  -- Each frame a player keeps what is held, or presses the buttons and then drops the held flag, the
  -- own one only on the own side, or takes, with empty hands, a flag that is free.
  pub check_pick_up_or_drop_flag-PickStep :
      (p : Player) (r : Round) {r' : Round}
      → check_pick_up_or_drop_flag c g f p r ≡ some r'
      → PickStep c g f p r r'
  unfolding check_pick_up_or_drop_flag is_on_self_side
  check_pick_up_or_drop_flag-PickStep p r = pressing (f.hold_zl && f.trigger_zr) refl
    where
      dropping :
          (b : Bool) {r' : Round}
          → (team_eq r.info.held_flag r.info.player_team
              && not (team_eq (get_team_side c g f r) r.info.player_team))
            ≡ b
          → Pressed f
          → r.info.held_flag ≢ invalid
          → some (if b then r else drop_held_flag r) ≡ some r'
          → PickStep c g f p r r'
      dropping true e pressed held h = keeps (sym (some_inj h))
      dropping false e pressed held h =
          drops pressed held
            (λ own.
              home (ap (λ x. team_eq x r.info.player_team) own ∙ team_eq_refl r.info.player_team) e)
            (sym (some_inj h))
        where
          home :
              team_eq r.info.held_flag r.info.player_team ≡ true
              → (team_eq r.info.held_flag r.info.player_team
                  && not (team_eq (get_team_side c g f r) r.info.player_team))
                ≡ false
              → get_team_side c g f r ≡ r.info.player_team
          home own e = elim (Bool-cases (team_eq (get_team_side c g f r) r.info.player_team)) [
            | inl y ↦ team_eq→eq (get_team_side c g f r) r.info.player_team y
            | inr n ↦ absurd (true_ne_false (rw (own, n) at e))
          ]

      holding :
          (b : Bool) {r' : Round}
          → team_eq r.info.held_flag invalid ≡ b
          → Pressed f
          → (if not b
              then some (
                  if team_eq r.info.held_flag r.info.player_team
                    && not (team_eq (get_team_side c g f r) r.info.player_team)
                  then r
                  else drop_held_flag r)
              else pick_up_from c g f p all_teams r)
            ≡ some r'
          → PickStep c g f p r r'
      holding true e pressed h =
          pick_up_from-step p all_teams r pressed (team_eq→eq r.info.held_flag invalid e) h
      holding false e pressed h =
          dropping
            (team_eq r.info.held_flag r.info.player_team
              && not (team_eq (get_team_side c g f r) r.info.player_team))
            refl pressed (team_eq-ne r.info.held_flag invalid e) h

      pressing :
          (b : Bool) {r' : Round}
          → (f.hold_zl && f.trigger_zr) ≡ b
          → (if not b
              then some r
              else if not (team_eq r.info.held_flag invalid)
              then some (
                  if team_eq r.info.held_flag r.info.player_team
                    && not (team_eq (get_team_side c g f r) r.info.player_team)
                  then r
                  else drop_held_flag r)
              else pick_up_from c g f p all_teams r)
            ≡ some r'
          → PickStep c g f p r r'
      pressing true e h =
          holding (team_eq r.info.held_flag invalid) refl (and_split f.hold_zl f.trigger_zr e) h
      pressing false e h = keeps (sym (some_inj h))
