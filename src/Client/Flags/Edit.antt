-- ===== src/Client/Flags/Edit.antt =====
-- An edit of one team's flag leaves the other flags alone.
use mathlib.Core.Option
use smoo_bazel.Base.{
  ℕ, ◌≤◌, ◌<◌, ◌≡◌, refl, sym, ap, ◌∙◌, ◌≢◌, Bool, true, false, Option, none, some, if◌then◌else◌,
  >>=-eq-some, some_inj, Defined, >>=-Defined, length, get_elem?, set, length-set,
  get_elem?-set_self, get_elem?-set_ne, get_elem?-lt, get_elem?-some, get_elem?-le, Str, Vec3, Quat,
}
use smoo_bazel.Puppets.Info.{uid_empty, FlagTeam}
use smoo_bazel.Client.State.{FlagInfo, FlagActor, Flags}
use smoo_bazel.Client.Flags.{
  flag_index, get_flag_actor_for_team, make_flag_alive, edit_info, set_is_held, set_held_player,
  set_transform, edit_flag,
}

-- The flag of the team is `a` afterwards, and the others are the same.
pub record OnlyFlag (team : FlagTeam) (a : FlagActor) (fs fs' : Flags) : Type 0 where
  pub here : get_elem? fs'.team_flags (flag_index team) ≡ some (some a)
  pub others :
      (j : ℕ) → flag_index team ≢ j → get_elem? fs'.team_flags j ≡ get_elem? fs.team_flags j

pub edit_flag-OnlyFlag :
    (f : FlagActor → FlagActor) (team : FlagTeam) (fs : Flags) (a : FlagActor)
    → get_elem? fs.team_flags (flag_index team) ≡ some (some a)
    → (fs' : Flags) × (edit_flag f team fs ≡ some fs') × OnlyFlag team (f a) fs fs'
unfolding edit_flag get_flag_actor_for_team
edit_flag-OnlyFlag f team fs a at_team = (
  record fs { team_flags = set fs.team_flags (flag_index team) (some (f a)) },
  rw at_team refl,
  record {
    here =
        get_elem?-set_self fs.team_flags (flag_index team) (some (f a))
          (get_elem?-lt fs.team_flags (flag_index team) at_team);
    others = λ j h. get_elem?-set_ne fs.team_flags (some (f a)) h;
  },
)

-- A number of a team past the end of the flags is undefined behaviour.
pub edit_flag-faults :
    (f : FlagActor → FlagActor) (team : FlagTeam) (fs : Flags)
    → length fs.team_flags ≤ flag_index team
    → edit_flag f team fs ≡ none
unfolding edit_flag get_flag_actor_for_team
edit_flag-faults f team fs h = rw (get_elem?-le fs.team_flags (flag_index team) h) refl

abbrev pub as_held : Bool → Str → FlagInfo → FlagInfo
as_held b id i = record i { is_held = b; holder = id }

abbrev pub as_dropped : Vec3 → Quat → FlagInfo → FlagInfo
as_dropped v q i = record i { is_held = false; holder = uid_empty; at = v; rot = q }

-- What the setters that the handlers chain leave in a flag.
pub hold_flag :
    (b : Bool) (id : Str) (a : FlagActor)
    → set_is_held b (set_held_player id a) ≡ record a { info = Option.map (as_held b id) a.info }
unfolding set_is_held set_held_player edit_info
hold_flag b id a = ap (λ i. record a { info = i }) (twice a.info)
  where
    twice :
        (i : Option FlagInfo)
        → Option.map
            (λ (x : FlagInfo). record x { is_held = b })
            (Option.map (λ (x : FlagInfo). record x { holder = id }) i)
          ≡ Option.map (as_held b id) i
    twice none = refl
    twice (some x) = refl

make_flag_alive-dead : (a : FlagActor) → make_flag_alive a ≡ record a { dead = false }
unfolding make_flag_alive
make_flag_alive-dead a = go a.dead refl
  where
    go :
        (b : Bool)
        → a.dead ≡ b
        → (if b then record a { dead = false } else a) ≡ record a { dead = false }
    go true e = refl
    go false e = ap (λ x. record a { dead = x }) e

set_transform-held :
    (v : Vec3) (q : Quat) (a : FlagActor)
    → set_transform v q (record a { info = Option.map (as_held false uid_empty) a.info })
      ≡ record a { trans = v; info = Option.map (as_dropped v q) a.info }
unfolding set_transform edit_info
set_transform-held v q a = ap (λ i. record a { trans = v; info = i }) (twice a.info)
  where
    twice :
        (i : Option FlagInfo)
        → Option.map
            (λ (x : FlagInfo). record x { at = v; rot = q })
            (Option.map (as_held false uid_empty) i)
          ≡ Option.map (as_dropped v q) i
    twice none = refl
    twice (some x) = refl

pub dropped_flag :
    (v : Vec3) (q : Quat) (a : FlagActor)
    → set_transform v q (set_is_held false (set_held_player uid_empty (make_flag_alive a)))
      ≡ record a { dead = false; trans = v; info = Option.map (as_dropped v q) a.info }
dropped_flag v q a =
    ap (λ x. set_transform v q (set_is_held false (set_held_player uid_empty x)))
      (make_flag_alive-dead a)
    ∙ ap (set_transform v q) (hold_flag false uid_empty (record a { dead = false }))
    ∙ set_transform-held v q (record a { dead = false })

-- An edit keeps the number of flags.
pub edit_flag-length :
    (f : FlagActor → FlagActor) (team : FlagTeam) (fs : Flags) {fs' : Flags}
    → edit_flag f team fs ≡ some fs'
    → length fs'.team_flags ≡ length fs.team_flags
unfolding edit_flag
edit_flag-length f team fs h =
    let (found, _, h') = >>=-eq-some (get_flag_actor_for_team team fs) _ h in go found h'
  where
    go :
        (found : Option FlagActor) {fs' : Flags}
        → elim found [
          | none ↦ some fs
          | some a ↦
              some (record fs { team_flags = set fs.team_flags (flag_index team) (some (f a)) })
        ]
          ≡ some fs'
        → length fs'.team_flags ≡ length fs.team_flags
    go none h = sym (ap (λ (x : Flags). length x.team_flags) (some_inj h))
    go (some a) h =
        sym (ap (λ (x : Flags). length x.team_flags) (some_inj h))
        ∙ length-set fs.team_flags (flag_index team) (some (f a))

-- An edit of a team within the array does not fault.
pub edit_flag-Defined :
    (f : FlagActor → FlagActor) (team : FlagTeam) (fs : Flags)
    → flag_index team < length fs.team_flags
    → Defined (edit_flag f team fs)
unfolding edit_flag get_flag_actor_for_team
edit_flag-Defined f team fs h =
    >>=-Defined (get_elem? fs.team_flags (flag_index team)) _
      (get_elem?-some fs.team_flags (flag_index team) h) (λ found _. go found)
  where
    go :
        (found : Option FlagActor)
        → Defined (elim found [
          | none ↦ some fs
          | some a ↦
              some (record fs { team_flags = set fs.team_flags (flag_index team) (some (f a)) })
        ])
    go none = (fs, refl)
    go (some a) =
        (record fs { team_flags = set fs.team_flags (flag_index team) (some (f a)) }, refl)

pub placed_flag :
    (v : Vec3) (q : Quat) (a : FlagActor)
    → set_transform v q (make_flag_alive a) ≡ record a {
      dead = false;
      trans = v;
      info = Option.map (λ (i : FlagInfo). record i { at = v; rot = q }) a.info;
    }
unfolding set_transform edit_info
placed_flag v q a = ap (set_transform v q) (make_flag_alive-dead a)
