-- ===== src/Client/Flags.antt =====
-- mod/src/actors/FlagActor.h and FlagActor.cpp: the operations of the flags that the handlers call.
pub mod Edit
use mathlib.Core.Option
use smoo_bazel.Base.{
  ℕ, ◌%◌, Bool, false, Option, none, some, if◌then◌else◌, ◌>>=◌, get_elem?, set, Str, Vec3, Quat,
}
use smoo_bazel.Puppets.Info.{FlagTeam, invalid, red, blue, unlisted}
use smoo_bazel.Client.State.{FlagInfo, FlagActor, Flags}

-- `static_cast<unsigned char>(team)`
abbrev pub flag_index : FlagTeam → ℕ
flag_index invalid = 0
flag_index red = 1
flag_index blue = 2
flag_index (unlisted n) = n % 256

-- `getFlagActorForTeam`, which is undefined for a number past the end of `teamFlags`.
unfoldable pub get_flag_actor_for_team : FlagTeam → Flags → Option (Option FlagActor)
get_flag_actor_for_team team fs = get_elem? fs.team_flags (flag_index team)

-- `FlagActor::makeActorAlive`
pub make_flag_alive : FlagActor → FlagActor
make_flag_alive a = if a.dead then record a { dead = false } else a

edit_info : (FlagInfo → FlagInfo) → FlagActor → FlagActor
edit_info f a = record a { info = Option.map f a.info }

pub set_is_held : Bool → FlagActor → FlagActor
set_is_held b a = edit_info (λ i. record i { is_held = b }) a

pub set_held_player : Str → FlagActor → FlagActor
set_held_player id a = edit_info (λ i. record i { holder = id }) a

pub set_transform : Vec3 → Quat → FlagActor → FlagActor
set_transform v q a = edit_info (λ i. record i { at = v; rot = q }) (record a { trans = v })

-- `isHeld`
pub is_flag_held : FlagActor → Bool
is_flag_held a = elim a.info [ none ↦ false | some i ↦ i.is_held ]

-- `getHeldPlayer`
unfoldable pub get_held_player : FlagActor → Option Str
get_held_player a = elim a.info [ none ↦ none | some i ↦ if i.is_held then some i.holder else none ]

-- What the handlers do with the flag of a team, if there is one.
pub edit_flag : (FlagActor → FlagActor) → FlagTeam → Flags → Option Flags
edit_flag f team fs = get_flag_actor_for_team team fs >>= λ found. elim found [
  | none ↦ some fs
  | some a ↦ some (record fs { team_flags = set fs.team_flags (flag_index team) (some (f a)) })
]
