-- ===== src/Ctf/Place/Follow.antt =====
-- A held flag is where its holder is.
use mathlib.Core.Option
use smoo_bazel.Base.{ℕ, ◌≡◌, refl, ap, ◌∙◌, true, false, some, get_elem?, Str, str_eq, Vec3, Quat}
use smoo_bazel.Puppets.Info.{FlagTeam, PuppetInfo}
use smoo_bazel.Stages.{Coordinates}
use smoo_bazel.Client.State.{FlagInfo, FlagActor}
use smoo_bazel.Client.Find.{find_puppet_info}
use smoo_bazel.Client.Flags.{
  flag_index, get_flag_actor_for_team, make_flag_alive, set_transform, get_held_player,
}
use smoo_bazel.Client.Flags.Edit.{edit_flag-OnlyFlag, placed_flag, OnlyFlag}
use smoo_bazel.Game.{Game}
use smoo_bazel.Ctf.State.{move_flag, Round, Frame}
use smoo_bazel.Ctf.Place.{
  transform_of_info, get_player_transform, move_to, follow_holder, update_flag,
}

abbrev pub as_placed : Vec3 → Quat → FlagInfo → FlagInfo
as_placed v q i = record i { at = v; rot = q }

-- A flag whose holder is another player in the same stage is put alive where that player is, and the
-- other flags stay.
pub update_flag-OnlyFlag :
    (c : Coordinates) (g : Game) (f : Frame) (team : FlagTeam) (r : Round) (a : FlagActor)
    (id : Str) (k : ℕ) (x : PuppetInfo)
    → get_elem? r.flags.team_flags (flag_index team) ≡ some (some a)
    → get_held_player a ≡ some id
    → str_eq id r.client.user_id ≡ false
    → find_puppet_info id false r.client ≡ some (some k)
    → get_elem? r.client.puppet_infos k ≡ some x
    → x.is_in_same_stage ≡ true
    → (r' : Round) × (update_flag c g f team r ≡ some r')
      × OnlyFlag team
          (record a {
            dead = false;
            trans = x.player_pos;
            info = Option.map (as_placed x.player_pos x.player_rot) a.info;
          })
          r.flags
          r'.flags
unfolding update_flag follow_holder move_to move_flag get_flag_actor_for_team get_player_transform
    transform_of_info
update_flag-OnlyFlag c g f team r a id k x at_team held other at_k at_x same =
    let (fs', e, only) =
      edit_flag-OnlyFlag (λ b. set_transform x.player_pos x.player_rot (make_flag_alive b)) team
        r.flags a at_team in
    (
      record r { flags = fs' },
      rw (at_team, held, other, at_k, at_x, same, e) refl,
      record {
        here = only.here ∙ ap (λ b. some (some b)) (placed_flag x.player_pos x.player_rot a);
        others = only.others;
      },
    )
