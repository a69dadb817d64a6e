-- ===== src/Client/Handlers.antt =====
-- The handlers of mod/src/server/Client.cpp that change the game: the tag of the own player, the
-- capture-the-flag state and its flags, and the change of the stage.
pub mod Effects
pub mod Held
pub mod Playing
pub mod Keeps
pub mod Total
pub mod Tag
use Prim.Native.Nat.{bit_and}
use smoo_bazel.Base.{
  strcpy, ℕ, Bool, false, not, ◌&&◌, Option, some, [], ◌∷◌, ◌++◌, ◌==◌, if◌then◌else◌, ◌>>=◌, Str,
  str_eq,
}
use smoo_bazel.Puppets.Info.{uid_empty, FlagTeam}
use smoo_bazel.Packets.{
  uid_of, int_of_u32, ChangeStage, TagInf, CtfGameState, TeamAssignment, FlagHoldState, FlagDropped,
}
use smoo_bazel.Modes.{
  is_mode, is_mode_and_active, object_as, as_hns, as_ctf, ctf_info_new, hide_and_seek,
  capture_the_flag, CtfInfo, hns_info, ctf_info, hns_mode, ctf_mode, ModeObject, Manager,
}
use smoo_bazel.Client.State.{Client, FlagActor, Flags, go_to_stage, World}
use smoo_bazel.Client.Infos.{update_puppet_tag, update_puppet_team}
use smoo_bazel.Client.Flags.{
  make_flag_alive, set_is_held, set_held_player, set_transform, edit_flag,
}

-- `TagUpdateType`, whose numbers are 0 and 1.
pub data TagUpdateType : Type 0 where
  time_type state_type : TagUpdateType

abbrev pub type_number : TagUpdateType → ℕ
type_number time_type = 0
type_number state_type = 1

-- `packet.update_type() & …`, as a condition
pub has_type : ℕ → TagUpdateType → Bool
has_type u t = not (bit_and (type_number t) u == 0)

-- `setPlayerTagState`
pub set_player_tag_state : Bool → Manager → Option Manager
set_player_tag_state b m = do
  _ ← object_as hns_mode m
  i ← as_hns m.info
  some (record m { info = some (hns_info (record i { is_player_it = b })) })

set_hiding_time : TagInf → Manager → Option Manager
set_hiding_time t m = do
  i ← as_hns m.info
  some (record m {
    info = some (
        hns_info (record i {
          hiding_time = record i.hiding_time {
            seconds = int_of_u32 t.seconds;
            minutes = int_of_u32 t.minutes;
          };
        }));
  })

-- The first part of `updateTagInfo`, for the own player.
pub own_tag : TagInf → Manager → Option Manager
own_tag t m = do
  m' ← if has_type t.update_type state_type then set_player_tag_state t.is_it m else some m
  if has_type t.update_type time_type then set_hiding_time t m' else some m'

with_client : World → Client → Option World
with_client w c = some (record w { client = c })

pub with_manager : World → Manager → Option World
with_manager w m = some (record w { manager = m })

pub update_tag_info : Str → TagInf → World → Option World
update_tag_info uid t w =
    if str_eq (uid_of uid) w.client.user_id && is_mode hide_and_seek w.manager
    then own_tag t w.manager >>= with_manager w
    else update_puppet_tag uid t w.client >>= with_client w

pub edit_ctf : (CtfInfo → CtfInfo) → Manager → Option Manager
edit_ctf f m = do i ← as_ctf m.info; some (record m { info = some (ctf_info (f i)) })

assign_team : TeamAssignment → CtfInfo → CtfInfo
assign_team t i = record i {
  player_team = t.team;
  held_flag = if t.should_hold_team_flag then t.team else i.held_flag;
}

-- `updateCTFPlayerTeamAssignment`
pub update_ctf_team : Str → TeamAssignment → World → Option World
update_ctf_team uid t w =
    if str_eq (uid_of uid) w.client.user_id
    then (if is_mode_and_active capture_the_flag w.manager
        then edit_ctf (assign_team t) w.manager >>= with_manager w
        else some w)
    else update_puppet_team uid t.team w.client >>= with_client w

-- `CaptureTheFlagMode::resetGameInfo`
reset_game_info : Manager → Option Manager
reset_game_info m = do _ ← object_as ctf_mode m; edit_ctf (λ i. ctf_info_new) m

set_round_time : CtfGameState → CtfInfo → CtfInfo
set_round_time s i = record i {
  round_time = record i.round_time {
    seconds = int_of_u32 s.seconds;
    minutes = int_of_u32 s.minutes;
  };
}

game_state_step : CtfGameState → Manager → Option Manager
game_state_step s m = do
  m' ← if s.reset_game then reset_game_info m else some m
  edit_ctf (set_round_time s) m'

-- `updateCTFGameState`
pub update_ctf_game_state : CtfGameState → World → Option World
update_ctf_game_state s w =
    if is_mode_and_active capture_the_flag w.manager
    then game_state_step s w.manager >>= with_manager w
    else some w

-- `updateCTFWinState`
pub update_ctf_win : FlagTeam → World → Option World
update_ctf_win team w =
    if is_mode_and_active capture_the_flag w.manager
    then edit_ctf (λ i. record i { winning_team = team }) w.manager >>= with_manager w
    else some w

pub with_flags : World → Flags → Option World
with_flags w fs = some (record w { flags = fs })

hold : Str → FlagHoldState → FlagActor → FlagActor
hold uid s a =
    set_is_held s.is_held (set_held_player (if s.is_held then uid_of uid else uid_empty) a)

-- `updateCTFFlagHoldState`
pub update_ctf_flag_hold_state : Str → FlagHoldState → World → Option World
update_ctf_flag_hold_state uid s w =
    edit_flag (hold uid s) s.flag_team (record w.flags { latest_team = s.flag_team })
    >>= with_flags w

drop_at : FlagDropped → FlagActor → FlagActor
drop_at d a =
    set_transform d.at d.rot (set_is_held false (set_held_player uid_empty (make_flag_alive a)))

drop_flag : FlagDropped → Flags → Option Flags
drop_flag d fs = do
  stage ← strcpy 0x40 d.stage_name
  edit_flag (drop_at d) d.flag_team
      (record fs { latest_team = d.flag_team; latest_position = d.at; latest_stage = stage })

-- The mode's first frame in a stage lets no flag be dropped.
drop_unless_first : FlagDropped → World → ModeObject → Option World
drop_unless_first d w o = if o.is_first_frame then some w else drop_flag d w.flags >>= with_flags w

-- `updateCTFFlagDroppedPosition`
pub update_ctf_flag_dropped : FlagDropped → World → Option World
update_ctf_flag_dropped d w =
    if is_mode_and_active capture_the_flag w.manager
    then object_as ctf_mode w.manager >>= drop_unless_first d w
    else some w

-- `sendToStage`
pub send_to_stage : ChangeStage → World → World
send_to_stage s w =
    if w.has_scene then record w { requests = w.requests ++ (go_to_stage s ∷ []) } else w
