-- ===== src/Session.antt =====
-- A game of capture the flag as the client runs it: packets (`readFunc` of mod/src/server/Client.cpp)
-- between the turns of the mode (`Client::update` and GameModeManager.cpp's `update`). A packet and a
-- turn are each one step; the threads of the program may also meet within them. The send thread, which
-- frees what it has sent, takes no turn here.
pub mod Survives
mod Tests
use smoo_bazel.Base.{
  ℕ, ◌+◌, Bool, true, false, not, ◌&&◌, ◌||◌, Option, none, some, List, [], ◌∷◌, leb, if◌then◌else◌,
  ◌>>=◌, Str, Float, f_zero,
}
use smoo_bazel.Packets.{Packet}
use smoo_bazel.Modes.{
  is_mode_and_active, object_as, as_ctf, capture_the_flag, ctf_info, ctf_mode, ModeObject, Manager,
}
use smoo_bazel.Stages.{Coordinates}
use smoo_bazel.Socket.{Pointer, heap_packet, member_packet, Outbox}
use smoo_bazel.Client.State.{World}
use smoo_bazel.Client.Dispatch.{handle}
use smoo_bazel.Game.{Call, show_team, Game}
use smoo_bazel.Ctf.State.{BorderActor, Round, Frame}
use smoo_bazel.Ctf.Play.{update_ctf}

-- The client's world with what else the mode keeps.
pub record Session : Type 0 where
  pub world : World
  pub outbox : Outbox
  pub border : Option BorderActor
  pub invuln_time : Float
  pub teleport_timer : Float
  -- The calls of the last turn, the last one first.
  pub calls : List Call

-- One step: a packet of the read thread, or a turn of the mode with what it finds in the game, and with
-- `al::getSceneHeap() != nullptr`.
pub data Event : Type 0 where
  receives : Packet → Event
  turns : Frame → Bool → Event

-- `CaptureTheFlagMode::begin`, without the layouts of the scene.
begin_ctf : Round → Round
begin_ctf r = record r {
  object = record r.object { is_active = true; is_first_frame = true };
  invuln_time = f_zero;
  calls = show_team r.info.player_team ∷ r.calls;
}

-- `CaptureTheFlagMode::end`, likewise
end_ctf : Round → Round
end_ctf r = record r { object = record r.object { is_active = false }; invuln_time = f_zero }

-- The begin and the end that `GameModeManager::update` decides on.
settle_round : Bool → Manager → Round → Round
settle_round in_scene m r =
    let r' =
      if (m.active && in_scene && not m.paused && not r.object.is_active) || m.was_scene_trans
      then begin_ctf r
      else r in
    if (not m.active || m.paused || not in_scene) && r'.object.is_active then end_ctf r' else r'

-- What the mode works on; `none` where the mode is not capture the flag.
round_of : Session → Option Round
round_of s = do
  o ← object_as ctf_mode s.world.manager
  i ← as_ctf s.world.manager.info
  some (record {
    object = o;
    info = i;
    invuln_time = s.invuln_time;
    teleport_timer = s.teleport_timer;
    client = s.world.client;
    flags = s.world.flags;
    border = s.border;
    outbox = s.outbox;
    calls = [];
  })

-- The object of the mode after a turn: its class stays.
moved_on : ModeObject → ModeObject → ModeObject
moved_on o o' = record o { is_active = o'.is_active; is_first_frame = o'.is_first_frame }

put_back : Session → ModeObject → Round → Session
put_back s o r = record {
  world = record s.world {
    client = r.client;
    flags = r.flags;
    manager = record s.world.manager {
      base = some (moved_on o r.object);
      info = some (ctf_info r.info);
      was_scene_trans = false;
    };
  };
  outbox = r.outbox;
  border = r.border;
  invuln_time = r.invuln_time;
  teleport_timer = r.teleport_timer;
  calls = r.calls;
}

-- What a turn finds, with `isModeAndActive` as the manager says it.
with_active : Manager → Frame → Frame
with_active m f = record f { mode_active = is_mode_and_active capture_the_flag m }

-- A packet was handled in the session: the outbox has the same `lastGameInfPacket`.
take_in : Session → World → Session
take_in s w = record s { world = w; outbox = record s.outbox { last_game_inf = w.last_game_inf } }

-- How many of the freed packets are members of the client?
freed_members : List Pointer → ℕ
freed_members [] = 0
freed_members (member_packet m ∷ ps) = 1 + freed_members ps
freed_members (heap_packet n p ∷ ps) = freed_members ps

-- `mHeap->free` of a member of the client is a fault.
checked : Round → Round → Option Round
checked r r' =
    if leb (freed_members r'.outbox.socket.freed) (freed_members r.outbox.socket.freed)
    then some r'
    else none

module _ (c : Coordinates) (g : Game) where
  -- The virtual `update`, where the mode is active.
  update_active : Frame → Round → Option Round
  update_active f r =
      if r.object.is_active then (update_ctf c g f r >>= λ r'. checked r r') else some r

  -- The rest of `GameModeManager::update`, with `mCurModeBase`.
  turn_with : Frame → Bool → Session → Option ModeObject → Option Session
  turn_with f in_scene s none = some s
  turn_with f in_scene s (some o) = do
    r ← round_of s
    r' ← update_active (with_active s.world.manager f) (settle_round in_scene s.world.manager r)
    some (put_back s o r')

  -- `GameModeManager::update`
  pub mode_turn : Frame → Bool → Session → Option Session
  mode_turn f in_scene s = turn_with f in_scene s s.world.manager.base

  module _ (equals : Packet → Packet → Bool) (anims : List Str) where
    pub step : Event → Session → Option Session
    step (receives p) s = handle g.fl equals anims p s.world >>= λ w. some (take_in s w)
    step (turns f in_scene) s = mode_turn f in_scene s

    pub run_session : List Event → Session → Option Session
    run_session [] s = some s
    run_session (e ∷ es) s = step e s >>= run_session es
