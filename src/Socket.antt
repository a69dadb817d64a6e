-- ===== src/Socket.antt =====
-- The queue of packets to send: `queuePacket` and `trySendQueue` of mod/src/server/SocketClient.cpp, and
-- the functions of mod/src/server/Client.cpp that build packets for it. What a packet is written as on
-- the connection is not modelled: `sent` records the calls of `send`.
pub mod Owned
pub mod Resend
pub mod Bound
pub mod Safe
pub mod Wire
pub mod Cap
pub mod Move
pub mod Front
mod Tests
use smoo_bazel.Base.{
  ℕ, ◌+◌, ◌-◌, ◌%◌, ◌^◌, Bool, true, false, not, ◌&&◌, Option, some, List, [], ◌∷◌, ◌++◌, ltb,
  if◌then◌else◌, ◌>>=◌, length, Str, str_eq, eq_ℤ, ℤ, pos, negsuc,
}
use smoo_bazel.Puppets.Info.{FlagTeam}
use smoo_bazel.Packets.{
  uid_of, GameInf, game_inf, shine_collect, tag_inf, FlagHoldState, win, flag_hold_state, system,
  ctf, Packet,
}
use smoo_bazel.Modes.{is_mode, object_as, as_hns, hide_and_seek, HnsInfo, hns_mode, Manager}

-- The packets that are members of the client.
pub data Member : Type 0 where
  last_player last_game last_costume last_flag_hold last_win : Member

-- What a `packets::Packet*` names: the object of the n-th `new`, or a member of the client.
pub data Pointer : Type 0 where
  heap_packet : ℕ → Packet → Pointer
  member_packet : Member → Pointer

pub record Socket : Type 0 where
  pub connected : Bool
  pub send_queue : List Pointer
  -- What `mHeap->free` was called on.
  pub freed : List Pointer
  pub sent : List Pointer

-- `maxBufSize`
abbrev pub queue_size : ℕ
queue_size = 100

pub free : Pointer → Socket → Socket
free p s = record s { freed = p ∷ s.freed }

-- `queuePacket`. To free a member of the client is undefined: `freed` shows it, and the turns of
-- Session.antt fault there.
pub queue_packet : Pointer → Socket → Bool × Socket
queue_packet p s =
    if s.connected && ltb (length s.send_queue) queue_size
    then (true, record s { send_queue = s.send_queue ++ (p ∷ []) })
    else (false, free p s)

-- The front of the queue is sent and freed; on an empty queue the thread waits.
send_front : List Pointer → Socket → Socket
send_front [] s = s
send_front (p ∷ ps) s = free p (record s { send_queue = ps; sent = s.sent ++ (p ∷ []) })

-- `trySendQueue`, where `send` does not reconnect; with all of `send` it is `pump` of Connect.antt.
pub try_send_queue : Socket → Socket
try_send_queue s = send_front s.send_queue s

-- What the client's functions that send read and write.
pub record Outbox : Type 0 where
  pub user_id : Str
  pub socket : Socket
  -- The number of packets made by `new`.
  pub made : ℕ
  pub last_game_inf : Packet
  pub empty_game_inf : Packet
  pub last_costume_inf : Packet
  pub last_flag_hold_state : Packet
  pub last_ctf_win : Packet
  pub last_collected_shine : ℤ

-- `new packets::Packet()`, filled and queued.
pub queue_new : Packet → Outbox → Outbox
queue_new p o = record o {
  made = o.made + 1;
  socket = (queue_packet (heap_packet o.made p) o.socket).1;
}

-- The same, with the packet freed at once.
pub free_new : Packet → Outbox → Outbox
free_new p o = record o { made = o.made + 1; socket = free (heap_packet o.made p) o.socket }

game_packet : GameInf → Outbox → Packet
game_packet g o = record { user_id = o.user_id; body = system (game_inf g) }

queue_member : Member → Outbox → Outbox
queue_member m o = record o { socket = (queue_packet (member_packet m) o.socket).1 }

-- `sendFlagHoldStatePacket`
pub send_flag_hold_state_packet : FlagHoldState → Outbox → Outbox
send_flag_hold_state_packet h o = queue_member last_flag_hold (record o {
  last_flag_hold_state = record { user_id = o.user_id; body = ctf (flag_hold_state h) };
})

-- `sendCTFWinPacket`
pub send_ctf_win_packet : FlagTeam → Outbox → Outbox
send_ctf_win_packet team o =
    queue_member last_win
      (record o { last_ctf_win = record { user_id = o.user_id; body = ctf (win team) } })

-- `sendShineCollectPacket`
pub send_shine_collect_packet : ℤ → Outbox → Outbox
send_shine_collect_packet id o =
    if not (eq_ℤ o.last_collected_shine id)
    then queue_new (record { user_id = o.user_id; body = system (shine_collect id) })
        (record o { last_collected_shine = id })
    else o

-- An `int` stored in a `uint32`.
u32_of : ℤ → ℕ
u32_of (pos n) = n % 2 ^ 32
u32_of (negsuc n) = 2 ^ 32 - 1 - n % 2 ^ 32

tag_packet : HnsInfo → Outbox → Packet
tag_packet i o = record {
  user_id = o.user_id;
  body = system (
      tag_inf (record {
        update_type = 1;
        is_it = i.is_player_it;
        seconds = u32_of i.hiding_time.seconds;
        minutes = u32_of i.hiding_time.minutes;
      }));
}

-- `sendTagInfPacket`; undefined where the mode's object or info is not hide and seek's.
pub send_tag_inf_packet : Manager → Outbox → Option Outbox
send_tag_inf_packet m o =
    if is_mode hide_and_seek m
    then (do _ ← object_as hns_mode m; i ← as_hns m.info; some (queue_new (tag_packet i o) o))
    else some o

-- `MessageDifferencer::Equals` is the protobuf library's.
module _ (equals : Packet → Packet → Bool) where
  -- `sendGameInfPacket` with a player
  pub send_game_inf_packet : GameInf → Outbox → Outbox
  send_game_inf_packet g o =
      if not (equals (game_packet g o) o.last_game_inf)
        && not (equals (game_packet g o) o.empty_game_inf)
      then queue_new (game_packet g o) (record o { last_game_inf = game_packet g o })
      else free_new (game_packet g o) o

  -- `sendGameInfPacket` without a player
  pub send_stage_packet : Str → ℤ → Outbox → Outbox
  send_stage_packet stage scenario o =
      let p =
        game_packet (record { is_2d = false; scenario_num = scenario; stage_name = stage }) o in
      if not (equals p o.empty_game_inf)
      then queue_new p (record o { last_game_inf = p })
      else free_new p o

  -- The two parts of `resendInitPackets`
  resend_game_inf : Outbox → Outbox
  resend_game_inf o =
      if not (equals o.last_game_inf o.empty_game_inf) then queue_member last_game o else o

  pub resend_init_packets : Outbox → Outbox
  resend_init_packets o = resend_game_inf (
      if str_eq (uid_of o.last_costume_inf.user_id) o.user_id
      then queue_member last_costume o
      else o)
