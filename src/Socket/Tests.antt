-- ===== src/Socket/Tests.antt =====
-- An outbox whose first packet is sent, and the theorems there.
use smoo_bazel.Base.{◌≡◌, refl, Bool, true, [], ◌∷◌, replicate, Str, str_eq, negsuc}
use smoo_bazel.Packets.{packet_empty, uid_of, Packet}
use smoo_bazel.Socket.{member_packet, try_send_queue, resend_init_packets, last_costume, Outbox}
use smoo_bazel.Socket.Resend.{resend_init_packets-frees_member}

abbrev id_one : Str
id_one = 1 ∷ replicate 15 0

abbrev outbox : Outbox
outbox = record {
  user_id = id_one;
  socket = record { connected = true; send_queue = []; freed = []; sent = [] };
  made = 0;
  last_game_inf = packet_empty;
  empty_game_inf = packet_empty;
  last_costume_inf = record packet_empty { user_id = id_one };
  last_flag_hold_state = packet_empty;
  last_ctf_win = packet_empty;
  last_collected_shine = negsuc 0;
}

-- The protobuf library's comparison, for packets that differ in their senders.
abbrev same_sender : Packet → Packet → Bool
same_sender p q = str_eq p.user_id q.user_id

resend_init_packets-frees_member_example :
    (try_send_queue (resend_init_packets same_sender outbox).socket).freed
    ≡ member_packet last_costume ∷ []
unfolding uid_of
resend_init_packets-frees_member_example =
    resend_init_packets-frees_member same_sender outbox refl refl refl
