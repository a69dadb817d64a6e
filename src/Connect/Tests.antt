-- ===== src/Connect/Tests.antt =====
-- Three networks, and the theorems there: one that is up, one that goes away when the socket is closed,
-- and one without a network whose descriptors can be closed once.
use smoo_bazel.Base.{
  ℕ, ◌+◌, ◌≡◌, refl, Bool, true, false, Option, none, some, [], ◌∷◌, ◌++◌, arith, ◌==◌,
  if◌then◌else◌, length, replicate, Str, codes, str_eq, pos, negsuc,
}
use smoo_bazel.Packets.{packet_empty, shine_collect, system, Packet}
use smoo_bazel.Socket.{send_shine_collect_packet, last_win, heap_packet, member_packet, Outbox}
use smoo_bazel.Socket.Owned.{count, owned, IsOwned, sends_shine}
use smoo_bazel.Connect.{
  is_connected, set_state, note_errno, string_to_ip_address, connect_to, connect_by, make_socket,
  open_socket, start_threads, close_socket, send_bytes, send_with, greet, init_with, reconnect_with,
  try_reconnect, init_socket, send_link, packet_at, with_socket, pump_front, pump, connected,
  unavailable, Host, Link,
}
use smoo_bazel.Connect.Up.{init_socket-connects, IsUp}
use smoo_bazel.Connect.Owned.{made_in, Steps-IsOwned, starts, calls, pumps}
use smoo_bazel.Connect.Lost.{retry, retry-stuck, init_socket-misleads, ClosesOnce}

abbrev pub local : Str
local = codes "127.0.0.1"

-- The state counts the bytes that were sent.
abbrev pub up_host : Host ℕ
up_host = record {
  is_available = λ w. (true, w);
  socket = λ w. (pos 7, w);
  inet_aton = λ s. if str_eq s local then some 0x7f000001 else none;
  get_host_by_name = λ s w. (none, w);
  connect = λ fd a port w. (true, w);
  close = λ fd w. (true, w);
  send = λ fd bytes w. (pos 1, w + length bytes);
  get_last_errno = λ w. 0;
  json = λ p. codes "{}";
  equals = λ p q. true;
}

pub up_host-IsUp : IsUp up_host
up_host-IsUp = record {
  available = λ w. refl;
  opens = λ w. refl;
  connects = λ fd a port w. refl;
  sends = λ fd bytes w. refl;
}

-- The state is 0 until the socket is closed.
abbrev gone_host : Host ℕ
gone_host = record up_host {
  is_available = λ w. (w == 0, w);
  close = λ fd w. (true, 1);
  send = λ fd bytes w. (pos 0, w);
}

-- The state says whether the descriptor is open.
abbrev once_host : Host Bool
once_host = record {
  is_available = λ w. (false, w);
  socket = λ w. (pos 7, true);
  inet_aton = λ s. none;
  get_host_by_name = λ s w. (none, w);
  connect = λ fd a port w. (true, w);
  close = λ fd w. (w, false);
  send = λ fd bytes w. (pos 1, w);
  get_last_errno = λ w. 11;
  json = λ p. codes "{}";
  equals = λ p q. true;
}

once_host-ClosesOnce : ClosesOnce once_host (λ fd w. w)
once_host-ClosesOnce = record {
  close_closed = λ fd w e. e;
  closes = λ fd w. refl;
  available_keeps = λ fd w e. e;
}

abbrev pub outbox : Outbox
outbox = record {
  user_id = 1 ∷ replicate 15 0;
  socket = record { connected = true; send_queue = []; freed = []; sent = [] };
  made = 0;
  last_game_inf = packet_empty;
  empty_game_inf = packet_empty;
  last_costume_inf = packet_empty;
  last_flag_hold_state = packet_empty;
  last_ctf_win = packet_empty;
  last_collected_shine = negsuc 0;
}

abbrev pub link : {S : Type 0} → S → Link S
link w = record {
  log_state = connected;
  errno = 0;
  ip = local;
  port = 1027;
  fd = pos 7;
  is_first_connect = true;
  recv_done = false;
  send_done = false;
  username = codes "Mario";
  outbox = outbox;
  net = w;
}

init_socket-connects_example :
    (l' : Link ℕ) × (init_socket up_host 0 local 1027 (link 0) ≡ some (true, l'))
    × (l'.log_state ≡ connected)
    × (l'.is_first_connect ≡ false)
init_socket-connects_example =
    init_socket-connects up_host up_host-IsUp 0 local 1027 0x7f000001 (link 0) refl

init_socket-misleads_example :
    (l' : Link ℕ) × (init_socket gone_host 1 local 1027 (link 0) ≡ some (true, l'))
    × (l'.log_state ≡ unavailable)
unfolding open_socket make_socket connect_by connect_to string_to_ip_address
init_socket-misleads_example =
    init_socket-misleads gone_host 0 local 1027 (link 0) refl (λ fd bytes w. refl) (λ fd w. refl)
      (λ fd w. refl)

retry-stuck_example :
    (l' : Link Bool) × (retry once_host 1 4 (link true) ≡ some (false, l'))
    × (is_connected l'.log_state ≡ false)
retry-stuck_example =
    retry-stuck once_host (λ fd w. w) once_host-ClosesOnce 0 3 (link true) refl refl

-- The first `Send` fails; the state says whether the socket was closed since.
abbrev flaky_host : Host ℕ
flaky_host = record up_host {
  close = λ fd w. (true, 1);
  send = λ fd bytes w. (if w == 0 then pos 0 else pos 1, w);
}

abbrev shine_packet : Packet
shine_packet = record { user_id = outbox.user_id; body = system (shine_collect (pos 5)) }

-- A packet is in the queue.
abbrev waiting : Link ℕ
waiting = record (link 0) {
  outbox = record outbox {
    socket = record outbox.socket { send_queue = heap_packet 0 shine_packet ∷ [] };
    made = 1;
  };
}

waiting-IsOwned : IsOwned (λ n. 0) waiting.outbox
unfolding owned count
waiting-IsOwned n = ground arith

link_or : Link ℕ → Option (Link ℕ) → Link ℕ
link_or l none = l
link_or l (some l') = l'

abbrev after_turn : Link ℕ
after_turn = link_or waiting (pump flaky_host 1 packet_empty waiting)

waiting-pump : pump flaky_host 1 packet_empty waiting ≡ some after_turn
unfolding pump pump_front link_or send_link send_with send_bytes try_reconnect reconnect_with
    close_socket init_with open_socket make_socket connect_by connect_to string_to_ip_address greet
    start_threads set_state note_errno with_socket packet_at
waiting-pump = refl

-- The packet is sent, which reconnects, and the next one is queued.
Steps-IsOwned_example :
    IsOwned
      (λ n. made_in n ((waiting.outbox.made, after_turn.outbox.made) ∷ []))
      (send_shine_collect_packet (pos 6) after_turn.outbox)
Steps-IsOwned_example =
    Steps-IsOwned flaky_host waiting
      (record after_turn { outbox = send_shine_collect_packet (pos 6) after_turn.outbox })
      ((waiting.outbox.made, after_turn.outbox.made) ∷ [])
      (calls _ after_turn _ (pumps [] waiting after_turn 1 packet_empty starts waiting-pump)
        (sends_shine (pos 6) after_turn.outbox))
      waiting-IsOwned

-- The turn makes one packet, the first of the new connection.
waiting-made : after_turn.outbox.made ≡ 2
unfolding pump pump_front link_or send_link send_with send_bytes try_reconnect reconnect_with
    close_socket init_with open_socket make_socket connect_by connect_to string_to_ip_address greet
    start_threads set_state note_errno with_socket packet_at
waiting-made = refl

-- The state is what was written.
abbrev writer_host : Host Str
writer_host = record {
  is_available = λ w. (true, w);
  socket = λ w. (pos 7, w);
  inet_aton = λ s. none;
  get_host_by_name = λ s w. (none, w);
  connect = λ fd a port w. (true, w);
  close = λ fd w. (true, w);
  send = λ fd bytes w. (pos (length bytes), w ++ bytes);
  get_last_errno = λ w. 0;
  json = λ p. 0x7b ∷ p.user_id;
  equals = λ p q. true;
}

-- A packet of the heap and a member are in the queue.
abbrev two_waiting : Link Str
two_waiting = record (link []) {
  outbox = record outbox {
    socket = record outbox.socket {
      send_queue = heap_packet 0 shine_packet ∷ member_packet last_win ∷ [];
    };
    made = 1;
  };
}
