-- ===== src/Connect.antt =====
-- The connection to the server: `init`, `send`, `tryReconnect`, `closeSocket` and `startThreads` of
-- mod/src/server/SocketClient.cpp, as built for the console (`EMU` is 0), and `closeSocket` of
-- mod/src/server/SocketBase.cpp. A `send` that fails reconnects, and a reconnection sends: the
-- functions are on fuel, the number of reconnections that may be open at once.
pub mod Up
pub mod Lost
pub mod Kept
pub mod Owned
pub mod Sends
pub mod Start
pub mod Tests
use smoo_bazel.Base.{
  ℕ, zero, suc, ◌+◌, Bool, true, false, ◌&&◌, Option, none, some, List, [], ◌∷◌, if◌then◌else◌,
  ◌>>=◌, length, Str, is_neg, ltb_ℤ, ℤ, pos,
}
use smoo_bazel.Packets.{con_init, con_reconnect, player_connect, system, Packet}
use smoo_bazel.Socket.{
  free, resend_init_packets, last_player, last_game, last_costume, last_flag_hold, last_win,
  Pointer, heap_packet, member_packet, Socket, Outbox,
}
use smoo_bazel.Socket.Wire.{header_of}

-- `SOCKET_LOG_UNINITIALIZED` to `SOCKET_LOG_DISCONNECTED`
pub data LogState : Type 0 where
  uninitialized connected unavailable disconnected : LogState

abbrev pub is_connected : LogState → Bool
is_connected connected = true
is_connected _ = false

-- The calls of `nn::nifm`, `nn::socket` and the protobuf library: a parameter. `S` is the state of the
-- network.
pub record Host (S : Type 0) : Type 0 where
  pub is_available : S → Bool × S
  pub socket : S → ℤ × S
  pub inet_aton : Str → Option ℕ
  -- `none` is a null pointer.
  pub get_host_by_name : Str → S → Option (List ℕ) × S
  -- The socket, the address and the port.
  pub connect : ℤ → ℕ → ℕ → S → Bool × S
  pub close : ℤ → S → Bool × S
  -- The number of bytes taken.
  pub send : ℤ → Str → S → ℤ × S
  pub get_last_errno : S → ℕ
  -- `packetToJson` and the comparison of messages
  pub json : Packet → Str
  pub equals : Packet → Packet → Bool

-- `SocketClient`, with the parts of the client that it calls.
pub record Link (S : Type 0) : Type 0 where
  pub log_state : LogState
  pub errno : ℕ
  pub ip : Str
  pub port : ℕ
  pub fd : ℤ
  pub is_first_connect : Bool
  pub recv_done : Bool
  pub send_done : Bool
  pub username : Str
  pub outbox : Outbox
  pub net : S

module _ {S : Type 0} (h : Host S) where
  set_state : LogState → Link S → Link S
  set_state st l = record l {
    log_state = st;
    outbox = record l.outbox { socket = record l.outbox.socket { connected = is_connected st } };
  }

  -- `socket_errno = GetLastErrno()`
  note_errno : Link S → Link S
  note_errno l = record l { errno = h.get_last_errno l.net }

  -- A step of `init` that fails.
  unavailable_at : Link S → Bool × Link S
  unavailable_at l = (false, set_state unavailable (note_errno l))

  first_address : Option (List ℕ) → Option ℕ
  first_address none = none
  first_address (some []) = none
  first_address (some (a ∷ _)) = some a

  -- `stringToIPAddress`
  pub string_to_ip_address : Str → S → Option ℕ × S
  string_to_ip_address s w = elim (h.inet_aton s) [
    | some a ↦ (some a, w)
    | none ↦ let (he, w') = h.get_host_by_name s w in (first_address he, w')
  ]

  connect_to : ℕ → Link S → Bool × Link S
  connect_to a l =
      let (ok, w) = h.connect l.fd a l.port l.net in
      if ok
      then (true, set_state connected (record l { net = w }))
      else unavailable_at (record l { net = w })

  connect_by : Option ℕ × S → Link S → Bool × Link S
  connect_by (none, w) l = unavailable_at (record l { net = w })
  connect_by (some a, w) l = connect_to a (record l { net = w })

  make_socket : ℤ × S → Link S → Bool × Link S
  make_socket (fd, w) l =
      let l' = record l { fd = fd; net = w } in
      if is_neg fd then unavailable_at l' else connect_by (string_to_ip_address l'.ip w) l'

  -- `init` up to the connected socket.
  pub open_socket : Link S → Bool × Link S
  open_socket l =
      let (up, w) = h.is_available l.net in
      let l' = record l { net = w } in if up then make_socket (h.socket w) l' else unavailable_at l'

  -- `startThreads`
  pub start_threads : Link S → Bool × Link S
  start_threads l =
      if l.recv_done && l.send_done
      then (true, record l { recv_done = false; send_done = false })
      else (false, l)

  -- The first packet on a connection.
  pub hello : Link S → Packet
  hello l = record {
    user_id = l.outbox.user_id;
    body = system (
        player_connect (record {
          con_type = if l.is_first_connect then con_init else con_reconnect;
          max_player_count = 0;
          client_name = l.username;
        }));
  }

  -- `closeSocket`
  pub close_socket : Link S → Bool × Link S
  close_socket l =
      let (ok, w) = h.close l.fd l.net in (ok, record (set_state disconnected l) { net = w })

  -- What follows depends on `tryReconnect`, which is the argument `again`.
  module _ (again : Link S → Option (Bool × Link S)) where
    -- The lambda `sendData`
    send_bytes : Str → Link S → Option (Bool × Link S)
    send_bytes bytes l =
        let (taken, w) = h.send l.fd bytes l.net in
        let l' = record l { net = w } in
        if ltb_ℤ (pos 0) taken
        then some (true, l')
        else again (note_errno l') >>= λ r. some (false, r.1)

    -- `send`
    send_with : Packet → Link S → Option (Bool × Link S)
    send_with p l =
        if is_connected l.log_state
        then (send_bytes (header_of (length (h.json p))) l >>= λ r.
            if r.0 then send_bytes (h.json p) r.1 else some (false, r.1))
        else some (false, l)

    -- `init` after the connection: the threads, the first packet, and on a reconnection the packets
    -- that may be missing. The first packet is made by `new`, sent and not freed.
    greet : Link S → Option (Bool × Link S)
    greet l =
        let l' = (start_threads l).1 in
        send_with (hello l') (record l' {
          is_first_connect = false;
          outbox = record l'.outbox { made = l'.outbox.made + 1 };
        })
        >>= λ r. some (
          true,
          if l'.is_first_connect
              then r.1
              else record (r.1) { outbox = resend_init_packets h.equals (r.1.outbox) },
        )

    -- `init`
    init_with : Str → ℕ → Link S → Option (Bool × Link S)
    init_with ip port l =
        let (ok, l') = open_socket (record l { ip = ip; port = port }) in
        if ok then greet l' else some (false, l')

    -- `tryReconnect`
    reconnect_with : Link S → Option (Bool × Link S)
    reconnect_with l =
        let (closed, l') = close_socket l in
        if closed then init_with l'.ip l'.port l' else some (false, l')

  -- `tryReconnect` with at most `n` reconnections within each other; `none` is out of fuel.
  pub try_reconnect : ℕ → Link S → Option (Bool × Link S)
  try_reconnect zero l = none
  try_reconnect (suc n) l = reconnect_with (try_reconnect n) l

  pub init_socket : ℕ → Str → ℕ → Link S → Option (Bool × Link S)
  init_socket n ip port l = init_with (try_reconnect n) ip port l

  pub send_link : ℕ → Packet → Link S → Option (Bool × Link S)
  send_link n p l = send_with (try_reconnect n) p l

  -- The packet that a pointer of the queue names; `mLastPlayerInf` is no part of the outbox.
  pub packet_at : Packet → Outbox → Pointer → Packet
  packet_at last_player_inf o (heap_packet _ p) = p
  packet_at last_player_inf o (member_packet last_player) = last_player_inf
  packet_at last_player_inf o (member_packet last_game) = o.last_game_inf
  packet_at last_player_inf o (member_packet last_costume) = o.last_costume_inf
  packet_at last_player_inf o (member_packet last_flag_hold) = o.last_flag_hold_state
  packet_at last_player_inf o (member_packet last_win) = o.last_ctf_win

  with_socket : Socket → Link S → Link S
  with_socket s l = record l { outbox = record l.outbox { socket = s } }

  -- The front of the queue is taken, sent and freed; on an empty queue the thread waits.
  pump_front : ℕ → Packet → List Pointer → Link S → Option (Link S)
  pump_front n last_player_inf [] l = some l
  pump_front n last_player_inf (p ∷ ps) l =
      send_link n (packet_at last_player_inf l.outbox p)
        (with_socket (record l.outbox.socket { send_queue = ps }) l)
      >>= λ r. some (with_socket (free p r.1.outbox.socket) r.1)

  -- `trySendQueue`, with the `send` that may reconnect
  pub pump : ℕ → Packet → Link S → Option (Link S)
  pump n last_player_inf l = pump_front n last_player_inf l.outbox.socket.send_queue l

  -- The first `k` rounds of `sendFunc`
  pub send_turns : ℕ → Packet → ℕ → Link S → Option (Link S)
  send_turns n last_player_inf zero l = some l
  send_turns n last_player_inf (suc k) l =
      pump n last_player_inf l >>= send_turns n last_player_inf k
