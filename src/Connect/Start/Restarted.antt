-- ===== src/Connect/Start/Restarted.antt =====
-- What a restart of the connection leaves behind.
use mathlib.Core.List.{append-nil}
use smoo_bazel.Base.{ℕ, ◌<◌, ◌≡◌, refl, sym, ap, ◌∙◌, ◌↔◌, true, some, [], ◌∷◌, ◌++◌, length, pos}
use smoo_bazel.Client.Infos.Count.{connected, IsCounted}
use smoo_bazel.Socket.{queue_size, queue_new, heap_packet}
use smoo_bazel.Socket.Front.{StartsWith, queue_new-queued}
use smoo_bazel.Connect.{is_connected, set_state, close_socket, Host, Link}
use smoo_bazel.Connect.Up.{init_socket-connects, IsUp}
use smoo_bazel.Connect.Kept.{StartsWith-Stable, init_socket-Keeps}
use smoo_bazel.Connect.Start.{u16_of, goodbye, restart_connection, Starter}

pos_inj : (a b : ℕ) → pos a ≡ pos b → a ≡ b
pos_inj a b e = cc

module _ {S : Type 0} (h : Host S) where
  -- While every call of the network succeeds and the address is an IPv4 address, a restart of a
  -- connection whose queue has room connects again. Where the send thread made no turn meanwhile, the
  -- packet that says goodbye is still in the queue of the new connection, behind the older ones. The
  -- count of connected players is 0, and the players' infos are as before: the count is right only if
  -- no player was connected.
  pub restart_connection-stale :
      (up : IsUp h) (fuel a : ℕ) (s : Starter S)
      → h.inet_aton s.server_ip ≡ some a
      → s.link.outbox.socket.connected ≡ true
      → length s.link.outbox.socket.send_queue < queue_size
      → (s' : Starter S) × (restart_connection h fuel s ≡ some s')
        × (s'.is_connection_active ≡ true)
        × (is_connected s'.link.log_state ≡ true)
        × StartsWith
            (s.link.outbox.socket.send_queue ++ (heap_packet s.link.outbox.made (goodbye s) ∷ []))
            s'.link.outbox.socket
        × (s'.client ≡ record s.client { connect_count = pos 0 })
        × (IsCounted s'.client ↔ (connected s.client.puppet_infos ≡ 0))
  unfolding restart_connection close_socket set_state
  restart_connection-stale up fuel a s known on room =
      let queued : Link S = record s.link { outbox = queue_new (goodbye s) s.link.outbox } in
      let closed : Link S = (close_socket h queued).1 in
      let (l', e, state, first) =
        init_socket-connects h up fuel s.server_ip (u16_of s.server_port) a closed known in
      let front : StartsWith
          (s.link.outbox.socket.send_queue ++ (heap_packet s.link.outbox.made (goodbye s) ∷ []))
          closed.outbox.socket =
        ([], queue_new-queued (goodbye s) s.link.outbox on room ∙ sym (append-nil _)) in
      (
        record s {
          client = record s.client { connect_count = pos 0 };
          link = l';
          is_connection_active = true;
        },
        rw e refl,
        refl,
        ap is_connected state,
        init_socket-Keeps _ (StartsWith-Stable _) h fuel s.server_ip (u16_of s.server_port) closed
            (true, l') front e,
        refl,
        (λ counted. sym (pos_inj 0 _ counted), λ none_left. ap pos (sym none_left)),
      )
