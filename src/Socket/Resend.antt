-- ===== src/Socket/Resend.antt =====
-- What the send thread frees after `resendInitPackets`.
use smoo_bazel.Base.{
  ℕ, ◌<◌, ◌≡◌, refl, sym, ap, ◌∙◌, subst, Bool, true, false, not, ◌&&◌, List, [], ◌∷◌, ◌++◌, arith,
  ltb, if◌then◌else◌, if_intro, length, str_eq,
}
use smoo_bazel.Packets.{uid_of, Packet}
use smoo_bazel.Socket.{
  member_packet, queue_size, free, queue_packet, send_front, try_send_queue, queue_member,
  resend_game_inf, resend_init_packets, last_game, last_costume, Pointer, Socket, Outbox,
}

queue_packet-room :
    (p : Pointer) (s : Socket) (q : List Pointer)
    → s.connected ≡ true
    → s.send_queue ≡ q
    → length q < queue_size
    → (queue_packet p s).1 ≡ record s { send_queue = q ++ (p ∷ []) }
unfolding queue_packet
queue_packet-room p s q conn at_queue short =
    ap
      (λ b.
        let r : Bool × Socket =
          if b
          then (true, record s { send_queue = s.send_queue ++ (p ∷ []) })
          else (false, free p s) in
        r.1)
      (room (length s.send_queue) conn (omega (arith, short, ap length at_queue)))
    ∙ ap (λ l. record s { send_queue = l ++ (p ∷ []) }) at_queue
  where
    room : (n : ℕ) → s.connected ≡ true → n < queue_size → (s.connected && ltb n queue_size) ≡ true
    room n e h = ground (arith, e, h)

-- The packet `p` is the only one that is freed by the next turn of the send thread.
FreesNext : Pointer → List Pointer → Socket → Type 0
FreesNext p freed s = (try_send_queue s).freed ≡ p ∷ freed

front-FreesNext :
    (p : Pointer) (q : List Pointer) (s : Socket)
    → FreesNext p s.freed (record s { send_queue = p ∷ q })
unfolding FreesNext try_send_queue send_front free
front-FreesNext p q s = refl

resend_game_inf-FreesNext :
    (equals : Packet → Packet → Bool) (p : Pointer) (s : Socket) (o : Outbox)
    → s.connected ≡ true
    → o.socket ≡ record s { send_queue = p ∷ [] }
    → FreesNext p s.freed (resend_game_inf equals o).socket
unfolding resend_game_inf queue_member
resend_game_inf-FreesNext equals p s o conn at_socket =
    if_intro (λ (x : Outbox). FreesNext p s.freed x.socket)
      (not (equals o.last_game_inf o.empty_game_inf))
      (subst (FreesNext p s.freed)
        (sym (
          queue_packet-room (member_packet last_game) o.socket (p ∷ [])
            (ap (λ (x : Socket). x.connected) at_socket ∙ conn)
            (ap (λ (x : Socket). x.send_queue) at_socket) (omega arith)
          ∙ ap (λ (x : Socket). record x { send_queue = p ∷ member_packet last_game ∷ [] })
              at_socket))
        (front-FreesNext p (member_packet last_game ∷ []) s))
      (subst (FreesNext p s.freed) (sym at_socket) (front-FreesNext p [] s))

-- A client that resends its own costume packet on a connection with an empty queue has that packet,
-- a member of the client and no object of `new`, freed by the next turn of the send thread.
pub resend_init_packets-frees_member :
    (equals : Packet → Packet → Bool) (o : Outbox)
    → o.socket.connected ≡ true
    → o.socket.send_queue ≡ []
    → str_eq (uid_of o.last_costume_inf.user_id) o.user_id ≡ true
    → (try_send_queue (resend_init_packets equals o).socket).freed
      ≡ member_packet last_costume ∷ o.socket.freed
unfolding resend_init_packets queue_member FreesNext
resend_init_packets-frees_member equals o conn empty own =
    subst
      (λ (x : Outbox).
        FreesNext (member_packet last_costume) o.socket.freed (resend_game_inf equals x).socket)
      (sym (ap (λ b. if b then queue_member last_costume o else o) own))
      (resend_game_inf-FreesNext equals (member_packet last_costume) o.socket
        (queue_member last_costume o) conn
        (queue_packet-room (member_packet last_costume) o.socket [] conn empty (omega arith)))
