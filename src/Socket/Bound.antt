-- ===== src/Socket/Bound.antt =====
-- How much a send adds to the queue.
use smoo_bazel.Base.{
  ℕ, ◌+◌, ◌≤◌, ◌≡◌, refl, ◌∙◌, Bool, true, false, ◌&&◌, [], ◌∷◌, ◌++◌, arith, ltb, if◌then◌else◌,
  lt→ltb, length, length-append,
}
use smoo_bazel.Puppets.Info.{FlagTeam}
use smoo_bazel.Packets.{FlagHoldState}
use smoo_bazel.Socket.{
  member_packet, queue_size, free, queue_packet, queue_member, send_flag_hold_state_packet,
  send_ctf_win_packet, last_flag_hold, last_win, Pointer, Socket, Outbox,
}

abbrev pub queued : Outbox → ℕ
queued o = length o.socket.send_queue

-- A packet that does not fit is not queued.
queue_packet-length :
    (p : Pointer) (s : Socket) → length (queue_packet p s).1.send_queue ≤ length s.send_queue + 1
unfolding queue_packet free
queue_packet-length p s = go (s.connected && ltb (length s.send_queue) queue_size)
  where
    chosen : Bool → Bool × Socket
    chosen b =
        if b then (true, record s { send_queue = s.send_queue ++ (p ∷ []) }) else (false, free p s)

    go : (b : Bool) → length (chosen b).1.send_queue ≤ length s.send_queue + 1
    go true = omega (arith, length-append s.send_queue (p ∷ []))
    go false = omega arith

-- On a connected socket with room for `k` more packets nothing is freed.
abbrev pub Quiet : ℕ → Outbox → Outbox → Type 0
Quiet k o o' =
    o.socket.connected ≡ true
    → queued o + k ≤ queue_size
    → (o'.socket.freed ≡ o.socket.freed) × (o'.socket.connected ≡ true)

pub Quiet-same : (k : ℕ) (o : Outbox) → Quiet k o o
Quiet-same k o on room = (refl, on)

pub Quiet-more : (a b : ℕ) (o o' : Outbox) → a ≤ b → Quiet a o o' → Quiet b o o'
Quiet-more a b o o' le q on room = q on (omega arith)

pub Quiet-then :
    (a b : ℕ) (o o1 o2 : Outbox)
    → queued o1 ≤ queued o + a
    → Quiet a o o1
    → Quiet b o1 o2
    → Quiet (a + b) o o2
Quiet-then a b o o1 o2 le q q' on room =
    let (e, on1) = q on (omega arith) in let (e', on2) = q' on1 (omega arith) in (e' ∙ e, on2)

queue_packet-quiet :
    (p : Pointer) (s : Socket)
    → s.connected ≡ true
    → length s.send_queue + 1 ≤ queue_size
    → ((queue_packet p s).1.freed ≡ s.freed) × ((queue_packet p s).1.connected ≡ true)
unfolding queue_packet
queue_packet-quiet p s on room = go (s.connected && ltb (length s.send_queue) queue_size) fits
  where
    fits : (s.connected && ltb (length s.send_queue) queue_size) ≡ true
    fits = rw on (lt→ltb (length s.send_queue) queue_size (omega arith))

    chosen : Bool → Bool × Socket
    chosen b =
        if b then (true, record s { send_queue = s.send_queue ++ (p ∷ []) }) else (false, free p s)

    go : (b : Bool) → b ≡ true → ((chosen b).1.freed ≡ s.freed) × ((chosen b).1.connected ≡ true)
    go true e = (refl, on)
    go false e = cc

pub send_flag_hold_state_packet-Quiet :
    (h : FlagHoldState) (o : Outbox) → Quiet 1 o (send_flag_hold_state_packet h o)
unfolding send_flag_hold_state_packet queue_member
send_flag_hold_state_packet-Quiet h o = queue_packet-quiet (member_packet last_flag_hold) o.socket

pub send_ctf_win_packet-Quiet :
    (team : FlagTeam) (o : Outbox) → Quiet 1 o (send_ctf_win_packet team o)
unfolding send_ctf_win_packet queue_member
send_ctf_win_packet-Quiet team o = queue_packet-quiet (member_packet last_win) o.socket

pub send_flag_hold_state_packet-queued :
    (h : FlagHoldState) (o : Outbox) → queued (send_flag_hold_state_packet h o) ≤ queued o + 1
unfolding send_flag_hold_state_packet queue_member
send_flag_hold_state_packet-queued h o = queue_packet-length (member_packet last_flag_hold) o.socket

pub send_ctf_win_packet-queued :
    (team : FlagTeam) (o : Outbox) → queued (send_ctf_win_packet team o) ≤ queued o + 1
unfolding send_ctf_win_packet queue_member
send_ctf_win_packet-queued team o = queue_packet-length (member_packet last_win) o.socket
