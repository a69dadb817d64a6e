-- ===== src/Socket/Front.antt =====
-- The functions that queue packets add them behind those that are there.
use mathlib.Core.List.{append_assoc}
use smoo_bazel.Base.{
  ◌<◌, ◌≡◌, refl, ap, ◌∙◌, Bool, true, ◌&&◌, List, [], ◌∷◌, ◌++◌, ltb, lt→ltb, if_intro, length,
  str_eq,
}
use smoo_bazel.Packets.{uid_of, Packet}
use smoo_bazel.Socket.{
  heap_packet, member_packet, queue_size, free, queue_packet, queue_new, queue_member,
  resend_game_inf, resend_init_packets, Member, last_game, last_costume, Pointer, Socket, Outbox,
}

-- The queue starts with `q`.
abbrev pub StartsWith : List Pointer → Socket → Type 0
StartsWith q s = (rest : List Pointer) × (s.send_queue ≡ q ++ rest)

module _ (q : List Pointer) where
  pub queue_packet-StartsWith :
      (p : Pointer) (s : Socket) → StartsWith q s → StartsWith q (queue_packet p s).1
  unfolding queue_packet free
  queue_packet-StartsWith p s (rest, e) =
      if_intro (λ (r : Bool × Socket). StartsWith q r.1)
        (s.connected && ltb (length s.send_queue) queue_size)
        (rest ++ (p ∷ []), ap (λ xs. xs ++ (p ∷ [])) e ∙ append_assoc q rest (p ∷ [])) (rest, e)

  queue_member-StartsWith :
      (m : Member) (o : Outbox) → StartsWith q o.socket → StartsWith q (queue_member m o).socket
  unfolding queue_member
  queue_member-StartsWith m o v = queue_packet-StartsWith (member_packet m) o.socket v

  pub resend-StartsWith :
      (equals : Packet → Packet → Bool) (o : Outbox)
      → StartsWith q o.socket
      → StartsWith q (resend_init_packets equals o).socket
  unfolding resend_init_packets resend_game_inf
  resend-StartsWith equals o v =
      let first =
        if_intro (λ (x : Outbox). StartsWith q x.socket)
          (str_eq (uid_of o.last_costume_inf.user_id) o.user_id)
          (queue_member-StartsWith last_costume o v) v in
      if_intro (λ (x : Outbox). StartsWith q x.socket) _ (queue_member-StartsWith last_game _ first)
        first

-- A packet that fits is put behind the others.
pub queue_packet-queued :
    (p : Pointer) (s : Socket)
    → s.connected ≡ true
    → length s.send_queue < queue_size
    → (queue_packet p s).1.send_queue ≡ s.send_queue ++ (p ∷ [])
unfolding queue_packet
queue_packet-queued p s on room = rw (on, lt→ltb (length s.send_queue) queue_size room) refl

pub queue_new-queued :
    (p : Packet) (o : Outbox)
    → o.socket.connected ≡ true
    → length o.socket.send_queue < queue_size
    → (queue_new p o).socket.send_queue ≡ o.socket.send_queue ++ (heap_packet o.made p ∷ [])
unfolding queue_new
queue_new-queued p o on room = queue_packet-queued (heap_packet o.made p) o.socket on room

pub send_queue-free : (p : Pointer) (s : Socket) → (free p s).send_queue ≡ s.send_queue
unfolding free
send_queue-free p s = refl
