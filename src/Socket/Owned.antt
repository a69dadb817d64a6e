-- ===== src/Socket/Owned.antt =====
-- What a call of a function that sends does to the ownership of the packets.
use smoo_bazel.Base.{
  ℕ, ◌+◌, ◌≡◌, refl, subst, inl, inr, Bool, true, false, not, ◌&&◌, Option, some, List, [], ◌∷◌,
  ◌++◌, arith, ltb, ◌==◌, if◌then◌else◌, Bool-cases, ◌>>=◌, >>=-eq-some, if_intro, some_inj, length,
  Str, str_eq, ℤ, Quat,
}
use smoo_bazel.Puppets.Info.{FlagTeam}
use smoo_bazel.Packets.{uid_of, GameInf, HackCapInf, PlayerInf, capture_inf, FlagHoldState, Packet}
use smoo_bazel.Modes.{is_mode, object_as, as_hns, hide_and_seek, hns_mode, Manager}
use smoo_bazel.Socket.Move.{mario_inf, send_move, send_player_inf_packet, Actor, Mover}
use smoo_bazel.Socket.Cap.{
  try_convert_name, queue_own, send_capture_inf_packet, send_hack_cap_inf_packet, is_empty,
  send_costume_inf_packet, Sender,
}
use smoo_bazel.Socket.{
  heap_packet, member_packet, queue_size, free, queue_packet, queue_new, free_new, queue_member,
  send_flag_hold_state_packet, send_ctf_win_packet, send_shine_collect_packet, tag_packet,
  send_tag_inf_packet, send_game_inf_packet, send_stage_packet, resend_game_inf,
  resend_init_packets, Member, last_game, last_costume, last_flag_hold, last_win, Pointer, Socket,
  Outbox,
}

-- Is this the object of the n-th `new`?
abbrev pub names : ℕ → Pointer → ℕ
names n (heap_packet k p) = if k == n then 1 else 0
names n (member_packet m) = 0

unfoldable pub count : ℕ → List Pointer → ℕ
count n [] = 0
count n (p ∷ ps) = names n p + count n ps

count-append : (n : ℕ) (ps qs : List Pointer) → count n (ps ++ qs) ≡ count n ps + count n qs
unfolding count
count-append n [] qs = omega arith
count-append n (p ∷ ps) qs = omega (arith, count-append n ps qs)

count-last :
    (n : ℕ) (ps : List Pointer) (p : Pointer) → count n (ps ++ (p ∷ [])) ≡ count n ps + names n p
unfolding count
count-last n ps p = omega (arith, count-append n ps (p ∷ []))

-- How often a packet is in the queue or was freed.
unfoldable pub owned : ℕ → Socket → ℕ
owned n s = count n s.send_queue + count n s.freed

pub owned-queue_packet :
    (n : ℕ) (p : Pointer) (s : Socket) → owned n (queue_packet p s).1 ≡ owned n s + names n p
unfolding owned queue_packet free count
owned-queue_packet n p s = elim (Bool-cases (s.connected && ltb (length s.send_queue) queue_size)) [
  | inl room ↦ rw room (omega (arith, count-last n s.send_queue p))
  | inr full ↦ rw full (omega arith)
]

pub owned-free : (n : ℕ) (p : Pointer) (s : Socket) → owned n (free p s) ≡ owned n s + names n p
unfolding owned free count
owned-free n p s = omega arith

one_more :
    (a b c n k : ℕ) (p : Packet)
    → b ≡ a + names n (heap_packet k p)
    → a + c ≡ (if ltb n k then 1 else 0)
    → b + c ≡ (if ltb n (k + 1) then 1 else 0)
one_more a b c n k p e h = ground (arith, e, h)

-- The same packets are owned, and as many were made.
abbrev Owns : Outbox → Outbox → Type 0
Owns o o' = ((n : ℕ) → owned n o'.socket ≡ owned n o.socket) × (o'.made ≡ o.made)

queue_member-Owns : (m : Member) (o o' : Outbox) → Owns o o' → Owns o (queue_member m o')
unfolding queue_member
queue_member-Owns m o o' (same, made) =
    (λ n. omega (arith, owned-queue_packet n (member_packet m) o'.socket, same n), made)

pub resend_init_packets-Owns :
    (equals : Packet → Packet → Bool) (o : Outbox) → Owns o (resend_init_packets equals o)
unfolding resend_init_packets resend_game_inf
resend_init_packets-Owns equals o =
    let stays : Owns o o = (λ n. refl, refl) in
    let x =
      if_intro (Owns o) (str_eq (uid_of o.last_costume_inf.user_id) o.user_id)
        (queue_member-Owns last_costume o o stays) stays in
    if_intro (Owns o) _ (queue_member-Owns last_game o _ x) x

-- One call of a function that sends.
pub data Act (equals : Packet → Packet → Bool) : Outbox → Outbox → Type 0 where
  sends_game : (g : GameInf) (o : Outbox) → Act equals o (send_game_inf_packet equals g o)
  sends_stage : (s : Str) (n : ℤ) (o : Outbox) → Act equals o (send_stage_packet equals s n o)
  sends_shine : (n : ℤ) (o : Outbox) → Act equals o (send_shine_collect_packet n o)
  sends_tag : (m : Manager) (o o' : Outbox) → send_tag_inf_packet m o ≡ some o' → Act equals o o'
  sends_hold : (h : FlagHoldState) (o : Outbox) → Act equals o (send_flag_hold_state_packet h o)
  sends_win : (t : FlagTeam) (o : Outbox) → Act equals o (send_ctf_win_packet t o)
  sends_capture :
      (hack : Option Str) (s s' : Sender)
      → send_capture_inf_packet hack s ≡ some s'
      → Act equals s.outbox s'.outbox
  sends_hack_cap :
      (flies : Bool) (c : HackCapInf) (unit : Quat) (s : Sender)
      → Act equals s.outbox (send_hack_cap_inf_packet flies c unit s).outbox
  sends_costume :
      (costume cap_model : Str) (s : Sender)
      → Act equals s.outbox (send_costume_inf_packet costume cap_model s).outbox
  sends_move :
      (is_yukimaru : Bool) (a : Actor) (m m' : Mover)
      → send_player_inf_packet equals is_yukimaru a m ≡ some m'
      → Act equals m.sender.outbox m'.sender.outbox
  resends : (o : Outbox) → Act equals o (resend_init_packets equals o)

module _ (lost : ℕ → ℕ) where
  -- Each packet that was made is queued or freed exactly once, or is among the `lost`, and no other is.
  abbrev pub IsOwned : Outbox → Type 0
  IsOwned o = (n : ℕ) → owned n o.socket + lost n ≡ (if ltb n o.made then 1 else 0)

  queue_new-IsOwned : (p : Packet) (o : Outbox) → IsOwned o → IsOwned (queue_new p o)
  unfolding queue_new
  queue_new-IsOwned p o v n =
      one_more (owned n o.socket) _ (lost n) n o.made p
        (owned-queue_packet n (heap_packet o.made p) o.socket) (v n)

  free_new-IsOwned : (p : Packet) (o : Outbox) → IsOwned o → IsOwned (free_new p o)
  unfolding free_new
  free_new-IsOwned p o v n =
      one_more (owned n o.socket) _ (lost n) n o.made p
        (owned-free n (heap_packet o.made p) o.socket) (v n)

  queue_member-IsOwned : (m : Member) (o : Outbox) → IsOwned o → IsOwned (queue_member m o)
  unfolding queue_member
  queue_member-IsOwned m o v n = omega (arith, owned-queue_packet n (member_packet m) o.socket, v n)

  send_tag_inf_packet-IsOwned :
      (m : Manager) (o o' : Outbox) → send_tag_inf_packet m o ≡ some o' → IsOwned o → IsOwned o'
  unfolding send_tag_inf_packet
  send_tag_inf_packet-IsOwned m o o' e v = elim (Bool-cases (is_mode hide_and_seek m)) [
    | inl mode ↦
        let (_, _, e') = >>=-eq-some (object_as hns_mode m) _ (rw mode at e) in
        let (i, _, last) = >>=-eq-some (as_hns m.info) _ e' in
        subst IsOwned (some_inj last) (queue_new-IsOwned (tag_packet i o) o v)
    | inr other ↦ subst IsOwned (some_inj (rw other at e)) v
  ]

  send_capture_inf_packet-IsOwned :
      (hack : Option Str) (s s' : Sender)
      → send_capture_inf_packet hack s ≡ some s'
      → IsOwned s.outbox
      → IsOwned s'.outbox
  unfolding send_capture_inf_packet queue_own
  send_capture_inf_packet-IsOwned hack s s' e v =
      go (s.is_captured && not s.is_sent_capture) (not s.is_captured && s.is_sent_capture) e
    where
      caught : Str → Sender
      caught name =
          record (queue_own (capture_inf (record { hack_name = try_convert_name name })) s) {
            is_sent_capture = true;
          }

      let_go : Sender
      let_go = record (queue_own (capture_inf (record { hack_name = [] })) s) {
        is_sent_capture = false;
      }

      go :
          (b c : Bool) {s' : Sender}
          → (if b then (hack >>= λ name. some (caught name)) else if c then some let_go else some s)
            ≡ some s'
          → IsOwned s'.outbox
      go true c e =
          let (name, _, e') = >>=-eq-some hack (λ name. some (caught name)) e in
          subst (λ (x : Sender). IsOwned x.outbox) (some_inj e') (queue_new-IsOwned _ s.outbox v)
      go false true e =
          subst (λ (x : Sender). IsOwned x.outbox) (some_inj e) (queue_new-IsOwned _ s.outbox v)
      go false false e = subst (λ (x : Sender). IsOwned x.outbox) (some_inj e) v

  send_move-IsOwned :
      (equals : Packet → Packet → Bool) (p : PlayerInf) (m : Mover)
      → IsOwned m.sender.outbox
      → IsOwned (send_move equals p m).sender.outbox
  unfolding send_move
  send_move-IsOwned equals p m v =
      if_intro (λ (x : Mover). IsOwned x.sender.outbox) _ (queue_new-IsOwned _ m.sender.outbox v)
        (free_new-IsOwned _ m.sender.outbox v)

  send_player_inf_packet-IsOwned :
      (equals : Packet → Packet → Bool) (is_yukimaru : Bool) (a : Actor) (m m' : Mover)
      → send_player_inf_packet equals is_yukimaru a m ≡ some m'
      → IsOwned m.sender.outbox
      → IsOwned m'.sender.outbox
  unfolding send_player_inf_packet
  send_player_inf_packet-IsOwned equals true a m m' e v =
      subst (λ (x : Mover). IsOwned x.sender.outbox) (some_inj e) (send_move-IsOwned equals _ _ v)
  send_player_inf_packet-IsOwned equals false a m m' e v =
      let ((p, captured), _, e') = >>=-eq-some (mario_inf a) _ e in
      subst (λ (x : Mover). IsOwned x.sender.outbox) (some_inj e') (send_move-IsOwned equals p _ v)

  pub Act-IsOwned :
      (equals : Packet → Packet → Bool) (a b : Outbox) → Act equals a b → IsOwned a → IsOwned b
  unfolding send_hack_cap_inf_packet send_costume_inf_packet queue_own send_game_inf_packet
      send_stage_packet send_shine_collect_packet send_flag_hold_state_packet send_ctf_win_packet
      resend_init_packets resend_game_inf
  Act-IsOwned equals a b (sends_game g o) v =
      if_intro IsOwned _ (queue_new-IsOwned _ _ v) (free_new-IsOwned _ o v)
  Act-IsOwned equals a b (sends_stage s n o) v =
      if_intro IsOwned _ (queue_new-IsOwned _ _ v) (free_new-IsOwned _ o v)
  Act-IsOwned equals a b (sends_shine n o) v = if_intro IsOwned _ (queue_new-IsOwned _ _ v) v
  Act-IsOwned equals a b (sends_tag m o o' e) v = send_tag_inf_packet-IsOwned m o o' e v
  Act-IsOwned equals a b (sends_hold h o) v = queue_member-IsOwned last_flag_hold _ v
  Act-IsOwned equals a b (sends_win t o) v = queue_member-IsOwned last_win _ v
  Act-IsOwned equals a b (sends_capture hack s s' e) v =
      send_capture_inf_packet-IsOwned hack s s' e v
  Act-IsOwned equals a b (sends_hack_cap true c unit s) v = queue_new-IsOwned _ s.outbox v
  Act-IsOwned equals a b (sends_hack_cap false c unit s) v =
      if_intro (λ (x : Sender). IsOwned x.outbox) s.is_sent_hack (queue_new-IsOwned _ s.outbox v) v
  Act-IsOwned equals a b (sends_costume costume cap_model s) v =
      if_intro (λ (x : Sender). IsOwned x.outbox) (is_empty costume && is_empty cap_model) v
        (queue_new-IsOwned _ _ v)
  Act-IsOwned equals a b (sends_move racer x m m' e) v =
      send_player_inf_packet-IsOwned equals racer x m m' e v
  Act-IsOwned equals a b (resends o) v =
      let x =
        if_intro IsOwned (str_eq (uid_of o.last_costume_inf.user_id) o.user_id)
          (queue_member-IsOwned last_costume o v) v in
      if_intro IsOwned _ (queue_member-IsOwned last_game _ x) x
