-- ===== src/Connect/Owned.antt =====
-- Every packet that the client makes is queued or freed, once, but for the first packets of the
-- connections.
use smoo_bazel.Base.{
  ℕ, ◌+◌, ◌≤◌, ◌≡◌, refl, ap, subst, Bool, ◌&&◌, some, List, [], ◌∷◌, arith, ltb, leb,
  if◌then◌else◌, >>=-eq-some, some_inj,
}
use smoo_bazel.Packets.{Packet}
use smoo_bazel.Socket.{Pointer, Socket, Outbox}
use smoo_bazel.Socket.Owned.{
  names, count, owned, owned-free, resend_init_packets-Owns, IsOwned, Act-IsOwned, Act,
}
use smoo_bazel.Connect.{try_reconnect, send_link, with_socket, pump_front, pump, Host, Link}
use smoo_bazel.Connect.Kept.{try_reconnect-Keeps, send_link-Keeps, Stable}

-- How many of the spans `(a, b)`, from `a` on and below `b`, hold `n`?
unfoldable pub made_in : ℕ → List (ℕ × ℕ) → ℕ
made_in n [] = 0
made_in n ((a, b) ∷ spans) = (if leb a n && ltb n b then 1 else 0) + made_in n spans

-- Calls of the functions that send, turns of the send thread, and reconnections of the read thread, one
-- after the other, with the spans of the numbers of the packets that were made while the connection was
-- opened again.
pub data Steps {S : Type 0} (h : Host S) (l : Link S) : List (ℕ × ℕ) → Link S → Type 0 where
  starts : Steps h l [] l
  calls :
      (spans : List (ℕ × ℕ)) (a : Link S) (o : Outbox)
      → Steps h l spans a
      → Act h.equals a.outbox o
      → Steps h l spans (record a { outbox = o })
  pumps :
      (spans : List (ℕ × ℕ)) (a b : Link S) (fuel : ℕ) (last_player_inf : Packet)
      → Steps h l spans a
      → pump h fuel last_player_inf a ≡ some b
      → Steps h l ((a.outbox.made, b.outbox.made) ∷ spans) b
  reconnects :
      (spans : List (ℕ × ℕ)) (a b : Link S) (fuel : ℕ) (ok : Bool)
      → Steps h l spans a
      → try_reconnect h fuel a ≡ some (ok, b)
      → Steps h l ((a.outbox.made, b.outbox.made) ∷ spans) b

-- `held` and what is owned come to `total`, and at least `least` packets were made.
abbrev Accounts : List Pointer → (ℕ → ℕ) → ℕ → Outbox → Type 0
Accounts held total least o =
    ((n : ℕ) → count n held + owned n o.socket ≡ total n) × (least ≤ o.made)

module _ (held : List Pointer) (total : ℕ → ℕ) (least : ℕ) where
  Accounts-Stable : Stable (Accounts held total least)
  unfolding owned
  Accounts-Stable = record {
    connects = λ b o v. v;
    makes = λ o v. (v.0, omega (arith, v.1));
    resends = λ equals o v.
        let (same, made) = resend_init_packets-Owns equals o in
        (λ n. omega (arith, same n, v.0 n), omega (arith, made, v.1));
  }

owned-taken :
    (p : Pointer) (ps : List Pointer) (s : Socket)
    → s.send_queue ≡ p ∷ ps
    → (n : ℕ) → count n (p ∷ []) + owned n (record s { send_queue = ps }) ≡ owned n s
unfolding owned count
owned-taken p ps s at_q n =
    let front : count n s.send_queue ≡ names n p + count n ps = ap (count n) at_q in
    omega (arith, front)

module _ {S : Type 0} (h : Host S) where
  -- What was owned before a turn of the send thread is owned after it, and nothing else.
  pump-owned :
      (fuel : ℕ) (last_player_inf : Packet) (a b : Link S)
      → pump h fuel last_player_inf a ≡ some b
      → Accounts [] (λ n. owned n a.outbox.socket) a.outbox.made b.outbox
  unfolding pump pump_front with_socket count
  pump-owned fuel last_player_inf a b e = go a.outbox.socket.send_queue refl e
    where
      go :
          (q : List Pointer)
          → a.outbox.socket.send_queue ≡ q
          → pump_front h fuel last_player_inf q a ≡ some b
          → Accounts [] (λ n. owned n a.outbox.socket) a.outbox.made b.outbox
      go [] at_q e =
          subst (λ (x : Link S). Accounts [] (λ n. owned n a.outbox.socket) a.outbox.made x.outbox)
            (some_inj e) (λ n. omega arith, omega arith)
      go (p ∷ ps) at_q e =
          let (r, sent, last) = >>=-eq-some (send_link h fuel _ _) _ e in
          let (v, le) =
            send_link-Keeps (Accounts (p ∷ []) (λ n. owned n a.outbox.socket) a.outbox.made)
              (Accounts-Stable (p ∷ []) (λ n. owned n a.outbox.socket) a.outbox.made) h fuel _ _ r
              (owned-taken p ps a.outbox.socket at_q, omega arith) sent in
          subst (λ (x : Link S). Accounts [] (λ n. owned n a.outbox.socket) a.outbox.made x.outbox)
            (some_inj last) (λ n. omega (arith, v n, owned-free n p r.1.outbox.socket), le)

  try_reconnect-owned :
      (fuel : ℕ) (a b : Link S) (ok : Bool)
      → try_reconnect h fuel a ≡ some (ok, b)
      → Accounts [] (λ n. owned n a.outbox.socket) a.outbox.made b.outbox
  unfolding count
  try_reconnect-owned fuel a b ok e =
      try_reconnect-Keeps (Accounts [] (λ n. owned n a.outbox.socket) a.outbox.made)
        (Accounts-Stable [] (λ n. owned n a.outbox.socket) a.outbox.made) h fuel a (ok, b)
        (λ n. omega arith, omega arith) e

  loses :
      (spans : List (ℕ × ℕ)) (a b : Outbox)
      → Accounts [] (λ n. owned n a.socket) a.made b
      → IsOwned (λ n. made_in n spans) a
      → IsOwned (λ n. made_in n ((a.made, b.made) ∷ spans)) b
  unfolding made_in count
  loses spans a b (same, le) v n = ground (arith, same n, v n, le)

  -- However calls of the functions that send, turns of the send thread and reconnections that end
  -- follow each other, and whatever the network does: each packet that was made by `new` is in the
  -- queue or was freed, exactly once in all, but for those that a turn or a reconnection made to
  -- open a connection, which are neither, if that was so of all packets at the start.
  pub Steps-IsOwned :
      (a b : Link S) (spans : List (ℕ × ℕ))
      → Steps h a spans b
      → IsOwned (λ n. 0) a.outbox
      → IsOwned (λ n. made_in n spans) b.outbox
  unfolding made_in
  Steps-IsOwned a b _ starts v = v
  Steps-IsOwned a _ _ (calls spans b o steps act) v =
      Act-IsOwned (λ n. made_in n spans) h.equals b.outbox o act (Steps-IsOwned a b spans steps v)
  Steps-IsOwned a _ _ (pumps spans b c fuel p steps e) v =
      loses spans b.outbox c.outbox (pump-owned fuel p b c e) (Steps-IsOwned a b spans steps v)
  Steps-IsOwned a _ _ (reconnects spans b c fuel ok steps e) v =
      loses spans b.outbox c.outbox (try_reconnect-owned fuel b c ok e)
        (Steps-IsOwned a b spans steps v)
