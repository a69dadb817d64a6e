-- ===== src/Connect/Kept.antt =====
-- What the outbox keeps while the connection is opened again.
use smoo_bazel.Base.{
  ℕ, zero, suc, ◌+◌, ◌≡◌, subst, inl, inr, Bool, true, false, ◌&&◌, Option, none, some, List,
  if◌then◌else◌, Bool-cases, >>=-eq-some, if_intro, some_inj, length, Str, is_neg, ltb_ℤ, ℤ, pos,
}
use smoo_bazel.Packets.{Packet}
use smoo_bazel.Socket.{resend_init_packets, Pointer, Outbox}
use smoo_bazel.Socket.Front.{StartsWith, resend-StartsWith}
use smoo_bazel.Socket.Wire.{header_of}
use smoo_bazel.Connect.{
  is_connected, set_state, note_errno, unavailable_at, string_to_ip_address, connect_to, connect_by,
  make_socket, open_socket, start_threads, close_socket, send_bytes, send_with, greet, init_with,
  reconnect_with, try_reconnect, init_socket, send_link, Host, Link,
}

-- What holds of the outbox whatever the connection does to it.
pub record Stable (P : Outbox → Type 0) : Type 0 where
  pub connects :
      (b : Bool) (o : Outbox) → P o → P (record o { socket = record o.socket { connected = b } })
  pub makes : (o : Outbox) → P o → P (record o { made = o.made + 1 })
  pub resends :
      (equals : Packet → Packet → Bool) (o : Outbox) → P o → P (resend_init_packets equals o)

module _ (P : Outbox → Type 0) (stable : Stable P) where
  module _ {S : Type 0} (h : Host S) where
    abbrev Keeps : Link S → Type 0
    Keeps l = P l.outbox

    abbrev KeepsAll : (Link S → Option (Bool × Link S)) → Type 0
    KeepsAll again = (l : Link S) (r : Bool × Link S) → Keeps l → again l ≡ some r → Keeps r.1

    connect_by-Keeps : (r : Option ℕ × S) (l : Link S) → Keeps l → Keeps (connect_by h r l).1
    unfolding connect_by connect_to unavailable_at set_state note_errno
    connect_by-Keeps (none, w) l v = stable.connects false l.outbox v
    connect_by-Keeps (some a, w) l v =
        if_intro (λ (r : Bool × Link S). Keeps r.1) ((h.connect l.fd a l.port w).0)
          (stable.connects true l.outbox v) (stable.connects false l.outbox v)

    make_socket-Keeps : (r : ℤ × S) (l : Link S) → Keeps l → Keeps (make_socket h r l).1
    unfolding make_socket unavailable_at set_state note_errno
    make_socket-Keeps (fd, w) l v =
        if_intro (λ (r : Bool × Link S). Keeps r.1) (is_neg fd) (stable.connects false l.outbox v)
          (connect_by-Keeps (string_to_ip_address h l.ip w) _ v)

    open_socket-Keeps : (l : Link S) → Keeps l → Keeps (open_socket h l).1
    unfolding open_socket unavailable_at set_state note_errno
    open_socket-Keeps l v =
        if_intro (λ (r : Bool × Link S). Keeps r.1) ((h.is_available l.net).0)
          (make_socket-Keeps _ _ v) (stable.connects false l.outbox v)

    start_threads-Keeps : (l : Link S) → Keeps l → Keeps (start_threads h l).1
    unfolding start_threads
    start_threads-Keeps l v =
        if_intro (λ (r : Bool × Link S). Keeps r.1) (l.recv_done && l.send_done) v v

    module _ (again : Link S → Option (Bool × Link S)) (keeps : KeepsAll again) where
      send_bytes-Keeps : (bytes : Str) → KeepsAll (send_bytes h again bytes)
      unfolding send_bytes note_errno
      send_bytes-Keeps bytes l r v e =
          elim (Bool-cases (ltb_ℤ (pos 0) ((h.send l.fd bytes l.net).0))) [
            | inl taken ↦ subst (λ (x : Bool × Link S). Keeps x.1) (some_inj (rw taken at e)) v
            | inr refused ↦
                let (r', e', last) = >>=-eq-some (again _) _ (rw refused at e) in
                subst (λ (x : Bool × Link S). Keeps x.1) (some_inj last) (keeps _ r' v e')
          ]

      send_with-Keeps : (p : Packet) → KeepsAll (send_with h again p)
      unfolding send_with
      send_with-Keeps p l r v e = elim (Bool-cases (is_connected l.log_state)) [
        | inl on ↦
            let ((sent, l'), e', last) =
              >>=-eq-some (send_bytes h again (header_of (length (h.json p))) l) _ (rw on at e) in
            then_json sent l' (send_bytes-Keeps _ l (sent, l') v e') last
        | inr off ↦ subst (λ (x : Bool × Link S). Keeps x.1) (some_inj (rw off at e)) v
      ]
        where
          then_json :
              (sent : Bool) (l' : Link S)
              → Keeps l'
              → (if sent then send_bytes h again (h.json p) l' else some (false, l')) ≡ some r
              → Keeps r.1
          then_json true l' v' e' = send_bytes-Keeps (h.json p) l' r v' e'
          then_json false l' v' e' = subst (λ (x : Bool × Link S). Keeps x.1) (some_inj e') v'

      greet-Keeps : KeepsAll (greet h again)
      unfolding greet
      greet-Keeps l r v e =
          let (r', e', last) = >>=-eq-some (send_with h again _ _) _ e in
          let v' = send_with-Keeps _ _ r' (stable.makes _ (start_threads-Keeps l v)) e' in
          subst (λ (x : Bool × Link S). Keeps x.1) (some_inj last)
            (if_intro Keeps _ v' (stable.resends h.equals _ v'))

      init_with-Keeps : (ip : Str) (port : ℕ) → KeepsAll (init_with h again ip port)
      unfolding init_with
      init_with-Keeps ip port l r v e =
          let asked : Link S = record l { ip = ip; port = port } in
          let opened = open_socket-Keeps asked v in
          elim (Bool-cases ((open_socket h asked).0)) [
            | inl ok ↦ greet-Keeps _ r opened (rw ok at e)
            | inr broken ↦
                subst (λ (x : Bool × Link S). Keeps x.1) (some_inj (rw broken at e)) opened
          ]

      reconnect_with-Keeps : KeepsAll (reconnect_with h again)
      unfolding reconnect_with close_socket set_state
      reconnect_with-Keeps l r v e = elim (Bool-cases ((h.close l.fd l.net).0)) [
        | inl closed ↦
            init_with-Keeps l.ip l.port _ r (stable.connects false l.outbox v) (rw closed at e)
        | inr broken ↦
            subst (λ (x : Bool × Link S). Keeps x.1) (some_inj (rw broken at e))
              (stable.connects false l.outbox v)
      ]

    -- Whatever a reconnection comes to, also within others.
    pub try_reconnect-Keeps : (n : ℕ) → KeepsAll (try_reconnect h n)
    unfolding try_reconnect
    try_reconnect-Keeps zero l r v e = cc
    try_reconnect-Keeps (suc n) l r v e =
        reconnect_with-Keeps (try_reconnect h n) (try_reconnect-Keeps n) l r v e

    pub init_socket-Keeps : (n : ℕ) (ip : Str) (port : ℕ) → KeepsAll (init_socket h n ip port)
    unfolding init_socket
    init_socket-Keeps n = init_with-Keeps (try_reconnect h n) (try_reconnect-Keeps n)

    pub send_link-Keeps : (n : ℕ) (p : Packet) → KeepsAll (send_link h n p)
    unfolding send_link
    send_link-Keeps n = send_with-Keeps (try_reconnect h n) (try_reconnect-Keeps n)

-- The packets that were in the queue are still at its front, in the same order.
pub StartsWith-Stable : (q : List Pointer) → Stable (λ o. StartsWith q o.socket)
StartsWith-Stable q = record {
  connects = λ b o v. v;
  makes = λ o v. v;
  resends = λ equals o v. resend-StartsWith q equals o v;
}
