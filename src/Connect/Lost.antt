-- ===== src/Connect/Lost.antt =====
-- How a reconnection fails for good, and what `init` says on the way.
use smoo_bazel.Base.{
  ℕ, zero, suc, ◌+◌, ◌≡◌, refl, ap, ◌∙◌, Bool, true, false, Option, none, some, if◌then◌else◌,
  ◌>>=◌, if_intro, length, Str, is_neg, ltb_ℤ, ℤ, pos,
}
use smoo_bazel.Packets.{Packet}
use smoo_bazel.Socket.{resend_init_packets}
use smoo_bazel.Socket.Wire.{header_of}
use smoo_bazel.Connect.Up.{start_threads-keeps}
use smoo_bazel.Connect.{
  is_connected, set_state, note_errno, unavailable_at, string_to_ip_address, connect_to, connect_by,
  make_socket, open_socket, start_threads, hello, close_socket, send_bytes, send_with, greet,
  init_with, reconnect_with, try_reconnect, init_socket, connected, unavailable, Host, Link,
}

-- What a network says of its sockets: `Close` fails on a descriptor that is not open, and closes it
-- otherwise, and no other call than `Socket` opens one.
pub record ClosesOnce {S : Type 0} (h : Host S) (is_open : ℤ → S → Bool) : Type 0 where
  pub close_closed : (fd : ℤ) (w : S) → is_open fd w ≡ false → (h.close fd w).0 ≡ false
  pub closes : (fd : ℤ) (w : S) → is_open fd (h.close fd w).1 ≡ false
  pub available_keeps :
      (fd : ℤ) (w : S) → is_open fd w ≡ false → is_open fd (h.is_available w).1 ≡ false

-- `recv` on a socket that is not connected calls `tryReconnect`: `k` such calls, with whether one of
-- them succeeded.
pub retry : {S : Type 0} → Host S → ℕ → ℕ → Link S → Option (Bool × Link S)
retry h n zero l = some (false, l)
retry h n (suc k) l = try_reconnect h n l >>= λ r. if r.0 then some r else retry h n k r.1

module _ {S : Type 0} (h : Host S) (is_open : ℤ → S → Bool) (laws : ClosesOnce h is_open) where
  -- The link's descriptor was closed.
  IsLost : Link S → Type 0
  IsLost l = (is_open l.fd l.net ≡ false) × (is_connected l.log_state ≡ false)

  try_reconnect-IsLost :
      (n : ℕ) (l : Link S)
      → is_open l.fd l.net ≡ false
      → (l' : Link S) × (try_reconnect h (suc n) l ≡ some (false, l')) × IsLost l'
  unfolding try_reconnect reconnect_with close_socket set_state IsLost
  try_reconnect-IsLost n l shut = (
    (close_socket h l).1,
    rw (laws.close_closed l.fd l.net shut) refl,
    (laws.closes l.fd l.net, refl),
  )

  retry-IsLost :
      (n k : ℕ) (l : Link S)
      → IsLost l
      → (l' : Link S) × (retry h (suc n) k l ≡ some (false, l')) × IsLost l'
  unfolding retry IsLost
  retry-IsLost n zero l lost = (l, refl, lost)
  retry-IsLost n (suc k) l lost =
      let (l₁, e, lost₁) = try_reconnect-IsLost n l lost.0 in
      let (l', rest, lost') = retry-IsLost n k l₁ lost₁ in (l', rw e rest, lost')

  -- A reconnection that closes its socket and finds no network.
  try_reconnect-down :
      (n : ℕ) (l : Link S)
      → (h.close l.fd l.net).0 ≡ true
      → (h.is_available (h.close l.fd l.net).1).0 ≡ false
      → (l' : Link S) × (try_reconnect h (suc n) l ≡ some (false, l')) × IsLost l'
  unfolding try_reconnect reconnect_with close_socket init_with open_socket unavailable_at set_state
      note_errno IsLost
  try_reconnect-down n l closes down = (
    (unavailable_at h
        (record (close_socket h l).1 { net = (h.is_available (h.close l.fd l.net).1).1 })).1,
    rw (closes, down) refl,
    (laws.available_keeps l.fd (h.close l.fd l.net).1 (laws.closes l.fd l.net), refl),
  )

  -- Where `Close` fails on a closed socket: once a reconnection closed its socket and found no network,
  -- no number of later attempts connects again, whatever the network has become by then.
  pub retry-stuck :
      (n k : ℕ) (l : Link S)
      → (h.close l.fd l.net).0 ≡ true
      → (h.is_available (h.close l.fd l.net).1).0 ≡ false
      → (l' : Link S) × (retry h (suc n) (suc k) l ≡ some (false, l'))
        × (is_connected l'.log_state ≡ false)
  unfolding retry IsLost
  retry-stuck n k l closes down =
      let (l₁, e, lost₁) = try_reconnect-down n l closes down in
      let (l', rest, lost') = retry-IsLost n k l₁ lost₁ in (l', rw e rest, lost'.1)

module _ {S : Type 0} (h : Host S) where
  -- A success leaves the link connected.
  abbrev Good : Bool × Link S → Type 0
  Good r = r.0 ≡ true → r.1.log_state ≡ connected

  unavailable_at-Good : (l : Link S) → Good (unavailable_at h l)
  unfolding unavailable_at
  unavailable_at-Good l = λ e. cc

  connect_by-Good : (r : Option ℕ × S) (l : Link S) → Good (connect_by h r l)
  unfolding connect_by connect_to set_state
  connect_by-Good (none, w) l = unavailable_at-Good _
  connect_by-Good (some a, w) l =
      if_intro Good ((h.connect l.fd a l.port w).0) (λ _. refl) (unavailable_at-Good _)

  make_socket-Good : (r : ℤ × S) (l : Link S) → Good (make_socket h r l)
  unfolding make_socket
  make_socket-Good (fd, w) l =
      if_intro Good (is_neg fd) (unavailable_at-Good _)
        (connect_by-Good (string_to_ip_address h l.ip w) _)

  open_socket-Good : (l : Link S) → Good (open_socket h l)
  unfolding open_socket
  open_socket-Good l =
      if_intro Good ((h.is_available l.net).0) (make_socket-Good _ _) (unavailable_at-Good _)

  -- A send that fails where the network is gone.
  send_with-fails :
      (n : ℕ) (p : Packet) (l : Link S)
      → l.log_state ≡ connected
      → ((fd : ℤ) (bytes : Str) (w : S) → ltb_ℤ (pos 0) ((h.send fd bytes w).0) ≡ false)
      → ((fd : ℤ) (w : S) → (h.close fd w).0 ≡ true)
      → ((fd : ℤ) (w : S) → (h.is_available (h.close fd w).1).0 ≡ false)
      → (l' : Link S) × (send_with h (try_reconnect h (suc n)) p l ≡ some (false, l'))
        × (l'.log_state ≡ unavailable)
  unfolding send_with send_bytes try_reconnect reconnect_with close_socket init_with open_socket
      unavailable_at set_state note_errno
  send_with-fails n p l e fails closes down =
      let state : is_connected l.log_state ≡ true = ap is_connected e in
      let sent : ℤ × S = h.send l.fd (header_of (length (h.json p))) l.net in
      let closed : Link S = (close_socket h (note_errno h (record l { net = sent.1 }))).1 in
      (
        (unavailable_at h (record closed { net = (h.is_available (h.close l.fd sent.1).1).1 })).1,
        rw
            (
              state,
              fails l.fd (header_of (length (h.json p))) l.net,
              closes l.fd sent.1,
              down l.fd sent.1,
            )
            refl,
        refl,
      )

  -- Where the connection is made, but no `Send` takes anything and the network is gone once the socket
  -- is closed, `init` reports success and leaves the socket unavailable.
  pub init_socket-misleads :
      (n : ℕ) (ip : Str) (port : ℕ) (l : Link S)
      → (open_socket h (record l { ip = ip; port = port })).0 ≡ true
      → ((fd : ℤ) (bytes : Str) (w : S) → ltb_ℤ (pos 0) ((h.send fd bytes w).0) ≡ false)
      → ((fd : ℤ) (w : S) → (h.close fd w).0 ≡ true)
      → ((fd : ℤ) (w : S) → (h.is_available (h.close fd w).1).0 ≡ false)
      → (l' : Link S) × (init_socket h (suc n) ip port l ≡ some (true, l'))
        × (l'.log_state ≡ unavailable)
  unfolding init_socket init_with greet
  init_socket-misleads n ip port l ok fails closes down =
      let asked : Link S = record l { ip = ip; port = port } in
      let l' : Link S = (start_threads h (open_socket h asked).1).1 in
      let state : l'.log_state ≡ connected =
        (start_threads-keeps h (open_socket h asked).1).0 ∙ open_socket-Good asked ok in
      let started : Link S = record l' {
        is_first_connect = false;
        outbox = record l'.outbox { made = l'.outbox.made + 1 };
      } in
      let (base, e, off) = send_with-fails n (hello h l') started state fails closes down in
      (
        if l'.is_first_connect
            then base
            else record base { outbox = resend_init_packets h.equals base.outbox },
        rw (ok, e) refl,
        if_intro (λ (x : Link S). x.log_state ≡ unavailable) l'.is_first_connect off off,
      )
