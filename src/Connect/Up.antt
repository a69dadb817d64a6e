-- ===== src/Connect/Up.antt =====
-- That the socket connects once the network is up.
use smoo_bazel.Base.{
  ℕ, ◌+◌, ◌≡◌, refl, ap, ◌∙◌, Bool, true, false, ◌&&◌, Option, some, if◌then◌else◌, if_intro,
  length, Str, is_neg, ltb_ℤ, ℤ, pos,
}
use smoo_bazel.Packets.{Packet}
use smoo_bazel.Socket.{resend_init_packets}
use smoo_bazel.Socket.Wire.{header_of}
use smoo_bazel.Connect.{
  is_connected, set_state, string_to_ip_address, connect_to, connect_by, make_socket, open_socket,
  start_threads, hello, send_bytes, send_with, greet, init_with, try_reconnect, init_socket,
  connected, Host, Link,
}

-- Every call of the network succeeds.
pub record IsUp {S : Type 0} (h : Host S) : Type 0 where
  pub available : (w : S) → (h.is_available w).0 ≡ true
  pub opens : (w : S) → is_neg ((h.socket w).0) ≡ false
  pub connects : (fd : ℤ) (a port : ℕ) (w : S) → (h.connect fd a port w).0 ≡ true
  pub sends : (fd : ℤ) (bytes : Str) (w : S) → ltb_ℤ (pos 0) ((h.send fd bytes w).0) ≡ true

module _ {S : Type 0} (h : Host S) where
  pub start_threads-keeps :
      (l : Link S)
      → ((start_threads h l).1.log_state ≡ l.log_state) × ((start_threads h l).1.ip ≡ l.ip)
  unfolding start_threads
  start_threads-keeps l =
      if_intro (λ (r : Bool × Link S). (r.1.log_state ≡ l.log_state) × (r.1.ip ≡ l.ip))
        (l.recv_done && l.send_done) (refl, refl) (refl, refl)

module _ {S : Type 0} (h : Host S) (up : IsUp h) where
  string_to_ip_address-literal :
      (a : ℕ) (s : Str) (w : S) → h.inet_aton s ≡ some a → string_to_ip_address h s w ≡ (some a, w)
  unfolding string_to_ip_address
  string_to_ip_address-literal a s w e = rw (e, string_to_ip_address) refl

  open_socket-up :
      (a : ℕ) (l : Link S)
      → h.inet_aton l.ip ≡ some a
      → ((open_socket h l).0 ≡ true) × ((open_socket h l).1.log_state ≡ connected)
  unfolding open_socket make_socket connect_by connect_to set_state
  open_socket-up a l known =
      let w : S = (h.is_available l.net).1 in
      let w' : S = (h.socket w).1 in
      rw
        (
          up.available l.net,
          up.opens w,
          string_to_ip_address-literal a l.ip w' known,
          up.connects (h.socket w).0 a l.port w',
        )
        (refl, refl)

  send_bytes-up :
      (again : Link S → Option (Bool × Link S)) (bytes : Str) (l : Link S)
      → (w : S) × (send_bytes h again bytes l ≡ some (true, record l { net = w }))
  unfolding send_bytes
  send_bytes-up again bytes l = ((h.send l.fd bytes l.net).1, rw (up.sends l.fd bytes l.net) refl)

  send_with-up :
      (again : Link S → Option (Bool × Link S)) (p : Packet) (l : Link S)
      → l.log_state ≡ connected
      → (w : S) × (send_with h again p l ≡ some (true, record l { net = w }))
  unfolding send_with
  send_with-up again p l e =
      let (w, e₁) = send_bytes-up again (header_of (length (h.json p))) l in
      let (w', e₂) = send_bytes-up again (h.json p) (record l { net = w }) in
      let state : is_connected l.log_state ≡ true = ap is_connected e in
      (w', rw (state, e₁, e₂) refl)

  -- Where the link is connected, a greeting goes through and leaves it so.
  greet-up :
      (again : Link S → Option (Bool × Link S)) (l : Link S)
      → l.log_state ≡ connected
      → (l' : Link S) × (greet h again l ≡ some (true, l'))
        × (l'.log_state ≡ connected)
        × (l'.is_first_connect ≡ false)
  unfolding greet
  greet-up again l e =
      let l' : Link S = (start_threads h l).1 in
      let state : l'.log_state ≡ connected = (start_threads-keeps h l).0 ∙ e in
      let started : Link S = record l' {
        is_first_connect = false;
        outbox = record l'.outbox { made = l'.outbox.made + 1 };
      } in
      let (w, sent) = send_with-up again (hello h l') started state in
      let base : Link S = record started { net = w } in
      (
        if l'.is_first_connect
            then base
            else record base { outbox = resend_init_packets h.equals base.outbox },
        rw sent refl,
        if_intro (λ (x : Link S). x.log_state ≡ connected) l'.is_first_connect state state,
        if_intro (λ (x : Link S). x.is_first_connect ≡ false) l'.is_first_connect refl refl,
      )

  -- While every call of the network succeeds and the address is an IPv4 address, `init` connects from
  -- any state without a further reconnection, and later connections count as reconnections.
  pub init_socket-connects :
      (n : ℕ) (ip : Str) (port a : ℕ) (l : Link S)
      → h.inet_aton ip ≡ some a
      → (l' : Link S) × (init_socket h n ip port l ≡ some (true, l'))
        × (l'.log_state ≡ connected)
        × (l'.is_first_connect ≡ false)
  unfolding init_socket init_with
  init_socket-connects n ip port a l known =
      let asked : Link S = record l { ip = ip; port = port } in
      let (ok, state) = open_socket-up a asked known in
      let (l', e, r, first) = greet-up (try_reconnect h n) (open_socket h asked).1 state in
      (l', rw ok e, r, first)
