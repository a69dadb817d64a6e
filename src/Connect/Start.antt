-- ===== src/Connect/Start.antt =====
-- Opening the connection, in mod/src/server/Client.cpp: `startConnection` with the two keyboards, and
-- `restartConnection`.
pub mod Asked
pub mod Restarted
mod Tests
use smoo_bazel.Base.{
  ℕ, zero, suc, ◌+◌, ◌-◌, ◌*◌, ◌%◌, Bool, true, false, not, ◌&&◌, ◌||◌, Option, none, some, List,
  [], ◌∷◌, leb, ◌==◌, if◌then◌else◌, ◌>>=◌, take, Str, codes, str_eq, c_str, eq_ℤ, ℤ, pos, negsuc,
}
use smoo_bazel.Packets.{init, player_dc, system, Packet}
use smoo_bazel.Client.State.{Client}
use smoo_bazel.Client.Dispatch.{set_max_players}
use smoo_bazel.Socket.{queue_new}
use smoo_bazel.Socket.Cap.{is_empty}
use smoo_bazel.Connect.{close_socket, init_socket, Host, Link}

-- The parts of the client that open the connection.
pub record Starter (S : Type 0) : Type 0 where
  pub client : Client
  pub is_connection_active : Bool
  pub server_ip : Str
  pub server_port : ℤ
  pub link : Link S
  -- The calls of `startSaveDataWrite`.
  pub saves : ℕ

-- `MAX_HOSTNAME_LENGTH`
abbrev pub max_hostname_length : ℕ
max_hostname_length = 50

-- The C library's `atoi`, for a text of at most a sign and digits.
digits_from : ℕ → Str → ℕ
digits_from acc [] = acc
digits_from acc (c ∷ cs) =
    let rest = digits_from (acc * 10 + (c - 48)) cs in if leb 48 c && leb c 57 then rest else acc

pub atoi : Str → ℤ
unfolding digits_from
atoi [] = pos 0
atoi (c ∷ cs) = if c == 45 then negate (digits_from 0 cs) else pos (digits_from 0 (c ∷ cs))
  where
    negate : ℕ → ℤ
    negate zero = pos 0
    negate (suc n) = negsuc n

-- An `int` as the `u16` argument of `init`.
pub u16_of : ℤ → ℕ
u16_of (pos n) = n % 65536
u16_of (negsuc n) = 65535 - n % 65536

-- The loop that waits for the first `Init`: what `tryGetPacket` returns, one call after the other,
-- where `none` is a null pointer. `none` as a result: the loop still waits.
pub wait_for_init : List (Option Packet) → Client → Option (Bool × Client)
wait_for_init [] c = none
wait_for_init (none ∷ ps) c = some (false, c)
wait_for_init (some p ∷ ps) c =
    let rest = wait_for_init ps c in
    elim p.body [ system (init n) ↦ some (true, set_max_players n c) | _ ↦ rest ]

module _ {S : Type 0} where
  set_first : Bool → Starter S → Starter S
  set_first b s = record s { link = record s.link { is_first_connect = b } }

  -- `openKeyboardIP`: what was typed, or `none` if the keyboard was cancelled.
  pub open_keyboard_ip : Option Str → Starter S → Bool × Starter S
  open_keyboard_ip typed s =
      let ip : Str = elim typed [
        | none ↦ s.server_ip
        | some t ↦ take max_hostname_length (c_str t)
      ] in
      let changed = not (str_eq s.server_ip ip) in
      (changed, set_first changed (record s { server_ip = ip }))

  -- `openKeyboardPort`
  pub open_keyboard_port : Option Str → Starter S → Bool × Starter S
  open_keyboard_port typed s =
      let port : ℤ = elim typed [ none ↦ s.server_port | some t ↦ atoi t ] in
      let changed = not (eq_ℤ s.server_port port) in
      (changed, set_first changed (record s { server_port = port }))

  -- The two questions of `startConnection`, with whether ZL is held.
  pub ask_ip : Bool → Option Str → Starter S → Bool × Starter S
  ask_ip override typed s =
      if is_empty s.server_ip || override
      then (true, (open_keyboard_ip typed (record s { server_ip = codes "127.0.0.1" })).1)
      else (false, s)

  pub ask_port : Bool → Option Str → Starter S → Bool × Starter S
  ask_port override typed s =
      if eq_ℤ s.server_port (pos 0) || override
      then (true, (open_keyboard_port typed (record s { server_port = pos 1027 })).1)
      else (false, s)

  -- `startConnection` up to `init`.
  pub ask : Bool → Option Str → Option Str → Starter S → Starter S
  ask override typed_ip typed_port s =
      let (save_ip, s₁) = ask_ip override typed_ip s in
      let (save_port, s₂) = ask_port override typed_port s₁ in
      if save_ip || save_port then record s₂ { saves = s₂.saves + 1 } else s₂

  -- The packet that `restartConnection` queues.
  pub goodbye : Starter S → Packet
  goodbye s = record { user_id = s.link.outbox.user_id; body = system player_dc }

  module _ (h : Host S) (fuel : ℕ) where
    -- `startConnection`
    pub start_connection :
        Bool
        → Option Str
        → Option Str
        → List (Option Packet)
        → Starter S
        → Option (Bool × Starter S)
    start_connection override typed_ip typed_port received s =
        let asked = ask override typed_ip typed_port s in
        init_socket h fuel asked.server_ip (u16_of asked.server_port) asked.link >>= λ r.
        if r.0
        then (wait_for_init received asked.client >>= λ w.
            some (w.0, record asked { link = r.1; client = w.1; is_connection_active = w.0 }))
        else some (false, record asked { link = r.1; is_connection_active = false })

    -- `restartConnection`
    pub restart_connection : Starter S → Option (Starter S)
    restart_connection s =
        let queued = record s.link { outbox = queue_new (goodbye s) s.link.outbox } in
        let c = record s.client { connect_count = pos 0 } in
        init_socket h fuel s.server_ip (u16_of s.server_port) (close_socket h queued).1 >>= λ r.
        some (record s { client = c; link = r.1; is_connection_active = r.0 })
