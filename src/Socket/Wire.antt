-- ===== src/Socket/Wire.antt =====
-- How a packet is written to the connection and read from it: `send` and `recv` of
-- mod/src/server/SocketClient.cpp. The calls of `nn::socket` are a parameter, and the packet is its JSON
-- text, since the JSON is the protobuf library's. Where the code goes on with `tryReconnect`, the
-- functions here say so.
pub mod Framing
pub mod Loses
mod Tests
use smoo_bazel.Base.{
  ℕ, zero, suc, ◌+◌, ◌-◌, ◌*◌, ◌/◌, ◌%◌, ◌^◌, Bool, true, false, Option, none, some, List, [], ◌∷◌,
  ◌++◌, ltb, ◌==◌, if◌then◌else◌, ◌>>=◌, length, take, drop, Str, ltb_ℤ, ℤ, pos, negsuc,
}
use smoo_bazel.Packets.{int_of_u32}

-- What a call of `Recv` comes to: some bytes, or no bytes and an `errno`.
pub data Reply : Type 0 where
  got : Str → Reply
  failed : ℕ → Reply

-- The connection: `nn::socket::Recv` with the number of bytes asked for, and `nn::socket::Send`,
-- which returns the number of bytes that it took.
pub record Net {ℓ} (S : Type ℓ) : Type ℓ where
  pub recv : ℕ → S → Reply × S
  pub send : Str → S → ℤ × S
  -- `nn::socket::GetLastErrno`, where a call of `Recv` returned 0
  pub errno : S → ℕ

-- The state of a loop that fills a buffer: all was read, or a call failed.
pub data Filled {ℓ} (S : Type ℓ) : Type ℓ where
  filled : ℕ → Str → S → Filled S
  stopped : ℕ → S → Filled S

-- `int32_t` as its four bytes, the lowest first, and back.
pub header_of : ℕ → Str
header_of n = n % 256 ∷ n / 256 % 256 ∷ n / 65536 % 256 ∷ n / 16777216 % 256 ∷ []

pub size_of : Str → ℤ
size_of bytes = int_of_u32 (value bytes % 2 ^ 32)
  where
    value : Str → ℕ
    value [] = 0
    value (b ∷ bs) = b + 256 * value bs

-- The bytes `bs` written over the buffer from `v` on.
pub write_at : ℕ → Str → Str → Str
write_at v bs buf = take v buf ++ bs ++ drop (v + length bs) buf

abbrev pub header_size : ℕ
header_size = 4

-- `EAGAIN`
abbrev again : ℕ
again = 11

-- What `recv` comes to: it returns true or false, or what `tryReconnect` returns.
pub data RecvEnd : Type 0 where
  returns : Bool → RecvEnd
  reconnects : RecvEnd

-- What the receiving side reads and writes.
pub record Receiver {ℓ} (S : Type ℓ) : Type ℓ where
  pub connected : Bool
  pub stream : S
  -- The texts of the packets in `mRecvQueue`.
  pub recv_queue : List Str

-- `maxBufSize`
abbrev pub recv_queue_size : ℕ
recv_queue_size = 100

-- `mRecvQueue.push`, unless the queue is full.
pub push {ℓ} : {S : Type ℓ} → Str → Receiver S → Receiver S
push text r =
    if ltb (length r.recv_queue) recv_queue_size
    then record r { recv_queue = r.recv_queue ++ (text ∷ []) }
    else r

module _ {ℓ} {S : Type ℓ} (net : Net S) where
  -- The loop `while (valread < size)`, on fuel: `none` is out of fuel.
  pub fill : (n size valread : ℕ) → Str → S → Option (Filled S)
  fill zero size valread buf s = if ltb valread size then none else some (filled valread buf s)
  fill (suc n) size valread buf s =
      let (reply, s') = net.recv (size - valread) s in
      let next : Option (Filled S) = elim reply [
        | got bs ↦
            let rest = fill n size (valread + length bs) (write_at valread bs buf) s' in
            if length bs == 0 then some (stopped (net.errno s') s') else rest
        | failed e ↦ some (stopped e s')
      ] in
      if ltb valread size then next else some (filled valread buf s)

  -- `mHeap->alloc`: the bytes that the memory holds, and whether there is memory for a packet.
  module _ (alloc : ℤ → Option Str) (has_packet : Bool) where
    -- From the text of the packet on.
    receive : Filled S → Receiver S → RecvEnd × Receiver S
    receive (filled _ text s) r =
        if has_packet
        then (returns true, push text (record r { stream = s }))
        else (returns false, record r { stream = s })
    receive (stopped e s) r = (reconnects, record r { stream = s })

    -- From the allocation on. A negative size is no size of a string.
    pub read_body : ℤ → ℕ → S → Receiver S → Option (RecvEnd × Receiver S)
    read_body size valread s r = elim (alloc size) [
      | none ↦ some (returns true, record r { stream = s })
      | some buf ↦ elim size [
        | negsuc _ ↦ none
        | pos n ↦ fill n n valread buf s >>= λ done. some (receive done r)
      ]
    ]

    after_header : Receiver S → Filled S → Option (RecvEnd × Receiver S)
    after_header r (filled v header s) = read_body (size_of header) v s r
    after_header r (stopped e s) =
        some (if e == again then returns true else reconnects, record r { stream = s })

    -- `recv`
    pub recv_packet : Receiver S → Option (RecvEnd × Receiver S)
    recv_packet r =
        if r.connected
        then fill header_size header_size 0 (0 ∷ 0 ∷ 0 ∷ 0 ∷ []) r.stream >>= after_header r
        else some (reconnects, r)

  -- The lambda `sendData`: did `Send` take anything?
  pub send_data : Str → S → Bool × S
  send_data bytes s = let (taken, s') = net.send bytes s in (ltb_ℤ (pos 0) taken, s')

  -- `send`, with whether the socket is connected; after a failed `Send` `tryReconnect` is called.
  pub send_packet : Bool → Str → S → Bool × S
  send_packet connected text s =
      if connected then send_parts text (send_data (header_of (length text)) s) else (false, s)
    where
      send_parts : Str → Bool × S → Bool × S
      send_parts text (true, s') = send_data text s'
      send_parts text (false, s') = (false, s')
