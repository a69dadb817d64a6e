-- ===== src/Socket/Wire/Tests.antt =====
-- A stream that arrives one byte at a time, and the theorems there.
use smoo_bazel.Base.{
  ℕ, ◌≤◌, ◌<◌, ◌≡◌, refl, true, Option, none, some, [], ◌∷◌, ◌++◌, arith, length, replicate, Str, ℤ,
  pos, negsuc,
}
use smoo_bazel.Socket.Wire.{
  got, failed, header_of, size_of, returns, push, read_body, recv_packet, send_data, send_packet,
  Reply, Net, Receiver,
}
use smoo_bazel.Socket.Wire.Loses.{recv_packet-loses, Carries}
use smoo_bazel.Socket.Wire.Framing.{recv_packet-reads, Streams}

take_one : Str → Reply × Str
take_one [] = (failed 0, [])
take_one (b ∷ bs) = (got (b ∷ []), bs)

-- One byte for each call of `Recv`; a `Send` takes one byte.
abbrev drip : Net Str
drip = record { recv = λ n s. take_one s; send = λ bytes s. (pos 1, s); errno = λ s. 0 }

drip-Streams : Streams drip (λ s. s)
unfolding take_one
drip-Streams = record { arrives = one }
  where
    one :
        (n : ℕ) (s : Str)
        → 0 < n
        → 0 < length s
        → (bs : Str) × (s' : Str) × (take_one s ≡ (got bs, s'))
          × (0 < length bs)
          × (length bs ≤ n)
          × (s ≡ bs ++ s')
    one n [] some_room some_bytes = elim some_bytes [ ]
    one n (b ∷ bs) some_room some_bytes = (b ∷ [], bs, refl, omega arith, omega arith, refl)

-- Memory full of sevens.
sevens : ℤ → Option Str
sevens (pos n) = some (replicate n 7)
sevens (negsuc n) = none

abbrev receiver : Str → Receiver Str
receiver s = record { connected = true; stream = s; recv_queue = [] }

recv_packet-reads_example :
    (s' : Str) × (recv_packet drip sevens true (receiver (6 ∷ 0 ∷ 0 ∷ 0 ∷ 1 ∷ 2 ∷ 3 ∷ []))
      ≡ some (
        returns true,
        push
            (7 ∷ 7 ∷ 7 ∷ 7 ∷ 1 ∷ 2 ∷ [])
            (record (receiver (6 ∷ 0 ∷ 0 ∷ 0 ∷ 1 ∷ 2 ∷ 3 ∷ [])) { stream = s' }),
      ))
    × (s' ≡ 3 ∷ [])
unfolding header_of sevens
recv_packet-reads_example =
    recv_packet-reads drip (λ s. s) drip-Streams sevens (receiver (6 ∷ 0 ∷ 0 ∷ 0 ∷ 1 ∷ 2 ∷ 3 ∷ []))
      6 (7 ∷ 7 ∷ 7 ∷ 7 ∷ []) (7 ∷ 7 ∷ []) (1 ∷ 2 ∷ []) (3 ∷ []) refl (omega arith) refl refl refl
      refl refl

-- The same with a `Send` that takes all, to its own end.
abbrev loop : Net Str
loop = record {
  recv = λ n s. take_one s;
  send = λ bytes s. (pos (length bytes), s ++ bytes);
  errno = λ s. 0;
}

loop-Streams : Streams loop (λ s. s)
loop-Streams = record { arrives = drip-Streams.arrives }

loop-Carries : Carries loop (λ s. s)
loop-Carries = record { takes = λ bs s. (s ++ bs, refl, refl) }

recv_packet-loses_example :
    let queued : Str → Receiver Str =
      λ s. push (7 ∷ 7 ∷ 7 ∷ 7 ∷ 1 ∷ []) (record (receiver []) { stream = s }) in
    (s1 : Str) × (s2 : Str) × (s3 : Str) × (send_packet loop true (1 ∷ 2 ∷ 3 ∷ 4 ∷ 5 ∷ []) []
      ≡ (true, s1))
    × (recv_packet loop sevens true (record (receiver []) { stream = s1 })
        ≡ some (returns true, queued s2))
    × (recv_packet loop sevens true (queued s2)
        ≡ read_body loop sevens true (size_of (2 ∷ 3 ∷ 4 ∷ 5 ∷ [])) 4 s3 (queued s2))
    × (s3 ≡ [])
unfolding sevens
recv_packet-loses_example =
    recv_packet-loses loop (λ s. s) loop-Streams loop-Carries sevens (receiver []) (1 ∷ [])
      (2 ∷ 3 ∷ 4 ∷ 5 ∷ []) (7 ∷ 7 ∷ 7 ∷ 7 ∷ []) (7 ∷ []) refl refl (omega arith) refl refl refl refl

-- Of a text of two bytes the network takes one, and `send` returns true.
send_packet-partial : (send_packet drip true (1 ∷ 2 ∷ []) []).0 ≡ true
unfolding send_packet send_data
send_packet-partial = refl
