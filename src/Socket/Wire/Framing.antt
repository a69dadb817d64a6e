-- ===== src/Socket/Wire/Framing.antt =====
-- What `recv` makes of a frame, however the network cuts it into pieces.
use mathlib.Core.List.{append_assoc}
use smoo_bazel.Base.{
  ℕ, zero, suc, ◌+◌, ◌-◌, ◌*◌, ◌/◌, ◌%◌, ◌^◌, ◌≤◌, ◌<◌, ◌≡◌, refl, sym, ap, ◌∙◌, subst, true, false,
  Option, some, [], ◌∷◌, ◌++◌, arith, ltb, ◌==◌, if◌then◌else◌, lt→ltb, le→ltb, ◌>>=◌, length, drop,
  length-append, take-append, drop-append, length-drop, append-split, Str, ℤ, pos, negsuc,
}
use smoo_bazel.Packets.{int_of_u32}
use smoo_bazel.Socket.Wire.{
  got, failed, filled, stopped, header_of, size_of, write_at, returns, reconnects, push, fill,
  receive, read_body, after_header, recv_packet, Reply, Net, Filled, Receiver,
}

-- A blocking stream, with the bytes that are still to arrive: where some are, `Recv` returns at least
-- one and at most as many as it was asked for, the next ones.
pub record Streams {ℓ} {S : Type ℓ} (net : Net S) (pending : S → Str) : Type ℓ where
  pub arrives :
      (n : ℕ) (s : S)
      → 0 < n
      → 0 < length (pending s)
      → (bs : Str) × (s' : S) × (net.recv n s ≡ (got bs, s'))
        × (0 < length bs)
        × (length bs ≤ n)
        × (pending s ≡ bs ++ pending s')

-- Writing behind a first part of the buffer.
write_at-append :
    (front back bs : Str)
    → write_at (length front) bs (front ++ back) ≡ front ++ bs ++ drop (length bs) back
unfolding write_at
write_at-append front back bs =
    ap (λ x. x ++ bs ++ drop (length front + length bs) (front ++ back)) (take-append front back)
    ∙ ap (λ x. front ++ bs ++ x) (drop-append front back (length bs))

module _ {ℓ} {S : Type ℓ} (net : Net S) where
  fill-full :
      (fuel size v : ℕ) (buf : Str) (s : S)
      → ltb v size ≡ false
      → fill net fuel size v buf s ≡ some (filled v buf s)
  unfolding fill
  fill-full zero size v buf s h = rw h refl
  fill-full (suc n) size v buf s h = rw h refl

  fill-got :
      (fuel size v : ℕ) (buf bs : Str) (s s' : S)
      → ltb v size ≡ true
      → 0 < length bs
      → net.recv (size - v) s ≡ (got bs, s')
      → fill net (suc fuel) size v buf s ≡ fill net fuel size (v + length bs) (write_at v bs buf) s'
  unfolding fill
  fill-got fuel size v buf bs s s' h some_bytes r = rw h (
      ap next r
      ∙ ap (λ b. if b then some (stopped (net.errno s') s') else more)
          (positive (length bs) some_bytes))
    where
      more : Option (Filled S)
      more = fill net fuel size (v + length bs) (write_at v bs buf) s'

      positive : (n : ℕ) → 0 < n → (n == 0) ≡ false
      positive n h = ground arith

      next : Reply × S → Option (Filled S)
      next q = elim q.0 [
        | got bs ↦
            let rest = fill net fuel size (v + length bs) (write_at v bs buf) q.1 in
            if length bs == 0 then some (stopped (net.errno q.1) q.1) else rest
        | failed e ↦ some (stopped e q.1)
      ]

  -- A piece that was read goes behind the first part of the buffer.
  fill-piece :
      (fuel size v : ℕ) (front back bs zs : Str) (s s' s2 : S)
      → v ≡ length front
      → ltb v size ≡ true
      → 0 < length bs
      → net.recv (size - v) s ≡ (got bs, s')
      → fill net fuel size (v + length bs) (front ++ bs ++ drop (length bs) back) s'
        ≡ some (filled size (front ++ bs ++ zs) s2)
      → fill net (suc fuel) size v (front ++ back) s ≡ some (filled size (front ++ (bs ++ zs)) s2)
  fill-piece fuel size v front back bs zs s s' s2 at_v h some_bytes r e =
      fill-got fuel size v (front ++ back) bs s s' h some_bytes r
      ∙ ap (λ x. fill net fuel size (v + length bs) x s')
          (ap (λ k. write_at k bs (front ++ back)) at_v ∙ write_at-append front back bs)
      ∙ e
      ∙ ap (λ x. some (filled size x s2)) (append_assoc front bs zs)

module _ {ℓ} {S : Type ℓ} (net : Net S) (pending : S → Str) (law : Streams net pending) where
  -- The loop writes the next bytes behind those that are there, whatever the network's pieces.
  pub fill-stream :
      (fuel size v : ℕ) (front back want rest : Str) (s : S)
      → v ≡ length front
      → size ≡ v + length want
      → length back ≡ length want
      → length want ≤ fuel
      → pending s ≡ want ++ rest
      → (s' : S) × (fill net fuel size v (front ++ back) s ≡ some (filled size (front ++ want) s'))
        × (pending s' ≡ rest)
  fill-stream fuel size v front [] [] rest s at_v at_size same le e =
      let all : v ≡ size = omega arith in
      (
        s,
        fill-full net fuel size v (front ++ []) s (le→ltb v size (omega arith))
            ∙ ap (λ n. some (filled n (front ++ []) s)) all,
        e,
      )
  fill-stream fuel size v front (b ∷ back) [] rest s at_v at_size same le e = absurd (omega arith)
  fill-stream zero size v front back (w ∷ want) rest s at_v at_size same le e = elim le [ ]
  fill-stream (suc fuel) size v front back (w ∷ want) rest s at_v at_size same le e =
      let n_pending : length (pending s) ≡ length ((w ∷ want) ++ rest) = ap length e in
      let (bs, s', r, some_bytes, few, split) =
        law.arrives (size - v) s (omega arith) (omega (arith, length-append (w ∷ want) rest)) in
      let (zs, e1, e2) = append-split bs (w ∷ want) (sym e ∙ split) (omega arith) in
      let n_want : length (w ∷ want) ≡ length bs + length zs = ap length e1 ∙ length-append bs zs in
      let (s2, e3, e4) =
        fill-stream fuel size (v + length bs) (front ++ bs) (drop (length bs) back) zs rest s'
          (omega (arith, length-append front bs)) (omega arith)
          (omega (arith, length-drop (length bs) back)) (omega arith) (sym e2) in
      (
        s2,
        subst
            (λ x. fill net (suc fuel) size v (front ++ back) s ≡ some (filled size (front ++ x) s2))
            (sym e1)
            (fill-piece net fuel size v front back bs zs s s' s2 at_v (lt→ltb v size (omega arith))
              some_bytes r e3),
        e4,
      )

pub length-header_of : (n : ℕ) → 0 < length (header_of n)
unfolding header_of
length-header_of n = omega arith

-- A size that fits an `int32_t` is read by `recv` as itself from the four bytes that `send` writes.
pub size_of-header_of : (n : ℕ) → n < 2 ^ 31 → size_of (header_of n) ≡ pos n
unfolding size_of header_of
size_of-header_of n h =
    let bytes : n % 256
          + 256 * (n / 256 % 256 + 256 * (n / 65536 % 256 + 256 * (n / 16777216 % 256 + 256 * 0)))
        ≡ n =
      omega arith in
    ap (λ k. int_of_u32 (k % 2 ^ 32)) bytes ∙ small
  where
    same : n % 2 ^ 32 ≡ n
    same = omega arith

    small : int_of_u32 (n % 2 ^ 32) ≡ pos n
    small =
        ap int_of_u32 same
        ∙ ap (λ b. if b then pos n else negsuc (2 ^ 32 - 1 - n)) (lt→ltb n (2 ^ 31) h)

module _ {ℓ} {S : Type ℓ} (net : Net S) (pending : S → Str) (law : Streams net pending)
    (alloc : ℤ → Option Str) where
  recv_packet-filled :
      (r : Receiver S) (n : ℕ) (header buf text : Str) (s1 s2 : S)
      → r.connected ≡ true
      → fill net 4 4 0 (0 ∷ 0 ∷ 0 ∷ 0 ∷ []) r.stream ≡ some (filled 4 header s1)
      → size_of header ≡ pos n
      → alloc (pos n) ≡ some buf
      → fill net n n 4 buf s1 ≡ some (filled n text s2)
      → recv_packet net alloc true r ≡ some (returns true, push text (record r { stream = s2 }))
  unfolding recv_packet after_header read_body receive
  recv_packet-filled r n header buf text s1 s2 on e1 decoded memory e2 =
      ap
        (λ b.
          if b
          then (fill net 4 4 0 (0 ∷ 0 ∷ 0 ∷ 0 ∷ []) r.stream >>= after_header net alloc true r)
          else some (reconnects, r))
        on
      ∙ ap (λ m. m >>= after_header net alloc true r) e1
      ∙ ap (λ k. read_body net alloc true k 4 s1 r) decoded
      ∙ rw (read_body, memory, e2) refl

  -- A frame is the four bytes of its size, which counts these four bytes, and a body. On a connected
  -- socket `recv` takes exactly the frame from the stream, in whatever pieces it arrives, and queues the
  -- body behind four bytes that the fresh memory happens to hold.
  pub recv_packet-reads :
      (r : Receiver S) (n : ℕ) (garbage back body rest : Str)
      → r.connected ≡ true
      → n < 2 ^ 31
      → n ≡ 4 + length body
      → alloc (pos n) ≡ some (garbage ++ back)
      → length garbage ≡ 4
      → length back ≡ length body
      → pending r.stream ≡ header_of n ++ (body ++ rest)
      → (s' : S) × (recv_packet net alloc true r
          ≡ some (returns true, push (garbage ++ body) (record r { stream = s' })))
        × (pending s' ≡ rest)
  unfolding header_of
  recv_packet-reads r n garbage back body rest on small size memory four fits e =
      let (s1, e1, left) =
        fill-stream net pending law 4 4 0 [] (0 ∷ 0 ∷ 0 ∷ 0 ∷ []) (header_of n) (body ++ rest)
          r.stream refl (header-length n) (header-length n) (omega (arith, header-length n)) e in
      let (s2, e2, left') =
        fill-stream net pending law n n 4 garbage back body rest s1 (omega arith) (omega arith) fits
          (omega arith) left in
      (
        s2,
        recv_packet-filled r n (header_of n) (garbage ++ back) (garbage ++ body) s1 s2 on e1
            (size_of-header_of n small) memory e2,
        left',
      )
    where
      header-length : (n : ℕ) → 4 ≡ length (header_of n)
      header-length n = refl
