-- ===== src/Socket/Wire/Loses.antt =====
-- What `recv` makes of what `send` writes.
use mathlib.Core.List.{append_assoc, append-nil}
use smoo_bazel.Base.{
  ℕ, ◌^◌, ◌<◌, ◌≡◌, refl, sym, ap, ◌∙◌, true, Option, some, [], ◌∷◌, ◌++◌, arith, ltb, if_intro,
  length, length-append, Str, ltb_ℤ, ℤ, pos,
}
use smoo_bazel.Socket.Wire.{
  header_of, size_of, returns, recv_queue_size, push, read_body, after_header, recv_packet,
  send_data, send_packet, Net, Receiver,
}
use smoo_bazel.Socket.Wire.Framing.{fill-stream, recv_packet-reads, Streams}

-- What is sent arrives behind what is still to arrive, and a `Send` takes all bytes.
pub record Carries {ℓ} {S : Type ℓ} (net : Net S) (pending : S → Str) : Type ℓ where
  pub takes :
      (bs : Str) (s : S)
      → (s' : S) × (net.send bs s ≡ (pos (length bs), s')) × (pending s' ≡ pending s ++ bs)

module _ {ℓ} {S : Type ℓ} (net : Net S) (pending : S → Str) (carries : Carries net pending) where
  send_data-takes :
      (bs : Str) (s : S)
      → 0 < length bs
      → (s' : S) × (send_data net bs s ≡ (true, s')) × (pending s' ≡ pending s ++ bs)
  unfolding send_data
  send_data-takes bs s some_bytes =
      let (s', e, p) = carries.takes bs s in
      (
        s',
        ap (λ (r : ℤ × S). (ltb_ℤ (pos 0) r.0, r.1)) e
            ∙ ap (λ b. (b, s')) (positive (length bs) some_bytes),
        p,
      )
    where
      positive : (n : ℕ) → 0 < n → ltb_ℤ (pos 0) (pos n) ≡ true
      positive n h = ground arith

  -- `send` writes the size of the text and the text.
  pub send_packet-takes :
      (text : Str) (s : S)
      → 0 < length text
      → (s' : S) × (send_packet net true text s ≡ (true, s'))
        × (pending s' ≡ pending s ++ (header_of (length text) ++ text))
  unfolding send_packet header_of
  send_packet-takes text s some_text =
      let (s1, e1, p1) = send_data-takes (header_of (length text)) s (omega arith) in
      let (s2, e2, p2) = send_data-takes text s1 some_text in
      (
        s2,
        rw (e1, send_packet, e2) refl,
        p2 ∙ ap (λ x. x ++ text) p1 ∙ append_assoc (pending s) (header_of (length text)) text,
      )

push-connected {ℓ} :
    {S : Type ℓ} (text : Str) (r : Receiver S) → (push text r).connected ≡ r.connected
unfolding push
push-connected text r =
    if_intro (λ (x : Receiver _). x.connected ≡ r.connected)
      (ltb (length r.recv_queue) recv_queue_size) refl refl

push-stream {ℓ} : {S : Type ℓ} (text : Str) (r : Receiver S) → (push text r).stream ≡ r.stream
unfolding push
push-stream text r =
    if_intro (λ (x : Receiver _). x.stream ≡ r.stream) (ltb (length r.recv_queue) recv_queue_size)
      refl refl

module _ {ℓ} {S : Type ℓ} (net : Net S) (pending : S → Str) (law : Streams net pending)
    (carries : Carries net pending) (alloc : ℤ → Option Str) where
  -- The next four bytes are read as a size.
  recv_packet-size :
      (r : Receiver S) (last rest : Str)
      → r.connected ≡ true
      → length last ≡ 4
      → pending r.stream ≡ last ++ rest
      → (s' : S) × (recv_packet net alloc true r ≡ read_body net alloc true (size_of last) 4 s' r)
        × (pending s' ≡ rest)
  unfolding recv_packet after_header
  recv_packet-size r last rest on four e =
      let (s', e1, left) =
        fill-stream net pending law 4 4 0 [] (0 ∷ 0 ∷ 0 ∷ 0 ∷ []) last rest r.stream refl
          (omega (arith, four)) (sym four) (omega (arith, four)) e in
      (s', rw (on, e1) refl, left)

  -- A text of at least 4 bytes is sent with success on an idle connection that carries what is sent to
  -- `recv`, in any pieces. `recv` queues all but the last four bytes of the text, behind four bytes of
  -- the fresh memory, and the next `recv` takes those last four bytes for the size of a packet.
  pub recv_packet-loses :
      (r : Receiver S) (text last garbage back : Str)
      → r.connected ≡ true
      → pending r.stream ≡ []
      → length (text ++ last) < 2 ^ 31
      → length last ≡ 4
      → alloc (pos (length (text ++ last))) ≡ some (garbage ++ back)
      → length garbage ≡ 4
      → length back ≡ length text
      → (s1 : S) × (s2 : S) × (s3 : S) × (send_packet net true (text ++ last) r.stream ≡ (true, s1))
        × (recv_packet net alloc true (record r { stream = s1 })
            ≡ some (returns true, push (garbage ++ text) (record r { stream = s2 })))
        × (recv_packet net alloc true (push (garbage ++ text) (record r { stream = s2 }))
            ≡ read_body net alloc true
                (size_of last)
                4
                s3
                (push (garbage ++ text) (record r { stream = s2 })))
        × (pending s3 ≡ [])
  recv_packet-loses r text last garbage back on idle small four memory four' fits =
      let (s1, sent, p1) =
        send_packet-takes net pending carries (text ++ last) r.stream
          (omega (arith, length-append text last, four)) in
      let (s2, got_text, p2) =
        recv_packet-reads net pending law alloc (record r { stream = s1 }) (length (text ++ last))
          garbage back text last on small (omega (arith, length-append text last, four)) memory
          four' fits
          (p1 ∙ ap (λ x. x ++ (header_of (length (text ++ last)) ++ (text ++ last))) idle) in
      let queued : Receiver S = push (garbage ++ text) (record r { stream = s2 }) in
      let (s3, size, p3) =
        recv_packet-size queued last [] (push-connected (garbage ++ text) _ ∙ on) four
          (ap pending (push-stream (garbage ++ text) _) ∙ p2 ∙ sym (append-nil last)) in
      (s1, s2, s3, sent, got_text, size, p3)
