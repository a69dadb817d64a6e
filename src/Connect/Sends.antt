-- ===== src/Connect/Sends.antt =====
-- What the send thread writes to a connection that takes everything.
use smoo_bazel.Base.{◌<◌, ◌≡◌, List, [], ◌∷◌, ◌++◌, length, Str, ℤ, pos}
use smoo_bazel.Packets.{Packet}
use smoo_bazel.Socket.{free, Pointer}
use smoo_bazel.Socket.Wire.{header_of}
use smoo_bazel.Connect.{Host, Link}

-- A `Send` takes all bytes, which are then what was written last, and no JSON text is empty.
pub record Writes {S : Type 0} (h : Host S) (written : S → Str) : Type 0 where
  pub takes :
      (fd : ℤ) (bytes : Str) (w : S)
      → (w' : S) × (h.send fd bytes w ≡ (pos (length bytes), w'))
        × (written w' ≡ written w ++ bytes)
  pub some_text : (p : Packet) → 0 < length (h.json p)

-- The frames of the packets, one behind the other.
pub frames : (Packet → Str) → (Pointer → Packet) → List Pointer → Str
frames json at [] = []
frames json at (p ∷ ps) = header_of (length (json (at p))) ++ (json (at p) ++ frames json at ps)

module _ {S : Type 0} (h : Host S) (written : S → Str) (law : Writes h written) where
  -- What a turn leaves of the link.
  after : Pointer → List Pointer → S → Link S → Link S
  after p ps w l = record l {
    net = w;
    outbox = record l.outbox { socket = free p (record l.outbox.socket { send_queue = ps }) };
  }
