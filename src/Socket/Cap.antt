-- ===== src/Socket/Cap.antt =====
-- The packets about the own cap, capture and costume, which mod/src/server/Client.cpp sends.
use smoo_bazel.Base.{
  ◌+◌, ◌≡◌, refl, Bool, true, false, not, ◌&&◌, Option, some, List, [], ◌∷◌, bool_eq, if◌then◌else◌,
  ◌>>=◌, Str, codes, str_eq, vec3_zero, Quat,
}
use smoo_bazel.Packets.{
  HackCapInf, SystemPacket, capture_inf, costume_inf, hack_cap_inf, system, Packet,
}
use smoo_bazel.Socket.{queue_new, Outbox}

-- `isClientCaptured`, `isSentCaptureInf` and `isSentHackInf` beside the outbox.
pub record Sender : Type 0 where
  pub outbox : Outbox
  pub is_captured : Bool
  pub is_sent_capture : Bool
  pub is_sent_hack : Bool

-- `classHackNames` of mod/src/helpers.hpp
class_hack_names : List (Str × Str)
class_hack_names =
    (codes "SenobiGeneratePoint", codes "Senobi")
    ∷ (codes "KuriboPossessed", codes "Kuribo")
    ∷ (codes "KillerLauncher", codes "Killer")
    ∷ (codes "KillerLauncherMagnum", codes "KillerMagnum")
    ∷ (codes "FireBrosPossessed", codes "FireBros")
    ∷ (codes "HammerBrosPossessed", codes "HammerBros")
    ∷ (codes "ElectricWire", codes "ElectricWireMover")
    ∷ (codes "TRexSleep", codes "TRex")
    ∷ (codes "TRexPatrol", codes "TRex")
    ∷ (codes "WanwanBig", codes "Wanwan")
    ∷ (codes "Koopa", codes "KoopaHack")
    ∷ []

convert_in : List (Str × Str) → Str → Str
convert_in [] name = name
convert_in ((from, to) ∷ rows) name = if str_eq from name then to else convert_in rows name

-- `tryConvertName`
unfoldable pub try_convert_name : Str → Str
unfolding convert_in class_hack_names
try_convert_name name = convert_in class_hack_names name

-- A packet of the own player, made and queued.
unfoldable pub queue_own : SystemPacket → Sender → Sender
queue_own p s = record s {
  outbox = queue_new (record { user_id = s.outbox.user_id; body = system p }) s.outbox;
}

-- `sendCaptureInfPacket`, with `getCurrentHackName()`, which is a null pointer for `none`.
unfoldable pub send_capture_inf_packet : Option Str → Sender → Option Sender
send_capture_inf_packet hack s =
    if s.is_captured && not s.is_sent_capture
    then (hack >>= λ name.
        some (record (queue_own (capture_inf (record { hack_name = try_convert_name name })) s) {
          is_sent_capture = true;
        }))
    else if not s.is_captured && s.is_sent_capture
    then some
        (record (queue_own (capture_inf (record { hack_name = [] })) s) { is_sent_capture = false })
    else some s

-- `sendHackCapInfPacket`, with whether the cap is flying, what its packet then says, and the engine's
-- `Quatf::unit`.
unfoldable pub send_hack_cap_inf_packet : Bool → HackCapInf → Quat → Sender → Sender
send_hack_cap_inf_packet true c unit s =
    record (queue_own (hack_cap_inf (record c { is_cap_visible = true })) s) { is_sent_hack = true }
send_hack_cap_inf_packet false c unit s =
    if s.is_sent_hack
    then record (queue_own
        (hack_cap_inf
          (record { cap_pos = vec3_zero; cap_quat = unit; is_cap_visible = false; cap_anim = [] }))
        s) { is_sent_hack = false }
    else s

unfoldable pub is_empty : Str → Bool
is_empty [] = true
is_empty (_ ∷ _) = false

pub costume_packet : Str → Str → Sender → Packet
costume_packet body cap_model s = record {
  user_id = s.outbox.user_id;
  body = system (costume_inf (record { body_model = body; cap_model = cap_model }));
}

-- `sendCostumeInfPacket`
unfoldable pub send_costume_inf_packet : Str → Str → Sender → Sender
send_costume_inf_packet body cap_model s =
    if is_empty body && is_empty cap_model then s else record s {
      outbox =
          queue_new (costume_packet body cap_model s)
            (record s.outbox { last_costume_inf = costume_packet body cap_model s });
    }

-- A call sends a capture packet exactly if the player was captured or let go since the last one, and
-- a second call sends nothing.
pub send_capture_inf_packet-settles :
    (name : Str) (s : Sender)
    → (s' : Sender) × (send_capture_inf_packet (some name) s ≡ some s')
      × (s'.is_sent_capture ≡ s.is_captured)
      × (s'.outbox.made
          ≡ (if bool_eq s.is_captured s.is_sent_capture then s.outbox.made else s.outbox.made + 1))
      × (send_capture_inf_packet (some name) s' ≡ some s')
unfolding send_capture_inf_packet queue_own queue_new
send_capture_inf_packet-settles name s = go s.outbox s.is_captured s.is_sent_capture s.is_sent_hack
  where
    go :
        (o : Outbox) (b c h : Bool)
        → let t : Sender = record {
          outbox = o;
          is_captured = b;
          is_sent_capture = c;
          is_sent_hack = h;
        } in
          (s' : Sender) × (send_capture_inf_packet (some name) t ≡ some s')
          × (s'.is_sent_capture ≡ b)
          × (s'.outbox.made ≡ (if bool_eq b c then o.made else o.made + 1))
          × (send_capture_inf_packet (some name) s' ≡ some s')
    go o true true h = (_, refl, refl, refl, refl)
    go o true false h = (_, refl, refl, refl, refl)
    go o false true h = (_, refl, refl, refl, refl)
    go o false false h = (_, refl, refl, refl, refl)
