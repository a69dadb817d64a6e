-- ===== src/Socket/Safe.antt =====
-- Where a send does not fault.
use smoo_bazel.Base.{refl, if_intro, Defined, >>=-Defined}
use smoo_bazel.Modes.{is_mode, object_as, as_hns, hide_and_seek, hns_mode, Manager}
use smoo_bazel.Socket.{queue_new, tag_packet, send_tag_inf_packet, Outbox}

-- The tag can be sent while the mode's object and info are hide and seek's.
pub send_tag_inf_packet-Defined :
    (m : Manager) (o : Outbox)
    → Defined (object_as hns_mode m)
    → Defined (as_hns m.info)
    → Defined (send_tag_inf_packet m o)
unfolding send_tag_inf_packet
send_tag_inf_packet-Defined m o object info =
    if_intro Defined (is_mode hide_and_seek m)
      (>>=-Defined (object_as hns_mode m) _ object
        (λ _ _. >>=-Defined (as_hns m.info) _ info (λ i _. (queue_new (tag_packet i o) o, refl))))
      (o, refl)
