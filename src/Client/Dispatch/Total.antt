-- ===== src/Client/Dispatch/Total.antt =====
-- A fitting packet is handled without a fault while capture the flag is played.
use smoo_bazel.Base.{ℕ, refl, Bool, Option, some, Defined, >>=-Defined, Str, FloatOps}
use smoo_bazel.Packets.{
  SystemPacket, capture_inf, costume_inf, game_inf, hack_cap_inf, init, player_connect, player_dc,
  player_inf, server_command, shine_collect, tag_inf, no_system, CtfPacket, game_state,
  team_assignment, win, flag_hold_state, flag_dropped, no_ctf, Body, system, ctf, no_body, Packet,
  change_stage,
}
use smoo_bazel.Client.State.{Client, World}
use smoo_bazel.Client.Anims.{player_anims}
use smoo_bazel.Client.Shines.{update_shine_info}
use smoo_bazel.Client.Infos.{update_player_connect}
use smoo_bazel.Client.Infos.Total.{
  update_costume_info-returns, update_game_info-returns, update_player_connect-returns,
  update_hack_cap_info-returns, update_capture_info-returns, disconnect_player-returns,
}
use smoo_bazel.Client.Infos.Named.{update_player_info-returns}
use smoo_bazel.Client.Handlers.{send_to_stage}
use smoo_bazel.Client.Handlers.Playing.{IsPlaying}
use smoo_bazel.Client.Handlers.Total.{
  Reads, update_tag_info-Defined, update_ctf_team-Defined, update_ctf_win-Defined,
  update_ctf_game_state-Defined, update_ctf_flag_hold_state-Defined,
  update_ctf_flag_dropped-Defined,
}
use smoo_bazel.Client.Dispatch.{
  set_max_players, on_client, handle_ctf, introduce, handle_system, handle,
}
use smoo_bazel.Client.Dispatch.Playing.{IsFit}

on_client-Defined :
    (f : Client → Option Client) (w : World) → Defined (f w.client) → Defined (on_client f w)
unfolding on_client
on_client-Defined f w (c, e) = (record w { client = c }, rw e refl)

handle_ctf-Defined :
    (n : ℕ) (uid : Str) (m : CtfPacket) (w : World)
    → IsFit n (ctf m)
    → IsPlaying n w
    → Reads w
    → Defined (handle_ctf uid m w)
unfolding handle_ctf
handle_ctf-Defined n uid (team_assignment m) w fit v reads =
    update_ctf_team-Defined n uid m w v reads
handle_ctf-Defined n uid (game_state m) w fit v reads = update_ctf_game_state-Defined n m w v
handle_ctf-Defined n uid (flag_hold_state m) w fit v reads =
    update_ctf_flag_hold_state-Defined n uid m w v fit
handle_ctf-Defined n uid (flag_dropped m) w fit v reads =
    update_ctf_flag_dropped-Defined n m w v fit.0 fit.1
handle_ctf-Defined n uid (win team) w fit v reads = update_ctf_win-Defined n team w v
handle_ctf-Defined n uid no_ctf w fit v reads = (w, refl)

module _ (fl : FloatOps) (equals : Packet → Packet → Bool) where
  handle_system-Defined :
      (n : ℕ) (uid : Str) (m : SystemPacket) (w : World)
      → IsFit n (system m)
      → IsPlaying n w
      → Reads w
      → Defined (handle_system fl equals player_anims uid m w)
  unfolding handle_system
  handle_system-Defined n uid (player_inf m) w fit v reads =
      on_client-Defined _ w (update_player_info-returns fl uid m w.client reads)
  handle_system-Defined n uid (game_inf m) w fit v reads =
      on_client-Defined _ w (update_game_info-returns uid m w.client reads fit)
  handle_system-Defined n uid (hack_cap_inf m) w fit v reads =
      on_client-Defined _ w (update_hack_cap_info-returns uid m w.client reads fit)
  handle_system-Defined n uid (capture_inf m) w fit v reads =
      on_client-Defined _ w (update_capture_info-returns uid m w.client reads fit)
  handle_system-Defined n uid (player_connect m) w fit v reads =
      >>=-Defined (on_client (update_player_connect uid m) w)
        (λ x. some (introduce fl equals player_anims x))
        (on_client-Defined _ w (update_player_connect-returns uid m w.client reads fit))
        (λ x _. (introduce fl equals player_anims x, refl))
  handle_system-Defined n uid (costume_inf m) w fit v reads =
      on_client-Defined _ w (update_costume_info-returns uid m w.client reads fit.0 fit.1)
  handle_system-Defined n uid (shine_collect k) w fit v reads =
      (record w { client = update_shine_info k w.client }, refl)
  handle_system-Defined n uid player_dc w fit v reads =
      on_client-Defined _ w (disconnect_player-returns uid w.client reads)
  handle_system-Defined n uid (tag_inf m) w fit v reads = update_tag_info-Defined n uid m w v reads
  handle_system-Defined n uid (change_stage m) w fit v reads = (send_to_stage m w, refl)
  handle_system-Defined n uid (init k) w fit v reads =
      (record w { client = set_max_players k w.client }, refl)
  handle_system-Defined n uid (server_command s) w fit v reads = (w, refl)
  handle_system-Defined n uid no_system w fit v reads = (w, refl)

  -- While capture the flag is played, a packet that fits does not fault.
  pub handle-Defined :
      (n : ℕ) (p : Packet) (w : World)
      → IsFit n p.body
      → IsPlaying n w
      → Reads w
      → Defined (handle fl equals player_anims p w)
  unfolding handle
  handle-Defined n p w fit v reads = go p.body fit
    where
      go :
          (b : Body)
          → IsFit n b
          → Defined (elim b [
            | system m ↦ handle_system fl equals player_anims p.user_id m w
            | ctf m ↦ handle_ctf p.user_id m w
            | no_body ↦ some w
          ])
      go (system m) f = handle_system-Defined n p.user_id m w f v reads
      go (ctf m) f = handle_ctf-Defined n p.user_id m w f v reads
      go no_body f = (w, refl)
