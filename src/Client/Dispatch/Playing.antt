-- ===== src/Client/Dispatch/Playing.antt =====
-- What the packets leave of the state that the turns of capture the flag rely on.
use smoo_bazel.Base.{
  ℕ, ◌+◌, ◌-◌, ◌%◌, ◌^◌, ◌≤◌, ◌<◌, ◌≡◌, Bool, Option, some, List, >>=-eq-some, if_intro, Str,
  str_eq, Fits, FloatOps,
}
use smoo_bazel.Packets.{
  uid_of, int_of_u32, SystemPacket, capture_inf, costume_inf, game_inf, hack_cap_inf, init,
  player_connect, player_dc, player_inf, server_command, shine_collect, tag_inf, no_system,
  CtfPacket, game_state, team_assignment, win, flag_hold_state, flag_dropped, no_ctf, Body, system,
  ctf, no_body, Packet, change_stage,
}
use smoo_bazel.Puppets.Info.{name_size, stage_size, costume_size, hack_size, anim_size}
use smoo_bazel.Client.State.{loop_bound, Client, World}
use smoo_bazel.Client.Flags.{flag_index}
use smoo_bazel.Client.Infos.{update_player_info, update_player_connect}
use smoo_bazel.Client.Infos.Limit.{KeepsMax, with_info-KeepsMax, Step-KeepsMax}
use smoo_bazel.Client.Handlers.{send_to_stage}
use smoo_bazel.Client.Shines.{update_shine_info}
use smoo_bazel.Client.Shines.Received.{update_shine_info-KeepsMax}
use smoo_bazel.Client.Infos.Steps.{connects, disconnects, throws_cap, captures, dresses, travels}
use smoo_bazel.Client.Handlers.Keeps.{
  TeamFits, update_tag_info-IsPlaying, update_ctf_team-IsPlaying, update_ctf_win-IsPlaying,
  update_ctf_game_state-IsPlaying, update_ctf_flag_hold_state-IsPlaying,
  update_ctf_flag_dropped-IsPlaying, send_to_stage-IsPlaying,
}
use smoo_bazel.Client.Handlers.Playing.{same-IsPlaying, client-IsPlaying, IsPlaying}
use smoo_bazel.Client.Dispatch.{
  send, set_max_players, resend_own, on_client, handle_ctf, resend_game, introduce, handle_system,
  handle,
}

-- A packet whose strings fit in the infos' buffers, which tells of at most `n` other players, and
-- which names the teams that have flags.
abbrev pub IsFit : ℕ → Body → Type 0
IsFit n (system (init k)) = loop_bound (int_of_u32 ((k + (2 ^ 32 - 1)) % 2 ^ 32)) ≤ n
IsFit n (system (game_inf m)) = Fits stage_size m.stage_name
IsFit n (system (hack_cap_inf m)) = Fits anim_size m.cap_anim
IsFit n (system (capture_inf m)) = Fits hack_size m.hack_name
IsFit n (system (player_connect m)) = Fits name_size m.client_name
IsFit n (system (costume_inf m)) = Fits costume_size m.body_model × Fits costume_size m.cap_model
IsFit n (ctf (team_assignment t)) = TeamFits t
IsFit n (ctf (flag_hold_state s)) = flag_index s.flag_team < 3
IsFit n (ctf (flag_dropped d)) = (flag_index d.flag_team < 3) × Fits 0x40 d.stage_name
IsFit n _ = Unit {0}

on_client-IsPlaying :
    (n : ℕ) (f : Client → Option Client) (w w' : World)
    → ((c : Client) → f w.client ≡ some c → KeepsMax w.client c)
    → on_client f w ≡ some w'
    → IsPlaying n w
    → IsPlaying n w'
unfolding on_client
on_client-IsPlaying n f w w' keeps e v =
    let (c, run, last) = >>=-eq-some (f w.client) _ e in
    same-IsPlaying n (record w { client = c }) w' last (client-IsPlaying n w c (keeps c run) v)

handle_ctf-IsPlaying :
    (n : ℕ) (uid : Str) (m : CtfPacket) (w w' : World)
    → IsFit n (ctf m)
    → handle_ctf uid m w ≡ some w'
    → IsPlaying n w
    → IsPlaying n w'
unfolding handle_ctf
handle_ctf-IsPlaying n uid (team_assignment m) w w' fit e =
    update_ctf_team-IsPlaying n uid m w w' fit e
handle_ctf-IsPlaying n uid (game_state m) w w' fit e = update_ctf_game_state-IsPlaying n m w w' e
handle_ctf-IsPlaying n uid (flag_hold_state m) w w' fit e =
    update_ctf_flag_hold_state-IsPlaying n uid m w w' e
handle_ctf-IsPlaying n uid (flag_dropped m) w w' fit e =
    update_ctf_flag_dropped-IsPlaying n m w w' e
handle_ctf-IsPlaying n uid (win team) w w' fit e = update_ctf_win-IsPlaying n team w w' e
handle_ctf-IsPlaying n uid no_ctf w w' fit e = same-IsPlaying n w w' e

resend_own-IsPlaying :
    (n : ℕ) (p : Packet) (w : World) → IsPlaying n w → IsPlaying n (resend_own p w)
unfolding resend_own send
resend_own-IsPlaying n p w v =
    if_intro (IsPlaying n) (str_eq (uid_of p.user_id) w.client.user_id)
      (record { bound = v.bound; object = v.object; many = v.many; info = v.info; mode = v.mode }) v

module _ (fl : FloatOps) (equals : Packet → Packet → Bool) (anims : List Str) where
  introduce-IsPlaying :
      (n : ℕ) (w : World) → IsPlaying n w → IsPlaying n (introduce fl equals anims w)
  unfolding introduce resend_game send
  introduce-IsPlaying n w v =
      let w' = resend_game fl equals anims w in
      let w'' = resend_own w'.last_player_inf w' in
      resend_own-IsPlaying n w''.last_costume_inf w'' (
        resend_own-IsPlaying n w'.last_player_inf w' (
          if_intro (IsPlaying n) (equals w.last_game_inf w.empty_game_inf) v (record {
            bound = v.bound;
            object = v.object;
            many = v.many;
            info = v.info;
            mode = v.mode;
          })))

  handle_system-IsPlaying :
      (n : ℕ) (uid : Str) (m : SystemPacket) (w w' : World)
      → IsFit n (system m)
      → handle_system fl equals anims uid m w ≡ some w'
      → IsPlaying n w
      → IsPlaying n w'
  unfolding handle_system set_max_players update_player_info
  handle_system-IsPlaying n uid (player_inf m) w w' fit e v =
      on_client-IsPlaying n _ w w' (λ c run. with_info-KeepsMax _ uid w.client c run) e v
  handle_system-IsPlaying n uid (game_inf m) w w' fit e v =
      on_client-IsPlaying n _ w w'
        (λ c run. Step-KeepsMax uid w.client c (travels m w.client c run)) e v
  handle_system-IsPlaying n uid (hack_cap_inf m) w w' fit e v =
      on_client-IsPlaying n _ w w'
        (λ c run. Step-KeepsMax uid w.client c (throws_cap m w.client c run)) e v
  handle_system-IsPlaying n uid (capture_inf m) w w' fit e v =
      on_client-IsPlaying n _ w w'
        (λ c run. Step-KeepsMax uid w.client c (captures m w.client c run)) e v
  handle_system-IsPlaying n uid (player_connect m) w w' fit e v =
      let (x, run, last) = >>=-eq-some (on_client (update_player_connect uid m) w) _ e in
      same-IsPlaying n (introduce fl equals anims x) w' last (
        introduce-IsPlaying n x (
          on_client-IsPlaying n _ w x
            (λ c ran. Step-KeepsMax uid w.client c (connects m w.client c ran)) run v))
  handle_system-IsPlaying n uid (costume_inf m) w w' fit e v =
      on_client-IsPlaying n _ w w'
        (λ c run. Step-KeepsMax uid w.client c (dresses m w.client c run)) e v
  handle_system-IsPlaying n uid (shine_collect k) w w' fit e v =
      same-IsPlaying n (record w { client = update_shine_info k w.client }) w' e
        (client-IsPlaying n w (update_shine_info k w.client) (update_shine_info-KeepsMax k w.client)
          v)
  handle_system-IsPlaying n uid player_dc w w' fit e v =
      on_client-IsPlaying n _ w w'
        (λ c run. Step-KeepsMax uid w.client c (disconnects w.client c run)) e v
  handle_system-IsPlaying n uid (tag_inf m) w w' fit e v =
      update_tag_info-IsPlaying n uid m w w' e v
  handle_system-IsPlaying n uid (change_stage m) w w' fit e v =
      same-IsPlaying n (send_to_stage m w) w' e (send_to_stage-IsPlaying n m w v)
  handle_system-IsPlaying n uid (init k) w w' fit e v =
      same-IsPlaying n (record w { client = set_max_players k w.client }) w' e
        (record { bound = fit; object = v.object; many = v.many; info = v.info; mode = v.mode })
  handle_system-IsPlaying n uid (server_command s) w w' fit e v = same-IsPlaying n w w' e v
  handle_system-IsPlaying n uid no_system w w' fit e v = same-IsPlaying n w w' e v

  -- A fitting packet that does not fault leaves the state that the turns rely on.
  pub handle-IsPlaying :
      (n : ℕ) (p : Packet) (w w' : World)
      → IsFit n p.body
      → handle fl equals anims p w ≡ some w'
      → IsPlaying n w
      → IsPlaying n w'
  unfolding handle
  handle-IsPlaying n p w w' = go p.body
    where
      go :
          (b : Body)
          → IsFit n b
          → (elim b [
            | system m ↦ handle_system fl equals anims p.user_id m w
            | ctf m ↦ handle_ctf p.user_id m w
            | no_body ↦ some w
          ])
            ≡ some w'
          → IsPlaying n w
          → IsPlaying n w'
      go (system m) fit q = handle_system-IsPlaying n p.user_id m w w' fit q
      go (ctf m) fit q = handle_ctf-IsPlaying n p.user_id m w w' fit q
      go no_body fit q = same-IsPlaying n w w' q
