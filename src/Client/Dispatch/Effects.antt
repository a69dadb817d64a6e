-- ===== src/Client/Dispatch/Effects.antt =====
-- What a packet of any kind does to the infos of the other players.
use smoo_bazel.Base.{
  ℕ, ◌≡◌, refl, sym, ap, ◌∙◌, subst, Bool, Option, some, List, >>=-eq-some, if_intro, some_inj, Str,
  str_eq, ℤ, FloatOps,
}
use smoo_bazel.Packets.{
  uid_of, PlayerConnect, SystemPacket, capture_inf, costume_inf, game_inf, hack_cap_inf, init,
  player_connect, player_dc, player_inf, server_command, shine_collect, tag_inf, no_system,
  CtfPacket, game_state, team_assignment, win, flag_hold_state, flag_dropped, no_ctf, Body, system,
  ctf, no_body, Packet, change_stage,
}
use smoo_bazel.Client.State.{Client, World}
use smoo_bazel.Client.Infos.{
  update_player_info, update_hack_cap_info, update_capture_info, update_costume_info,
  update_game_info, update_player_connect, disconnect_player,
}
use smoo_bazel.Client.Infos.Steps.{connects, disconnects, throws_cap, captures, dresses, travels}
use smoo_bazel.Client.Shines.{update_shine_info}
use smoo_bazel.Client.Handlers.{send_to_stage}
use smoo_bazel.Client.Dispatch.{
  send, set_max_players, resend_own, on_client, handle_ctf, resend_game, introduce, handle_system,
  handle,
}
use smoo_bazel.Client.Handlers.Effects.{
  same_client, some-client, update_tag_info-Change, update_ctf_team-Change,
  update_ctf_game_state-client, update_ctf_win-client, update_ctf_flag_hold_state-client,
  update_ctf_flag_dropped-client, send_to_stage-client, Change, leaves, steps, moves,
}
use smoo_bazel.Client.Shines.Received.{update_shine_info-keeps}

on_client-eq_some :
    (f : Client → Option Client) (w w' : World)
    → on_client f w ≡ some w'
    → f w.client ≡ some w'.client
unfolding on_client
on_client-eq_some f w w' e =
    let (c, run, last) = >>=-eq-some (f w.client) _ e in
    run ∙ ap some (ap (λ (v : World). v.client) (some_inj last))

handle_ctf-Change :
    (uid : Str) (m : CtfPacket) (w w' : World)
    → handle_ctf uid m w ≡ some w'
    → Change uid (ctf m) w.client w'.client
unfolding handle_ctf
handle_ctf-Change uid (team_assignment m) w w' e = update_ctf_team-Change uid m w w' e
handle_ctf-Change uid (game_state m) w w' e =
    same_client uid w.client w'.client (update_ctf_game_state-client m w w' e)
handle_ctf-Change uid (flag_hold_state m) w w' e =
    same_client uid w.client w'.client (update_ctf_flag_hold_state-client uid m w w' e)
handle_ctf-Change uid (flag_dropped m) w w' e =
    same_client uid w.client w'.client (update_ctf_flag_dropped-client m w w' e)
handle_ctf-Change uid (win team) w w' e =
    same_client uid w.client w'.client (update_ctf_win-client team w w' e)
handle_ctf-Change uid no_ctf w w' e = same_client uid w.client w'.client (some-client w w' e)

resend_own-client : (p : Packet) (w : World) → (resend_own p w).client ≡ w.client
unfolding resend_own send
resend_own-client p w =
    if_intro (λ (v : World). v.client ≡ w.client) (str_eq (uid_of p.user_id) w.client.user_id) refl
      refl

shine-Change : {b : Body} (uid : Str) (n : ℤ) (c : Client) → Change uid b c (update_shine_info n c)
shine-Change uid n c = let (infos, count) = update_shine_info-keeps n c in leaves infos count

max_players-Change :
    {b : Body} (uid : Str) (n : ℕ) (c : Client) → Change uid b c (set_max_players n c)
unfolding set_max_players
max_players-Change uid n c = leaves refl refl

module _ (fl : FloatOps) (equals : Packet → Packet → Bool) (anims : List Str) where
  resend_game-client : (w : World) → (resend_game fl equals anims w).client ≡ w.client
  unfolding resend_game send
  resend_game-client w =
      if_intro (λ (v : World). v.client ≡ w.client) (equals w.last_game_inf w.empty_game_inf) refl
        refl

  introduce-client : (w : World) → (introduce fl equals anims w).client ≡ w.client
  unfolding introduce
  introduce-client w =
      let w' = resend_game fl equals anims w in
      let w'' = resend_own w'.last_player_inf w' in
      resend_own-client w''.last_costume_inf w''
      ∙ resend_own-client w'.last_player_inf w'
      ∙ resend_game-client w

  player_connect-Change :
      (uid : Str) (m : PlayerConnect) (w w' : World)
      → handle_system fl equals anims uid (player_connect m) w ≡ some w'
      → Change uid (system (player_connect m)) w.client w'.client
  unfolding handle_system
  player_connect-Change uid m w w' e =
      let (v, run, last) = >>=-eq-some (on_client (update_player_connect uid m) w) _ e in
      let known = on_client-eq_some (update_player_connect uid m) w v run in
      let told = sym (introduce-client v) ∙ ap (λ (x : World). x.client) (some_inj last) in
      steps (connects m w.client w'.client (known ∙ ap some told))

  handle_system-Change :
      (uid : Str) (m : SystemPacket) (w w' : World)
      → handle_system fl equals anims uid m w ≡ some w'
      → Change uid (system m) w.client w'.client
  unfolding handle_system
  handle_system-Change uid (player_inf m) w w' e =
      moves fl anims m refl (on_client-eq_some (update_player_info fl anims uid m) w w' e)
  handle_system-Change uid (game_inf m) w w' e =
      steps (travels m w.client w'.client (on_client-eq_some (update_game_info uid m) w w' e))
  handle_system-Change uid (hack_cap_inf m) w w' e =
      steps
        (throws_cap m w.client w'.client (on_client-eq_some (update_hack_cap_info uid m) w w' e))
  handle_system-Change uid (capture_inf m) w w' e =
      steps (captures m w.client w'.client (on_client-eq_some (update_capture_info uid m) w w' e))
  handle_system-Change uid (player_connect m) w w' e = player_connect-Change uid m w w' e
  handle_system-Change uid (costume_inf m) w w' e =
      steps (dresses m w.client w'.client (on_client-eq_some (update_costume_info uid m) w w' e))
  handle_system-Change uid (shine_collect n) w w' e =
      subst (Change uid _ w.client) (ap (λ (x : World). x.client) (some_inj e))
        (shine-Change uid n w.client)
  handle_system-Change uid player_dc w w' e =
      steps (disconnects w.client w'.client (on_client-eq_some (disconnect_player uid) w w' e))
  handle_system-Change uid (tag_inf m) w w' e = update_tag_info-Change uid m w w' e
  handle_system-Change uid (change_stage m) w w' e =
      same_client uid w.client w'.client
        (some-client (send_to_stage m w) w' e ∙ send_to_stage-client m w)
  handle_system-Change uid (init n) w w' e =
      subst (Change uid _ w.client) (ap (λ (x : World). x.client) (some_inj e))
        (max_players-Change uid n w.client)
  handle_system-Change uid (server_command s) w w' e =
      same_client uid w.client w'.client (some-client w w' e)
  handle_system-Change uid no_system w w' e =
      same_client uid w.client w'.client (some-client w w' e)

  pub handle-Change :
      (p : Packet) (w w' : World)
      → handle fl equals anims p w ≡ some w'
      → Change p.user_id p.body w.client w'.client
  unfolding handle
  handle-Change p w w' e = go p.body e
    where
      go :
          (b : Body)
          → (elim b [
            | system m ↦ handle_system fl equals anims p.user_id m w
            | ctf m ↦ handle_ctf p.user_id m w
            | no_body ↦ some w
          ])
            ≡ some w'
          → Change p.user_id b w.client w'.client
      go (system m) q = handle_system-Change p.user_id m w w' q
      go (ctf m) q = handle_ctf-Change p.user_id m w w' q
      go no_body q = same_client p.user_id w.client w'.client (some-client w w' q)
