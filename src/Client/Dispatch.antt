-- ===== src/Client/Dispatch.antt =====
-- `Client::readFunc` of mod/src/server/Client.cpp: which handler a packet goes to.
pub mod Effects
pub mod Infos
pub mod Playing
pub mod Total
mod Tests
use smoo_bazel.Base.{
  ℕ, ◌+◌, ◌-◌, ◌%◌, ◌^◌, Bool, Option, none, some, List, [], ◌∷◌, ◌++◌, if◌then◌else◌, ◌>>=◌, Str,
  str_eq, FloatOps,
}
use smoo_bazel.Packets.{
  uid_of, int_of_u32, SystemPacket, capture_inf, costume_inf, game_inf, hack_cap_inf, init,
  player_connect, player_dc, player_inf, server_command, shine_collect, tag_inf, no_system,
  CtfPacket, game_state, team_assignment, win, flag_hold_state, flag_dropped, no_ctf, system, ctf,
  no_body, Packet, change_stage,
}
use smoo_bazel.Client.State.{Client, World}
use smoo_bazel.Client.Infos.{
  update_player_info, update_hack_cap_info, update_capture_info, update_costume_info,
  update_game_info, update_player_connect, disconnect_player,
}
use smoo_bazel.Client.Shines.{update_shine_info}
use smoo_bazel.Client.Handlers.{
  update_tag_info, update_ctf_team, update_ctf_game_state, update_ctf_win,
  update_ctf_flag_hold_state, update_ctf_flag_dropped, send_to_stage,
}

send : Packet → World → World
send p w = record w { sent = w.sent ++ (p ∷ []) }

-- The unsigned `max_players() - 1`, stored in an `int`.
pub set_max_players : ℕ → Client → Client
set_max_players n c = record c { max_puppets = int_of_u32 ((n + (2 ^ 32 - 1)) % 2 ^ 32) }

-- Send a packet again if it is the own player's.
resend_own : Packet → World → World
resend_own p w = if str_eq (uid_of p.user_id) w.client.user_id then send p w else w

-- The packet of the own player's game, with the own player's id.
signed : Str → Packet → Packet
signed id p = if str_eq (uid_of p.user_id) id then p else record p { user_id = id }

on_client : (Client → Option Client) → World → Option World
on_client f w = f w.client >>= λ c. some (record w { client = c })

handle_ctf : Str → CtfPacket → World → Option World
handle_ctf uid (team_assignment m) w = update_ctf_team uid m w
handle_ctf uid (game_state m) w = update_ctf_game_state m w
handle_ctf uid (flag_hold_state m) w = update_ctf_flag_hold_state uid m w
handle_ctf uid (flag_dropped m) w = update_ctf_flag_dropped m w
handle_ctf uid (win team) w = update_ctf_win team w
handle_ctf uid no_ctf w = some w

-- `MessageDifferencer::Equals` is the protobuf library's; `anims` is the table of animation names.
module _ (fl : FloatOps) (equals : Packet → Packet → Bool) (anims : List Str) where
  resend_game : World → World
  resend_game w =
      if equals w.last_game_inf w.empty_game_inf
      then w
      else send (signed w.client.user_id w.last_game_inf)
          (record w { last_game_inf = signed w.client.user_id w.last_game_inf })

  -- The packets that tell a new player of the own one.
  introduce : World → World
  introduce w =
      let w' = resend_game w in
      let w'' = resend_own w'.last_player_inf w' in resend_own w''.last_costume_inf w''

  handle_system : Str → SystemPacket → World → Option World
  handle_system uid (player_inf m) w = on_client (update_player_info fl anims uid m) w
  handle_system uid (game_inf m) w = on_client (update_game_info uid m) w
  handle_system uid (hack_cap_inf m) w = on_client (update_hack_cap_info uid m) w
  handle_system uid (capture_inf m) w = on_client (update_capture_info uid m) w
  handle_system uid (player_connect m) w =
      on_client (update_player_connect uid m) w >>= λ w'. some (introduce w')
  handle_system uid (costume_inf m) w = on_client (update_costume_info uid m) w
  handle_system uid (shine_collect n) w = some (record w { client = update_shine_info n w.client })
  handle_system uid player_dc w = on_client (disconnect_player uid) w
  handle_system uid (tag_inf m) w = update_tag_info uid m w
  handle_system uid (change_stage m) w = some (send_to_stage m w)
  handle_system uid (init n) w = some (record w { client = set_max_players n w.client })
  handle_system uid (server_command s) w = some w
  handle_system uid no_system w = some w

  pub handle : Packet → World → Option World
  handle p w = elim p.body [
    | system m ↦ handle_system p.user_id m w
    | ctf m ↦ handle_ctf p.user_id m w
    | no_body ↦ some w
  ]

  -- The loop over what `tryGetPacket` returns: a null pointer is dereferenced.
  pub read_all : List (Option Packet) → World → Option World
  read_all [] w = some w
  read_all (none ∷ ps) w = none
  read_all (some p ∷ ps) w = handle p w >>= read_all ps
