-- ===== src/Connect/Start/Tests.antt =====
-- A first start with an empty save file, and a restart of a connection.
use mathlib.Core.List.{map}
use smoo_bazel.Base.{
  ℕ, ◌≡◌, refl, ◌↔◌, true, false, none, some, [], ◌∷◌, ◌++◌, map, arith, replicate, codes, pos,
}
use smoo_bazel.Puppets.Info.{info_new}
use smoo_bazel.Packets.{packet_empty, con_reconnect, init, player_connect, system}
use smoo_bazel.Client.State.{Client}
use smoo_bazel.Client.Infos.Count.{connected, IsCounted}
use smoo_bazel.Client.Dispatch.{set_max_players}
use smoo_bazel.Socket.{heap_packet}
use smoo_bazel.Socket.Front.{StartsWith}
use smoo_bazel.Connect.{is_connected, hello}
use smoo_bazel.Socket.Cap.{is_empty}
use smoo_bazel.Connect.Start.{
  atoi, wait_for_init, set_first, open_keyboard_ip, open_keyboard_port, ask_ip, ask_port, ask,
  goodbye, restart_connection, Starter,
}
use smoo_bazel.Connect.Start.Asked.{ask-introduces_old, is_init, wait_for_init-ends}
use smoo_bazel.Connect.Start.Restarted.{restart_connection-stale}
use smoo_bazel.Connect.Tests.{local, up_host, up_host-IsUp, link}

abbrev crowd : Client
crowd = record {
  user_id = 1 ∷ replicate 15 0;
  connect_count = pos 1;
  max_puppets = pos 9;
  puppet_infos = record info_new { is_connected = true } ∷ info_new ∷ [];
  collected_shines = [];
  collected_shine_count = pos 0;
}

abbrev starter : Starter ℕ
starter = record {
  client = crowd;
  is_connection_active = false;
  server_ip = [];
  server_port = pos 0;
  link = link 0;
  saves = 0;
}

-- A new address is typed, and the port is left.
asked-anew :
    let s = ask false (some (codes "10.0.0.1")) none starter in
    (s.server_ip ≡ codes "10.0.0.1") × (s.server_port ≡ pos 1027) × (s.saves ≡ 1)
unfolding ask ask_ip ask_port open_keyboard_ip open_keyboard_port set_first is_empty
asked-anew = (refl, refl, refl)

atoi-digits : atoi (codes "2048") ≡ pos 2048
unfolding atoi
atoi-digits = refl

ask-introduces_old_example :
    let l = (ask false (some (codes "10.0.0.1")) none starter).link in
    hello up_host l ≡ record {
      user_id = l.outbox.user_id;
      body = system (
          player_connect
            (record { con_type = con_reconnect; max_player_count = 0; client_name = l.username }));
    }
ask-introduces_old_example =
    ask-introduces_old up_host false (some (codes "10.0.0.1")) none starter refl tt

wait_for_init-ends_example :
    wait_for_init
      (map some (packet_empty ∷ [])
        ++ (some (record { user_id = []; body = system (init 8) }) ∷ none ∷ []))
      crowd
    ≡ some (true, set_max_players 8 crowd)
unfolding is_init
wait_for_init-ends_example = wait_for_init-ends (packet_empty ∷ []) [] 8 (none ∷ []) crowd refl

abbrev running : Starter ℕ
running = record starter { is_connection_active = true; server_ip = local; server_port = pos 1027 }

restart_connection-stale_example :
    (s' : Starter ℕ) × (restart_connection up_host 0 running ≡ some s')
    × (s'.is_connection_active ≡ true)
    × (is_connected s'.link.log_state ≡ true)
    × StartsWith ([] ++ (heap_packet 0 (goodbye running) ∷ [])) s'.link.outbox.socket
    × (s'.client ≡ record running.client { connect_count = pos 0 })
    × (IsCounted s'.client ↔ (connected crowd.puppet_infos ≡ 0))
restart_connection-stale_example =
    restart_connection-stale up_host up_host-IsUp 0 0x7f000001 running refl refl (omega arith)
