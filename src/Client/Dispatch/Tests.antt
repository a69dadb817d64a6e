-- ===== src/Client/Dispatch/Tests.antt =====
-- A world with two flags and three infos, and the theorems on packets there.
use smoo_bazel.Base.{
  ℕ, ◌≡◌, refl, ◌⊎◌, Bool, true, false, none, some, [], ◌∷◌, replicate, Str, codes, str_eq, pos,
  f_one, vec3_zero, quat_zero, ulp_ops,
}
use smoo_bazel.Puppets.Info.{info_new, FlagTeam, invalid, red, blue}
use smoo_bazel.Packets.{packet_empty, uid_of, player_dc, FlagHoldState, FlagDropped, system, Packet}
use smoo_bazel.Modes.{ctf_info_new, capture_the_flag, ctf_info, ctf_mode, live_info, Manager}
use smoo_bazel.Client.State.{Client, FlagActor, Flags, World}
use smoo_bazel.Client.Find.{next_available, find_from, find_puppet_info}
use smoo_bazel.Client.Infos.{release, disconnect_found, disconnect_player}
use smoo_bazel.Client.Infos.Count.{connected, IsCounted}
use smoo_bazel.Client.Infos.Frame.{Touches}
use smoo_bazel.Client.Shines.{no_shine}
use smoo_bazel.Client.Dispatch.{on_client, handle_system, handle, read_all}
use smoo_bazel.Client.Dispatch.Infos.{handle-Touches, read_all-IsCounted}

abbrev id_of : ℕ → Str
id_of n = n ∷ replicate 15 0

abbrev client : Client
client = record {
  user_id = id_of 1;
  connect_count = pos 1;
  max_puppets = pos 3;
  puppet_infos =
      record info_new { player_id = id_of 7; is_connected = true } ∷ info_new ∷ info_new ∷ [];
  collected_shines = replicate 128 no_shine;
  collected_shine_count = pos 0;
}

abbrev flag : FlagTeam → FlagActor
flag team = record {
  dead = true;
  trans = vec3_zero;
  info =
      some
        (record { team = team; is_held = true; holder = id_of 7; at = vec3_zero; rot = quat_zero });
}

abbrev flags : Flags
flags = record {
  team_flags = none ∷ some (flag red) ∷ some (flag blue) ∷ [];
  latest_team = invalid;
  latest_position = vec3_zero;
  latest_stage = [];
}

abbrev ctf_game : Manager
ctf_game = record {
  active = true;
  paused = false;
  was_scene_trans = false;
  was_set_mode = false;
  cur_mode = capture_the_flag;
  base = some (record { kind = ctf_mode; is_active = true; is_first_frame = false });
  info = some (ctf_info ctf_info_new);
  last_init_info = live_info;
}

abbrev world : World
world = record {
  client = client;
  manager = ctf_game;
  flags = flags;
  has_scene = true;
  requests = [];
  sent = [];
  last_game_inf = packet_empty;
  empty_game_inf = packet_empty;
  last_player_inf = packet_empty;
  last_costume_inf = packet_empty;
}

abbrev taken : FlagHoldState
taken = record { is_held = true; flag_team = red }

abbrev dropped : FlagDropped
dropped = record {
  flag_team = blue;
  at = record vec3_zero { x = f_one };
  rot = quat_zero;
  scenario_num = pos 1;
  stage_name = codes "WaterfallWorldHomeStage";
}

-- The protobuf library's comparison, for packets that differ in their senders.
abbrev same_sender : Packet → Packet → Bool
same_sender p q = str_eq p.user_id q.user_id

abbrev goodbye : Packet
goodbye = record { user_id = id_of 7; body = system player_dc }

abbrev after_goodbye : World
after_goodbye = record world {
  client = record client {
    puppet_infos = record info_new { player_id = id_of 7 } ∷ info_new ∷ info_new ∷ [];
    connect_count = pos 0;
  };
}

handles-goodbye : handle ulp_ops same_sender [] goodbye world ≡ some after_goodbye
unfolding handle handle_system on_client disconnect_player disconnect_found release uid_of
    find_puppet_info find_from next_available
handles-goodbye = refl

reads-goodbye : read_all ulp_ops same_sender [] (some goodbye ∷ []) world ≡ some after_goodbye
unfolding read_all
reads-goodbye = rw handles-goodbye refl

handle-Touches_example :
    (after_goodbye.client.puppet_infos ≡ client.puppet_infos)
    ⊎ ((av : Bool) × Touches (id_of 7) av client after_goodbye.client)
handle-Touches_example =
    handle-Touches ulp_ops same_sender [] goodbye world after_goodbye handles-goodbye

client-IsCounted : IsCounted client
unfolding connected
client-IsCounted = refl

read_all-IsCounted_example : IsCounted after_goodbye.client
read_all-IsCounted_example =
    read_all-IsCounted ulp_ops same_sender [] (some goodbye ∷ []) world after_goodbye (refl, tt)
      client-IsCounted reads-goodbye
