-- ===== src/Session/Tests.antt =====
-- A session with packets between turns.
use smoo_bazel.Base.{◌≡◌, refl, Bool, true, false, none, some, List, [], ◌∷◌, arith, vec3_zero}
use smoo_bazel.Packets.{packet_empty, player_dc, game_state, flag_hold_state, system, ctf, Packet}
use smoo_bazel.Puppets.Info.{blue}
use smoo_bazel.Modes.{capture_the_flag, ctf_info, live_info}
use smoo_bazel.Client.Anims.{player_anims}
use smoo_bazel.Ctf.Sample.{game, places, id_of, round, frame, in_lift}
use smoo_bazel.Session.{receives, turns, run_session, Session, Event}
use smoo_bazel.Session.Survives.{turn_count, run_session-IsLive, IsLive}

abbrev session : Session
session = record {
  world = record {
    client = round.client;
    manager = record {
      active = true;
      paused = false;
      was_scene_trans = false;
      was_set_mode = false;
      cur_mode = capture_the_flag;
      base = some round.object;
      info = some (ctf_info round.info);
      last_init_info = live_info;
    };
    flags = round.flags;
    has_scene = true;
    requests = [];
    sent = [];
    last_game_inf = packet_empty;
    empty_game_inf = packet_empty;
    last_player_inf = packet_empty;
    last_costume_inf = packet_empty;
  };
  outbox = round.outbox;
  border = round.border;
  invuln_time = round.invuln_time;
  teleport_timer = round.teleport_timer;
  calls = [];
}

never_equal : Packet → Packet → Bool
never_equal p q = false

-- The rival picks up the blue flag, a turn passes, the game starts again, and the stage ends.
abbrev events : List Event
events =
    receives (record {
      user_id = id_of 7;
      body = ctf (flag_hold_state (record { is_held = true; flag_team = blue }));
    })
    ∷ turns frame true
    ∷ receives (record {
      user_id = id_of 9;
      body = ctf (game_state (record { reset_game = true; seconds = 30; minutes = 2 }));
    })
    ∷ turns frame true
    ∷ receives (record { user_id = id_of 7; body = system player_dc })
    ∷ turns in_lift false
    ∷ []

session-IsLive : IsLive 1 3 session
session-IsLive = record {
  world = record {
    bound = omega arith;
    object = (round.object, refl, refl);
    many = omega arith;
    info = (round.info, refl, omega arith);
    mode = refl;
  };
  size = refl;
  border = (record { dead = true; scale = vec3_zero; info = none }, refl);
  connected = refl;
  room = omega arith;
}

run_session-IsLive_example :
    (s' : Session) × (run_session places game never_equal player_anims events session ≡ some s')
    × IsLive 1 0 s'
unfolding turn_count
run_session-IsLive_example =
    run_session-IsLive places game never_equal 1 events session
      (omega arith, (omega arith, (tt, (omega arith, (tt, (omega arith, tt)))))) session-IsLive
