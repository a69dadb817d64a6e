-- ===== src/Ctf/Sample.antt =====
-- A game, a round of a player who plays for the red team, and frames, for the tests.
use smoo_bazel.Base.{
  ℕ, ◌+◌, ◌-◌, Bool, true, false, none, some, [], ◌∷◌, replicate, Str, codes, pos, negsuc, f_zero,
  vec3_zero, quat_zero, ulp_ops, Vec3,
}
use smoo_bazel.Puppets.Info.{info_new, FlagTeam, invalid, red, blue, PuppetInfo}
use smoo_bazel.Packets.{packet_empty}
use smoo_bazel.Modes.{ctf_info_new, ctf_mode}
use smoo_bazel.Stages.{waterfall, Coordinates}
use smoo_bazel.Client.State.{FlagActor}
use smoo_bazel.Game.{Player, Game}
use smoo_bazel.Ctf.State.{Round, Frame}

-- Floats as the numbers of their ulps, distances along one axis, and a border that has red on the
-- side of the larger numbers.
abbrev pub game : Game
game = record {
  fl = ulp_ops;
  distance = λ a b. (a.x - b.x) + (b.x - a.x);
  vec_sub = λ a b. record { x = a.x - b.x; y = f_zero; z = f_zero };
  normalize = λ v. v;
  dot = λ a b. b.x;
  vec_neg = λ v. v;
  al_normalize = λ v. v;
  is_dead = λ calls. false;
}

abbrev pub place : ℕ → Vec3
place n = record { x = n; y = f_zero; z = f_zero }

abbrev pub places : Coordinates
places = record {
  wind_blow = place 1;
  wanwan_clash = place 2;
  lift_2d = place 30;
  trex_poppun = place 4;
  cap_appear = place 5;
  border = place 20;
}

abbrev pub id_of : ℕ → Str
id_of n = n ∷ replicate 15 0

abbrev pub player : Player
player = record {
  has_info = true;
  trans = place 25;
  rot = quat_zero;
  calc_rot = quat_zero;
  is_2d = false;
}

abbrev pub rival : PuppetInfo
rival = record info_new {
  player_id = id_of 7;
  is_connected = true;
  is_in_same_stage = true;
  player_pos = place 24;
  ctf_team = blue;
}

abbrev pub flag : FlagTeam → Bool → FlagActor
flag team held = record {
  dead = true;
  trans = place 26;
  info =
      some
        (record { team = team; is_held = held; holder = id_of 7; at = vec3_zero; rot = quat_zero });
}

abbrev pub round : Round
round = record {
  object = record { kind = ctf_mode; is_active = true; is_first_frame = false };
  info = record ctf_info_new { player_team = red };
  invuln_time = f_zero;
  teleport_timer = f_zero;
  client = record {
    user_id = id_of 1;
    connect_count = pos 1;
    max_puppets = pos 1;
    puppet_infos = rival ∷ [];
    collected_shines = [];
    collected_shine_count = pos 0;
  };
  flags = record {
    team_flags = none ∷ some (flag red true) ∷ some (flag blue false) ∷ [];
    latest_team = invalid;
    latest_position = vec3_zero;
    latest_stage = [];
  };
  border = some (record { dead = true; scale = vec3_zero; info = none });
  outbox = record {
    user_id = id_of 1;
    socket = record { connected = true; send_queue = []; freed = []; sent = [] };
    made = 0;
    last_game_inf = packet_empty;
    empty_game_inf = packet_empty;
    last_costume_inf = packet_empty;
    last_flag_hold_state = packet_empty;
    last_ctf_win = packet_empty;
    last_collected_shine = negsuc 0;
  };
  calls = [];
}

abbrev pub frame : Frame
frame = record {
  player = some player;
  stage = record { stage_name = waterfall; scenario_num = 1 };
  delta = 1;
  hold_zl = true;
  trigger_zr = true;
  mode_active = true;
  has_scene = true;
  has_ticket = false;
  holder_size = 1;
}

abbrev pub in_lift : Frame
in_lift = record frame { stage = record { stage_name = codes "Lift2DExStage"; scenario_num = 1 } }
