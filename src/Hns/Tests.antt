-- ===== src/Hns/Tests.antt =====
-- A player who hides in reach of a player who is it, and the theorems there.
use smoo_bazel.Base.{
  ℕ, ◌+◌, ◌-◌, ◌<◌, ◌≡◌, refl, ◌↔◌, true, false, none, some, [], ◌∷◌, arith, get_elem?, replicate,
  Str, pos, negsuc, f_zero, quat_zero, ulp_ops,
}
use smoo_bazel.Timer.{time_zero, Timer}
use smoo_bazel.Timer.Laws.{IsTime}
use smoo_bazel.Puppets.Info.{info_new, PuppetInfo}
use smoo_bazel.Packets.{packet_empty}
use smoo_bazel.Modes.{hns_info_new, hide_and_seek, hns_info, hns_mode, live_info, Manager}
use smoo_bazel.Game.{invuln_seconds, Player, Game}
use smoo_bazel.Hns.{begin_hns, update_hns, run_hunt, Hunt, HnsFrame}
use smoo_bazel.Hns.Clock.{run_hunt-Clocked, IsClocked}
use smoo_bazel.Hns.Catch.{Catcher}
use smoo_bazel.Hns.Caught.{entered, update_hns-catches}
use smoo_bazel.Hns.Safe.{SoundStep, FrameFits, update_hns-SoundStep, run_hunt-returns}

abbrev game : Game
game = record {
  fl = ulp_ops;
  distance = λ a b. (a.x - b.x) + (b.x - a.x);
  vec_sub = λ a b. a;
  normalize = λ v. v;
  dot = λ a b. b.x;
  vec_neg = λ v. v;
  al_normalize = λ v. v;
  is_dead = λ calls. false;
}

abbrev id_of : ℕ → Str
id_of n = n ∷ replicate 15 0

abbrev player : Player
player = record {
  has_info = true;
  trans = record { x = 5; y = f_zero; z = f_zero };
  rot = quat_zero;
  calc_rot = quat_zero;
  is_2d = false;
}

abbrev seeker : PuppetInfo
seeker = record info_new {
  player_id = id_of 7;
  is_connected = true;
  is_in_same_stage = true;
  is_it = true;
}

abbrev clock : Timer
clock = record { is_count_up = true; is_enabled = true; is_use_control = true; time = time_zero }

-- 5 seconds after the start.
abbrev hider : Hunt
hider = record {
  object = record { kind = hns_mode; is_active = true; is_first_frame = false };
  info = hns_info_new;
  timer = clock;
  invuln_time = invuln_seconds;
  client = record {
    user_id = id_of 1;
    connect_count = pos 1;
    max_puppets = pos 1;
    puppet_infos = seeker ∷ [];
    collected_shines = [];
    collected_shine_count = pos 0;
  };
  outbox = record {
    user_id = id_of 1;
    socket = record { connected = true; send_queue = []; freed = []; sent = [] };
    made = 0;
    last_game_inf = packet_empty;
    empty_game_inf = packet_empty;
    last_costume_inf = packet_empty;
    last_flag_hold_state = packet_empty;
    last_ctf_win = packet_empty;
    last_collected_shine = negsuc 0;
  };
  calls = [];
}

abbrev manager : Manager
manager = record {
  active = true;
  paused = false;
  was_scene_trans = false;
  was_set_mode = false;
  cur_mode = hide_and_seek;
  base = some hider.object;
  info = some (hns_info hider.info);
  last_init_info = live_info;
}

abbrev frame : HnsFrame
frame = record {
  player = some player;
  delta = 1;
  holder_size = 1;
  has_ticket = false;
  camera_active = λ calls. false;
  ground = none;
  pad = record { hold_l = false; trigger_down = false; hold_right = false; trigger_left = false };
  hold_zl = false;
  trigger_zl = false;
  trigger_up = false;
  trigger_right = false;
  manager = manager;
}

frame-Fits : FrameFits 1 frame
frame-Fits = ((player, refl), omega arith, λ pressed. let no : false ≡ true = pressed in cc)

run_hunt-returns_example :
    (h' : Hunt) × (run_hunt game (frame ∷ frame ∷ []) hider ≡ some h')
    × (h'.object.kind ≡ hns_mode)
    × (h'.client ≡ hider.client)
run_hunt-returns_example =
    run_hunt-returns game (frame ∷ frame ∷ []) hider refl (frame-Fits, (frame-Fits, tt))

time_zero-IsTime : IsTime time_zero
time_zero-IsTime = record {
  seconds_in = (refl, omega arith);
  minutes_in = (refl, omega arith);
  hours_in = refl;
}

-- The first frame of a game, and a frame in which the seeker is in reach.
begun : SoundStep hider.client (update_hns game frame (begin_hns hider))
unfolding begin_hns
begun = update_hns-SoundStep game frame hider.client (begin_hns hider) frame-Fits (refl, refl)

caught : SoundStep hider.client (update_hns game frame hider)
caught = update_hns-SoundStep game frame hider.client hider frame-Fits (refl, refl)

run_hunt-Clocked_example :
    IsClocked begun.0.info.is_player_it begun.0.timer
    × (begun.0.info.hiding_time ≡ begun.0.timer.time)
unfolding run_hunt
run_hunt-Clocked_example =
    run_hunt-Clocked game [] frame hider (begin_hns hider) begun.0 refl time_zero-IsTime refl
      begun.1

-- The seeker catches the player, and only because of that.
update_hns-catches_example : (caught.0.info.is_player_it ≡ true) ↔ (
    (game.fl.le invuln_seconds hider.invuln_time ≡ true)
    × (player.has_info ≡ true)
    × (k : ℕ) × (x : PuppetInfo) × (k < frame.holder_size)
    × (get_elem? hider.client.puppet_infos k ≡ some x)
    × Catcher game player (game.is_dead (entered game frame hider)) x)
update_hns-catches_example =
    update_hns-catches game frame hider caught.0 player refl refl refl caught.1
