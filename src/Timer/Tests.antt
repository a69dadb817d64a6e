-- ===== src/Timer/Tests.antt =====
-- Runs of the game-mode clock, and its theorems at concrete clocks.
use smoo_bazel.Base.{◌≡◌, refl, true, false, arith, pos, negsuc, f_one, ulp_ops}
use smoo_bazel.Timer.{time_zero, set_time, second_up, advance, controlled, update_timer, Timer, Pad}
use smoo_bazel.Timer.Laws.{update_timer-IsTime, IsTime}

abbrev released : Pad
released = record { hold_l = false; trigger_down = false; hold_right = false; trigger_left = false }

-- 0:59:59 and a frame away from the next second.
abbrev late : Timer
late = record {
  is_count_up = true;
  is_enabled = true;
  is_use_control = false;
  time = record { milliseconds = f_one; seconds = pos 59; minutes = pos 59; hours = pos 0 };
}

abbrev counting_down : Timer
counting_down = record late { is_count_up = false }

abbrev run_out : Timer
run_out = record counting_down { time = record time_zero { milliseconds = f_one } }

late-carries :
    (update_timer ulp_ops released 1 late).time
    ≡ record { milliseconds = 1; seconds = pos 0; minutes = pos 0; hours = pos 1 }
unfolding update_timer controlled advance second_up
late-carries = refl

set_time-keeps :
    set_time ulp_ops 7 (negsuc 0) (pos 3) (negsuc 4) late.time
    ≡ record { milliseconds = 7; seconds = pos 59; minutes = pos 3; hours = pos 0 }
unfolding set_time
set_time-keeps = refl

late-IsTime : IsTime late.time
late-IsTime = ground arith

update_timer-IsTime_example :
    IsTime (update_timer ulp_ops (record released { hold_right = true }) 1 late).time
update_timer-IsTime_example =
    update_timer-IsTime ulp_ops (record released { hold_right = true }) 1 late late-IsTime refl
