-- ===== src/Timer/Laws.antt =====
-- What the game-mode clock keeps and counts.
use smoo_bazel.Base.{
  ℕ, ◌+◌, ◌*◌, ◌<◌, ◌≡◌, ap, true, false, ◌&&◌, arith, if◌then◌else◌, if_intro, pos_part, is_neg,
  pos, negsuc, Float, f_zero, f_one, FloatOps,
}
use smoo_bazel.Timer.{
  second_up, second_down, step_back, control_left, timer_control, advance, controlled, update_timer,
  GameTime, Timer, Pad,
}

-- A time of day: no field is negative, and seconds and minutes are below 60.
pub record IsTime (g : GameTime) : Type 0 where
  pub seconds_in : (is_neg g.seconds ≡ false) × (pos_part g.seconds < 60)
  pub minutes_in : (is_neg g.minutes ≡ false) × (pos_part g.minutes < 60)
  pub hours_in : is_neg g.hours ≡ false

-- The seconds that a time of day stands for.
abbrev pub elapsed : GameTime → ℕ
elapsed g = pos_part g.hours * 3600 + pos_part g.minutes * 60 + pos_part g.seconds

second_up_lem :
    (g : GameTime) → IsTime g → IsTime (second_up g) × (elapsed (second_up g) ≡ elapsed g + 1)
unfolding second_up
second_up_lem g v = ground arith

second_down-tick :
    (t : Timer)
    → IsTime t.time
    → 0 < elapsed t.time
    → IsTime (second_down t).time
      × (elapsed (second_down t).time + 1 ≡ elapsed t.time)
      × ((second_down t).is_enabled ≡ t.is_enabled)
unfolding second_down
second_down-tick t v h = ground arith

second_down-end :
    (t : Timer)
    → IsTime t.time
    → elapsed t.time ≡ 0
    → ((second_down t).is_enabled ≡ false)
      × ((second_down t).time.minutes ≡ negsuc 0)
      × ((second_down t).time.seconds ≡ pos 59)
unfolding second_down
second_down-end t v h = ground arith

second_down-expired :
    (t : Timer)
    → IsTime t.time
    → elapsed t.time ≡ 0
    → ((second_down t).is_enabled ≡ false)
      × ((second_down t).time.minutes ≡ negsuc 0)
      × ((second_down t).time.seconds ≡ pos 59)
      × ¬ IsTime (second_down t).time
second_down-expired t v h =
    let (stopped, m, s) = second_down-end t v h in
    (stopped, m, s, λ w. ground (arith, ap is_neg m, w.minutes_in.0))

step_back-IsTime : (g : GameTime) → IsTime g → IsTime (step_back g)
unfolding step_back
step_back-IsTime g v = ground arith

control_left-IsTime : (p : Pad) (g : GameTime) → IsTime g → IsTime (control_left p g)
unfolding control_left
control_left-IsTime p g v = ground (arith, step_back-IsTime (record g { milliseconds = f_zero }))

-- Whatever is held on the controller, `timerControl` turns a time of day into one.
timer_control-IsTime : (p : Pad) (g : GameTime) → IsTime g → IsTime (timer_control p g)
unfolding timer_control
timer_control-IsTime p g v =
    if_intro IsTime p.hold_l (if_intro IsTime p.trigger_down (ground arith) v) (
      control_left-IsTime p _ (
        if_intro IsTime p.hold_right
          (second_up_lem (record g { milliseconds = f_zero }) (ground arith)).0 v))

advance-up :
    (fl : FloatOps) (delta : Float) (t : Timer)
    → IsTime t.time
    → t.is_count_up ≡ true
    → IsTime (advance fl delta t).time
      × (elapsed (advance fl delta t).time
          ≡ elapsed t.time
            + (if t.is_enabled && fl.le f_one (fl.add t.time.milliseconds delta) then 1 else 0))
unfolding advance
advance-up fl delta t v up =
    ground (
      arith,
      second_up_lem (record g { milliseconds = fl.sub (fl.add g.milliseconds delta) f_one }),
    )
  where
    open t use {time as g}

controlled-off : (p : Pad) (t : Timer) → t.is_use_control ≡ false → controlled p t ≡ t
unfolding controlled
controlled-off p t off = ground arith

controlled-IsTime :
    (p : Pad) (t : Timer)
    → IsTime t.time
    → t.is_count_up ≡ true
    → IsTime (controlled p t).time × ((controlled p t).is_count_up ≡ true)
unfolding controlled
controlled-IsTime p t v up = ground (arith, timer_control-IsTime p t.time)

-- With the buttons off, a frame moves a counting-up clock that shows a time of day on by one second
-- exactly when it is enabled and its milliseconds reach 1, and the result is a time of day.
pub update_timer-up :
    (fl : FloatOps) (p : Pad) (delta : Float) (t : Timer)
    → IsTime t.time
    → t.is_count_up ≡ true
    → t.is_use_control ≡ false
    → IsTime (update_timer fl p delta t).time
      × (elapsed (update_timer fl p delta t).time
          ≡ elapsed t.time
            + (if t.is_enabled && fl.le f_one (fl.add t.time.milliseconds delta) then 1 else 0))
unfolding update_timer
update_timer-up fl p delta t v up off = rw (controlled-off p t off) (advance-up fl delta t v up)

-- A counting-up clock that shows a time of day shows one after every frame, whatever is held on the
-- controller.
pub update_timer-IsTime :
    (fl : FloatOps) (p : Pad) (delta : Float) (t : Timer)
    → IsTime t.time
    → t.is_count_up ≡ true
    → IsTime (update_timer fl p delta t).time
unfolding update_timer
update_timer-IsTime fl p delta t v up =
    let (w, up') = controlled-IsTime p t v up in (advance-up fl delta (controlled p t) w up').0

module _ (fl : FloatOps) (delta : Float) (t : Timer) (down : t.is_count_up ≡ false)
    (running : t.is_enabled ≡ true)
    (full : fl.le f_one (fl.add t.time.milliseconds delta) ≡ true) where
  at_second : Timer
  at_second = record t {
    time = record (t.time) { milliseconds = fl.sub (fl.add t.time.milliseconds delta) f_one };
  }

  advance-down : advance fl delta t ≡ second_down at_second
  unfolding advance at_second
  advance-down = ground arith

-- A frame in which the milliseconds of a running count-down reach 1 takes one second off and
-- leaves it running, with the buttons off, a time of day on the clock and time left.
pub update_timer-down :
    (fl : FloatOps) (p : Pad) (delta : Float) (t : Timer)
    → IsTime t.time
    → t.is_count_up ≡ false
    → t.is_use_control ≡ false
    → t.is_enabled ≡ true
    → fl.le f_one (fl.add t.time.milliseconds delta) ≡ true
    → 0 < elapsed t.time
    → IsTime (update_timer fl p delta t).time
      × (elapsed (update_timer fl p delta t).time + 1 ≡ elapsed t.time)
      × ((update_timer fl p delta t).is_enabled ≡ true)
unfolding update_timer at_second
update_timer-down fl p delta t v down off running full h =
    rw (controlled-off p t off, advance-down fl delta t down running full)
      (ground (arith, second_down-tick (at_second fl delta t down running full)))

-- A running count-down at 0:00:00 stops in the frame in which the milliseconds reach 1, and then
-- shows -1 minutes and 59 seconds, which is no time of day; with the buttons off.
pub update_timer-expired :
    (fl : FloatOps) (p : Pad) (delta : Float) (t : Timer)
    → IsTime t.time
    → t.is_count_up ≡ false
    → t.is_use_control ≡ false
    → t.is_enabled ≡ true
    → fl.le f_one (fl.add t.time.milliseconds delta) ≡ true
    → elapsed t.time ≡ 0
    → ((update_timer fl p delta t).is_enabled ≡ false)
      × ((update_timer fl p delta t).time.minutes ≡ negsuc 0)
      × ((update_timer fl p delta t).time.seconds ≡ pos 59)
      × ¬ IsTime (update_timer fl p delta t).time
unfolding update_timer at_second
update_timer-expired fl p delta t v down off running full h =
    rw (controlled-off p t off, advance-down fl delta t down running full)
      (second_down-expired (at_second fl delta t down running full) (ground arith) h)

-- A frame of a counting-up clock leaves its switches alone.
pub update_timer-switches :
    (fl : FloatOps) (pad : Pad) (delta : Float) (t : Timer)
    → t.is_count_up ≡ true
    → ((update_timer fl pad delta t).is_enabled ≡ t.is_enabled)
      × ((update_timer fl pad delta t).is_count_up ≡ true)
unfolding update_timer advance controlled
update_timer-switches fl pad delta t h = ground arith
