-- ===== src/Timer.antt =====
-- mod/src/server/gamemode/GameModeTimer.hpp and mod/src/server/hns/GameModeTimer.cpp: the clock that
-- the game modes show. The frame's `Time::deltaTime` and the buttons held are arguments.
pub mod Laws
mod Tests
use smoo_bazel.Base.{
  Bool, true, false, not, if◌then◌else◌, inc, dec, is_neg, ltb_ℤ, leb_ℤ, eq_ℤ, ℤ, pos, Float,
  f_zero, f_one, FloatOps,
}

-- `struct GameTime`
pub record GameTime : Type 0 where
  pub milliseconds : Float
  pub seconds : ℤ
  pub minutes : ℤ
  pub hours : ℤ

pub record Timer : Type 0 where
  pub is_count_up : Bool
  pub is_enabled : Bool
  pub is_use_control : Bool
  pub time : GameTime

-- What `al::isPadHoldL`, `isPadTriggerDown`, `isPadHoldRight` and `isPadTriggerLeft` return.
pub record Pad : Type 0 where
  pub hold_l : Bool
  pub trigger_down : Bool
  pub hold_right : Bool
  pub trigger_left : Bool

abbrev pub time_zero : GameTime
time_zero = record { milliseconds = f_zero; seconds = pos 0; minutes = pos 0; hours = pos 0 }

-- A negative argument leaves its field alone.
pub set_time : FloatOps → Float → ℤ → ℤ → ℤ → GameTime → GameTime
set_time fl milli s m h t = record {
  milliseconds = if fl.le f_zero milli then milli else t.milliseconds;
  seconds = if is_neg s then t.seconds else s;
  minutes = if is_neg m then t.minutes else m;
  hours = if is_neg h then t.hours else h;
}

-- `GameModeTimer(GameTime const&)`
pub from_time : GameTime → Timer
from_time t = record { is_count_up = true; is_enabled = false; is_use_control = true; time = t }

-- `GameModeTimer()`
pub new_timer : FloatOps → Timer
unfolding set_time
new_timer fl = record {
  is_count_up = true;
  is_enabled = false;
  is_use_control = true;
  time = set_time fl f_zero (pos 0) (pos 0) (pos 0) time_zero;
}

unfoldable pub toggle_timer : Timer → Timer
toggle_timer t = record t { is_enabled = not t.is_enabled }

unfoldable pub enable_timer : Timer → Timer
enable_timer t = record t { is_enabled = true }

unfoldable pub disable_timer : Timer → Timer
disable_timer t = record t { is_enabled = false }

-- `mSeconds++` with its carries into minutes and hours.
second_up : GameTime → GameTime
second_up t =
    if leb_ℤ (pos 60) (inc t.seconds)
    then (if leb_ℤ (pos 60) (inc t.minutes)
        then record t { seconds = pos 0; minutes = pos 0; hours = inc t.hours }
        else record t { seconds = pos 0; minutes = inc t.minutes })
    else record t { seconds = inc t.seconds }

-- `mSeconds--` of `updateTimer`: out of hours the timer stops, with the borrow left standing.
second_down : Timer → Timer
second_down t =
    if is_neg (dec g.seconds)
    then (if is_neg (dec g.minutes)
        then (if ltb_ℤ (pos 0) g.hours
            then record t {
              time = record g { seconds = pos 59; minutes = pos 59; hours = dec g.hours };
            }
            else record t {
              is_enabled = false;
              time = record g { seconds = pos 59; minutes = dec g.minutes };
            })
        else record t { time = record g { seconds = pos 59; minutes = dec g.minutes } })
    else record t { time = record g { seconds = dec g.seconds } }
  where
    open t use {time as g}

-- `mSeconds--` of `timerControl`: out of hours the minutes stay at 0.
step_back : GameTime → GameTime
step_back g =
    if is_neg (dec g.seconds)
    then (if is_neg (dec g.minutes)
        then (if ltb_ℤ (pos 0) g.hours
            then record g { seconds = pos 59; minutes = pos 59; hours = dec g.hours }
            else record g { seconds = pos 59; minutes = pos 0 })
        else record g { seconds = pos 59; minutes = dec g.minutes })
    else record g { seconds = dec g.seconds }

-- The last `if` of `timerControl`.
control_left : Pad → GameTime → GameTime
control_left p g =
    if p.trigger_left
    then (if eq_ℤ g.minutes (pos 0)
        then record g { milliseconds = f_zero }
        else step_back (record g { milliseconds = f_zero }))
    else g

timer_control : Pad → GameTime → GameTime
timer_control p g =
    if p.hold_l
    then (if p.trigger_down then time_zero else g)
    else control_left p (if p.hold_right then second_up (record g { milliseconds = f_zero }) else g)

-- `updateTimer` after its call of `timerControl`.
advance : FloatOps → Float → Timer → Timer
advance fl delta t =
    if t.is_enabled
    then (if fl.le f_one milli
        then (if t.is_count_up
            then record t { time = second_up (record g { milliseconds = fl.sub milli f_one }) }
            else second_down (record t { time = record g { milliseconds = fl.sub milli f_one } }))
        else record t { time = record g { milliseconds = milli } })
    else t
  where
    open t use {time as g}

    milli : Float
    milli = fl.add g.milliseconds delta

controlled : Pad → Timer → Timer
controlled pad t = if t.is_use_control then record t { time = timer_control pad t.time } else t

pub update_timer : FloatOps → Pad → Float → Timer → Timer
update_timer fl pad delta t = advance fl delta (controlled pad t)
