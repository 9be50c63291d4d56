-- ===== src/Ladder/Timer.antt =====
-- The timers of plc/ladder/state.go and plc/ladder/ladder.go. Times and durations are nanoseconds.
-- A negative preset acts as 0: it is only compared with an accumulator that is never negative.
pub mod Delay
use tentacle_next.Prelude.{ℕ, ◌+◌, ◌-◌, Bool, true, false, not, ◌&&◌, leb, if◌then◌else◌}

pub record TimerState : Type 0 where
  pub preset : ℕ
  pub acc : ℕ
  pub dn : Bool
  pub en : Bool
  pub tt : Bool
  pub last_tick : ℕ
  pub prev_en : Bool

-- &timerState{Preset: preset}; the zero time of `lastTick` is never read.
abbrev pub new_timer : ℕ → TimerState
new_timer preset = record {
  preset = preset;
  acc = 0;
  dn = false;
  en = false;
  tt = false;
  last_tick = 0;
  prev_en = false;
}

-- t.ACC += now.Sub(t.lastTick); t.lastTick = now. The clock is monotonic.
abbrev accumulate : ℕ → TimerState → TimerState
accumulate now t = record t { acc = t.acc + (now - t.last_tick); last_tick = now }

-- The first `if` of the on-delay timer: timing starts.
abbrev start_timing : ℕ → TimerState → TimerState
start_timing now t = if t.tt then t else record t { tt = true; last_tick = now }

abbrev finish_on : TimerState → TimerState
finish_on t = if leb t.preset t.acc then record t { dn = true; tt = false } else t

-- tonTimer.evaluate, on the timer that it names.
unfoldable pub ton : ℕ → Bool → TimerState → TimerState
ton now true t =
    if t.dn
    then record t { en = true; last_tick = now }
    else finish_on (accumulate now (start_timing now (record t { en = true })))
ton now false t = record t { acc = 0; dn = false; en = false; tt = false }

abbrev finish_off : TimerState → TimerState
finish_off t = if leb t.preset t.acc then record t { dn = false; tt = false; en = false } else t

-- The falling edge starts the off-delay.
abbrev start_off : ℕ → TimerState → TimerState
start_off now t = if t.prev_en then record t { tt = true; last_tick = now } else t

abbrev time_off : ℕ → TimerState → TimerState
time_off now t = if t.tt then finish_off (accumulate now t) else t

-- tofTimer.evaluate, on the timer that it names.
unfoldable pub tof : ℕ → Bool → TimerState → TimerState
tof now true t = record t {
  dn = true;
  en = true;
  tt = false;
  acc = 0;
  last_tick = now;
  prev_en = true;
}
tof now false t = record (time_off now (start_off now t)) { prev_en = false }
