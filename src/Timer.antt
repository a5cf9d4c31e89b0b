-- ===== src/Timer.antt =====
-- src/kernel/timer.hpp and timer.cpp: timers on the tick count, and the interrupt that switches tasks.
pub mod Queue
pub mod Tick
pub mod Ready
pub mod Tests
use mathlib.Core.Option
use mikanos.Prelude.{
  ℕ, zero, suc, ◌+◌, ◌-◌, ◌%◌, ◌^◌, Bool, true, false, Option, none, some, List, [], ◌∷◌, ◌==◌, ltb,
  if◌then◌else◌, ◌>>=◌, length,
}
use mikanos.Prelude.Int.{ℤ, pos, negsuc}
use mikanos.Message.{Message, timer_timeout}
use mikanos.Task.Context.{TaskContext}
use mikanos.Task.State.{TaskManager}
use mikanos.Task.Sleep.{send_message}
use mikanos.Task.Switch.{switch_task}

pub record Timer : Type 0 where
  pub timeout : ℕ
  pub value : ℤ
  pub task_id : ℕ

-- `timers_`, a priority queue whose top has the nearest timeout, is a list in the order of timeouts.
pub record TimerManager : Type 0 where
  pub tick : ℕ
  pub timers : List Timer

-- `kTimerFreq * 0.02`
abbrev pub task_timer_period : ℕ
task_timer_period = 2

-- `std::numeric_limits<int>::max()`
abbrev pub task_timer_value : ℕ
task_timer_value = 2 ^ 31 - 1

is_task_timer_value : ℤ → Bool
is_task_timer_value (pos n) = n == task_timer_value
is_task_timer_value (negsuc n) = false

unfoldable pub is_task_timer : Timer → Bool
unfolding is_task_timer_value
is_task_timer t = is_task_timer_value t.value

-- `timers_.push`: behind the timers that are not later.
unfoldable pub push : Timer → List Timer → List Timer
push t [] = t ∷ []
push t (u ∷ timers) =
    let later = push t timers in if ltb t.timeout u.timeout then t ∷ u ∷ timers else u ∷ later

-- `TimerManager::TimerManager`: a timer that never ends keeps the queue from being empty.
abbrev pub sentinel : Timer
sentinel = record { timeout = 2 ^ 64 - 1; value = pos 0; task_id = 0 }

unfoldable pub init_timers : TimerManager
unfolding push
init_timers = record { tick = 0; timers = push sentinel [] }

unfoldable pub add_timer : TimerManager → Timer → TimerManager
unfolding push
add_timer m t = record m { timers = push t m.timers }

-- The timer that the task timer is replaced by.
abbrev pub next_period : ℕ → Timer
next_period now = record {
  timeout = (now + task_timer_period) % 2 ^ 64;
  value = pos task_timer_value;
  task_id = 1;
}

abbrev pub timeout_message : Timer → Message
timeout_message t = record { src_task = 0; arg = timer_timeout t.timeout t.value }

-- The loop of `Tick` at tick `now`, on fuel. `top()` of an empty queue is undefined.
unfoldable pub tick_loop :
    ℕ → ℕ → List Timer → TaskManager → Bool → Option (List Timer × TaskManager × Bool)
tick_loop zero now timers s timed_out = none
tick_loop (suc fuel) now [] s timed_out = none
tick_loop (suc fuel) now (t ∷ timers) s timed_out =
    if ltb now t.timeout
    then some (t ∷ timers, s, timed_out)
    else if is_task_timer t
    then tick_loop fuel now (push (next_period now) timers) s true
    else (send_message s t.task_id (timeout_message t) >>= λ r.
        tick_loop fuel now timers r.0 timed_out)

-- `Tick`. A round ends a timer that was there at the start, so the fuel is enough.
unfoldable pub tick : TimerManager → TaskManager → Option ((TimerManager × TaskManager) × Bool)
unfolding tick_loop
tick m s = do
  let now = (m.tick + 1) % 2 ^ 64
  (timers, s', timed_out) ← tick_loop (suc (length m.timers)) now m.timers s false
  some ((record { tick = now; timers = timers }, s'), timed_out)

-- `LAPICTimerOnInterrupt`, less the end of the interrupt that it reports.
unfoldable pub on_interrupt :
    TimerManager
    → TaskManager
    → TaskContext
    → Option ((TimerManager × TaskManager) × Option TaskContext)
unfolding tick
on_interrupt m s ctx = do
  ((m', s'), timed_out) ← tick m s
  if timed_out
      then Option.map (λ r. ((m', r.0), r.1)) (switch_task s' ctx)
      else some ((m', s'), none)
