-- ===== src/Timer/Ready.antt =====
-- `Tick`, `AddTimer` and the timer interrupt on a queue that is ready.
use mathlib.Core.Option
use mikanos.Prelude.{
  ℕ, suc, ◌+◌, ◌-◌, ◌%◌, ◌^◌, ◌<◌, ◌≡◌, refl, Bool, true, false, Option, none, some, List, [], ◌∷◌,
  arith, if◌then◌else◌, length, is_empty, Bool-cases, inl, inr, Returns, Returns->>=, Returns-map,
}
use mikanos.Task.Context.{TaskContext}
use mikanos.Task.State.{TaskManager}
use mikanos.Task.Switch.{switch_task}
use mikanos.Task.Invariant.{IsValid, Current, current-Current}
use mikanos.Timer.{
  Timer, TimerManager, is_task_timer, push, next_period, add_timer, init_timers, tick_loop, tick,
  on_interrupt, task_timer_period,
}
use mikanos.Timer.Queue.{
  IsSortedFrom, due, pending, push-IsSortedFrom, length-due, pending_mono, pending-pending,
  pending-push_busy,
}
use mikanos.Timer.Tick.{Ticked, loop-Ticked, rearm}
use mikanos.Task.Turn.{IsSwitched, switch_task_lem}

-- The last tick that the count comes to.
abbrev last_tick : ℕ
last_tick = 2 ^ 64 - 2

-- The queue is in order, and holds a timer that never ends.
pub record IsReady (m : TimerManager) : Type 0 where
  pub in_order : IsSortedFrom 0 m.timers
  pub endless : is_empty (pending last_tick m.timers) ≡ false

-- `AddTimer` keeps a ready queue ready: in order, and with a timer that never ends.
pub add_timer-IsReady : (m : TimerManager) (t : Timer) → IsReady m → IsReady (add_timer m t)
unfolding add_timer
add_timer-IsReady m t k = record {
  in_order = push-IsSortedFrom 0 t m.timers (omega arith) k.in_order;
  endless = pending-push_busy last_tick t m.timers k.endless;
}

pub init_timers-IsReady : IsReady init_timers
unfolding init_timers push pending
init_timers-IsReady = record { in_order = omega arith; endless = refl }

rearm_endless :
    (now : ℕ) (ended rest : List Timer)
    → is_empty (pending last_tick rest) ≡ false
    → is_empty (pending last_tick (rearm now ended rest)) ≡ false
unfolding rearm
rearm_endless now [] rest e = e
rearm_endless now (t ∷ ended) rest e = elim (Bool-cases (is_task_timer t)) [
  | inl period ↦ rw period (
      rearm_endless now ended (push (next_period now) rest)
        (pending-push_busy last_tick (next_period now) rest e))
  | inr message ↦ rw message (rearm_endless now ended rest e)
]

-- How a call of `Tick` ends.
pub record IsTicked (m : TimerManager) (s : TaskManager) (r : (TimerManager × TaskManager) × Bool)
    : Type 0 where
  pub ready : IsReady r.0.0
  pub counted : r.0.0.tick ≡ m.tick + 1
  pub ended :
      Ticked
        (m.tick + 1)
        (due (m.tick + 1) m.timers)
        (pending (m.tick + 1) m.timers)
        s
        false
        (r.0.0.timers, r.0.1, r.1)

-- While ticks are left, `Tick` is defined for a ready queue and valid tasks. The count goes up by
-- one. The timers that are due then, and no others, end: each that is not a task timer sends its
-- message, in the order of the timeouts, and each task timer goes back in for its next period. No
-- timer left is due, the result says whether a task timer ended, and queue and tasks stay valid.
pub tick_lem :
    (m : TimerManager) (s : TaskManager)
    → IsReady m
    → m.tick + 1 + task_timer_period < 2 ^ 64
    → IsValid s
    → Returns (tick m s) (IsTicked m s)
unfolding tick
tick_lem m s k h v =
    let now : ℕ = m.tick + 1 in
    let counted : now % 2 ^ 64 ≡ now = omega arith in
    rw counted (
      Returns->>= (tick_loop (suc (length m.timers)) now m.timers s false) _
        (Ticked now (due now m.timers) (pending now m.timers) s false) (IsTicked m s)
        (loop-Ticked (suc (length m.timers)) now m.timers s false (record {
          ticks_left = h;
          fuel_left = omega (arith, length-due now m.timers);
          in_order = k.in_order;
          some_pending = pending_mono now last_tick m.timers (omega arith) k.endless;
          tasks = v;
        }))
        (λ r t. record {
          ready = record {
            in_order = t.sorted;
            endless = rw t.rearmed (
                rearm_endless now (due now m.timers) (pending now m.timers)
                  (rw (pending-pending now last_tick m.timers (omega arith)) k.endless));
          };
          counted = refl;
          ended = t;
        }))

-- How a timer interrupt ends: without a task timer the tasks run on, else `SwitchTask` is called.
pub data IsInterrupted (m : TimerManager) (s : TaskManager) (ctx : TaskContext)
    (r : (TimerManager × TaskManager) × Option TaskContext) : Type 0 where
  runs_on : IsTicked m s (r.0, false) → r.1 ≡ none → IsInterrupted m s ctx r
  switches :
      (s' : TaskManager) (c : Current s')
      → IsTicked m s ((r.0.0, s'), true)
      → IsSwitched s' ctx c (r.0.1, r.1)
      → IsInterrupted m s ctx r

after_tick :
    (m : TimerManager) (s : TaskManager) (ctx : TaskContext) (m' : TimerManager) (s' : TaskManager)
    (b : Bool)
    → IsTicked m s ((m', s'), b)
    → Returns
        (if b
          then Option.map (λ r. ((m', r.0), r.1)) (switch_task s' ctx)
          else some ((m', s'), none))
        (IsInterrupted m s ctx)
after_tick m s ctx m' s' true k =
    let c = current-Current s' k.ended.valid in
    Returns-map (switch_task s' ctx) (λ r. ((m', r.0), r.1)) (IsSwitched s' ctx c)
      (IsInterrupted m s ctx) (switch_task_lem s' ctx c k.ended.valid) (λ r t. switches s' c k t)
after_tick m s ctx m' s' false k = runs_on k refl

-- While ticks are left, the timer interrupt is defined for a ready queue and valid tasks. It ticks
-- once; then the tasks go on as they are when no task timer ended, and otherwise the context is
-- stored in the current task and the scheduler switches.
pub on_interrupt_lem :
    (m : TimerManager) (s : TaskManager) (ctx : TaskContext)
    → IsReady m
    → m.tick + 1 + task_timer_period < 2 ^ 64
    → IsValid s
    → Returns (on_interrupt m s ctx) (IsInterrupted m s ctx)
unfolding on_interrupt
on_interrupt_lem m s ctx k h v =
    Returns->>= (tick m s) _ (IsTicked m s) (IsInterrupted m s ctx) (tick_lem m s k h v)
      (λ r t. after_tick m s ctx r.0.0 r.0.1 r.1 t)
