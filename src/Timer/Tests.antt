-- ===== src/Timer/Tests.antt =====
-- A tick that ends a message timer and a task timer.
use mikanos.Prelude.{refl, [], ◌∷◌, arith, Returns}
use mikanos.Prelude.Int.{pos}
use mikanos.Task.Context.{zero_context}
use mikanos.Task.State.{TaskManager}
use mikanos.Task.Switch.{init_manager}
use mikanos.Task.Invariant.{IsValid}
use mikanos.Task.History.{init-IsValid}
use mikanos.Timer.{Timer, TimerManager, sentinel, tick, on_interrupt}
use mikanos.Timer.Queue.{pending}
use mikanos.Timer.Ready.{IsReady, IsTicked, tick_lem, IsInterrupted, on_interrupt_lem}

abbrev tasks : TaskManager
tasks = init_manager (record { cr3 = 4096; stack_end = 65535 }) 1000

tasks-IsValid : IsValid tasks
tasks-IsValid = init-IsValid (record { cr3 = 4096; stack_end = 65535 }) 1000

abbrev period : Timer
period = record { timeout = 5; value = pos (2147483647); task_id = 1 }

-- Tick 4: at tick 5 a cursor timer and the task timer are due.
abbrev timers : TimerManager
timers = record {
  tick = 4;
  timers = record { timeout = 5; value = pos 1; task_id = 1 } ∷ period ∷ sentinel ∷ [];
}

timers-IsReady : IsReady timers
unfolding pending
timers-IsReady = record { in_order = omega arith; endless = refl }

tick_example : Returns (tick timers tasks) (IsTicked timers tasks)
tick_example = tick_lem timers tasks timers-IsReady (omega arith) tasks-IsValid

on_interrupt_example :
    Returns (on_interrupt timers tasks zero_context) (IsInterrupted timers tasks zero_context)
on_interrupt_example =
    on_interrupt_lem timers tasks zero_context timers-IsReady (omega arith) tasks-IsValid
