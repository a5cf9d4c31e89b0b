-- ===== src/Syscall/Events/Tests.antt =====
-- A key, a press of Control and Q, and a message without an event.
use mikanos.Prelude.{◌^◌, ◌≡◌, refl, false, some, List, [], ◌∷◌, arith}
use mikanos.Prelude.Int.{pos}
use mikanos.Message.{Message, key_push, layer_finish}
use mikanos.Timer.{Timer, add_timer, init_timers, is_task_timer, timeout_message}
use mikanos.Timer.Ready.{IsReady, init_timers-IsReady}
use mikanos.Syscall.{no_error}
use mikanos.Syscall.Events.{
  to_app_event, timer_ended, quit, key_pushed, returns, read_events, read_event, create_timer,
}
use mikanos.Syscall.Events.Queue.{IsTaken, read_event-IsTaken, create_timer_lem}

abbrev three_messages : List Message
three_messages =
    record { src_task = 0; arg = key_push 0 4 97 (pos 1) }
    ∷ record { src_task = 0; arg = layer_finish }
    ∷ record { src_task = 0; arg = key_push 1 20 113 (pos 1) }
    ∷ []

two_events : read_event (2 ^ 63) 8 three_messages ≡ (
  [],
  (key_pushed 0 4 97 (pos 1) ∷ quit ∷ [], returns (record { value = 2; error = no_error })),
)
unfolding read_event read_events
two_events = refl

read_event-IsTaken_example :
    IsTaken 1 [] three_messages
      (read_event (2 ^ 63) 1 three_messages).0
      (read_event (2 ^ 63) 1 three_messages).1.0
      (read_event (2 ^ 63) 1 three_messages).1.1
read_event-IsTaken_example = read_event-IsTaken (2 ^ 63) 1 three_messages (omega arith)

create_timer_example :
    (t : Timer) × ((create_timer init_timers 3 1 7 500).0 ≡ add_timer init_timers t)
    × ((create_timer init_timers 3 1 7 500).1.error ≡ no_error)
    × IsReady (create_timer init_timers 3 1 7 500).0
    × (t.task_id ≡ 3)
    × (is_task_timer t ≡ false)
    × (to_app_event (timeout_message t).arg ≡ some (timer_ended t.timeout (pos 7)))
create_timer_example =
    create_timer_lem init_timers 3 1 7 500 init_timers-IsReady (omega arith) (omega arith)
