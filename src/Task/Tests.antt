-- ===== src/Task/Tests.antt =====
-- The scheduler from its constructor on, and with a third task.
use mikanos.Prelude.{
  ◌+◌, ◌^◌, ◌<◌, ◌≡◌, ◌≢◌, refl, true, false, none, some, [], ◌∷◌, arith, Returns,
}
use mikanos.Prelude.Int.{pos}
use mikanos.Prelude.Dict
use mikanos.Message.{layer_finish}
use mikanos.Task.Context.{zero_context, Machine}
use mikanos.Task.State.{Task, TaskManager, fresh_task, find_task, update_task, new_task}
use mikanos.Task.RunQueue.{set_queue, current_task}
use mikanos.Task.Sleep.{wakeup, sleep, send_message}
use mikanos.Task.Switch.{switch_task, finish, waiting, wait_finish, init_manager}
use mikanos.Task.Invariant.{IsValid, Current, is_running, idle_id}
use mikanos.Task.Wake.{IsWoken, wakeup_lem}
use mikanos.Task.Stop.{IsSlept, sleep_lem}
use mikanos.Task.Turn.{IsSwitched, switch_task_lem}
use mikanos.Task.End.{WaiterLives, IsFinished, finish_lem, relabel-IsValid}
use mikanos.Task.Await.{wait_finish_pending}
use mikanos.Task.Post.{IsSent, send_message_lem}
use mikanos.Task.History.{
  makes, step, Reach, starts, after, make, send, Reach-step, sends, init-IsValid, new_task-IsValid,
}

abbrev machine : Machine
machine = record { cr3 = 4096; stack_end = 65535 }

abbrev boot : TaskManager
boot = init_manager machine 1000

abbrev three : TaskManager
three = new_task boot

ids_left : boot.latest_id + 1 < 2 ^ 64
unfolding init_manager new_task
ids_left = omega arith

three-IsValid : IsValid three
three-IsValid = new_task-IsValid boot ids_left (init-IsValid machine 1000)

abbrev main_task : Task
main_task = record {
  id = 1;
  context = zero_context;
  os_stack_ptr = 0;
  msgs = [];
  level = 3;
  running = true;
  dpaging_begin = 0;
  dpaging_end = 0;
  file_map_end = 0;
  file_maps = [];
}

abbrev third_task : Task
third_task = record main_task { id = 3; level = 1; running = false }

main_found : find_task 1 three.tasks ≡ some main_task
unfolding init_manager new_task fresh_task find_task update_task zero_context
main_found = refl

third_found : find_task 3 three.tasks ≡ some third_task
unfolding init_manager new_task fresh_task find_task update_task zero_context
third_found = refl

main_queue : three.running three.current_level ≡ 1 ∷ []
unfolding init_manager new_task set_queue
main_queue = refl

main_level : main_task.level ≡ three.current_level
unfolding init_manager new_task
main_level = refl

-- The main task is current.
abbrev main_current : Current three
main_current = record {
  front = 1;
  rest = [];
  task = main_task;
  queue = main_queue;
  found = main_found;
  runs = refl;
  at_level = main_level;
  is_front = refl;
}

not_idle : main_current.front ≢ idle_id
not_idle = omega arith

no_waiter : three.finish_waiter ≡ []
unfolding init_manager new_task
no_waiter = refl

no_exit : three.finish_tasks ≡ []
unfolding init_manager new_task
no_exit = refl

main-WaiterLives : WaiterLives three 1
unfolding Dict.lookup
main-WaiterLives = rw no_waiter (λ w e. cc)

three-Reach : Reach machine 1000 three
unfolding step
three-Reach = after makes starts (make ids_left) refl

Reach-step_example :
    IsValid three
    × Returns (step three (sends 3 (record { src_task = 1; arg = layer_finish }))) IsValid
Reach-step_example =
    Reach-step (sends 3 (record { src_task = 1; arg = layer_finish })) three-Reach
      (send 3 (record { src_task = 1; arg = layer_finish }))

switch_task_example :
    Returns (switch_task three zero_context) (IsSwitched three zero_context main_current)
switch_task_example = switch_task_lem three zero_context main_current three-IsValid

wakeup_example : Returns (wakeup three 3 (pos 2)) (IsWoken three 3 2)
wakeup_example = wakeup_lem three 3 (pos 2) three-IsValid third_found (omega arith)

sleep_example : Returns (sleep three 1) (IsSlept three 1)
sleep_example = sleep_lem three 1 three-IsValid main_found not_idle

finish_example : Returns (finish three (pos 7)) (IsFinished three 1 (pos 7))
finish_example = finish_lem three (pos 7) main_current three-IsValid not_idle main-WaiterLives

-- Task 5 has ended with exit code 9.
abbrev ended : TaskManager
ended = record three { finish_tasks = (5, pos 9) ∷ []; finish_waiter = [] }

ended_code : Dict.lookup 5 ended.finish_tasks ≡ some (pos 9)
unfolding Dict.lookup
ended_code = refl

ended-IsValid : IsValid ended
ended-IsValid = relabel-IsValid three ((5, pos 9) ∷ []) [] three-IsValid

no_code : Dict.lookup 3 three.finish_tasks ≡ none
unfolding Dict.lookup
no_code = rw no_exit refl

wait_finish_pending_example : Returns (wait_finish three 3) (λ r.
    (r.1 ≡ waiting (current_task r.0))
    × IsValid r.0
    × (Dict.lookup 3 r.0.finish_waiter ≡ some 1)
    × (is_running (find_task 1 r.0.tasks) ≡ false)
    × (r.0.finish_tasks ≡ three.finish_tasks))
wait_finish_pending_example =
    wait_finish_pending three 3 main_current three-IsValid not_idle no_code

send_message_example :
    Returns
      (send_message three 3 (record { src_task = 1; arg = layer_finish }))
      (IsSent three 3 (record { src_task = 1; arg = layer_finish }) (find_task 3 three.tasks))
send_message_example =
    send_message_lem three 3 (record { src_task = 1; arg = layer_finish }) three-IsValid
