-- ===== src/Task/Sleep.antt =====
-- `Sleep`, `Wakeup`, `SendMessage` and `ReceiveMessage` of src/kernel/task.cpp.
use mikanos.Prelude.{
  ℕ, true, false, ◌||◌, Option, none, some, [], ◌∷◌, ◌++◌, ◌==◌, ltb, if◌then◌else◌, ◌>>=◌,
  erase_all,
}
use mikanos.Prelude.Int.{ℤ, pos, negsuc}
use mathlib.Core.Option
use mikanos.Error.{Error, success, no_such_task}
use mikanos.Message.{Message}
use mikanos.Task.State.{
  Task, TaskManager, max_level, find_task, update_task, set_level, set_running,
}
use mikanos.Task.RunQueue.{set_queue, current_task, rotate_current_run_queue, change_level_running}

-- A sleeping task starts to run at `level`.
unfoldable pub start_running : TaskManager → Task → ℕ → TaskManager
unfolding set_queue update_task
start_running s t level = record s {
  tasks = update_task t.id (λ u. set_running true (set_level level u)) s.tasks;
  running = set_queue s.running level (s.running level ++ t.id ∷ []);
  level_changed = ltb s.current_level level || s.level_changed;
}

-- `level < 0` stands for the task's own level.
abbrev pub level_or_own : ℤ → Task → ℕ
level_or_own (pos level) t = level
level_or_own (negsuc n) t = t.level

-- `Wakeup(Task*, int)`
unfoldable pub wakeup : TaskManager → ℕ → ℤ → Option TaskManager
unfolding find_task change_level_running start_running
wakeup s task level = do
  t ← find_task task s.tasks
  if t.running
      then change_level_running s t level
      else if ltb max_level (level_or_own level t)
      then none
      else some (start_running s t (level_or_own level t))

-- The current task goes to sleep: `SwitchContext` saves it and goes on with the task returned.
unfoldable pub sleep_current : TaskManager → Option (TaskManager × Option ℕ)
unfolding rotate_current_run_queue current_task
sleep_current s = do
  (s', _) ← rotate_current_run_queue s true
  next ← current_task s'
  some (s', some next)

-- `SetRunning(false)`, for the task that `Sleep` is called on.
unfoldable pub stop_running : TaskManager → Task → TaskManager
unfolding update_task
stop_running s t = record s { tasks = update_task t.id (set_running false) s.tasks }

-- A task that is not the current one leaves its queue.
unfoldable pub leave_queue : TaskManager → Task → TaskManager
unfolding set_queue
leave_queue s t = record s {
  running = set_queue s.running t.level (erase_all t.id (s.running t.level));
}

-- The rest of `Sleep(Task*)`, for a task that runs.
unfoldable pub sleep_running : TaskManager → Task → Option (TaskManager × Option ℕ)
unfolding sleep_current stop_running leave_queue
sleep_running s t = do
  current ← current_task (stop_running s t)
  if t.id == current
      then sleep_current (stop_running s t)
      else some (leave_queue (stop_running s t) t, none)

-- `Sleep(Task*)`
unfoldable pub sleep : TaskManager → ℕ → Option (TaskManager × Option ℕ)
unfolding find_task sleep_running
sleep s task = do
  t ← find_task task s.tasks
  if t.running then sleep_running s t else some (s, none)

-- `Sleep(uint64_t)` and `Wakeup(uint64_t, int)`: the same by id, with an error for a missing task.
unfoldable pub sleep_by_id : TaskManager → ℕ → Option ((TaskManager × Option ℕ) × Error)
unfolding sleep
sleep_by_id s id = elim (find_task id s.tasks) [
  | none ↦ some ((s, none), no_such_task)
  | some t ↦ Option.map (λ r. (r, success)) (sleep s id)
]

unfoldable pub wakeup_by_id : TaskManager → ℕ → ℤ → Option (TaskManager × Error)
unfolding wakeup
wakeup_by_id s id level = elim (find_task id s.tasks) [
  | none ↦ some (s, no_such_task)
  | some t ↦ Option.map (λ r. (r, success)) (wakeup s id level)
]

-- `Task::SendMessage`, `TaskManager::SendMessage` and `Task::ReceiveMessage`.
abbrev pub push_message : Message → Task → Task
push_message msg t = record t { msgs = t.msgs ++ msg ∷ [] }

unfoldable pub task_send_message : TaskManager → ℕ → Message → Option TaskManager
unfolding wakeup
task_send_message s task msg =
    wakeup (record s { tasks = update_task task (push_message msg) s.tasks }) task (negsuc 0)

unfoldable pub send_message : TaskManager → ℕ → Message → Option (TaskManager × Error)
unfolding task_send_message
send_message s id msg = elim (find_task id s.tasks) [
  | none ↦ some (s, no_such_task)
  | some t ↦ Option.map (λ r. (r, success)) (task_send_message s id msg)
]

unfoldable pub receive_message : Task → Task × Option Message
receive_message t = elim t.msgs [ [] ↦ (t, none) | m ∷ rest ↦ (record t { msgs = rest }, some m) ]
