-- ===== src/Task/Switch.antt =====
-- `SwitchTask`, `Finish`, `WaitFinish` and the constructor of src/kernel/task.cpp.
use mikanos.Prelude.{ℕ, true, false, Option, none, some, [], ◌∷◌, ◌++◌, ◌==◌, if◌then◌else◌, ◌>>=◌}
use mikanos.Prelude.Int.{ℤ, negsuc}
use mathlib.Core.Option
use mikanos.Prelude.Dict
use mikanos.Task.Context.{TaskContext, Machine, init_context}
use mikanos.Task.State.{
  Task, TaskManager, max_level, find_task, update_task, erase_task, new_task, set_level,
  set_running,
}
use mikanos.Task.RunQueue.{set_queue, current_task, rotate_current_run_queue}
use mikanos.Task.Sleep.{wakeup, sleep}

abbrev pub store_context : TaskContext → Task → Task
store_context ctx t = record t { context = ctx }

-- `SwitchTask`: the second result is the context that `RestoreContext` loads.
unfoldable pub switch_task : TaskManager → TaskContext → Option (TaskManager × Option TaskContext)
unfolding rotate_current_run_queue current_task update_task find_task
switch_task s current_ctx = do
  running ← current_task s
  let saved = record s { tasks = update_task running (store_context current_ctx) s.tasks }
  (s', current) ← rotate_current_run_queue saved false
  next ← current_task s'
  t ← find_task next s'.tasks
  some (s', if next == current then none else some t.context)

-- The part of `Finish` that wakes the task that waits for `task_id`.
unfoldable pub wake_waiter : TaskManager → ℕ → Option TaskManager
unfolding wakeup
wake_waiter s task_id = elim (Dict.lookup task_id s.finish_waiter) [
  | none ↦ some s
  | some waiter ↦
      wakeup (record s { finish_waiter = Dict.erase task_id s.finish_waiter }) waiter (negsuc 0)
]

-- `tasks_.erase(it)` and `finish_tasks_[task_id] = exit_code`.
abbrev pub record_exit : TaskManager → ℕ → ℤ → TaskManager
record_exit s task_id exit_code = record s {
  tasks = erase_task task_id s.tasks;
  finish_tasks = Dict.insert task_id exit_code s.finish_tasks;
}

-- `Finish`: the second result is the task whose context `RestoreContext` loads.
unfoldable pub finish : TaskManager → ℤ → Option (TaskManager × ℕ)
finish s exit_code = do
  (s₁, current) ← rotate_current_run_queue s true
  t ← find_task current s₁.tasks
  s₂ ← wake_waiter (record_exit s₁ current exit_code) current
  next ← current_task s₂
  some (s₂, next)

-- One round of `WaitFinish` by the current task: the exit code, or the task that goes on while this
-- one sleeps; the loop goes on with another round when this one runs again.
pub data Wait : Type 0 where
  finished : ℤ → Wait
  waiting : Option ℕ → Wait

unfoldable pub wait_finish : TaskManager → ℕ → Option (TaskManager × Wait)
unfolding sleep
wait_finish s task_id = do
  current ← current_task s
  elim (Dict.lookup task_id s.finish_tasks) [
    | some exit_code ↦
        some (record s { finish_tasks = Dict.erase task_id s.finish_tasks }, finished exit_code)
    | none ↦
        Option.map (λ r. (r.0, waiting r.1))
          (sleep (record s { finish_waiter = Dict.insert task_id current s.finish_waiter }) current)
  ]

-- `TaskManager::TaskManager`: the main task at the top level, then the idle task at the bottom one.
unfoldable pub init_manager : Machine → ℕ → TaskManager
unfolding new_task update_task set_queue
init_manager w task_idle =
    let empty : TaskManager = record {
      tasks = [];
      latest_id = 0;
      running = λ _. [];
      current_level = max_level;
      level_changed = false;
      finish_tasks = [];
      finish_waiter = [];
    } in
    let main = new_task empty in
    let both = new_task (record main {
      tasks = update_task 1 (λ t. set_running true (set_level max_level t)) main.tasks;
      running = set_queue main.running max_level (main.running max_level ++ 1 ∷ []);
    }) in
    record both {
      tasks =
          update_task 2
            (λ t.
              set_running true (set_level 0 (record t { context = init_context w task_idle 2 0 })))
            both.tasks;
      running = set_queue both.running 0 (both.running 0 ++ 2 ∷ []);
    }
