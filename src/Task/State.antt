-- ===== src/Task/State.antt =====
-- The state of src/kernel/task.hpp: `Task`, `TaskManager`, and the search for a task by its id. A
-- `Task*` is the id of the task that it points to; `none` is undefined behaviour, such as
-- `front()` of an empty queue, an index past `running_`, or a pointer to a task that is gone.
use mikanos.Prelude.{
  ℕ, ◌+◌, ◌%◌, ◌^◌, Bool, false, Option, none, some, List, [], ◌∷◌, ◌++◌, ◌==◌, if◌then◌else◌,
}
use mikanos.Prelude.Int.{ℤ}
use mikanos.Message.{Message}
use mikanos.Task.Context.{TaskContext, zero_context}

pub record FileMapping : Type 0 where
  pub fd : ℤ
  pub vaddr_begin : ℕ
  pub vaddr_end : ℕ

-- `stack_` and `files_` are not modelled: only their addresses leave the task.
pub record Task : Type 0 where
  pub id : ℕ
  pub context : TaskContext
  pub os_stack_ptr : ℕ
  pub msgs : List Message
  pub level : ℕ
  pub running : Bool
  pub dpaging_begin : ℕ
  pub dpaging_end : ℕ
  pub file_map_end : ℕ
  pub file_maps : List FileMapping

-- `running` gives the queue of each level.
pub record TaskManager : Type 0 where
  pub tasks : List Task
  pub latest_id : ℕ
  pub running : ℕ → List ℕ
  pub current_level : ℕ
  pub level_changed : Bool
  pub finish_tasks : List (ℕ × ℤ)
  pub finish_waiter : List (ℕ × ℕ)

abbrev pub max_level : ℕ
max_level = 3

abbrev pub default_level : ℕ
default_level = 1

-- `Task::Task`. The context and the stack pointer are not initialised; here they are zero.
unfoldable pub fresh_task : ℕ → Task
fresh_task id = record {
  id = id;
  context = zero_context;
  os_stack_ptr = 0;
  msgs = [];
  level = default_level;
  running = false;
  dpaging_begin = 0;
  dpaging_end = 0;
  file_map_end = 0;
  file_maps = [];
}

-- `std::find_if` by id, and what the pointer found is used for.
unfoldable pub find_task : ℕ → List Task → Option Task
find_task id [] = none
find_task id (t ∷ ts) = if t.id == id then some t else find_task id ts

unfoldable pub update_task : ℕ → (Task → Task) → List Task → List Task
update_task id f [] = []
update_task id f (t ∷ ts) = if t.id == id then f t ∷ ts else t ∷ update_task id f ts

unfoldable pub erase_task : ℕ → List Task → List Task
erase_task id [] = []
erase_task id (t ∷ ts) = if t.id == id then ts else t ∷ erase_task id ts

-- `NewTask`; the new task is the one with `latest_id`.
unfoldable pub new_task : TaskManager → TaskManager
unfolding fresh_task
new_task s =
    let id = (s.latest_id + 1) % 2 ^ 64 in
    record s { latest_id = id; tasks = s.tasks ++ fresh_task id ∷ [] }

abbrev pub set_level : ℕ → Task → Task
set_level level t = record t { level = level }

abbrev pub set_running : Bool → Task → Task
set_running running t = record t { running = running }
