-- ===== src/Task/RunQueue.antt =====
-- The run queues of src/kernel/task.cpp: `CurrentTask`, `RotateCurrentRunQueue`, `ChangeLevelRunning`.
use mikanos.Prelude.{
  ℕ, zero, suc, Bool, false, ◌||◌, Option, none, some, List, [], ◌∷◌, ◌++◌, ◌==◌, ltb,
  if◌then◌else◌, is_empty, erase_all,
}
use mikanos.Prelude.Int.{ℤ, pos, negsuc}
use mikanos.Task.State.{Task, TaskManager, max_level, update_task, set_level}

unfoldable pub set_queue : (ℕ → List ℕ) → ℕ → List ℕ → ℕ → List ℕ
set_queue queues level q l = if l == level then q else queues l

-- `CurrentTask`
unfoldable pub current_task : TaskManager → Option ℕ
current_task s = elim (s.running s.current_level) [ [] ↦ none | t ∷ rest ↦ some t ]

-- The highest level with a task, from level `n` down; the current one if there is none.
unfoldable pub pick_level : (ℕ → List ℕ) → ℕ → ℕ → ℕ
pick_level queues zero current = if is_empty (queues 0) then current else 0
pick_level queues (suc n) current =
    let lower = pick_level queues n current in if is_empty (queues (suc n)) then lower else suc n

-- The end of `RotateCurrentRunQueue`, once the queue of the current level is `q`.
unfoldable pub requeue : TaskManager → List ℕ → TaskManager
unfolding set_queue
requeue s q = record s {
  running = set_queue s.running s.current_level q;
  level_changed = is_empty q || s.level_changed;
}

unfoldable pub reschedule : TaskManager → TaskManager
reschedule s =
    if s.level_changed
    then record s {
      level_changed = false;
      current_level = pick_level s.running max_level s.current_level;
    }
    else s

unfoldable pub rotate_current_run_queue : TaskManager → Bool → Option (TaskManager × ℕ)
unfolding requeue reschedule
rotate_current_run_queue s current_sleep = elim (s.running s.current_level) [
  | [] ↦ none
  | t ∷ rest ↦ some (reschedule (requeue s (if current_sleep then rest else rest ++ t ∷ [])), t)
]

-- `ChangeLevelRunning` of another task, and of the current one.
unfoldable pub change_level_other : TaskManager → Task → ℕ → TaskManager
unfolding set_queue update_task
change_level_other s t level =
    let erased = set_queue s.running t.level (erase_all t.id (s.running t.level)) in
    record s {
      running = set_queue erased level (erased level ++ t.id ∷ []);
      tasks = update_task t.id (set_level level) s.tasks;
      level_changed = ltb s.current_level level || s.level_changed;
    }

unfoldable pub change_level_self : TaskManager → Task → List ℕ → ℕ → TaskManager
unfolding set_queue update_task
change_level_self s t rest level =
    let popped = set_queue s.running s.current_level rest in
    record s {
      running = set_queue popped level (t.id ∷ popped level);
      tasks = update_task t.id (set_level level) s.tasks;
      current_level = level;
      level_changed = ltb level s.current_level || s.level_changed;
    }

unfoldable pub change_level_running : TaskManager → Task → ℤ → Option TaskManager
change_level_running s t (negsuc n) = some s
change_level_running s t (pos level) =
    if level == t.level
    then some s
    else if ltb max_level level
    then none
    else elim (s.running s.current_level) [
      | [] ↦ none
      | front ∷ rest ↦
          if t.id == front
          then some (change_level_self s t rest level)
          else some (change_level_other s t level)
    ]
