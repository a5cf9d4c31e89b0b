-- ===== src/Task/Turn.antt =====
-- `SwitchTask`: the time slice passes to the next task of the highest level.
use mathlib.Core.Option
use mikanos.Prelude.{
  ℕ, ◌≡◌, ◌≢◌, ◌⊎◌, refl, false, Option, none, some, List, [], ◌∷◌, ◌++◌, arith, ◌==◌,
  if◌then◌else◌, Bool-cases, inl, inr, ap, ◌∙◌, Returns,
}
use mikanos.Task.Context.{TaskContext}
use mikanos.Task.State.{Task, TaskManager, find_task, update_task}
use mikanos.Task.RunQueue.{set_queue, current_task, requeue, reschedule, rotate_current_run_queue}
use mikanos.Task.Switch.{switch_task, store_context}
use mikanos.Task.Lookup.{find_task-update}
use mikanos.Task.Invariant.{
  IsValid, Current, current-Current, reschedule_keeps, reschedule-level_changed,
}
use mikanos.Task.Rotate.{requeue-IsValid, rotated-IsConsistent}
use mikanos.Task.Queues.{touch-IsConsistent}
use mikanos.Task.Stop.{current_task-front}

-- A rotation that puts the current task at the back.
rotate_back :
    (s : TaskManager) (front : ℕ) (rest : List ℕ)
    → s.running s.current_level ≡ front ∷ rest
    → rotate_current_run_queue s false ≡ some (reschedule (requeue s (rest ++ front ∷ [])), front)
unfolding rotate_current_run_queue
rotate_back s front rest e = rw (e, rotate_current_run_queue)

-- The context is saved in the task `id`.
abbrev pub saved : TaskManager → ℕ → TaskContext → TaskManager
saved s id ctx = record s { tasks = update_task id (store_context ctx) s.tasks }

-- How a call of `SwitchTask` ends.
pub record IsSwitched (s : TaskManager) (ctx : TaskContext) (c : Current s)
    (r : TaskManager × Option TaskContext) : Type 0 where
  pub valid : IsValid r.0
  pub highest : r.0.level_changed ≡ false
  pub stored : find_task c.front r.0.tasks ≡ some (record c.task { context = ctx })
  pub resumed :
      ((r.1 ≡ none) × (current_task r.0 ≡ some c.front))
      ⊎ ((next : ℕ) × (t : Task) × (next ≢ c.front)
          × (current_task r.0 ≡ some next)
          × (find_task next s.tasks ≡ some t)
          × (r.1 ≡ some t.context))
  pub next_in_turn :
      s.level_changed ≡ false
      → (next : ℕ) (more : List ℕ) → c.rest ≡ next ∷ more
      → (current_task r.0 ≡ some next)
        × (r.0.running s.current_level ≡ (next ∷ more) ++ (c.front ∷ []))

module _ (s : TaskManager) (ctx : TaskContext) (c : Current s) (v : IsValid s) where
  abbrev turned : TaskManager
  turned = requeue (saved s c.front ctx) (c.rest ++ c.front ∷ [])

  saved-Current : Current (saved s c.front ctx)
  saved-Current = record {
    front = c.front;
    rest = c.rest;
    task = record c.task { context = ctx };
    queue = c.queue;
    found =
        ground (
          arith,
          c.found,
          find_task-update c.front c.front (store_context ctx) s.tasks (λ t. refl),
        );
    runs = c.runs;
    at_level = c.at_level;
    is_front = c.is_front;
  }

  turned-IsValid : IsValid (reschedule turned)
  unfolding saved-Current
  turned-IsValid =
      requeue-IsValid s (saved s c.front ctx) (c.rest ++ c.front ∷ []) v.scheduled refl refl refl (
        rotated-IsConsistent (saved s c.front ctx) saved-Current
          (touch-IsConsistent s c.front (store_context ctx) (λ t. (refl, refl, refl)) v.consistent))

  turned-tasks :
      (id : ℕ)
      → find_task id (reschedule turned).tasks ≡ (
          if c.front == id
          then Option.map (store_context ctx) (find_task id s.tasks)
          else find_task id s.tasks)
  unfolding requeue
  turned-tasks id =
      ap (find_task id) (reschedule_keeps turned).0
      ∙ find_task-update c.front id (store_context ctx) s.tasks (λ t. refl)

  turned-next :
      s.level_changed ≡ false
      → (next : ℕ) (more : List ℕ) → c.rest ≡ next ∷ more
      → (current_task (reschedule turned) ≡ some next)
        × ((reschedule turned).running s.current_level ≡ (next ∷ more) ++ (c.front ∷ []))
  unfolding current_task reschedule requeue set_queue
  turned-next same next more e = ground (arith, ap (λ q. q ++ c.front ∷ []) e)

  after-Current : Current (reschedule turned)
  after-Current = current-Current (reschedule turned) turned-IsValid

  -- What `RestoreContext` is given.
  turned-resumed :
      let r = if after-Current.front == c.front then none else some after-Current.task.context in
      ((r ≡ none) × (current_task (reschedule turned) ≡ some c.front))
      ⊎ ((next : ℕ) × (t : Task) × (next ≢ c.front)
          × (current_task (reschedule turned) ≡ some next)
          × (find_task next s.tasks ≡ some t)
          × (r ≡ some t.context))
  turned-resumed = elim (Bool-cases (after-Current.front == c.front)) [
    | inl same ↦
        inl (rw same, current_task-front (reschedule turned) after-Current ∙ ap some (ground arith))
    | inr other ↦
        let differs : after-Current.front ≢ c.front = ground arith in
        inr (
          after-Current.front,
          after-Current.task,
          differs,
          current_task-front (reschedule turned) after-Current,
          ground (arith, turned-tasks after-Current.front, after-Current.found),
          rw other,
        )
  ]

  switched : TaskManager × Option TaskContext
  switched = (
    reschedule turned,
    if after-Current.front == c.front then none else some after-Current.task.context,
  )

  switched-IsSwitched : IsSwitched s ctx c switched
  unfolding switched
  switched-IsSwitched = record {
    valid = turned-IsValid;
    highest = reschedule-level_changed turned;
    stored = ground (arith, turned-tasks c.front, c.found);
    resumed = turned-resumed;
    next_in_turn = turned-next;
  }

  -- In a valid state, `SwitchTask` is defined and keeps the invariant. The context given is stored
  -- in the task that was current. When no level has changed and other tasks of the level wait, the
  -- first of them is current afterwards, and the old current task is the last of the queue. A
  -- context is restored exactly when another task is current, and it is that task's.
  pub switch_task_lem : Returns (switch_task s ctx) (IsSwitched s ctx c)
  unfolding switch_task switched
  switch_task_lem =
      rw
        (
          current_task-front s c,
          rotate_back (saved s c.front ctx) c.front c.rest c.queue,
          current_task-front (reschedule turned) after-Current,
          after-Current.found,
        )
        switched-IsSwitched
