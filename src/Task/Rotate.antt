-- ===== src/Task/Rotate.antt =====
-- Rotations of the current run queue keep the invariant, and end at the highest level with a task.
use mikanos.Prelude.{
  ℕ, ◌<◌, ◌≤◌, ◌≡◌, ◌≢◌, refl, true, false, Option, none, some, List, [], ◌∷◌, ◌++◌, arith,
  is_empty, count, count-append, ap,
}
use mikanos.Task.State.{
  Task, TaskManager, max_level, find_task, update_task, erase_task, set_running,
}
use mikanos.Task.RunQueue.{set_queue, requeue, reschedule}
use mikanos.Task.Lookup.{find_task-update, find_task-erase, update-Distinct, erase-Distinct}
use mikanos.Task.Invariant.{
  idle_id, IsConsistent, IsScheduled, IsValid, Current, reschedule-IsScheduled,
  reschedule-IsConsistent,
}

is_empty-count : (id : ℕ) (q : List ℕ) → 0 < count id q → is_empty q ≡ false
is_empty-count id [] h = absurd (omega arith)
is_empty-count id (x ∷ q) h = refl

pub is_empty-snoc : (q : List ℕ) (x : ℕ) → is_empty (q ++ x ∷ []) ≡ false
is_empty-snoc [] x = refl
is_empty-snoc (y ∷ q) x = refl

-- The queue of the idle task's level is never empty.
pub idle_level :
    (s : TaskManager)
    → IsConsistent s
    → (k : ℕ) × (k ≤ max_level) × (is_empty (s.running k) ≡ false)
idle_level s c = at (find_task idle_id s.tasks) refl
  where
    at :
        (o : Option Task)
        → find_task idle_id s.tasks ≡ o
        → (k : ℕ) × (k ≤ max_level) × (is_empty (s.running k) ≡ false)
    at none e = absurd (ground (arith, c.idle))
    at (some t) e =
        let within : t.level ≤ max_level = ground (arith, c.levels idle_id) in
        (
          t.level,
          within,
          is_empty-count idle_id (s.running t.level)
              (ground (arith, c.queued idle_id t.level, c.idle)),
        )

pub reschedule-IsValid :
    (s : TaskManager)
    → IsConsistent s
    → s.current_level ≤ max_level
    → (s.level_changed ≡ false → is_empty (s.running s.current_level) ≡ false)
    → (s.level_changed ≡ false
        → (l : ℕ) → s.current_level < l
        → l ≤ max_level
        → is_empty (s.running l) ≡ true)
    → IsValid (reschedule s)
reschedule-IsValid s c h busy highest =
    let k = idle_level s c in
    record {
      consistent = reschedule-IsConsistent s c;
      scheduled = reschedule-IsScheduled s k.0 h k.1 k.2 busy highest;
    }

-- The current queue is replaced by `q`, and the rest of `s` by a state `r` that agrees with it.
pub requeue-IsValid :
    (s r : TaskManager) (q : List ℕ)
    → IsScheduled s
    → r.running ≡ s.running
    → r.current_level ≡ s.current_level
    → r.level_changed ≡ s.level_changed
    → IsConsistent (requeue r q)
    → IsValid (reschedule (requeue r q))
unfolding requeue set_queue
requeue-IsValid s r q v run cur flag c =
    reschedule-IsValid (requeue r q) c (omega (arith, cur, v.current_in)) (ground arith) (λ e l p h.
      let kept : s.level_changed ≡ false = ground arith in
      ground (arith, v.no_higher kept l (omega (arith, cur)) h, ap (λ f. f l) run, cur))

-- The task `id` no longer runs; the task `id` is gone.
abbrev pub slept : TaskManager → ℕ → TaskManager
slept s id = record s { tasks = update_task id (set_running false) s.tasks }

abbrev pub ended : TaskManager → ℕ → TaskManager
ended s id = record s { tasks = erase_task id s.tasks }

module _ (s : TaskManager) (c : Current s) (v : IsConsistent s) where
  open c use {front, rest, task}

  -- The current task goes to the back of its queue.
  pub rotated-IsConsistent : IsConsistent (requeue s (rest ++ front ∷ []))
  unfolding requeue set_queue
  rotated-IsConsistent = record {
    queued = λ id l h.
        ground (arith, v.queued id l h, count-append id rest (front ∷ []), ap (count id) c.queue);
    levels = v.levels;
    fresh = v.fresh;
    distinct = v.distinct;
    idle = v.idle;
  }

  -- The current task stops, and leaves its queue.
  pub stopped-IsConsistent : front ≢ idle_id → IsConsistent (requeue (slept s front) rest)
  unfolding requeue set_queue
  stopped-IsConsistent other = record {
    queued = λ id l h. ground (
      arith,
      v.queued id l h,
      ap (count id) c.queue,
      c.found,
      c.runs,
      c.at_level,
      find_task-update front id (set_running false) s.tasks (λ t. refl),
    );
    levels = λ id.
        ground
          (arith, v.levels id, find_task-update front id (set_running false) s.tasks (λ t. refl));
    fresh = λ id h.
        ground
          (arith, v.fresh id h, find_task-update front id (set_running false) s.tasks (λ t. refl));
    distinct = update-Distinct front (set_running false) s.tasks (λ t. refl) v.distinct;
    idle =
        ground
          (arith, v.idle, find_task-update front idle_id (set_running false) s.tasks (λ t. refl));
  }

  -- The current task is gone.
  pub ended-IsConsistent : front ≢ idle_id → IsConsistent (requeue (ended s front) rest)
  unfolding requeue set_queue
  ended-IsConsistent other = record {
    queued = λ id l h. ground (
      arith,
      v.queued id l h,
      ap (count id) c.queue,
      c.found,
      c.runs,
      c.at_level,
      find_task-erase front id s.tasks v.distinct,
    );
    levels = λ id. ground (arith, v.levels id, find_task-erase front id s.tasks v.distinct);
    fresh = λ id h. ground (arith, v.fresh id h, find_task-erase front id s.tasks v.distinct);
    distinct = erase-Distinct front s.tasks v.distinct;
    idle = ground (arith, v.idle, find_task-erase front idle_id s.tasks v.distinct);
  }
