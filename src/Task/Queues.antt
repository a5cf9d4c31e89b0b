-- ===== src/Task/Queues.antt =====
-- Tasks that enter a queue, leave one or change level: the tasks and the queues still agree.
use mathlib.Core.Option
use mikanos.Prelude.{
  ℕ, ◌≤◌, ◌≡◌, ◌≢◌, refl, Bool, true, false, Option, none, some, List, [], ◌∷◌, arith, ◌==◌,
  if◌then◌else◌, count, count-append, count-erase_all, erase_all, ap, sym, ◌∙◌,
}
use mikanos.Task.State.{
  Task, TaskManager, max_level, find_task, update_task, set_level, set_running,
}
use mikanos.Task.RunQueue.{change_level_other, change_level_self}
use mikanos.Task.Sleep.{start_running, stop_running, leave_queue}
use mikanos.Task.Lookup.{find_task-update, update-Distinct}
use mikanos.Task.Invariant.{idle_id, queued_count, is_running, IsLevelWithin, IsConsistent}

-- A change of a task that keeps its id, its level and whether it runs.
abbrev pub Keeps : (Task → Task) → Type 0
Keeps f = (t : Task) → ((f t).id ≡ t.id) × ((f t).level ≡ t.level) × ((f t).running ≡ t.running)

looks_same :
    (f : Task → Task) (b : Bool) (o : Option Task) (l : ℕ)
    → Keeps f
    → let o' = if b then Option.map f o else o in
      (queued_count o' l ≡ queued_count o l)
      × (is_running o' ≡ is_running o)
      × (IsLevelWithin o → IsLevelWithin o')
looks_same f false o l same = (refl, refl, λ h. h)
looks_same f true none l same = (refl, refl, λ h. h)
looks_same f true (some t) l same =
    (ground (arith, same t), ground (arith, same t), λ h. omega (arith, same t, h))

pub touch-IsConsistent :
    (s : TaskManager) (i : ℕ) (f : Task → Task)
    → Keeps f
    → IsConsistent s
    → IsConsistent (record s { tasks = update_task i f s.tasks })
touch-IsConsistent s i f same v = record {
  queued = λ id l h. rw (after id) (v.queued id l h ∙ sym (looks id l).0);
  levels = λ id. rw (after id) ((looks id 0).2 (v.levels id));
  fresh = λ id h. ground (arith, v.fresh id h, after id);
  distinct = update-Distinct i f s.tasks (λ t. (same t).0) v.distinct;
  idle = rw (after idle_id) ((looks idle_id 0).1 ∙ v.idle);
}
  where
    after :
        (id : ℕ)
        → find_task id (update_task i f s.tasks)
          ≡ (if i == id then Option.map f (find_task id s.tasks) else find_task id s.tasks)
    after id = find_task-update i id f s.tasks (λ t. (same t).0)

    looks :
        (id l : ℕ)
        → let o = find_task id s.tasks in
          let o' = if i == id then Option.map f o else o in
          (queued_count o' l ≡ queued_count o l)
          × (is_running o' ≡ is_running o)
          × (IsLevelWithin o → IsLevelWithin o')
    looks id l = looks_same f (i == id) (find_task id s.tasks) l same

module _ (s : TaskManager) (u : Task) (v : IsConsistent s)
    (found : find_task u.id s.tasks ≡ some u) where
  after_level :
      (level id : ℕ)
      → find_task id (update_task u.id (set_level level) s.tasks) ≡ (
          if u.id == id
          then Option.map (set_level level) (find_task id s.tasks)
          else find_task id s.tasks)
  after_level level id = find_task-update u.id id (set_level level) s.tasks (λ t. refl)

  -- A sleeping task enters a queue.
  pub start-IsConsistent :
      (level : ℕ) → u.running ≡ false → level ≤ max_level → IsConsistent (start_running s u level)
  unfolding start_running
  start-IsConsistent level asleep h = record {
    queued = λ id l hl.
        ground
          (arith, v.queued id l hl, found, count-append id (s.running level) (u.id ∷ []), after id);
    levels = λ id. ground (arith, v.levels id, after id);
    fresh = λ id hid. ground (arith, v.fresh id hid, after id);
    distinct = update-Distinct u.id _ s.tasks (λ t. refl) v.distinct;
    idle = ground (arith, v.idle, after idle_id);
  }
    where
      after :
          (id : ℕ)
          → find_task id (update_task u.id (λ t. set_running true (set_level level t)) s.tasks) ≡ (
              if u.id == id
              then Option.map (λ t. set_running true (set_level level t)) (find_task id s.tasks)
              else find_task id s.tasks)
      after id = find_task-update u.id id _ s.tasks (λ t. refl)

  -- A running task that is not the current one stops and leaves its queue.
  pub leave-IsConsistent :
      u.id ≢ idle_id → u.running ≡ true → IsConsistent (leave_queue (stop_running s u) u)
  unfolding leave_queue stop_running
  leave-IsConsistent other runs = record {
    queued = λ id l hl.
        ground
          (arith, v.queued id l hl, found, count-erase_all u.id id (s.running u.level), after id);
    levels = λ id. ground (arith, v.levels id, after id);
    fresh = λ id hid. ground (arith, v.fresh id hid, after id);
    distinct = update-Distinct u.id _ s.tasks (λ t. refl) v.distinct;
    idle = ground (arith, v.idle, after idle_id);
  }
    where
      after :
          (id : ℕ)
          → find_task id (update_task u.id (set_running false) s.tasks) ≡ (
              if u.id == id
              then Option.map (set_running false) (find_task id s.tasks)
              else find_task id s.tasks)
      after id = find_task-update u.id id _ s.tasks (λ t. refl)

  -- A running task that is not the current one changes level.
  pub other-IsConsistent :
      (level : ℕ)
      → u.running ≡ true
      → level ≤ max_level
      → IsConsistent (change_level_other s u level)
  unfolding change_level_other
  other-IsConsistent level runs h = record {
    queued = λ id l hl. ground (
      arith,
      v.queued id l hl,
      found,
      count-append id (s.running level) (u.id ∷ []),
      count-append id (erase_all u.id (s.running level)) (u.id ∷ []),
      count-erase_all u.id id (s.running u.level),
      count-erase_all u.id id (s.running level),
      after_level level id,
    );
    levels = λ id. ground (arith, v.levels id, after_level level id);
    fresh = λ id hid. ground (arith, v.fresh id hid, after_level level id);
    distinct = update-Distinct u.id (set_level level) s.tasks (λ t. refl) v.distinct;
    idle = ground (arith, v.idle, after_level level idle_id);
  }

  -- The current task changes its own level.
  pub self-IsConsistent :
      (level : ℕ) (rest : List ℕ)
      → u.running ≡ true
      → u.level ≡ s.current_level
      → s.running s.current_level ≡ u.id ∷ rest
      → level ≤ max_level
      → IsConsistent (change_level_self s u rest level)
  unfolding change_level_self
  self-IsConsistent level rest runs here queue h = record {
    queued = λ id l hl.
        ground (arith, v.queued id l hl, found, ap (count id) queue, after_level level id);
    levels = λ id. ground (arith, v.levels id, after_level level id);
    fresh = λ id hid. ground (arith, v.fresh id hid, after_level level id);
    distinct = update-Distinct u.id (set_level level) s.tasks (λ t. refl) v.distinct;
    idle = ground (arith, v.idle, after_level level idle_id);
  }
