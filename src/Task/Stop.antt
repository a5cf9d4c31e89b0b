-- ===== src/Task/Stop.antt =====
-- `Sleep`: the task stops, and when it was the current one another task is resumed.
use mathlib.Core.Option
use mikanos.Prelude.{
  ℕ, ◌≡◌, ◌≢◌, ◌⊎◌, refl, true, false, Option, none, some, List, ◌∷◌, arith, ◌==◌, if◌then◌else◌,
  is_empty, erase_all, Bool-cases, inl, inr, ap, subst, sym, ◌∙◌, Returns,
}
use mikanos.Task.State.{Task, TaskManager, find_task, set_running}
use mikanos.Task.RunQueue.{current_task, requeue, reschedule, rotate_current_run_queue}
use mikanos.Task.Sleep.{stop_running, leave_queue, sleep_current, sleep_running, sleep}
use mikanos.Task.Lookup.{find_task-id, find_task-update}
use mikanos.Task.Invariant.{
  idle_id, is_running, IsValid, Current, current-Current, reschedule_keeps,
  reschedule-level_changed,
}
use mikanos.Task.Rotate.{requeue-IsValid, slept, stopped-IsConsistent}
use mikanos.Task.Wake.{is_empty-erase_all}
use mikanos.Task.Queues.{leave-IsConsistent}

pub current_task-front : (s : TaskManager) (c : Current s) → current_task s ≡ some c.front
unfolding current_task
current_task-front s c = rw (c.queue, current_task)

pub current_task-queue :
    (s : TaskManager) (front : ℕ) (rest : List ℕ)
    → s.running s.current_level ≡ front ∷ rest
    → current_task s ≡ some front
unfolding current_task
current_task-queue s front rest e = rw (e, current_task)

-- A rotation that does not put the current task back.
pub rotate_out :
    (s : TaskManager) (front : ℕ) (rest : List ℕ)
    → s.running s.current_level ≡ front ∷ rest
    → rotate_current_run_queue s true ≡ some (reschedule (requeue s rest), front)
unfolding rotate_current_run_queue
rotate_out s front rest e = rw (e, rotate_current_run_queue)

-- How a call of `Sleep` ends.
pub record IsSlept (s : TaskManager) (task : ℕ) (r : TaskManager × Option ℕ) : Type 0 where
  pub valid : IsValid r.0
  pub stopped : is_running (find_task task r.0.tasks) ≡ false
  pub others : (id : ℕ) → id ≢ task → find_task id r.0.tasks ≡ find_task id s.tasks
  pub same_finished : r.0.finish_tasks ≡ s.finish_tasks
  pub same_waiters : r.0.finish_waiter ≡ s.finish_waiter
  -- Control stays, or passes to a task of the highest level that has one.
  pub resumed :
      ((r.1 ≡ none) × (current_task r.0 ≡ current_task s))
      ⊎ ((current_task s ≡ some task) × (r.1 ≡ current_task r.0) × (r.0.level_changed ≡ false))

module _ (s : TaskManager) (c : Current s) (v : IsValid s) (other : c.front ≢ idle_id) where
  -- The state after the current task has stopped.
  abbrev after_sleep : TaskManager
  after_sleep = reschedule (requeue (slept s c.front) c.rest)

  after_sleep-IsValid : IsValid after_sleep
  after_sleep-IsValid =
      requeue-IsValid s (slept s c.front) c.rest v.scheduled refl refl refl
        (stopped-IsConsistent s c v.consistent other)

  after_sleep-tasks :
      (id : ℕ)
      → find_task id after_sleep.tasks ≡ (
          if c.front == id
          then Option.map (set_running false) (find_task id s.tasks)
          else find_task id s.tasks)
  unfolding requeue
  after_sleep-tasks id =
      ap (find_task id) (reschedule_keeps (requeue (slept s c.front) c.rest)).0
      ∙ find_task-update c.front id (set_running false) s.tasks (λ t. refl)

  after_sleep_keeps :
      (after_sleep.finish_tasks ≡ s.finish_tasks) × (after_sleep.finish_waiter ≡ s.finish_waiter)
  unfolding requeue
  after_sleep_keeps =
      let keeps = reschedule_keeps (requeue (slept s c.front) c.rest) in (keeps.3, keeps.4)

  sleep_current-IsSlept : Returns (sleep_current (slept s c.front)) (IsSlept s c.front)
  unfolding sleep_current
  sleep_current-IsSlept =
      rw
        (
          rotate_out (slept s c.front) c.front c.rest c.queue,
          current_task-front after_sleep (current-Current after_sleep after_sleep-IsValid),
        )
        (record {
          valid = after_sleep-IsValid;
          stopped = ground (arith, after_sleep-tasks c.front, c.found);
          others = λ id h. ground (arith, after_sleep-tasks id);
          same_finished = after_sleep_keeps.0;
          same_waiters = after_sleep_keeps.1;
          resumed = inr (
            current_task-front s c,
            sym (current_task-front after_sleep (current-Current after_sleep after_sleep-IsValid)),
            reschedule-level_changed (requeue (slept s c.front) c.rest),
          );
        })

module _ (s : TaskManager) (u : Task) (v : IsValid s) (found : find_task u.id s.tasks ≡ some u)
    (c : Current s) (runs : u.running ≡ true) where
  front-erase : u.id ≢ c.front → is_empty (erase_all u.id (s.running s.current_level)) ≡ false
  front-erase other = ground (arith, ap (erase_all u.id) c.queue)

  leave_queue-IsSlept :
      u.id ≢ idle_id → u.id ≢ c.front → IsSlept s u.id (leave_queue (stop_running s u) u, none)
  unfolding leave_queue stop_running current_task
  leave_queue-IsSlept not_idle other = record {
    valid = record {
      consistent = leave-IsConsistent s u v.consistent found not_idle runs;
      scheduled = record {
        current_in = v.scheduled.current_in;
        busy = ground (arith, v.scheduled.busy, front-erase other);
        no_higher = λ e l p q.
            ground (arith, v.scheduled.no_higher e l p q, is_empty-erase_all u.id (s.running l));
      };
    };
    stopped =
        ground (arith, find_task-update u.id u.id (set_running false) s.tasks (λ t. refl), found);
    others =
        λ id h. ground (arith, find_task-update u.id id (set_running false) s.tasks (λ t. refl));
    same_finished = refl;
    same_waiters = refl;
    resumed = inl (refl, ground (arith, c.queue, ap (erase_all u.id) c.queue));
  }

-- A task that does not run.
still-IsSlept :
    (s : TaskManager) (u : Task)
    → IsValid s
    → find_task u.id s.tasks ≡ some u
    → u.running ≡ false
    → IsSlept s u.id (s, none)
still-IsSlept s u v found asleep = record {
  valid = v;
  stopped = ground (arith, found);
  others = λ id h. refl;
  same_finished = refl;
  same_waiters = refl;
  resumed = inl (refl, refl);
}

current_task-stop :
    (s : TaskManager) (u : Task) (c : Current s) → current_task (stop_running s u) ≡ some c.front
unfolding current_task stop_running
current_task-stop s u c = rw (c.queue, current_task)

sleep_running-IsSlept :
    (s : TaskManager) (u : Task)
    → IsValid s
    → find_task u.id s.tasks ≡ some u
    → u.running ≡ true
    → u.id ≢ idle_id
    → Returns (sleep_running s u) (IsSlept s u.id)
unfolding sleep_running stop_running
sleep_running-IsSlept s u v found runs not_idle =
    let c = current-Current s v in
    elim (Bool-cases (u.id == c.front)) [
      | inl self ↦
          let same : u.id ≡ c.front = ground arith in
          rw (current_task-stop s u c) (
            simp self (
              subst (λ i. Returns (sleep_current (slept s i)) (IsSlept s i)) (sym same)
                (sleep_current-IsSlept s c v (subst (λ i. i ≢ idle_id) same not_idle))))
      | inr other ↦
          rw (current_task-stop s u c)
            (simp other (leave_queue-IsSlept s u v found c runs not_idle (ground arith)))
    ]

sleep_own :
    (s : TaskManager) (u : Task)
    → IsValid s
    → find_task u.id s.tasks ≡ some u
    → u.id ≢ idle_id
    → Returns (sleep s u.id) (IsSlept s u.id)
unfolding sleep
sleep_own s u v found not_idle = elim (Bool-cases u.running) [
  | inl runs ↦ rw found (simp runs (sleep_running-IsSlept s u v found runs not_idle))
  | inr asleep ↦ rw found (simp asleep (still-IsSlept s u v found asleep))
]

-- In a valid state, `Sleep` of a task that is there and not the idle one is defined, keeps the
-- invariant and stops that task alone. If it was the current task, `SwitchContext` goes to the new
-- current task, which is of the highest level with a running task; else the current task goes on.
pub sleep_lem :
    (s : TaskManager) (task : ℕ) {u : Task}
    → IsValid s
    → find_task task s.tasks ≡ some u
    → task ≢ idle_id
    → Returns (sleep s task) (IsSlept s task)
sleep_lem s task {u} v found not_idle =
    let own : u.id ≡ task = find_task-id task s.tasks u found in
    subst (λ i. Returns (sleep s i) (IsSlept s i)) own
      (sleep_own s u v (ap (λ i. find_task i s.tasks) own ∙ found)
        (subst (λ i. i ≢ idle_id) (sym own) not_idle))
