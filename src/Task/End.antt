-- ===== src/Task/End.antt =====
-- `Finish`: a task ends, and the one that waits for it runs again.
use mathlib.Core.Path.{ap₂}
use mikanos.Prelude.{
  ℕ, ◌≤◌, ◌≡◌, ◌≢◌, refl, true, Option, none, some, List, arith, ◌==◌, if◌then◌else◌, Bool-cases,
  Option-cases, inl, inr, ap, subst, sym, ◌∙◌, Returns, Returns->>=, Returns_mono, ◌>>=◌,
}
use mikanos.Prelude.Int.{ℤ, negsuc}
use mikanos.Prelude.Dict
use mikanos.Task.State.{Task, TaskManager, max_level, find_task, erase_task}
use mikanos.Task.RunQueue.{current_task, requeue, reschedule}
use mikanos.Task.Sleep.{wakeup}
use mikanos.Task.Switch.{finish, record_exit, wake_waiter}
use mikanos.Task.Lookup.{find_task-erase}
use mikanos.Task.Invariant.{
  idle_id, is_running, queued_count, IsValid, Current, current-Current, reschedule_keeps,
}
use mikanos.Task.Rotate.{requeue-IsValid, ended, ended-IsConsistent}
use mikanos.Task.Wake.{wakeup_lem, IsWoken}
use mikanos.Task.Stop.{rotate_out, current_task-front}

-- The invariant does not speak of exit codes or of waiting tasks.
pub relabel-IsValid :
    (s : TaskManager) (codes : List (ℕ × ℤ)) (waiters : List (ℕ × ℕ))
    → IsValid s
    → IsValid (record s { finish_tasks = codes; finish_waiter = waiters })
relabel-IsValid s codes waiters v = record {
  consistent = record {
    queued = v.consistent.queued;
    levels = v.consistent.levels;
    fresh = v.consistent.fresh;
    distinct = v.consistent.distinct;
    idle = v.consistent.idle;
  };
  scheduled = record {
    current_in = v.scheduled.current_in;
    busy = v.scheduled.busy;
    no_higher = v.scheduled.no_higher;
  };
}

-- The choice of the next level does not look at the tasks or the exit codes.
reschedule-record :
    (s : TaskManager) (ts : List Task) (codes : List (ℕ × ℤ))
    → record (reschedule s) { tasks = ts; finish_tasks = codes }
      ≡ reschedule (record s { tasks = ts; finish_tasks = codes })
unfolding reschedule
reschedule-record s ts codes = elim (Bool-cases s.level_changed) [ inl e ↦ simp e | inr e ↦ simp e ]

-- The task that waits for `id`, if any, is another task that is still there.
abbrev pub WaiterLives : TaskManager → ℕ → Type 0
WaiterLives s id =
    (w : ℕ)
    → Dict.lookup id s.finish_waiter ≡ some w
    → (w ≢ id) × ((u : Task) × (find_task w s.tasks ≡ some u))

-- How a call of `Finish` by the task `id` ends.
pub record IsFinished (s : TaskManager) (id : ℕ) (exit_code : ℤ) (r : TaskManager × ℕ)
    : Type 0 where
  pub valid : IsValid r.0
  pub gone : find_task id r.0.tasks ≡ none
  pub code : Dict.lookup id r.0.finish_tasks ≡ some exit_code
  pub woken :
      (w : ℕ)
      → Dict.lookup id s.finish_waiter ≡ some w
      → (is_running (find_task w r.0.tasks) ≡ true) × (Dict.lookup id r.0.finish_waiter ≡ none)
  pub resumed : current_task r.0 ≡ some r.1

module _ (s : TaskManager) (exit_code : ℤ) (c : Current s) (v : IsValid s)
    (other : c.front ≢ idle_id) where
  abbrev codes : List (ℕ × ℤ)
  codes = Dict.insert c.front exit_code s.finish_tasks

  -- After the rotation and the erasure, before the waiter is woken.
  abbrev left : TaskManager
  left = reschedule (requeue (record (ended s c.front) { finish_tasks = codes }) c.rest)

  left-IsValid : IsValid left
  left-IsValid =
      let labelled : TaskManager = record s {
        finish_tasks = codes;
        finish_waiter = s.finish_waiter;
      } in
      let front : Current labelled = record {
        front = c.front;
        rest = c.rest;
        task = c.task;
        queue = c.queue;
        found = c.found;
        runs = c.runs;
        at_level = c.at_level;
        is_front = c.is_front;
      } in
      let valid = relabel-IsValid s codes s.finish_waiter v in
      requeue-IsValid labelled (ended labelled c.front) c.rest valid.scheduled refl refl refl
        (ended-IsConsistent labelled front valid.consistent other)

  left-tasks :
      (id : ℕ) → find_task id left.tasks ≡ (if c.front == id then none else find_task id s.tasks)
  unfolding requeue
  left-tasks id =
      ap (find_task id)
        (reschedule_keeps (requeue (record (ended s c.front) { finish_tasks = codes }) c.rest)).0
      ∙ find_task-erase c.front id s.tasks v.consistent.distinct

  left_keeps : (left.finish_tasks ≡ codes) × (left.finish_waiter ≡ s.finish_waiter)
  unfolding requeue
  left_keeps =
      let keeps =
        reschedule_keeps (requeue (record (ended s c.front) { finish_tasks = codes }) c.rest) in
      (keeps.3, keeps.4)

  record_exit-left : record_exit (reschedule (requeue s c.rest)) c.front exit_code ≡ left
  unfolding requeue
  record_exit-left =
      let keeps = reschedule_keeps (requeue s c.rest) in
      ap₂
        (λ ts cs. record (reschedule (requeue s c.rest)) {
          tasks = erase_task c.front ts;
          finish_tasks = Dict.insert c.front exit_code cs;
        })
        keeps.0 keeps.3
      ∙ reschedule-record (requeue s c.rest) (erase_task c.front s.tasks) codes

  found-left : find_task c.front (reschedule (requeue s c.rest)).tasks ≡ some c.task
  unfolding requeue
  found-left = ap (find_task c.front) (reschedule_keeps (requeue s c.rest)).0 ∙ c.found

  finish-left :
      finish s exit_code ≡ (do r ← wake_waiter left c.front; next ← current_task r; some (r, next))
  unfolding finish
  finish-left = rw (rotate_out s c.front c.rest c.queue, found-left, record_exit-left)

-- What waking the task that waits for `id` leaves.
record IsWaiterWoken (s : TaskManager) (id : ℕ) (r : TaskManager) : Type 0 where
  valid : IsValid r
  same_id : find_task id r.tasks ≡ find_task id s.tasks
  same_finished : r.finish_tasks ≡ s.finish_tasks
  woken :
      (w : ℕ)
      → Dict.lookup id s.finish_waiter ≡ some w
      → (is_running (find_task w r.tasks) ≡ true) × (Dict.lookup id r.finish_waiter ≡ none)

woken-IsWaiterWoken :
    (s : TaskManager) (id w level : ℕ) (r : TaskManager)
    → Dict.lookup id s.finish_waiter ≡ some w
    → w ≢ id
    → IsWoken (record s { finish_waiter = Dict.erase id s.finish_waiter }) w level r
    → IsWaiterWoken s id r
woken-IsWaiterWoken s id w level r waits other k = record {
  valid = k.valid;
  same_id = k.others id (λ e. other (sym e));
  same_finished = k.same_finished;
  woken = λ x e. (
    subst (λ y. is_running (find_task y r.tasks) ≡ true) (ground arith)
        (runs_of (find_task w r.tasks) level k.runs),
    ap (Dict.lookup id) k.same_waiters ∙ Dict.lookup-erase id id s.finish_waiter ∙ ground arith,
  );
}
  where
    runs_of : (o : Option Task) (l : ℕ) → queued_count o l ≡ 1 → is_running o ≡ true
    runs_of none l e = absurd (omega arith)
    runs_of (some t) l e = ground arith

wake_waiter-IsWaiterWoken :
    (s : TaskManager) (id : ℕ)
    → IsValid s
    → WaiterLives s id
    → Returns (wake_waiter s id) (IsWaiterWoken s id)
unfolding wake_waiter
wake_waiter-IsWaiterWoken s id v lives = elim (Option-cases (Dict.lookup id s.finish_waiter)) [
  | inl nobody ↦
      rw (nobody, wake_waiter)
        (record { valid = v; same_id = refl; same_finished = refl; woken = λ w e. cc })
  | inr (w, waits) ↦
      let target : TaskManager = record s { finish_waiter = Dict.erase id s.finish_waiter } in
      let there = lives w waits in
      let level : there.1.0.level ≤ max_level = ground (arith, v.consistent.levels w, there.1.1) in
      rw (waits, wake_waiter)
        (Returns_mono (wakeup target w (negsuc 0)) (IsWoken target w there.1.0.level)
          (IsWaiterWoken s id) (λ r k. woken-IsWaiterWoken s id w there.1.0.level r waits there.0 k)
          (wakeup_lem target w (negsuc 0)
            (relabel-IsValid s s.finish_tasks (Dict.erase id s.finish_waiter) v) there.1.1 level))
]

module _ (s : TaskManager) (exit_code : ℤ) (c : Current s) (v : IsValid s)
    (other : c.front ≢ idle_id) (lives : WaiterLives s c.front) where
  left-lives : WaiterLives (left s exit_code c v other) c.front
  left-lives w e =
      let there =
        lives w (ap (Dict.lookup c.front) (sym (left_keeps s exit_code c v other).1) ∙ e) in
      (there.0, (there.1.0, ground (arith, left-tasks s exit_code c v other w, there.0, there.1.1)))

  ended-IsFinished :
      (r : TaskManager) (next : ℕ)
      → IsWaiterWoken (left s exit_code c v other) c.front r
      → current_task r ≡ some next
      → IsFinished s c.front exit_code (r, next)
  ended-IsFinished r next k e = record {
    valid = k.valid;
    gone = ground (arith, k.same_id, left-tasks s exit_code c v other c.front);
    code =
        ap (Dict.lookup c.front) (k.same_finished ∙ (left_keeps s exit_code c v other).0)
        ∙ Dict.lookup-insert c.front c.front exit_code s.finish_tasks
        ∙ ground arith;
    woken = λ w h. k.woken w (ap (Dict.lookup c.front) (left_keeps s exit_code c v other).1 ∙ h);
    resumed = e;
  }

  -- In a valid state, let the current task not be the idle one, and let the task that waits for it, if
  -- any, be another that is there. `Finish` is defined: it
  -- erases it and keeps its exit code, the task that waits for it, if any, runs again and waits no
  -- more, and `RestoreContext` goes on with the new current task; the invariant holds.
  pub finish_lem : Returns (finish s exit_code) (IsFinished s c.front exit_code)
  finish_lem = rw (finish-left s exit_code c v other) (
      Returns->>= (wake_waiter (left s exit_code c v other) c.front) _
        (IsWaiterWoken (left s exit_code c v other) c.front) (IsFinished s c.front exit_code)
        (wake_waiter-IsWaiterWoken (left s exit_code c v other) c.front
          (left-IsValid s exit_code c v other) left-lives)
        (λ r k.
          rw (current_task-front r (current-Current r k.valid))
            (ended-IsFinished r _ k (current_task-front r (current-Current r k.valid)))))
