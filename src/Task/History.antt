-- ===== src/Task/History.antt =====
-- Every history of calls from the constructor keeps the scheduler's invariant, and no call in it has
-- undefined behaviour.
use mathlib.Core.Option
use mikanos.Prelude.{
  ℕ, ◌+◌, ◌%◌, ◌^◌, ◌<◌, ◌≤◌, ◌≡◌, ◌≢◌, refl, Option, none, some, arith, Option-cases, inl, inr,
  ◌⊎◌, sym, subst, ◌∙◌, Returns, Returns_mono, Returns-map,
}
use mikanos.Prelude.Int.{ℤ}
use mikanos.Prelude.Dict
use mikanos.Error.{Error}
use mikanos.Message.{Message}
use mikanos.Task.Context.{TaskContext, Machine}
use mikanos.Task.State.{Task, TaskManager, max_level, find_task, fresh_task, new_task}
use mikanos.Task.Sleep.{wakeup, sleep, level_or_own, send_message}
use mikanos.Task.Switch.{switch_task, finish, wait_finish, init_manager}
use mikanos.Task.Lookup.{find_task-append, find_task-append_some, append-Distinct}
use mikanos.Task.Invariant.{idle_id, IsValid, Current, current-Current}
use mikanos.Task.Wake.{IsWoken, wakeup_lem}
use mikanos.Task.Stop.{IsSlept, sleep_lem}
use mikanos.Task.Turn.{IsSwitched, switch_task_lem}
use mikanos.Task.Post.{IsSent, send_message_lem}
use mikanos.Task.End.{WaiterLives, IsFinished, finish_lem}
use mikanos.Task.Await.{wait_finish_done, wait_finish_pending}

pub init-IsValid : (w : Machine) (f : ℕ) → IsValid (init_manager w f)
unfolding init_manager find_task
init-IsValid w f = record {
  consistent = record {
    queued = λ id l h. ground arith;
    levels = λ id. ground arith;
    fresh = λ id h. ground arith;
    distinct = (refl, (refl, tt));
    idle = refl;
  };
  scheduled = record {
    current_in = omega arith;
    busy = refl;
    no_higher = λ e l p q. absurd (omega arith);
  };
}

module _ (s : TaskManager) (h : s.latest_id + 1 < 2 ^ 64) (v : IsValid s) where
  abbrev next_id : ℕ
  next_id = (s.latest_id + 1) % 2 ^ 64

  -- A task is found after `NewTask` if it was there, or is the new one.
  found_after :
      (id : ℕ)
      → (find_task id (new_task s).tasks ≡ find_task id s.tasks)
        ⊎ ((id ≡ s.latest_id + 1)
            × (find_task id s.tasks ≡ none)
            × (find_task id (new_task s).tasks ≡ some (fresh_task next_id)))
  unfolding new_task
  found_after id = elim (Option-cases (find_task id s.tasks)) [
    | inr (t, e) ↦ inl (find_task-append_some id s.tasks (fresh_task next_id) t e ∙ sym e)
    | inl e ↦ ground (arith, find_task-append id s.tasks (fresh_task next_id) e)
  ]

  pub new_task-IsValid : IsValid (new_task s)
  unfolding new_task
  new_task-IsValid = record {
    consistent = record {
      queued = λ id l p. ground (arith, v.consistent.queued id l p, found_after id);
      levels = λ id. ground (arith, v.consistent.levels id, found_after id);
      fresh = λ id p. ground (arith, v.consistent.fresh id, found_after id);
      distinct =
          append-Distinct s.tasks (fresh_task next_id) (ground (arith, v.consistent.fresh next_id))
            v.consistent.distinct;
      idle = ground (arith, v.consistent.idle, found_after idle_id);
    };
    scheduled = record {
      current_in = v.scheduled.current_in;
      busy = v.scheduled.busy;
      no_higher = v.scheduled.no_higher;
    };
  }

-- The calls that tasks and the timer make on the scheduler.
pub data Call : Type 0 where
  makes : Call
  switches : TaskContext → Call
  sleeps : ℕ → Call
  wakes : ℕ → ℤ → Call
  sends : ℕ → Message → Call
  ends : ℤ → Call
  waits : ℕ → Call

unfoldable pub step : TaskManager → Call → Option TaskManager
step s makes = some (new_task s)
step s (switches ctx) = Option.map (λ r. r.0) (switch_task s ctx)
step s (sleeps id) = Option.map (λ r. r.0) (sleep s id)
step s (wakes id level) = wakeup s id level
step s (sends id msg) = Option.map (λ r. r.0) (send_message s id msg)
step s (ends exit_code) = Option.map (λ r. r.0) (finish s exit_code)
step s (waits id) = Option.map (λ r. r.0) (wait_finish s id)

abbrev IsThere : TaskManager → ℕ → Type 0
IsThere s id = (t : Task) × (find_task id s.tasks ≡ some t)

-- What the caller has to see to. The idle task only halts: it never sleeps, ends or waits. Ids do
-- not run out, levels are in range, and no task that waits in `WaitFinish` is ended.
pub data Allowed (s : TaskManager) : Call → Type 0 where
  make : s.latest_id + 1 < 2 ^ 64 → Allowed s makes
  switch : (ctx : TaskContext) → Allowed s (switches ctx)
  sleep_there : (id : ℕ) → IsThere s id → id ≢ idle_id → Allowed s (sleeps id)
  wake_there :
      (id : ℕ) (level : ℤ) (t : Task)
      → find_task id s.tasks ≡ some t
      → level_or_own level t ≤ max_level
      → Allowed s (wakes id level)
  send : (id : ℕ) (msg : Message) → Allowed s (sends id msg)
  end_self :
      (exit_code : ℤ)
      → ((c : Current s) → (c.front ≢ idle_id) × WaiterLives s c.front)
      → Allowed s (ends exit_code)
  wait : (id : ℕ) → ((c : Current s) → c.front ≢ idle_id) → Allowed s (waits id)

pub sent-IsValid :
    (s : TaskManager) (id : ℕ) (msg : Message) (o : Option Task) (r : TaskManager × Error)
    → IsValid s
    → IsSent s id msg o r
    → IsValid r.0
sent-IsValid s id msg none r v e = subst (λ x. IsValid x.0) (sym e) v
sent-IsValid s id msg (some u) r v k = k.0

wait_finish-IsValid :
    (s : TaskManager) (id : ℕ) (c : Current s) (o : Option ℤ)
    → Dict.lookup id s.finish_tasks ≡ o
    → IsValid s
    → c.front ≢ idle_id
    → Returns (wait_finish s id) (λ r. IsValid r.0)
wait_finish-IsValid s id c none e v other =
    Returns_mono (wait_finish s id) _ (λ r. IsValid r.0) (λ r k. k.1)
      (wait_finish_pending s id c v other e)
wait_finish-IsValid s id c (some code) e v other =
    Returns_mono (wait_finish s id) _ (λ r. IsValid r.0) (λ r k. k.1)
      (wait_finish_done s id code v e)

-- An allowed call on a valid state is defined, and leaves a valid state.
step-IsValid : (s : TaskManager) (k : Call) → IsValid s → Allowed s k → Returns (step s k) IsValid
unfolding step
step-IsValid s makes v (make h) = new_task-IsValid s h v
step-IsValid s (switches ctx) v (switch ctx') =
    Returns-map (switch_task s ctx) (λ r. r.0) (IsSwitched s ctx (current-Current s v)) IsValid
      (switch_task_lem s ctx (current-Current s v) v) (λ r k. k.valid)
step-IsValid s (sleeps id) v (sleep_there id' (t, e) other) =
    Returns-map (sleep s id) (λ r. r.0) (IsSlept s id) IsValid (sleep_lem s id v e other)
      (λ r k. k.valid)
step-IsValid s (wakes id level) v (wake_there id' level' t e h) =
    Returns_mono (wakeup s id level) (IsWoken s id (level_or_own level t)) IsValid (λ r k. k.valid)
      (wakeup_lem s id level v e h)
step-IsValid s (sends id msg) v (send id' msg') =
    Returns-map (send_message s id msg) (λ r. r.0) (IsSent s id msg (find_task id s.tasks)) IsValid
      (send_message_lem s id msg v) (λ r k. sent-IsValid s id msg (find_task id s.tasks) r v k)
step-IsValid s (ends code) v (end_self code' h) =
    let c = current-Current s v in
    Returns-map (finish s code) (λ r. r.0) (IsFinished s c.front code) IsValid
      (finish_lem s code c v (h c).0 (h c).1) (λ r k. k.valid)
step-IsValid s (waits id) v (wait id' h) =
    let c = current-Current s v in
    Returns-map (wait_finish s id) (λ r. r.0) (λ r. IsValid r.0) IsValid
      (wait_finish-IsValid s id c (Dict.lookup id s.finish_tasks) refl v (h c)) (λ r k. k)

-- The states that the scheduler comes to, from its constructor on.
pub data Reach (w : Machine) (task_idle : ℕ) : TaskManager → Type 0 where
  starts : Reach w task_idle (init_manager w task_idle)
  after :
      {s t : TaskManager} (k : Call)
      → Reach w task_idle s
      → Allowed s k
      → step s k ≡ some t
      → Reach w task_idle t

Reach-IsValid : {w : Machine} {f : ℕ} {s : TaskManager} → Reach w f s → IsValid s
Reach-IsValid {w} {f} starts = init-IsValid w f
Reach-IsValid (after {s} {t} k r a e) =
    subst (λ o. Returns o IsValid) e (step-IsValid s k (Reach-IsValid r) a)

-- Every state that the scheduler comes to keeps the invariant, and there every allowed call is
-- defined: no queue that must have a front is empty, and no pointer dangles.
pub Reach-step :
    {w : Machine} {f : ℕ} {s : TaskManager} (k : Call)
    → Reach w f s
    → Allowed s k
    → IsValid s × Returns (step s k) IsValid
Reach-step {s = s} k r a = (Reach-IsValid r, step-IsValid s k (Reach-IsValid r) a)
