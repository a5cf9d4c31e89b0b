-- ===== src/Task/Await.antt =====
-- One round of `WaitFinish`: the waiting task gets the exit code, or sleeps.
use mikanos.Prelude.{
  ℕ, ◌≡◌, ◌≢◌, refl, false, Option, none, some, arith, inl, inr, ap, ◌∙◌, Returns, Returns-map,
}
use mikanos.Prelude.Int.{ℤ}
use mikanos.Prelude.Dict
use mikanos.Task.State.{TaskManager, find_task}
use mikanos.Task.RunQueue.{current_task}
use mikanos.Task.Sleep.{sleep}
use mikanos.Task.Switch.{finished, waiting, wait_finish}
use mikanos.Task.Invariant.{idle_id, is_running, IsValid, Current, current-Current}
use mikanos.Task.Stop.{sleep_lem, IsSlept, current_task-queue, current_task-front}
use mikanos.Task.End.{relabel-IsValid}

-- In a valid state, one round of `WaitFinish` once the exit code is there: the code is returned and
-- forgotten, and nothing else changes.
pub wait_finish_done :
    (s : TaskManager) (task_id : ℕ) (exit_code : ℤ)
    → IsValid s
    → Dict.lookup task_id s.finish_tasks ≡ some exit_code
    → Returns (wait_finish s task_id) (λ r.
      (r.1 ≡ finished exit_code)
      × IsValid r.0
      × (Dict.lookup task_id r.0.finish_tasks ≡ none)
      × (current_task r.0 ≡ current_task s)
      × (r.0.tasks ≡ s.tasks))
unfolding wait_finish
wait_finish_done s task_id exit_code v e =
    rw (current_task-front s (current-Current s v), e, wait_finish)
      (
        refl,
        relabel-IsValid s (Dict.erase task_id s.finish_tasks) s.finish_waiter v,
        Dict.lookup-erase task_id task_id s.finish_tasks ∙ ground arith,
        let c = current-Current s v in
            current_task-queue (record s { finish_tasks = Dict.erase task_id s.finish_tasks })
              c.front c.rest c.queue,
        refl,
      )

-- Control cannot stay with a task that sleeps.
slept-resumed :
    (s : TaskManager) (task : ℕ) (r : TaskManager × Option ℕ)
    → current_task s ≡ some task
    → IsSlept s task r
    → r.1 ≡ current_task r.0
slept-resumed s task r here k = elim k.resumed [
  | inr (_, next, _) ↦ next
  | inl (_, stays) ↦
      let c = current-Current r.0 k.valid in
      let same : c.front ≡ task = cc (current_task-front r.0 c) in
      absurd (ground (arith, ap (λ i. find_task i r.0.tasks) same, c.found, c.runs, k.stopped))
]

-- In a valid state whose current task is not the idle one, one round of `WaitFinish` before the exit
-- code is there: the current task is noted as the one that
-- waits, stops, and control passes to the new current task.
pub wait_finish_pending :
    (s : TaskManager) (task_id : ℕ) (c : Current s)
    → IsValid s
    → c.front ≢ idle_id
    → Dict.lookup task_id s.finish_tasks ≡ none
    → Returns (wait_finish s task_id) (λ r.
      (r.1 ≡ waiting (current_task r.0))
      × IsValid r.0
      × (Dict.lookup task_id r.0.finish_waiter ≡ some c.front)
      × (is_running (find_task c.front r.0.tasks) ≡ false)
      × (r.0.finish_tasks ≡ s.finish_tasks))
unfolding wait_finish
wait_finish_pending s task_id c v other e =
    let noted : TaskManager = record s {
      finish_waiter = Dict.insert task_id c.front s.finish_waiter;
    } in
    rw (current_task-front s c, e, wait_finish)
      (Returns-map (sleep noted c.front) (λ r. (r.0, waiting r.1)) (IsSlept noted c.front) _
        (sleep_lem noted c.front
          (relabel-IsValid s s.finish_tasks (Dict.insert task_id c.front s.finish_waiter) v) c.found
          other)
        (λ r k. (
          ap waiting
              (slept-resumed noted c.front r (current_task-queue noted c.front c.rest c.queue) k),
          k.valid,
          ap (Dict.lookup task_id) k.same_waiters
              ∙ Dict.lookup-insert task_id task_id c.front s.finish_waiter
              ∙ ground arith,
          k.stopped,
          k.same_finished,
        )))
