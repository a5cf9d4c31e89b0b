-- ===== src/Task/Post.antt =====
-- `SendMessage`: the message is queued and its task woken.
use mikanos.Prelude.{
  ℕ, ◌≡◌, refl, Option, none, some, [], ◌∷◌, ◌++◌, arith, ap, ◌∙◌, Returns, Returns-map,
}
use mikanos.Prelude.Int.{negsuc}
use mikanos.Error.{Error, success, no_such_task}
use mikanos.Message.{Message}
use mikanos.Task.State.{Task, TaskManager, find_task, update_task}
use mikanos.Task.Sleep.{wakeup, push_message, task_send_message, send_message}
use mikanos.Task.Lookup.{find_task-update}
use mikanos.Task.Invariant.{queued_count, IsValid}
use mikanos.Task.Queues.{Keeps, touch-IsConsistent}
use mikanos.Task.RunQueue.{current_task}
use mikanos.Task.Wake.{IsWoken, msgs_of, wakeup_lem}

touch-IsValid :
    (s : TaskManager) (i : ℕ) (f : Task → Task)
    → Keeps f
    → IsValid s
    → IsValid (record s { tasks = update_task i f s.tasks })
touch-IsValid s i f same v = record {
  consistent = touch-IsConsistent s i f same v.consistent;
  scheduled = record {
    current_in = v.scheduled.current_in;
    busy = v.scheduled.busy;
    no_higher = v.scheduled.no_higher;
  };
}

-- How a call of `SendMessage` to task `id` ends.
abbrev pub IsSent : TaskManager → ℕ → Message → Option Task → TaskManager × Error → Type 0
IsSent s id msg none r = r ≡ (s, no_such_task)
IsSent s id msg (some u) r =
    IsValid r.0
    × (r.1 ≡ success)
    × (msgs_of (find_task id r.0.tasks) ≡ u.msgs ++ (msg ∷ []))
    × (queued_count (find_task id r.0.tasks) u.level ≡ 1)
    × (current_task r.0 ≡ current_task s)

-- In a valid state `SendMessage` is defined. Without such a task it fails and changes nothing. Else
-- the message goes to the end of the task's messages, the task runs at its level, the current task
-- is the same as before, and the invariant holds.
pub send_message_lem :
    (s : TaskManager) (id : ℕ) (msg : Message)
    → IsValid s
    → Returns (send_message s id msg) (IsSent s id msg (find_task id s.tasks))
unfolding send_message task_send_message current_task
send_message_lem s id msg v = sent (find_task id s.tasks) refl
  where
    posted : TaskManager
    posted = record s { tasks = update_task id (push_message msg) s.tasks }

    posted_found :
        (u : Task)
        → find_task id s.tasks ≡ some u
        → find_task id posted.tasks ≡ some (push_message msg u)
    posted_found u e =
        ground (arith, e, find_task-update id id (push_message msg) s.tasks (λ t. refl))

    sent :
        (o : Option Task)
        → find_task id s.tasks ≡ o
        → Returns (send_message s id msg) (IsSent s id msg o)
    sent none e = rw (e, send_message) refl
    sent (some u) e =
        rw (e, send_message)
          (Returns-map (wakeup posted id (negsuc 0)) (λ r. (r, success)) (IsWoken posted id u.level)
            _
            (wakeup_lem posted id (negsuc 0)
              (touch-IsValid s id (push_message msg) (λ t. (refl, refl, refl)) v) (posted_found u e)
              (ground (arith, v.consistent.levels id, e)))
            (λ r k.
              (k.valid, refl, k.same_msgs ∙ ap msgs_of (posted_found u e), k.runs, k.same_current)))
