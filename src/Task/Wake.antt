-- ===== src/Task/Wake.antt =====
-- `Wakeup`: the task runs afterwards at the level asked for, and the current task stays current.
use mikanos.Prelude.{
  ℕ, ◌≤◌, ◌≡◌, ◌≢◌, refl, true, false, Option, none, some, List, [], ◌∷◌, arith, ◌==◌, is_empty,
  erase_all, Bool-cases, inl, inr, ltb, ap, subst, sym, ◌∙◌, Returns,
}
use mikanos.Prelude.Int.{ℤ, pos, negsuc}
use mikanos.Message.{Message}
use mikanos.Task.State.{Task, TaskManager, max_level, find_task, set_level, set_running}
use mikanos.Task.RunQueue.{
  current_task, change_level_other, change_level_self, change_level_running,
}
use mikanos.Task.Sleep.{start_running, level_or_own, wakeup}
use mikanos.Task.Lookup.{find_task-id, find_task-update}
use mikanos.Task.Invariant.{queued_count, IsScheduled, IsValid, Current, current-Current}
use mikanos.Task.Rotate.{is_empty-snoc}
use mikanos.Task.Queues.{start-IsConsistent, other-IsConsistent, self-IsConsistent}

-- The messages that wait for a task.
abbrev pub msgs_of : Option Task → List Message
msgs_of none = []
msgs_of (some t) = t.msgs

-- What a call of `Wakeup` promises of the state that it returns.
pub record IsWoken (s : TaskManager) (task level : ℕ) (r : TaskManager) : Type 0 where
  pub valid : IsValid r
  pub runs : queued_count (find_task task r.tasks) level ≡ 1
  pub same_current : current_task r ≡ current_task s
  pub others : (id : ℕ) → id ≢ task → find_task id r.tasks ≡ find_task id s.tasks
  pub same_msgs : msgs_of (find_task task r.tasks) ≡ msgs_of (find_task task s.tasks)
  pub same_finished : r.finish_tasks ≡ s.finish_tasks
  pub same_waiters : r.finish_waiter ≡ s.finish_waiter

pub is_empty-erase_all : (x : ℕ) (q : List ℕ) → is_empty q ≡ true → is_empty (erase_all x q) ≡ true
is_empty-erase_all x [] e = refl
is_empty-erase_all x (y ∷ q) e = cc

module _ (s : TaskManager) (u : Task) (v : IsValid s)
    (found : find_task u.id s.tasks ≡ some u) where
  start_running-IsScheduled : (level : ℕ) → IsScheduled (start_running s u level)
  unfolding start_running
  start_running-IsScheduled level = record {
    current_in = v.scheduled.current_in;
    busy = ground (arith, v.scheduled.busy, is_empty-snoc (s.running level) u.id);
    no_higher = λ e l p q.
        let kept : s.level_changed ≡ false = ground arith in
        ground (arith, v.scheduled.no_higher kept l p q);
  }

  start_running-IsWoken :
      (level : ℕ)
      → u.running ≡ false
      → level ≤ max_level
      → IsWoken s u.id level (start_running s u level)
  unfolding start_running current_task
  start_running-IsWoken level asleep h = record {
    valid = record {
      consistent = start-IsConsistent s u v.consistent found level asleep h;
      scheduled = start_running-IsScheduled level;
    };
    runs = ground (
      arith,
      find_task-update u.id u.id (λ t. set_running true (set_level level t)) s.tasks (λ t. refl),
      found,
    );
    same_current = ground (arith, (current-Current s v).queue);
    others = λ id h. ground (
      arith,
      find_task-update u.id id (λ t. set_running true (set_level level t)) s.tasks (λ t. refl),
    );
    same_msgs = ground (
      arith,
      find_task-update u.id u.id (λ t. set_running true (set_level level t)) s.tasks (λ t. refl),
      found,
    );
    same_finished = refl;
    same_waiters = refl;
  }

  change_level_other-IsScheduled :
      (level : ℕ) (c : Current s) → u.id ≢ c.front → IsScheduled (change_level_other s u level)
  unfolding change_level_other
  change_level_other-IsScheduled level c other = record {
    current_in = v.scheduled.current_in;
    busy = ground (
      arith,
      v.scheduled.busy,
      c.queue,
      is_empty-snoc (s.running level) u.id,
      is_empty-snoc (erase_all u.id (s.running level)) u.id,
      ap (erase_all u.id) c.queue,
    );
    no_higher = λ e l p q.
        let kept : s.level_changed ≡ false = ground arith in
        ground (arith, v.scheduled.no_higher kept l p q, is_empty-erase_all u.id (s.running l));
  }

  change_level_other-IsWoken :
      (level : ℕ) (c : Current s)
      → u.id ≢ c.front
      → u.running ≡ true
      → level ≤ max_level
      → IsWoken s u.id level (change_level_other s u level)
  unfolding change_level_other current_task
  change_level_other-IsWoken level c other runs h = record {
    valid = record {
      consistent = other-IsConsistent s u v.consistent found level runs h;
      scheduled = change_level_other-IsScheduled level c other;
    };
    runs = ground (arith, find_task-update u.id u.id (set_level level) s.tasks (λ t. refl), found);
    same_current = ground (arith, c.queue, ap (erase_all u.id) c.queue);
    others = λ id h. ground (arith, find_task-update u.id id (set_level level) s.tasks (λ t. refl));
    same_msgs =
        ground (arith, find_task-update u.id u.id (set_level level) s.tasks (λ t. refl), found);
    same_finished = refl;
    same_waiters = refl;
  }

  change_level_self-IsWoken :
      (level : ℕ) (c : Current s)
      → u.id ≡ c.front
      → u.running ≡ true
      → level ≤ max_level
      → IsWoken s u.id level (change_level_self s u c.rest level)
  unfolding change_level_self current_task
  change_level_self-IsWoken level c same runs h = record {
    valid = record {
      consistent =
          self-IsConsistent s u v.consistent found level c.rest runs here
            (c.queue ∙ ap (λ x. x ∷ c.rest) (sym same)) h;
      scheduled = record {
        current_in = h;
        busy = ground arith;
        no_higher = λ e l p q.
            let kept : s.level_changed ≡ false = ground arith in
            ground (arith, v.scheduled.no_higher kept l (ground arith) q);
      };
    };
    runs = ground (arith, find_task-update u.id u.id (set_level level) s.tasks (λ t. refl), found);
    same_current = ground (arith, c.queue);
    others = λ id h. ground (arith, find_task-update u.id id (set_level level) s.tasks (λ t. refl));
    same_msgs =
        ground (arith, find_task-update u.id u.id (set_level level) s.tasks (λ t. refl), found);
    same_finished = refl;
    same_waiters = refl;
  }
    where
      here : u.level ≡ s.current_level
      here = ground (arith, found, c.found, c.at_level, ap (λ i. find_task i s.tasks) same)

-- Nothing to do: the task runs at that level already.
stay-IsWoken :
    (s : TaskManager) (u : Task)
    → IsValid s
    → find_task u.id s.tasks ≡ some u
    → u.running ≡ true
    → IsWoken s u.id u.level s
stay-IsWoken s u v found runs = record {
  valid = v;
  runs = ground (arith, found);
  same_current = refl;
  others = λ id h. refl;
  same_msgs = refl;
  same_finished = refl;
  same_waiters = refl;
}

change_level_running-IsWoken :
    (s : TaskManager) (u : Task) (level : ℤ)
    → IsValid s
    → find_task u.id s.tasks ≡ some u
    → u.running ≡ true
    → level_or_own level u ≤ max_level
    → Returns (change_level_running s u level) (IsWoken s u.id (level_or_own level u))
unfolding change_level_running
change_level_running-IsWoken s u (negsuc n) v found runs h = stay-IsWoken s u v found runs
change_level_running-IsWoken s u (pos level) v found runs h =
    let c = current-Current s v in
    let in_range : ltb max_level level ≡ false = ground arith in
    elim (Bool-cases (level == u.level)) [
      | inl here ↦
          rw here (subst (λ l. IsWoken s u.id l s) (ground arith) (stay-IsWoken s u v found runs))
      | inr moves ↦ elim (Bool-cases (u.id == c.front)) [
        | inl self ↦
            rw (moves, in_range, c.queue, self)
              (change_level_self-IsWoken s u v found level c (ground arith) runs h)
        | inr other ↦
            rw (moves, in_range, c.queue, other)
              (change_level_other-IsWoken s u v found level c (ground arith) runs h)
      ]
    ]

wakeup_own :
    (s : TaskManager) (u : Task) (level : ℤ)
    → IsValid s
    → find_task u.id s.tasks ≡ some u
    → level_or_own level u ≤ max_level
    → Returns (wakeup s u.id level) (IsWoken s u.id (level_or_own level u))
unfolding wakeup
wakeup_own s u level v found h = elim (Bool-cases u.running) [
  | inl runs ↦ rw found (simp runs (change_level_running-IsWoken s u level v found runs h))
  | inr asleep ↦
      let in_range : ltb max_level (level_or_own level u) ≡ false = ground arith in
      rw found (
        simp (asleep, in_range) (start_running-IsWoken s u v found (level_or_own level u) asleep h))
]

-- In a valid state, `Wakeup` of a task that is there, to a level that is there, is defined. It
-- keeps the invariant, the task runs afterwards at the level asked for, and the current task is the
-- same as before.
pub wakeup_lem :
    (s : TaskManager) (task : ℕ) (level : ℤ) {u : Task}
    → IsValid s
    → find_task task s.tasks ≡ some u
    → level_or_own level u ≤ max_level
    → Returns (wakeup s task level) (IsWoken s task (level_or_own level u))
wakeup_lem s task level {u} v found h =
    let own : u.id ≡ task = find_task-id task s.tasks u found in
    subst (λ i. Returns (wakeup s i level) (IsWoken s i (level_or_own level u))) own
      (wakeup_own s u level v (ap (λ i. find_task i s.tasks) own ∙ found) h)
