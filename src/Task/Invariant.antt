-- ===== src/Task/Invariant.antt =====
-- The scheduler's invariant: the run queues hold exactly the running tasks, each once and at its
-- level, and the current level is the highest one with a task unless `level_changed_` is set.
use mikanos.Prelude.{
  ℕ, zero, suc, ◌<◌, ◌≤◌, ◌≡◌, refl, Bool, true, false, ◌&&◌, Option, none, some, List, [], ◌∷◌,
  arith, ◌==◌, if◌then◌else◌, is_empty, count, Bool-cases, ap, sym, ◌∙◌, subst, inl, inr,
}
use mikanos.Task.State.{Task, TaskManager, max_level, find_task}
use mikanos.Task.RunQueue.{pick_level, reschedule}
use mikanos.Task.Lookup.{Distinct, find_task-id}

-- The id of the task that runs `TaskIdle`.
abbrev pub idle_id : ℕ
idle_id = 2

-- How often a task stands in the queue of level `l`.
abbrev pub queued_count : Option Task → ℕ → ℕ
queued_count none l = 0
queued_count (some t) l = if t.running && t.level == l then 1 else 0

abbrev pub is_running : Option Task → Bool
is_running none = false
is_running (some t) = t.running

abbrev pub IsLevelWithin : Option Task → Type 0
IsLevelWithin none = Unit
IsLevelWithin (some t) = t.level ≤ max_level

-- The tasks and the queues agree.
pub record IsConsistent (s : TaskManager) : Type 0 where
  pub queued :
      (id l : ℕ) → l ≤ max_level → count id (s.running l) ≡ queued_count (find_task id s.tasks) l
  pub levels : (id : ℕ) → IsLevelWithin (find_task id s.tasks)
  pub fresh : (id : ℕ) → s.latest_id < id → find_task id s.tasks ≡ none
  pub distinct : Distinct s.tasks
  pub idle : is_running (find_task idle_id s.tasks) ≡ true

-- Some task is current, and none of a higher level waits unseen.
pub record IsScheduled (s : TaskManager) : Type 0 where
  pub current_in : s.current_level ≤ max_level
  pub busy : is_empty (s.running s.current_level) ≡ false
  pub no_higher :
      s.level_changed ≡ false
      → (l : ℕ) → s.current_level < l
      → l ≤ max_level
      → is_empty (s.running l) ≡ true

pub record IsValid (s : TaskManager) : Type 0 where
  pub consistent : IsConsistent s
  pub scheduled : IsScheduled s

-- `pick_level` finds the highest level with a task, if there is one.
pick_level-highest :
    (queues : ℕ → List ℕ) (n current k : ℕ)
    → k ≤ n
    → is_empty (queues k) ≡ false
    → (pick_level queues n current ≤ n)
      × (is_empty (queues (pick_level queues n current)) ≡ false)
      × ((l : ℕ) → pick_level queues n current < l → l ≤ n → is_empty (queues l) ≡ true)
unfolding pick_level
pick_level-highest queues zero current k h e =
    let bottom : is_empty (queues 0) ≡ false =
      subst (λ x. is_empty (queues x) ≡ false) (omega arith) e in
    rw bottom (omega arith, bottom, λ l p q. absurd (omega arith))
pick_level-highest queues (suc n) current k h e = elim (Bool-cases (is_empty (queues (suc n)))) [
  | inr top ↦ rw top (omega arith, top, λ l p q. absurd (omega arith))
  | inl none_there ↦
      let lower = pick_level-highest queues n current k (ground arith) e in
      rw none_there (
        omega (arith, lower.0),
        lower.1,
        λ l p q. elim (Bool-cases (l == suc n)) [
          | inl top ↦ subst (λ x. is_empty (queues x) ≡ true) (ground arith) none_there
          | inr below ↦ lower.2 l p (ground arith)
        ],
      )
]

-- A queue of level `k` with a task, and a current level whose queue is kept up to date by the flag,
-- make a scheduled state.
pub reschedule-IsScheduled :
    (s : TaskManager) (k : ℕ)
    → s.current_level ≤ max_level
    → k ≤ max_level
    → is_empty (s.running k) ≡ false
    → (s.level_changed ≡ false → is_empty (s.running s.current_level) ≡ false)
    → (s.level_changed ≡ false
        → (l : ℕ) → s.current_level < l
        → l ≤ max_level
        → is_empty (s.running l) ≡ true)
    → IsScheduled (reschedule s)
unfolding reschedule
reschedule-IsScheduled s k hc hk e busy highest = elim (Bool-cases s.level_changed) [
  | inl changed ↦
      let top = pick_level-highest s.running max_level s.current_level k hk e in
      rw changed (record { current_in = top.0; busy = top.1; no_higher = λ _. top.2 })
  | inr same ↦ rw same (record { current_in = hc; busy = busy same; no_higher = λ _. highest same })
]

-- After a rotation no queue above the current level holds a task, whatever the flag was.
pub reschedule-level_changed : (s : TaskManager) → (reschedule s).level_changed ≡ false
unfolding reschedule
reschedule-level_changed s = ground arith

pub reschedule_keeps :
    (s : TaskManager)
    → ((reschedule s).tasks ≡ s.tasks)
      × ((reschedule s).running ≡ s.running)
      × ((reschedule s).latest_id ≡ s.latest_id)
      × ((reschedule s).finish_tasks ≡ s.finish_tasks)
      × ((reschedule s).finish_waiter ≡ s.finish_waiter)
unfolding reschedule
reschedule_keeps s = ground arith

pub reschedule-IsConsistent : (s : TaskManager) → IsConsistent s → IsConsistent (reschedule s)
unfolding reschedule
reschedule-IsConsistent s c = elim (Bool-cases s.level_changed) [
  | inl changed ↦ simp changed (record {
    queued = c.queued;
    levels = c.levels;
    fresh = c.fresh;
    distinct = c.distinct;
    idle = c.idle;
  })
  | inr same ↦ simp same c
]

-- The current task: the front of the current queue, which is a running task of that level.
pub record Current (s : TaskManager) : Type 0 where
  pub front : ℕ
  pub rest : List ℕ
  pub task : Task
  pub queue : s.running s.current_level ≡ front ∷ rest
  pub found : find_task front s.tasks ≡ some task
  pub runs : task.running ≡ true
  pub at_level : task.level ≡ s.current_level
  pub is_front : task.id ≡ front

front-Current :
    (s : TaskManager) (q : List ℕ)
    → IsConsistent s
    → s.current_level ≤ max_level
    → is_empty q ≡ false
    → s.running s.current_level ≡ q
    → Current s
front-Current s [] c h busy e = cc
front-Current s (x ∷ rest) c h busy e =
    front-task (find_task x s.tasks) refl (ap (count x) (sym e) ∙ c.queued x s.current_level h)
  where
    front-task :
        (o : Option Task)
        → find_task x s.tasks ≡ o
        → count x (x ∷ rest) ≡ queued_count (find_task x s.tasks) s.current_level
        → Current s
    front-task none f once = ground arith
    front-task (some t) f once = record {
      front = x;
      rest = rest;
      task = t;
      queue = e;
      found = f;
      runs = ground arith;
      at_level = ground arith;
      is_front = find_task-id x s.tasks t f;
    }

pub current-Current : (s : TaskManager) → IsValid s → Current s
current-Current s v =
    front-Current s (s.running s.current_level) v.consistent v.scheduled.current_in v.scheduled.busy
      refl
