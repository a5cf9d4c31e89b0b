-- ===== src/Timer/Tick.antt =====
-- The loop of `Tick`: it ends the timers that are due, in order.
use mikanos.Prelude.{
  ℕ, zero, suc, ◌+◌, ◌^◌, ◌<◌, ◌≡◌, refl, Bool, true, false, ◌||◌, Option, some, List, [], ◌∷◌,
  arith, ltb, if◌then◌else◌, ◌>>=◌, length, is_empty, Bool-cases, Option-cases, inl, inr, Returns,
  Returns_mono, subst,
}
use mikanos.Error.{Error}
use mikanos.Message.{Message}
use mikanos.Task.State.{TaskManager, find_task}
use mikanos.Task.Sleep.{send_message}
use mikanos.Task.Invariant.{IsValid}
use mikanos.Task.Post.{IsSent, send_message_lem}
use mikanos.Task.History.{sent-IsValid}
use mikanos.Timer.{
  Timer, is_task_timer, push, next_period, timeout_message, tick_loop, task_timer_period,
}
use mikanos.Timer.Queue.{
  IsSortedFrom, IsSortedFrom-mono, due, pending, push-IsSortedFrom, due-push, pending-push,
  due_later, pending_later, is_empty-push,
}

-- The messages of the ended timers that are not task timers, sent in order.
pub send_all : TaskManager → List Timer → Option TaskManager
send_all s [] = some s
send_all s (t ∷ timers) =
    let skipped = send_all s timers in
    if is_task_timer t
    then skipped
    else (send_message s t.task_id (timeout_message t) >>= λ r. send_all r.0 timers)

-- Whether a task timer is among them.
pub has_task_timer : List Timer → Bool
has_task_timer [] = false
has_task_timer (t ∷ timers) = is_task_timer t || has_task_timer timers

-- The queue after each ended task timer has put its next period in.
unfoldable pub rearm : ℕ → List Timer → List Timer → List Timer
rearm now [] timers = timers
rearm now (t ∷ ended) timers =
    if is_task_timer t
    then rearm now ended (push (next_period now) timers)
    else rearm now ended timers

-- How the loop of `Tick` ends, when the timers in `ended` are due and those in `rest` are not.
pub record Ticked (now : ℕ) (ended rest : List Timer) (s : TaskManager) (timed_out : Bool)
    (r : List Timer × TaskManager × Bool) : Type 0 where
  pub valid : IsValid r.1
  pub sent : send_all s ended ≡ some r.1
  pub rearmed : r.0 ≡ rearm now ended rest
  pub flag : r.2 ≡ (timed_out || has_task_timer ended)
  pub sorted : IsSortedFrom 0 r.0
  pub none_due : due now r.0 ≡ []

pub record Ticking (fuel now : ℕ) (timers : List Timer) (s : TaskManager) : Type 0 where
  pub ticks_left : now + task_timer_period < 2 ^ 64
  pub fuel_left : length (due now timers) < fuel
  pub in_order : IsSortedFrom 0 timers
  pub some_pending : is_empty (pending now timers) ≡ false
  pub tasks : IsValid s

-- One round ends a task timer, or sends a message.
Ticked_period :
    (now : ℕ) (t : Timer) (ended rest : List Timer) (s : TaskManager) (f : Bool)
    (r : List Timer × TaskManager × Bool)
    → is_task_timer t ≡ true
    → Ticked now ended (push (next_period now) rest) s true r
    → Ticked now (t ∷ ended) rest s f r
unfolding send_all has_task_timer rearm
Ticked_period now t ended rest s f r e k = record {
  valid = k.valid;
  sent = ground (arith, k.sent);
  rearmed = ground (arith, k.rearmed);
  flag = ground (arith, k.flag);
  sorted = k.sorted;
  none_due = k.none_due;
}

Ticked_message :
    (now : ℕ) (t : Timer) (ended rest : List Timer) (s : TaskManager) (f : Bool)
    (x : TaskManager × Error) (r : List Timer × TaskManager × Bool)
    → is_task_timer t ≡ false
    → send_message s t.task_id (timeout_message t) ≡ some x
    → Ticked now ended rest x.0 f r
    → Ticked now (t ∷ ended) rest s f r
unfolding send_all has_task_timer rearm
Ticked_message now t ended rest s f x r e sent k = record {
  valid = k.valid;
  sent = rw (e, sent) (k.sent);
  rearmed = ground (arith, k.rearmed);
  flag = ground (arith, k.flag);
  sorted = k.sorted;
  none_due = k.none_due;
}

-- A message to a task leaves a valid state.
send-some :
    (s : TaskManager) (id : ℕ) (msg : Message)
    → IsValid s
    → (x : TaskManager × Error) × (send_message s id msg ≡ some x) × IsValid x.0
send-some s id msg v = elim (Option-cases (send_message s id msg)) [
  | inl e ↦ absurd (
      subst (λ o. Returns o (IsSent s id msg (find_task id s.tasks))) e
        (send_message_lem s id msg v))
  | inr (x, e) ↦ (
    x,
    e,
    sent-IsValid s id msg (find_task id s.tasks) x v (
        subst (λ o. Returns o (IsSent s id msg (find_task id s.tasks))) e
          (send_message_lem s id msg v)),
  )
]

-- The loop on the fuel given, from a queue in order in which some timer is not due.
pub loop-Ticked :
    (fuel now : ℕ) (timers : List Timer) (s : TaskManager) (timed_out : Bool)
    → Ticking fuel now timers s
    → Returns
        (tick_loop fuel now timers s timed_out)
        (Ticked now (due now timers) (pending now timers) s timed_out)
unfolding tick_loop due pending send_all has_task_timer rearm
loop-Ticked zero now timers s f k = absurd (omega (arith, k.fuel_left))
loop-Ticked (suc fuel) now [] s f k = cc (k.some_pending)
loop-Ticked (suc fuel) now (t ∷ timers) s f k = elim (Bool-cases (ltb now t.timeout)) [
  | inl later ↦
      let none_left : due now timers ≡ [] =
        due_later now t.timeout timers (ground arith) k.in_order.1 in
      let all_left : pending now timers ≡ timers =
        pending_later now t.timeout timers (ground arith) k.in_order.1 in
      rw (later, none_left, all_left)
        (record {
          valid = k.tasks;
          sent = refl;
          rearmed = refl;
          flag = ground arith;
          sorted = k.in_order;
          none_due = ground (arith, none_left);
        })
  | inr ended ↦ elim (Bool-cases (is_task_timer t)) [
    | inl period ↦
        let next : Timer = next_period now in
        let after : now < next.timeout = omega (arith, k.ticks_left) in
        rw (ended, period)
          (Returns_mono (tick_loop fuel now (push next timers) s true)
            (Ticked now (due now (push next timers)) (pending now (push next timers)) s true)
            (Ticked now (t ∷ due now timers) (pending now timers) s f)
            (λ r h. Ticked_period now t (due now timers) (pending now timers) s f r period (
              subst (λ d. Ticked now d (push next (pending now timers)) s true r)
                (due-push now next timers after)
                (subst (λ d. Ticked now (due now (push next timers)) d s true r)
                  (pending-push now next timers after) h)))
            (loop-Ticked fuel now (push next timers) s true (record {
              ticks_left = k.ticks_left;
              fuel_left = rw (due-push now next timers after) (ground (arith, k.fuel_left));
              in_order =
                  push-IsSortedFrom 0 next timers (omega arith)
                    (IsSortedFrom-mono 0 t.timeout timers (omega arith) k.in_order.1);
              some_pending =
                  rw (pending-push now next timers after) (is_empty-push next (pending now timers));
              tasks = k.tasks;
            })))
    | inr message ↦
        let (x, e, v) = send-some s t.task_id (timeout_message t) k.tasks in
        rw (ended, message, e)
          (Returns_mono (tick_loop fuel now timers x.0 f)
            (Ticked now (due now timers) (pending now timers) x.0 f)
            (Ticked now (t ∷ due now timers) (pending now timers) s f)
            (λ r h. Ticked_message now t (due now timers) (pending now timers) s f x r message e h)
            (loop-Ticked fuel now timers x.0 f (record {
              ticks_left = k.ticks_left;
              fuel_left = ground (arith, k.fuel_left);
              in_order = IsSortedFrom-mono 0 t.timeout timers (omega arith) k.in_order.1;
              some_pending = ground (arith, k.some_pending);
              tasks = v;
            })))
  ]
]
