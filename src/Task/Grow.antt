-- ===== src/Task/Grow.antt =====
-- How the messages of a task grow by several calls of `SendMessage`.
use mikanos.Prelude.{
  ℕ, ◌≡◌, refl, subst, sym, ◌∙◌, ap, Option, none, some, List, [], ◌∷◌, ◌++◌, arith, Option-cases,
  inl, inr, Returns, Returns_mono,
}
use mathlib.Core.List.{append_assoc}
use mathlib.Core.Option
use mikanos.Error.{success}
use mikanos.Message.{Message}
use mikanos.Task.State.{Task, TaskManager, find_task}
use mikanos.Task.RunQueue.{current_task}
use mikanos.Task.Sleep.{task_send_message, send_message}
use mikanos.Task.Invariant.{queued_count, IsValid}
use mikanos.Task.Wake.{msgs_of}
use mikanos.Task.Post.{IsSent, send_message_lem}

-- The task has its messages and `added`, and the current task is still current.
pub record IsGrown (s : TaskManager) (task : ℕ) (u : Task) (added : List Message) (t : TaskManager)
    : Type 0 where
  pub valid : IsValid t
  pub reader : Task
  pub found : find_task task t.tasks ≡ some reader
  pub msgs : reader.msgs ≡ u.msgs ++ added
  pub same_current : current_task t ≡ current_task s

Returns-unmap {ℓ κ} :
    {A : Type ℓ} {B : Type κ} (m : Option A) (f : A → B) (P : B → Type 0)
    → Returns (Option.map f m) P
    → Returns m (λ a. P (f a))
Returns-unmap none f P h = h
Returns-unmap (some a) f P h = h

sent-IsGrown :
    (s : TaskManager) (task : ℕ) (u : Task) (msg : Message) (t : TaskManager)
    → IsSent s task msg (some u) (t, success)
    → IsGrown s task u (msg ∷ []) t
sent-IsGrown s task u msg t (valid, ok, msgs, queued, current) =
    elim (Option-cases (find_task task t.tasks)) [
      | inl missing ↦
          absurd (omega (arith, sym (ap (λ o. queued_count o u.level) missing) ∙ queued))
      | inr (v, there) ↦ record {
        valid = valid;
        reader = v;
        found = there;
        msgs = sym (ap msgs_of there) ∙ msgs;
        same_current = current;
      }
    ]

-- In a valid state with such a task the message is queued, whether the task slept or not.
pub task_send_message_lem :
    (s : TaskManager) (task : ℕ) (u : Task) (msg : Message)
    → IsValid s
    → find_task task s.tasks ≡ some u
    → Returns (task_send_message s task msg) (IsGrown s task u (msg ∷ []))
unfolding send_message
task_send_message_lem s task u msg v found =
    Returns_mono (task_send_message s task msg) (λ t. IsSent s task msg (some u) (t, success))
      (IsGrown s task u (msg ∷ [])) (λ t h. sent-IsGrown s task u msg t h)
      (Returns-unmap (task_send_message s task msg) (λ t. (t, success)) (IsSent s task msg (some u))
        (rw (found, send_message) at (send_message_lem s task msg v)))

-- One call after another.
pub IsGrown-trans :
    (s t r : TaskManager) (task : ℕ) (u : Task) (first second : List Message)
    (k : IsGrown s task u first t)
    → IsGrown t task k.reader second r
    → IsGrown s task u (first ++ second) r
IsGrown-trans s t r task u first second k h = record {
  valid = h.valid;
  reader = h.reader;
  found = h.found;
  msgs = h.msgs ∙ ap (λ ms. ms ++ second) k.msgs ∙ append_assoc u.msgs first second;
  same_current = h.same_current ∙ k.same_current;
}

-- The same by id.
pub send_message-IsGrown :
    (s : TaskManager) (task : ℕ) (u : Task) (msg : Message)
    → IsValid s
    → find_task task s.tasks ≡ some u
    → Returns (send_message s task msg) (λ r. IsGrown s task u (msg ∷ []) r.0)
send_message-IsGrown s task u msg v found =
    Returns_mono (send_message s task msg) (IsSent s task msg (some u)) _
      (λ (t, e) (valid, ok, msgs, queued, current).
        sent-IsGrown s task u msg t (valid, refl, msgs, queued, current))
      (subst (λ o. Returns (send_message s task msg) (IsSent s task msg o)) found
        (send_message_lem s task msg v))
