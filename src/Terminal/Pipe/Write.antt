-- ===== src/Terminal/Pipe/Write.antt =====
-- `Write` adds bytes to the back of the queue that the pipe is, and `FinishWrite` ends it.
use mikanos.Prelude.{
  ℕ, ◌-◌, ◌≤◌, ◌≡◌, refl, sym, ◌∙◌, ap, subst, Bool, true, false, ◌||◌, some, List, [], ◌∷◌, ◌++◌,
  length, take, if◌then◌else◌, arith, All, All-append, Returns, Returns-map, Returns_mono,
}
use mathlib.Core.List.{append-nil, append_assoc}
use mathlib.Core.Bool.{true≢false}
use mikanos.Message.{Message, pipe}
use mikanos.Task.State.{Task, TaskManager, find_task}
use mikanos.Task.RunQueue.{current_task}
use mikanos.Task.Sleep.{task_send_message}
use mikanos.Task.Invariant.{IsValid}
use mikanos.Task.Grow.{IsGrown, task_send_message_lem}
use mikanos.Terminal.Pipe.{pipe_size, PipeDescriptor, as_pipe, write_loop, write, finish_write}
use mikanos.Terminal.Pipe.Stream.{
  pending, is_ended, contents, is_final, IsBlock, IsPipe, pending-append, is_ended-append,
}
use mikanos.Terminal.Pipe.Send.{Sends, write_loop-Sends}

-- The queue of the pipe, after the writer has done something.
pub record IsQueued (s : TaskManager) (p : PipeDescriptor) (queue : List ℕ) (final : Bool)
    (t : TaskManager) : Type 0 where
  pub valid : IsValid t
  pub reader : Task
  pub found : find_task p.task t.tasks ≡ some reader
  pub pipe_valid : IsPipe p reader.msgs
  pub queued : contents p reader.msgs ≡ queue
  pub end : is_final p reader.msgs ≡ final
  pub same_current : current_task t ≡ current_task s

not_final : (c e : Bool) → c || e ≡ false → (c ≡ false) × (e ≡ false)
not_final false e h = (refl, h)
not_final true e h = absurd (true≢false h)

-- A pipe that is not ended, and gets more messages.
grown-IsQueued :
    (s : TaskManager) (p : PipeDescriptor) (u : Task) (added : List Message) (t : TaskManager)
    → IsPipe p u.msgs
    → is_final p u.msgs ≡ false
    → All (λ msg. IsBlock (as_pipe msg.arg)) added
    → IsGrown s p.task u added t
    → IsQueued s p (contents p u.msgs ++ pending added) (is_ended added) t
grown-IsQueued s p u added t v e blocks k =
    let (c, o) = not_final p.closed (is_ended u.msgs) e in
    record {
      valid = k.valid;
      reader = k.reader;
      found = k.found;
      pipe_valid = record {
        size = v.size;
        fits = v.fits;
        blocks =
            subst (All (λ msg. IsBlock (as_pipe msg.arg))) (sym k.msgs)
              (All-append _ u.msgs added v.blocks blocks);
      };
      queued =
          ap (contents p) k.msgs
          ∙ ap (λ b. take p.len p.bytes ++ (if b then [] else pending (u.msgs ++ added))) c
          ∙ ap (λ xs. take p.len p.bytes ++ xs) (pending-append u.msgs added o)
          ∙ sym (append_assoc (take p.len p.bytes) (pending u.msgs) (pending added))
          ∙ ap (λ b. (take p.len p.bytes ++ (if b then [] else pending u.msgs)) ++ pending added)
              (sym c);
      end =
          ap (is_final p) k.msgs
          ∙ ap (λ b. b || is_ended (u.msgs ++ added)) c
          ∙ is_ended-append u.msgs added
          ∙ ap (λ b. b || is_ended added) o;
      same_current = k.same_current;
    }

-- In a valid state of the scheduler, with a task that reads the pipe and a pipe that is not ended,
-- `Write` of the `len` bytes of a buffer returns `len`, and the bytes stand in order at the back of
-- the queue; the queue is not ended, the state is valid, and the writer is still the current task.
pub write_lem :
    (s : TaskManager) (p : PipeDescriptor) (u : Task) (buf array : List ℕ) (len : ℕ)
    → IsValid s
    → find_task p.task s.tasks ≡ some u
    → IsPipe p u.msgs
    → is_final p u.msgs ≡ false
    → len ≤ length buf
    → length array ≡ pipe_size
    → Returns
        (write s p buf len array)
        (λ (t, n). (n ≡ len) × IsQueued s p (contents p u.msgs ++ take len buf) false t)
unfolding write
write_lem s p u buf array len v found k e fits size =
    Returns-map (write_loop len s p.task buf len 0 array) (λ t. (t, len))
      (Sends s p.task u (take (len - 0) buf)) _
      (write_loop-Sends len s p.task u buf array len 0 (omega arith) fits size v found)
      (λ t (added, grown, carried). (
        refl,
        subst (λ xs. IsQueued s p (contents p u.msgs ++ xs) false t)
            (carried.bytes ∙ ap (λ m. take m buf) (omega arith))
            (subst (λ b. IsQueued s p (contents p u.msgs ++ pending added) b t) carried.not_ended
              (grown-IsQueued s p u added t k e carried.blocks grown)),
      ))

-- In a valid state of the scheduler, with a task that reads the pipe and a pipe that is not ended,
-- `FinishWrite` ends the queue, and nothing that is in the queue is lost.
pub finish_write_lem :
    (s : TaskManager) (p : PipeDescriptor) (u : Task) (array : List ℕ)
    → IsValid s
    → find_task p.task s.tasks ≡ some u
    → IsPipe p u.msgs
    → is_final p u.msgs ≡ false
    → length array ≡ pipe_size
    → Returns (finish_write s p array) (IsQueued s p (contents p u.msgs) true)
unfolding finish_write
finish_write_lem s p u array v found k e size =
    let msg : Message = record { src_task = 0; arg = pipe array 0 } in
    Returns_mono (task_send_message s p.task msg) (IsGrown s p.task u (msg ∷ [])) _
      (λ t h.
        subst (λ xs. IsQueued s p xs true t) (append-nil (contents p u.msgs))
          (grown-IsQueued s p u (msg ∷ []) t k e ((size, omega arith), tt) h))
      (task_send_message_lem s p.task u msg v found)
