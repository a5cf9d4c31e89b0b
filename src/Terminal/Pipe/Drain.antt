-- ===== src/Terminal/Pipe/Drain.antt =====
-- A reader that reads until `Read` returns 0.
use mikanos.Prelude.{
  ℕ, zero, suc, ◌-◌, ◌<◌, ◌≤◌, ◌≡◌, inl, inr, refl, sym, ◌∙◌, ap, subst, true, false, Option, none,
  some, List, [], ◌∷◌, ◌++◌, ◌==◌, length, take, drop, length-drop, if◌then◌else◌, arith,
  Bool-cases, false, ◌>>=◌, Returns, Returns->>=, Returns_mono, false, ◌>>=◌, Returns, Returns->>=,
  Returns_mono,
}
use mathlib.Core.Bool.{true≢false}
use mathlib.Core.Option
use mikanos.Message.{Message}
use mikanos.Task.State.{Task, TaskManager, find_task}
use mikanos.Task.Invariant.{IsValid}
use mikanos.Terminal.Pipe.{
  pipe_size, PipeDescriptor, Outcome, waits, returned, read, write, finish_write,
}
use mikanos.Terminal.Pipe.Stream.{contents, is_final, IsPipe}
use mikanos.Terminal.Pipe.Read.{IsAnswer, read-IsAnswer}
use mikanos.Terminal.Pipe.Write.{IsQueued, write_lem, finish_write_lem}

-- The bytes of a call of `Read`, and of those that follow; `none` is a call that does not return.
abbrev after_read :
    (PipeDescriptor → List ℕ → List Message → Option (List ℕ))
    → List Message × (PipeDescriptor × Outcome)
    → Option (List ℕ)
after_read again (msgs, (p, waits)) = none
after_read again (msgs, (p, returned buf n)) =
    if n == 0 then some [] else Option.map (λ bytes. take n buf ++ bytes) (again p buf msgs)

-- Reads with room for `len` bytes until one returns 0, at most `rounds` of them.
unfoldable pub read_all : ℕ → ℕ → PipeDescriptor → List ℕ → List Message → Option (List ℕ)
unfolding read
read_all zero len p buf msgs = none
read_all (suc rounds) len p buf msgs =
    let r = read p buf len msgs in after_read (read_all rounds len) r

take-drop : (n : ℕ) (xs : List ℕ) → take n xs ++ drop n xs ≡ xs
take-drop zero xs = refl
take-drop (suc n) [] = refl
take-drop (suc n) (x ∷ xs) = ap (◌∷◌ x) (take-drop n xs)

-- One call, where the calls after it get the rest of the queue.
after_read_lem :
    (again : PipeDescriptor → List ℕ → List Message → Option (List ℕ)) (queue buf : List ℕ)
    (len rounds : ℕ) (r : List Message × (PipeDescriptor × Outcome))
    → 0 < len
    → length queue < suc rounds
    → ((p : PipeDescriptor) (out : List ℕ) (msgs : List Message)
        → IsPipe p msgs
        → is_final p msgs ≡ true
        → length (contents p msgs) < rounds
        → again p out msgs ≡ some (contents p msgs))
    → IsAnswer queue true buf len r
    → after_read again r ≡ some queue
after_read_lem again queue buf len rounds (msgs, (p, waits)) room enough rest k =
    absurd (true≢false k.not_ended)
after_read_lem again queue buf len rounds (msgs, (p, returned out n)) room enough rest k =
    elim (Bool-cases (n == 0)) [
      | inl over ↦ rw over (elim (k.nothing (ground arith)) [
        | inl full ↦ absurd (omega arith)
        | inr (empty, ended) ↦ ap some (sym empty)
      ])
      | inr more ↦
          let left : length (contents p msgs) ≡ length queue - n =
            ap (length {A = ℕ}) k.left ∙ length-drop n queue in
          rw more (
            ap (Option.map (λ bytes. take n out ++ bytes))
              (rest p out msgs k.valid k.same_end (ground (arith, left, k.available)))
            ∙ ap some (
                ap (λ xs. xs ++ contents p msgs) k.front
                ∙ ap (λ xs. take n queue ++ xs) k.left
                ∙ take-drop n queue))
    ]

-- From a pipe whose messages fit in their arrays and whose queue is ended, reads with room for at
-- least one byte get the whole queue, in order, and then 0, in one round more than the queue has
-- bytes.
pub read_all-contents :
    (rounds len : ℕ) (p : PipeDescriptor) (buf : List ℕ) (msgs : List Message)
    → 0 < len
    → IsPipe p msgs
    → is_final p msgs ≡ true
    → length (contents p msgs) < rounds
    → read_all rounds len p buf msgs ≡ some (contents p msgs)
unfolding read_all
read_all-contents zero len p buf msgs room v e enough = absurd (omega arith)
read_all-contents (suc rounds) len p buf msgs room v e enough =
    after_read_lem (read_all rounds len) (contents p msgs) buf len rounds (read p buf len msgs) room
      enough (λ q out ms w f h. read_all-contents rounds len q out ms room w f h)
      (subst (λ b. IsAnswer (contents p msgs) b buf len (read p buf len msgs)) e
        (read-IsAnswer p buf len msgs v))

-- In a valid state of the scheduler, with a task that reads the pipe and a pipe that is not ended: after
-- `Write` of the `len` bytes of a buffer and `FinishWrite`, reads by that task with room for at least one
-- byte get what was in the pipe before, then those bytes, and then 0, in one round more than there are
-- bytes.
pub read_all-write :
    (s : TaskManager) (p : PipeDescriptor) (u : Task) (buf array out : List ℕ) (len size rounds : ℕ)
    → IsValid s
    → find_task p.task s.tasks ≡ some u
    → IsPipe p u.msgs
    → is_final p u.msgs ≡ false
    → len ≤ length buf
    → length array ≡ pipe_size
    → 0 < size
    → length (contents p u.msgs ++ take len buf) < rounds
    → Returns (write s p buf len array >>= (λ (t, n). finish_write t p array)) (λ t.
      (v : Task) × (find_task p.task t.tasks ≡ some v)
      × (read_all rounds size p out v.msgs ≡ some (contents p u.msgs ++ take len buf)))
read_all-write s p u buf array out len size rounds v found k e fits full room enough =
    let queue : List ℕ = contents p u.msgs ++ take len buf in
    Returns->>= (write s p buf len array) _ (λ (t, n). (n ≡ len) × IsQueued s p queue false t) _
      (write_lem s p u buf array len v found k e fits full)
      (λ (t, n) (_, w).
        Returns_mono (finish_write t p array) (IsQueued t p (contents p w.reader.msgs) true) _
          (λ r h. (
            h.reader,
            h.found,
            read_all-contents rounds size p out h.reader.msgs room h.pipe_valid h.end
                  (subst (λ xs. length xs < rounds) (sym (h.queued ∙ w.queued)) enough)
                ∙ ap some (h.queued ∙ w.queued),
          ))
          (finish_write_lem t p w.reader array w.valid w.found w.pipe_valid w.end full))
