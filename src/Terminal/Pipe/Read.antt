-- ===== src/Terminal/Pipe/Read.antt =====
-- `Read` takes bytes off the front of the queue that the pipe is.
use mikanos.Prelude.{
  ℕ, ◌-◌, ◌<◌, ◌≤◌, ◌≡◌, ◌⊎◌, inl, inr, refl, sym, ◌∙◌, ap, subst, min, Bool, true, false, ◌||◌,
  some, List, [], ◌∷◌, ◌++◌, ◌==◌, ltb, length, take, drop, length-drop, length-take, length-append,
  if◌then◌else◌, arith, Bool-cases, Option-cases,
}
use mikanos.Message.{Message}
use mikanos.Terminal.Pipe.{
  pipe_size, PipeDescriptor, as_pipe, Outcome, waits, returned, hand_out, read_messages, read,
}
use mikanos.Terminal.Pipe.Stream.{
  add_block, ends, pending, is_ended, contents, is_final, IsBlock, IsPipe, take-memcpy, drop-memcpy,
  length-memcpy, take-prefix, drop-prefix,
}

-- The task sleeps: the queue is empty, and not ended.
pub record IsStarved (queue : List ℕ) (final : Bool) (msgs : List Message) (p : PipeDescriptor)
    : Type 0 where
  pub valid : IsPipe p msgs
  pub empty : queue ≡ []
  pub not_ended : final ≡ false
  pub still_empty : contents p msgs ≡ []
  pub still_not_ended : is_final p msgs ≡ false

-- `copied` bytes of the queue are in the buffer `out`, and the others are left. Without any, there was no
-- room, or the queue is empty and ended.
pub record IsServed (queue : List ℕ) (final : Bool) (buf : List ℕ) (len : ℕ) (msgs : List Message)
    (p : PipeDescriptor) (out : List ℕ) (copied : ℕ) : Type 0 where
  pub valid : IsPipe p msgs
  pub room : copied ≤ len
  pub available : copied ≤ length queue
  pub front : take copied out ≡ take copied queue
  pub others : drop copied out ≡ drop copied buf
  pub left : contents p msgs ≡ drop copied queue
  pub same_end : is_final p msgs ≡ final
  pub nothing : copied ≡ 0 → (len ≡ 0) ⊎ ((queue ≡ []) × (final ≡ true))

-- What a call of `Read` with room for `len` bytes does to the queue, whose end is `final`.
abbrev pub IsAnswer :
    List ℕ → Bool → List ℕ → ℕ → List Message × (PipeDescriptor × Outcome) → Type 0
IsAnswer queue final buf len (msgs, (p, waits)) = IsStarved queue final msgs p
IsAnswer queue final buf len (msgs, (p, returned out copied)) =
    IsServed queue final buf len msgs p out copied

-- A block of `k` bytes is handed out.
hand_out-IsAnswer :
    (p : PipeDescriptor) (msgs : List Message) (buf src : List ℕ) (k len : ℕ)
    → IsPipe p msgs
    → length src ≡ pipe_size
    → 0 < k
    → k ≤ pipe_size
    → IsAnswer
        (take k src ++ (if p.closed then [] else pending msgs))
        (is_final p msgs)
        buf
        len
        (msgs, hand_out p buf src k len)
hand_out-IsAnswer p msgs buf src k len v size more fits =
    let n : ℕ = min k len in
    let left : List ℕ = drop n src in
    let tail : List ℕ = if p.closed then [] else pending msgs in
    let whole : k - n ≤ length left = omega (arith, size, fits, length-drop n src) in
    record {
      valid = record {
        size = length-memcpy p.bytes left (k - n) whole (omega (arith, v.size, fits)) ∙ v.size;
        fits = omega arith;
        blocks = v.blocks;
      };
      room = omega arith;
      available = omega (arith, size, fits, length-append (take k src) tail, length-take k src);
      front =
          take-memcpy buf src n (omega arith)
          ∙ sym (take-prefix n k src tail (omega arith) (omega arith));
      others = drop-memcpy buf src n (omega arith);
      left =
          ap (λ x. x ++ tail) (take-memcpy p.bytes left (k - n) whole)
          ∙ sym (drop-prefix n k src tail (omega arith) (omega arith));
      same_end = refl;
      nothing = λ e. inl (omega arith);
    }

-- A pipe whose buffer is used up, and which is not closed.
empty_contents :
    (p : PipeDescriptor) (msgs : List Message)
    → p.len ≡ 0
    → p.closed ≡ false
    → contents p msgs ≡ pending msgs
empty_contents p msgs e o = rw (e, o) refl

-- The first message to the pipe.
first_block :
    (p : PipeDescriptor) (buf bytes : List ℕ) (len k : ℕ) (msgs : List Message)
    → p.len ≡ 0
    → p.closed ≡ false
    → IsPipe p msgs
    → (length bytes ≡ pipe_size) × (k ≤ pipe_size)
    → IsAnswer
        (add_block (some (bytes, k)) (pending msgs))
        (ends (some (bytes, k)) (is_ended msgs))
        buf
        len
        (if k == 0
          then (msgs, (record p { closed = true }, returned buf 0))
          else (msgs, hand_out p buf bytes k len))
first_block p buf bytes len k msgs e o v (size, fits) = elim (Bool-cases (k == 0)) [
  | inl last ↦ rw last (record {
    valid = record { size = v.size; fits = v.fits; blocks = v.blocks };
    room = omega arith;
    available = omega arith;
    front = refl;
    others = refl;
    left = rw e refl;
    same_end = refl;
    nothing = λ z. inr (refl, refl);
  })
  | inr more ↦ rw more (
      subst
        (λ c.
          IsAnswer (take k bytes ++ (if c then [] else pending msgs)) (c || is_ended msgs) buf len
            (msgs, hand_out p buf bytes k len))
        o (hand_out-IsAnswer p msgs buf bytes k len v size (ground arith) fits))
]

-- The loop over the messages, while nothing is buffered.
read_messages-IsAnswer :
    (p : PipeDescriptor) (buf : List ℕ) (len : ℕ) (msgs : List Message)
    → p.len ≡ 0
    → p.closed ≡ false
    → IsPipe p msgs
    → IsAnswer (pending msgs) (is_ended msgs) buf len (read_messages p buf len msgs)
unfolding read_messages
read_messages-IsAnswer p buf len [] e o v = record {
  valid = v;
  empty = refl;
  not_ended = refl;
  still_empty = empty_contents p [] e o;
  still_not_ended = rw o refl;
}
read_messages-IsAnswer p buf len (msg ∷ msgs) e o v =
    let rest : IsPipe p msgs = record { size = v.size; fits = v.fits; blocks = v.blocks.1 } in
    elim (Option-cases (as_pipe msg.arg)) [
      | inl another ↦ rw (another, read_messages) (read_messages-IsAnswer p buf len msgs e o rest)
      | inr ((bytes, k), there) ↦
          rw (there, read_messages)
            (first_block p buf bytes len k msgs e o rest (subst IsBlock there v.blocks.0))
    ]

-- `Read` with room for `len` bytes, from a pipe whose messages fit in their arrays. Either the task
-- sleeps; then nothing is left in the queue, and the writer has not ended it, both before and after. Or
-- `Read` copies bytes of the front of the queue to the front of the buffer, at most `len`; the others are
-- left in the queue, and the end of the queue is the same. It returns 0 only if there is no room, or if
-- the queue is empty and ended.
pub read-IsAnswer :
    (p : PipeDescriptor) (buf : List ℕ) (len : ℕ) (msgs : List Message)
    → IsPipe p msgs
    → IsAnswer (contents p msgs) (is_final p msgs) buf len (read p buf len msgs)
unfolding read
read-IsAnswer p buf len msgs v = elim (Bool-cases (ltb 0 p.len)) [
  | inl buffered ↦
      rw buffered (hand_out-IsAnswer p msgs buf p.bytes p.len len v v.size (ground arith) v.fits)
  | inr used ↦
      let e : p.len ≡ 0 = ground arith in
      elim (Bool-cases p.closed) [
        | inl closed ↦
            subst (IsAnswer (contents p msgs) (is_final p msgs) buf len)
              (sym (tested false true used closed))
              (record {
                valid = v;
                room = omega arith;
                available = omega arith;
                front = refl;
                others = refl;
                left = refl;
                same_end = refl;
                nothing = λ z. inr (rw (e, closed) refl, rw closed refl);
              })
        | inr not_closed ↦
            subst (IsAnswer (contents p msgs) (is_final p msgs) buf len)
              (sym (tested false false used not_closed))
              (subst
                (λ c.
                  IsAnswer (take p.len p.bytes ++ (if c then [] else pending msgs))
                    (c || is_ended msgs) buf len (read_messages p buf len msgs))
                (sym not_closed)
                (subst
                  (λ n.
                    IsAnswer (take n p.bytes ++ pending msgs) (is_ended msgs) buf len
                      (read_messages p buf len msgs))
                  (sym e) (read_messages-IsAnswer p buf len msgs e not_closed v)))
      ]
]
  where
    tested :
        (b c : Bool)
        → ltb 0 p.len ≡ b
        → p.closed ≡ c
        → read p buf len msgs ≡ (
            if b
            then (msgs, hand_out p buf p.bytes p.len len)
            else if c
            then (msgs, (p, returned buf 0))
            else read_messages p buf len msgs)
    tested b c d f =
        ap
          (λ x.
            if x
            then (msgs, hand_out p buf p.bytes p.len len)
            else if p.closed
            then (msgs, (p, returned buf 0))
            else read_messages p buf len msgs)
          d
        ∙ ap
            (λ x.
              if b
              then (msgs, hand_out p buf p.bytes p.len len)
              else if x
              then (msgs, (p, returned buf 0))
              else read_messages p buf len msgs)
            f
