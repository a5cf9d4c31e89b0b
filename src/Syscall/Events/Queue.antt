-- ===== src/Syscall/Events/Queue.antt =====
-- `ReadEvent` takes the events off the front of the messages.
use mikanos.Prelude.{
  ℕ, ◌+◌, ◌-◌, ◌^◌, ◌<◌, ◌≤◌, ◌≡◌, ◌⊎◌, inl, inr, refl, sym, ◌∙◌, ap, subst, false, ◌&&◌, ◌||◌, ◌*◌,
  ◌/◌, ◌%◌, bit_and, none, some, List, [], ◌∷◌, ◌++◌, ◌==◌, ltb, if◌then◌else◌, length,
  length-append, arith, Bool-cases, Option-cases,
}
use mathlib.Core.List.{append-nil, append_assoc}
use native.Mathlib.Nat.{mod-eq_of_lt}
use mikanos.Message.{Message}
use mikanos.Prelude.Int.{pos, negsuc}
use mikanos.Timer.{Timer, TimerManager, add_timer, is_task_timer, timeout_message}
use mikanos.Timer.Ready.{IsReady, add_timer-IsReady}
use mikanos.Syscall.{no_error, einval}
use mikanos.Syscall.Events.{
  AppEvent, to_app_event, ReadOutcome, sleeps, returns, read_events, read_event, opposite,
  timer_ended, timer_freq, create_timer,
}

-- The events that messages stand for, in order.
abbrev pub events_of : List Message → List AppEvent
events_of [] = []
events_of (msg ∷ msgs) = elim (to_app_event msg.arg) [
  | none ↦ events_of msgs
  | some e ↦ e ∷ events_of msgs
]

-- `taken` messages have been taken, and their events are stored.
pub record IsTaken (len : ℕ) (before : List AppEvent) (msgs : List Message) (left : List Message)
    (events : List AppEvent) (outcome : ReadOutcome) : Type 0 where
  pub taken : List Message
  pub parts : taken ++ left ≡ msgs
  pub stored : events ≡ before ++ events_of taken
  pub room : length events ≤ len
  pub outcome_cases :
      ((outcome ≡ sleeps) × (left ≡ []) × (events ≡ []))
      ⊎ ((outcome ≡ returns (record { value = length events; error = no_error }))
          × ((left ≡ []) ⊎ (length events ≡ len))
          × ((0 < length events) ⊎ (len ≡ 0)))

-- One more message.
IsTaken-more :
    (len : ℕ) (before before' : List AppEvent) (msg : Message) (msgs left : List Message)
    (events : List AppEvent) (outcome : ReadOutcome)
    → ((rest : List Message) → before' ++ events_of rest ≡ before ++ events_of (msg ∷ rest))
    → IsTaken len before' msgs left events outcome
    → IsTaken len before (msg ∷ msgs) left events outcome
IsTaken-more len before before' msg msgs left events outcome same k = record {
  taken = msg ∷ k.taken;
  parts = ap (◌∷◌ msg) k.parts;
  stored = k.stored ∙ same k.taken;
  room = k.room;
  outcome_cases = k.outcome_cases;
}

-- The array is full, or there is no message left.
full-IsTaken :
    (len : ℕ) (before : List AppEvent) (msgs : List Message)
    → length before ≡ len
    → IsTaken len before msgs msgs before
        (returns (record { value = length before; error = no_error }))
full-IsTaken len before msgs h = record {
  taken = [];
  parts = refl;
  stored = sym (append-nil before);
  room = omega arith;
  outcome_cases = inr (
    refl,
    inr h,
    elim (Bool-cases (len == 0)) [ inl e ↦ inr (ground arith) | inr e ↦ inl (ground arith) ],
  );
}

abbrev IsTakenBy :
    ℕ → List AppEvent → List Message → List Message × (List AppEvent × ReadOutcome) → Type 0
IsTakenBy len before msgs (left, (events, outcome)) = IsTaken len before msgs left events outcome

read_events-IsTaken :
    (len : ℕ) (before : List AppEvent) (msgs : List Message)
    → length before ≤ len
    → IsTakenBy len before msgs (read_events len before msgs)
unfolding read_events
read_events-IsTaken len before [] h =
    elim (Bool-cases (ltb (length before) len && length before == 0)) [
      | inl starved ↦ rw starved (record {
        taken = [];
        parts = refl;
        stored = sym (append-nil before);
        room = h;
        outcome_cases = inl (refl, refl, empty before (ground arith));
      })
      | inr over ↦ rw over (record {
        taken = [];
        parts = refl;
        stored = sym (append-nil before);
        room = h;
        outcome_cases = inr (refl, inl refl, enough over);
      })
    ]
  where
    empty : (xs : List AppEvent) → length xs ≡ 0 → xs ≡ []
    empty [] e = refl
    empty (x ∷ xs) e = absurd (omega arith)

    enough :
        (ltb (length before) len && length before == 0) ≡ false → (0 < length before) ⊎ (len ≡ 0)
    enough over = elim (Bool-cases (length before == 0)) [
      | inl none_stored ↦ inr (ground arith)
      | inr some_stored ↦ inl (ground arith)
    ]
read_events-IsTaken len before (msg ∷ msgs) h = elim (Bool-cases (ltb (length before) len)) [
  | inr full ↦ rw full (full-IsTaken len before (msg ∷ msgs) (ground arith))
  | inl room ↦ elim (Option-cases (to_app_event msg.arg)) [
    | inl skipped ↦
        rw (room, read_events, skipped)
          (IsTaken-more len before before msg msgs _ _ _ (λ rest. rw (skipped, events_of) refl)
            (read_events-IsTaken len before msgs h))
    | inr (e, event) ↦
        rw (room, read_events, event)
          (IsTaken-more len before (before ++ e ∷ []) msg msgs _ _ _
            (λ rest. rw (event, events_of) (append_assoc before (e ∷ []) (events_of rest)))
            (read_events-IsTaken len (before ++ e ∷ []) msgs
              (ground (arith, length-append before (e ∷ [])))))
  ]
]

-- `ReadEvent` into an array of `len` events in the part of memory that belongs to programs takes
-- messages off the front, and stores their events in order, at most `len`. If none of the messages
-- there are has an event, and the array has room, the task sleeps, and the messages are taken. Else
-- it returns the number of events stored; then it stored at least one, unless the array has no
-- room, and either no message is left or the array is full.
pub read_event-IsTaken :
    (app_events len : ℕ) (msgs : List Message)
    → 2 ^ 63 ≤ app_events
    → IsTaken len [] msgs
        (read_event app_events len msgs).0
        (read_event app_events len msgs).1.0
        (read_event app_events len msgs).1.1
unfolding read_event
read_event-IsTaken app_events len msgs h =
    let own : ltb app_events (2 ^ 63) ≡ false = ground arith in
    rw own (read_events-IsTaken len [] msgs (omega arith))

opposite_lem : (value : ℕ) → 0 < value → value < 2 ^ 31 → opposite (value - 1) ≡ pos value
opposite_lem value h l =
    let least : (value - 1 == 2 ^ 31 - 1) ≡ false = ground arith in rw least (ap pos (omega arith))

-- `CreateTimer` of a value from 1 to 2^31 - 1 succeeds: it adds one timer of the task, which is not
-- a task timer, and keeps a ready queue ready. The message at the end of that timer is an event
-- with the timeout of the timer and the value.
pub create_timer_lem :
    (m : TimerManager) (task_id mode value time : ℕ)
    → IsReady m
    → 0 < value
    → value < 2 ^ 31
    → (t : Timer) × ((create_timer m task_id mode value time).0 ≡ add_timer m t)
      × ((create_timer m task_id mode value time).1.error ≡ no_error)
      × IsReady (create_timer m task_id mode value time).0
      × (t.task_id ≡ task_id)
      × (is_task_timer t ≡ false)
      × (to_app_event (timeout_message t).arg ≡ some (timer_ended t.timeout (pos value)))
unfolding create_timer is_task_timer
create_timer_lem m task_id mode value time k pos_value low =
    let whole : value % 2 ^ 32 ≡ value = mod-eq_of_lt (omega arith) in
    let span : ℕ = time * timer_freq % 2 ^ 64 / 1000 in
    let timeout : ℕ = if bit_and (mode % 2 ^ 32) 1 == 0 then span else (span + m.tick) % 2 ^ 64 in
    let t : Timer = record { timeout = timeout; value = negsuc (value - 1); task_id = task_id } in
    let accepted : (value == 0 || ltb (2 ^ 31 - 1) value) ≡ false = ground arith in
    let step : create_timer m task_id mode value time ≡ (
      add_timer m t,
      record { value = timeout * 1000 % 2 ^ 64 / timer_freq; error = no_error },
    ) =
      ap
        (λ x. if x == 0 || ltb (2 ^ 31 - 1) x then (m, record { value = 0; error = einval }) else (
          add_timer m (record { timeout = timeout; value = negsuc (x - 1); task_id = task_id }),
          record { value = timeout * 1000 % 2 ^ 64 / timer_freq; error = no_error },
        ))
        whole
      ∙ ap
          (λ b. if b then (m, record { value = 0; error = einval }) else (
            add_timer m t,
            record { value = timeout * 1000 % 2 ^ 64 / timer_freq; error = no_error },
          ))
          accepted in
    (
      t,
      ap (λ r. r.0) step,
      ap (λ r. r.1.error) step,
      subst (λ r. IsReady r.0) (sym step) (add_timer-IsReady m t k),
      refl,
      refl,
      ap (λ z. some (timer_ended timeout z)) (opposite_lem value pos_value low),
    )
