-- ===== src/Timer/Queue.antt =====
-- The queue of timers: its order, and how it splits at a tick.
use mikanos.Prelude.{
  ℕ, ◌<◌, ◌≤◌, ◌≡◌, refl, false, List, [], ◌∷◌, arith, ltb, if◌then◌else◌, length, is_empty,
}
use mikanos.Timer.{Timer, push}

-- No timer is nearer than `least`, and the timers are in order.
abbrev pub IsSortedFrom : ℕ → List Timer → Type 0
IsSortedFrom least [] = Unit
IsSortedFrom least (t ∷ timers) = (least ≤ t.timeout) × IsSortedFrom t.timeout timers

-- The timers that are due at tick `now`, and the others.
unfoldable pub due : ℕ → List Timer → List Timer
due now [] = []
due now (t ∷ timers) = if ltb now t.timeout then due now timers else t ∷ due now timers

unfoldable pub pending : ℕ → List Timer → List Timer
pending now [] = []
pending now (t ∷ timers) = if ltb now t.timeout then t ∷ pending now timers else pending now timers

pub IsSortedFrom-mono :
    (a b : ℕ) (timers : List Timer) → a ≤ b → IsSortedFrom b timers → IsSortedFrom a timers
IsSortedFrom-mono a b [] h s = tt
IsSortedFrom-mono a b (t ∷ timers) h (p, s) = (omega arith, s)

pub push-IsSortedFrom :
    (least : ℕ) (t : Timer) (timers : List Timer)
    → least ≤ t.timeout
    → IsSortedFrom least timers
    → IsSortedFrom least (push t timers)
unfolding push
push-IsSortedFrom least t [] h s = (h, tt)
push-IsSortedFrom least t (u ∷ timers) h (p, s) =
    ground (arith, push-IsSortedFrom u.timeout t timers)

pub due-push :
    (now : ℕ) (t : Timer) (timers : List Timer)
    → now < t.timeout
    → due now (push t timers) ≡ due now timers
unfolding push due
due-push now t [] h = ground arith
due-push now t (u ∷ timers) h = ground (arith, due-push now t timers h)

pub pending-push :
    (now : ℕ) (t : Timer) (timers : List Timer)
    → now < t.timeout
    → pending now (push t timers) ≡ push t (pending now timers)
unfolding push pending
pending-push now t [] h = ground arith
pending-push now t (u ∷ timers) h = ground (arith, pending-push now t timers h)

pub length-due : (now : ℕ) (timers : List Timer) → length (due now timers) ≤ length timers
unfolding due
length-due now [] = omega arith
length-due now (t ∷ timers) = ground (arith, length-due now timers)

-- In an ordered queue none is due once the first is not.
pub due_later :
    (now least : ℕ) (timers : List Timer)
    → now < least
    → IsSortedFrom least timers
    → due now timers ≡ []
unfolding due
due_later now least [] h s = refl
due_later now least (t ∷ timers) h (p, s) =
    ground (arith, due_later now t.timeout timers (omega arith) s)

pub pending_later :
    (now least : ℕ) (timers : List Timer)
    → now < least
    → IsSortedFrom least timers
    → pending now timers ≡ timers
unfolding pending
pending_later now least [] h s = refl
pending_later now least (t ∷ timers) h (p, s) =
    ground (arith, pending_later now t.timeout timers (omega arith) s)

pub is_empty-push : (t : Timer) (timers : List Timer) → is_empty (push t timers) ≡ false
unfolding push
is_empty-push t [] = refl
is_empty-push t (u ∷ timers) = ground arith

-- A timer that is still pending at a later tick is pending now.
pub pending_mono :
    (now later : ℕ) (timers : List Timer)
    → now ≤ later
    → is_empty (pending later timers) ≡ false
    → is_empty (pending now timers) ≡ false
unfolding pending
pending_mono now later [] h e = e
pending_mono now later (t ∷ timers) h e = ground (arith, pending_mono now later timers)

pub pending-pending :
    (now later : ℕ) (timers : List Timer)
    → now ≤ later
    → pending later (pending now timers) ≡ pending later timers
unfolding pending
pending-pending now later [] h = refl
pending-pending now later (t ∷ timers) h = ground (arith, pending-pending now later timers)

pub pending-push_busy :
    (later : ℕ) (t : Timer) (timers : List Timer)
    → is_empty (pending later timers) ≡ false
    → is_empty (pending later (push t timers)) ≡ false
unfolding push pending
pending-push_busy later t [] e = cc
pending-push_busy later t (u ∷ timers) e = ground (arith, pending-push_busy later t timers)
