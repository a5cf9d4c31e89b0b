-- ===== src/Terminal/Pipe/Stream.antt =====
-- A pipe as one queue of bytes: what the reader still gets, and whether the writer has ended it.
use mikanos.Prelude.{
  ℕ, zero, suc, ◌-◌, ◌≤◌, ◌≡◌, refl, sym, ◌∙◌, ap, Bool, false, ◌||◌, Option, none, some, List, [],
  ◌∷◌, ◌++◌, ◌==◌, length, take, drop, take-append, drop-append, length-append, length-take,
  length-drop, if◌then◌else◌, arith, All,
}
use mathlib.Core.List.{append-nil, append_assoc}
use mikanos.Message.{Message}
use mikanos.Terminal.Pipe.{pipe_size, memcpy, PipeDescriptor, as_pipe}

-- A message, with what follows it; one without any byte is the end.
abbrev pub add_block : Option (List ℕ × ℕ) → List ℕ → List ℕ
add_block none rest = rest
add_block (some (bytes, k)) rest = if k == 0 then [] else take k bytes ++ rest

abbrev pub ends : Option (List ℕ × ℕ) → Bool → Bool
ends none b = b
ends (some (bytes, k)) b = k == 0 || b

-- The bytes of the messages, up to the first message without any.
abbrev pub pending : List Message → List ℕ
pending [] = []
pending (msg ∷ msgs) = add_block (as_pipe msg.arg) (pending msgs)

abbrev pub is_ended : List Message → Bool
is_ended [] = false
is_ended (msg ∷ msgs) = ends (as_pipe msg.arg) (is_ended msgs)

-- What the reader still gets.
abbrev pub contents : PipeDescriptor → List Message → List ℕ
contents p msgs = take p.len p.bytes ++ (if p.closed then [] else pending msgs)

-- Nothing more follows what is in the pipe.
abbrev pub is_final : PipeDescriptor → List Message → Bool
is_final p msgs = p.closed || is_ended msgs

-- A message to a pipe fits in its array.
abbrev pub IsBlock : Option (List ℕ × ℕ) → Type 0
IsBlock none = Unit
IsBlock (some (bytes, k)) = (length bytes ≡ pipe_size) × (k ≤ pipe_size)

pub record IsPipe (p : PipeDescriptor) (msgs : List Message) : Type 0 where
  pub size : length p.bytes ≡ pipe_size
  pub fits : p.len ≤ pipe_size
  pub blocks : All (λ msg. IsBlock (as_pipe msg.arg)) msgs

pub take-memcpy :
    (dst src : List ℕ) (n : ℕ) → n ≤ length src → take n (memcpy dst src n) ≡ take n src
take-memcpy dst src n h =
    take-append n 0 (take n src) (drop n dst) (omega (arith, length-take n src))
    ∙ append-nil (take n src)

pub drop-memcpy :
    (dst src : List ℕ) (n : ℕ) → n ≤ length src → drop n (memcpy dst src n) ≡ drop n dst
drop-memcpy dst src n h =
    drop-append n 0 (take n src) (drop n dst) (omega (arith, length-take n src))

pub length-memcpy :
    (dst src : List ℕ) (n : ℕ)
    → n ≤ length src
    → n ≤ length dst
    → length (memcpy dst src n) ≡ length dst
length-memcpy dst src n h l =
    omega (arith, length-append (take n src) (drop n dst), length-take n src, length-drop n dst)

-- A part of the first `k` elements.
pub take-prefix :
    (n k : ℕ) (xs ys : List ℕ) → n ≤ k → k ≤ length xs → take n (take k xs ++ ys) ≡ take n xs
take-prefix zero k xs ys h l = refl
take-prefix (suc n) zero xs ys h l = absurd (omega arith)
take-prefix (suc n) (suc k) [] ys h l = absurd (omega arith)
take-prefix (suc n) (suc k) (x ∷ xs) ys h l =
    ap (◌∷◌ x) (take-prefix n k xs ys (omega arith) (omega arith))

pub drop-prefix :
    (n k : ℕ) (xs ys : List ℕ)
    → n ≤ k
    → k ≤ length xs
    → drop n (take k xs ++ ys) ≡ take (k - n) (drop n xs) ++ ys
drop-prefix zero k xs ys h l = ap (λ n. take n xs ++ ys) (omega arith)
drop-prefix (suc n) zero xs ys h l = absurd (omega arith)
drop-prefix (suc n) (suc k) [] ys h l = absurd (omega arith)
drop-prefix (suc n) (suc k) (x ∷ xs) ys h l =
    drop-prefix n k xs ys (omega arith) (omega arith)
    ∙ ap (λ m. take m (drop n xs) ++ ys) (omega arith)

add_block-append :
    (o : Option (List ℕ × ℕ)) (b : Bool) (xs ys : List ℕ)
    → ends o b ≡ false
    → add_block o (xs ++ ys) ≡ add_block o xs ++ ys
add_block-append none b xs ys h = refl
add_block-append (some (bytes, k)) b xs ys h =
    let more : (k == 0) ≡ false = ground arith in rw more (sym (append_assoc (take k bytes) xs ys))

rest_open : (o : Option (List ℕ × ℕ)) (b : Bool) → ends o b ≡ false → b ≡ false
rest_open none b h = h
rest_open (some (bytes, k)) b h = ground arith

-- Two lists of messages, one after the other.
pub pending-append :
    (first second : List Message)
    → is_ended first ≡ false
    → pending (first ++ second) ≡ pending first ++ pending second
pending-append [] second h = refl
pending-append (msg ∷ first) second h =
    ap (add_block (as_pipe msg.arg))
      (pending-append first second (rest_open (as_pipe msg.arg) (is_ended first) h))
    ∙ add_block-append (as_pipe msg.arg) (is_ended first) (pending first) (pending second) h

ends-or : (o : Option (List ℕ × ℕ)) (b c : Bool) → ends o (b || c) ≡ ends o b || c
ends-or none b c = refl
ends-or (some (bytes, k)) b c = ground arith

pub is_ended-append :
    (first second : List Message) → is_ended (first ++ second) ≡ is_ended first || is_ended second
is_ended-append [] second = refl
is_ended-append (msg ∷ first) second =
    ap (ends (as_pipe msg.arg)) (is_ended-append first second)
    ∙ ends-or (as_pipe msg.arg) (is_ended first) (is_ended second)
