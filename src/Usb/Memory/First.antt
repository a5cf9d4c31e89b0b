-- ===== src/Usb/Memory/First.antt =====
-- `AllocMem` hands out the first place that fits.
use native.Mathlib.Nat.{one-le-pow, suc-mul, mod-eq_of_lt, mul-le-mul_right, mul_assoc}
use mikanos.Prelude.{
  ℕ, suc, ◌+◌, ◌*◌, ◌%◌, ◌^◌, ◌<◌, ◌≤◌, ◌≡◌, ◌≢◌, ◌⊎◌, inl, inr, sym, ◌∙◌, ap, subst, true, false,
  none, some, ltb, if◌then◌else◌, arith, Bool-cases,
}
use mikanos.Usb.Memory.{memory_pool_size, ceil, alloc_mem}
use mikanos.Usb.Memory.Ceil.{IsCeil, IsConstraint, ceil-IsCeil}

abbrev pub IsMultiple : ℕ → ℕ → Type 0
IsMultiple a p = (m : ℕ) × (p ≡ m * a)

-- A block of `size` bytes at `p` has no multiple of `boundary` inside.
abbrev pub StaysWithin : ℕ → ℕ → ℕ → Type 0
StaysWithin boundary size p = (m : ℕ) → (m * boundary ≤ p) ⊎ (p + size ≤ m * boundary)

-- Where a block of `size` bytes may stand.
pub record IsPlace (alloc_ptr size alignment boundary p : ℕ) : Type 0 where
  pub unused : alloc_ptr ≤ p
  pub aligned : alignment ≢ 0 → IsMultiple alignment p
  pub within : boundary ≢ 0 → StaysWithin boundary size p

-- The first such place.
pub record IsFirstPlace (alloc_ptr size alignment boundary p : ℕ) : Type 0 where
  pub place : IsPlace alloc_ptr size alignment boundary p
  pub first : (q : ℕ) → IsPlace alloc_ptr size alignment boundary q → p ≤ q

-- The first aligned address.
abbrev align : ℕ → ℕ → ℕ
unfolding ceil
align alloc_ptr alignment = if ltb 0 alignment then ceil alloc_ptr alignment else alloc_ptr

record IsAligned (alloc_ptr alignment c : ℕ) : Type 0 where
  from : alloc_ptr ≤ c
  near : c ≤ alloc_ptr + alignment
  multiple : alignment ≢ 0 → IsMultiple alignment c
  least : (q : ℕ) → alloc_ptr ≤ q → (alignment ≢ 0 → IsMultiple alignment q) → c ≤ q

align-IsAligned :
    (alloc_ptr alignment : ℕ)
    → IsConstraint alignment
    → alloc_ptr + alignment ≤ 2 ^ 64
    → IsAligned alloc_ptr alignment (align alloc_ptr alignment)
unfolding align
align-IsAligned alloc_ptr alignment (inl e) h =
    let test : ltb 0 alignment ≡ false = ground arith in
    rw test (record {
      from = omega arith;
      near = omega arith;
      multiple = λ d. absurd (d e);
      least = λ q l d. l;
    })
align-IsAligned alloc_ptr alignment (inr (k, l, e)) h =
    let pos = one-le-pow k 2 (omega arith) in
    let test : ltb 0 alignment ≡ true = ground (arith, pos) in
    let c : IsCeil alloc_ptr alignment (ceil alloc_ptr alignment) =
      subst (λ a. IsCeil alloc_ptr a (ceil alloc_ptr a)) (sym e)
        (ceil-IsCeil alloc_ptr k l (omega arith)) in
    rw test (record {
      from = c.from;
      near = omega (arith, c.near);
      multiple = λ d. (c.factor, c.multiple);
      least = λ q u d.
          let (m, f) = d (omega (arith, pos)) in
          subst (λ x. ceil alloc_ptr alignment ≤ x) (sym f) (c.least m (omega arith));
    })

-- What the caller relies on: a block is not larger than the boundary, which is a multiple of the
-- alignment.
abbrev pub IsBounded : (size alignment boundary : ℕ) → Type 0
IsBounded size alignment boundary =
    boundary ≢ 0 → (size ≤ boundary) × (alignment ≢ 0 → IsMultiple alignment boundary)

IsMultiple-trans : (a b p : ℕ) → IsMultiple a b → IsMultiple b p → IsMultiple a p
IsMultiple-trans a b p (m, e) (n, f) = (n * m, f ∙ ap (λ x. n * x) e ∙ sym (mul_assoc n m a))

-- The address that the block gets, when the first aligned one is `c`.
module _ (alloc_ptr size alignment boundary c : ℕ) (k : IsAligned alloc_ptr alignment c)
    (h : IsBounded size alignment boundary) where
  -- The block would cross the next boundary.
  crossing-IsFirstPlace :
      (b : ℕ)
      → boundary ≢ 0
      → IsCeil c boundary b
      → b < c + size
      → IsFirstPlace alloc_ptr size alignment boundary b
  crossing-IsFirstPlace b pos next crosses = record {
    place = record {
      unused = omega (arith, k.from, next.from);
      aligned =
          λ d. IsMultiple-trans alignment boundary b ((h pos).1 d) (next.factor, next.multiple);
      within = λ d m. elim (Bool-cases (ltb next.factor m)) [
        | inl above ↦ inr (
            omega (
              arith,
              next.multiple,
              (h pos).0,
              suc-mul next.factor boundary,
              mul-le-mul_right {m = suc next.factor} {n = m} boundary (ground arith),
            ))
        | inr below ↦ inl (
            omega (
              arith,
              next.multiple,
              mul-le-mul_right {m = m} {n = next.factor} boundary (ground arith),
            ))
      ];
    };
    first = λ q u. elim (u.within pos next.factor) [
      | inl above ↦ omega (arith, next.multiple)
      | inr below ↦ absurd (omega (arith, next.multiple, k.least q u.unused u.aligned))
    ];
  }

  staying-IsFirstPlace :
      (b : ℕ)
      → IsCeil c boundary b
      → c + size ≤ b
      → IsFirstPlace alloc_ptr size alignment boundary c
  staying-IsFirstPlace b next fits = record {
    place = record {
      unused = k.from;
      aligned = k.multiple;
      within = λ d m. elim (Bool-cases (ltb c (m * boundary))) [
        | inl above ↦ inr (omega (arith, next.least m (ground arith)))
        | inr below ↦ inl (ground arith)
      ];
    };
    first = λ q u. k.least q u.unused u.aligned;
  }

  free-IsFirstPlace : boundary ≡ 0 → IsFirstPlace alloc_ptr size alignment boundary c
  free-IsFirstPlace e = record {
    place = record { unused = k.from; aligned = k.multiple; within = λ d. absurd (d e) };
    first = λ q u. k.least q u.unused u.aligned;
  }

-- The address after the test of the boundary.
abbrev settle : (c size boundary : ℕ) → ℕ
unfolding ceil
settle c size boundary =
    if ltb 0 boundary
    then (if ltb (ceil c boundary) ((c + size) % 2 ^ 64) then ceil c boundary else c)
    else c

settle-IsFirstPlace :
    (alloc_ptr size alignment boundary c : ℕ)
    → IsAligned alloc_ptr alignment c
    → IsConstraint boundary
    → IsBounded size alignment boundary
    → c + boundary + size < 2 ^ 64
    → IsFirstPlace alloc_ptr size alignment boundary (settle c size boundary)
      × settle c size boundary ≤ c + boundary
unfolding settle
settle-IsFirstPlace alloc_ptr size alignment boundary c k (inl e) h l =
    let test : ltb 0 boundary ≡ false = ground arith in
    rw test (free-IsFirstPlace alloc_ptr size alignment boundary c k h e, omega arith)
settle-IsFirstPlace alloc_ptr size alignment boundary c k (inr (j, u, e)) h l =
    let pos = one-le-pow j 2 (omega arith) in
    let test : ltb 0 boundary ≡ true = ground (arith, pos) in
    let small : (c + size) % 2 ^ 64 ≡ c + size = mod-eq_of_lt (omega arith) in
    let next : IsCeil c boundary (ceil c boundary) =
      subst (λ a. IsCeil c a (ceil c a)) (sym e) (ceil-IsCeil c j u (omega arith)) in
    elim (Bool-cases (ltb (ceil c boundary) (c + size))) [
      | inl crosses ↦
          rw (test, small, crosses)
            (
              crossing-IsFirstPlace alloc_ptr size alignment boundary c k h (ceil c boundary)
                  (omega (arith, pos)) next (ground arith),
              omega (arith, next.near),
            )
      | inr stays ↦
          rw (test, small, stays)
            (
              staying-IsFirstPlace alloc_ptr size alignment boundary c k h (ceil c boundary) next
                  (ground arith),
              omega arith,
            )
    ]

-- The alignment and the boundary are powers of two below 2^32 or 0 for none, the block is not
-- larger than the boundary, which is a multiple of the alignment, and no address overflows. Then
-- `AllocMem` takes the first place from the next free address on that is aligned and does not cross
-- the boundary. If the block ends inside the pool, its address is returned, and the next free
-- address is the end of the block; if not, nothing is returned, and the next free address is that
-- place.
pub alloc_mem-IsFirstPlace :
    (memory_pool alloc_ptr size alignment boundary : ℕ)
    → IsConstraint alignment
    → IsConstraint boundary
    → IsBounded size alignment boundary
    → alloc_ptr + alignment + boundary + size < 2 ^ 64
    → memory_pool + memory_pool_size < 2 ^ 64
    → (p : ℕ) × IsFirstPlace alloc_ptr size alignment boundary p
      × (alloc_mem memory_pool alloc_ptr size alignment boundary ≡ (
          if ltb (memory_pool + memory_pool_size) (p + size)
          then (p, none)
          else (p + size, some p)))
unfolding alloc_mem align settle
alloc_mem-IsFirstPlace memory_pool alloc_ptr size alignment boundary a b h l pool =
    let c : ℕ = align alloc_ptr alignment in
    let p : ℕ = settle c size boundary in
    let k = align-IsAligned alloc_ptr alignment a (omega arith) in
    let (first, near) =
      settle-IsFirstPlace alloc_ptr size alignment boundary c k b h (omega (arith, k.near)) in
    let small : (p + size) % 2 ^ 64 ≡ p + size = mod-eq_of_lt (omega (arith, k.near)) in
    let small_pool : (memory_pool + memory_pool_size) % 2 ^ 64 ≡ memory_pool + memory_pool_size =
      mod-eq_of_lt pool in
    (
      p,
      first,
      ap (λ e. if ltb ((memory_pool + memory_pool_size) % 2 ^ 64) e then (p, none) else (e, some p))
            small
          ∙ ap (λ e. if ltb e (p + size) then (p, none) else (p + size, some p)) small_pool,
    )
