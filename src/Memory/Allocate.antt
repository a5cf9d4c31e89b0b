-- ===== src/Memory/Allocate.antt =====
-- `Allocate` and `Free`: the search is first fit over the free runs of the range.
use mikanos.Prelude.{
  ℕ, zero, suc, ◌+◌, ◌-◌, ◌^◌, ◌<◌, ◌≤◌, ◌≡◌, refl, inl, inr, true, false, Option, some, arith, leb,
  Bool-cases, ◌==◌, ap, ◌∙◌,
}
use native.Mathlib.Decide.{dec_lt}
use mikanos.Error.{WithError, success, no_enough_memory}
use mikanos.Memory.{
  BitmapMemoryManager, Scan, out_of_range, blocked, all_free, null_frame, get_bit, scan,
  mark_allocated, allocate_from, allocate, add_size,
}

-- The `n` frames from `start` on are free, and below the end of the range.
abbrev pub IsFreeRun : BitmapMemoryManager → ℕ → ℕ → Type 0
IsFreeRun m start n =
    (f : ℕ) → start ≤ f → f < start + n → (get_bit m f ≡ false) × (f < m.range_end)

-- What each end of the inner loop says, when it starts at round `i` with `n` rounds to go.
abbrev Scanned : BitmapMemoryManager → ℕ → ℕ → ℕ → Scan → Type 0
Scanned m start i n out_of_range = (k : ℕ) × (k < i + n) × (m.range_end ≤ start + k)
Scanned m start i n (blocked k) =
    (k < i + n) × (get_bit m (start + k) ≡ true) × (start + k < m.range_end)
Scanned m start i n all_free = IsFreeRun m (start + i) n

-- A round that passes frame `start + i` extends what the later rounds say.
Scanned-suc :
    (m : BitmapMemoryManager) (start i n : ℕ) (r : Scan)
    → start + i < m.range_end
    → get_bit m (start + i) ≡ false
    → Scanned m start (i + 1) n r
    → Scanned m start i (suc n) r
Scanned-suc m start i n out_of_range inside clear (k, p, q) = (k, omega arith, q)
Scanned-suc m start i n (blocked k) inside clear (p, q, r) = (omega arith, q, r)
Scanned-suc m start i n all_free inside clear run = λ f p q. elim (Bool-cases (f == start + i)) [
  | inl here ↦ let e : f ≡ start + i = ground arith in (ap (get_bit m) e ∙ clear, omega arith)
  | inr later ↦ run f (ground arith) (omega arith)
]

scan-Scanned :
    (m : BitmapMemoryManager) (start i n : ℕ)
    → m.range_end < 2 ^ 64
    → start + i < 2 ^ 64
    → Scanned m start i n (scan m start i n)
unfolding scan
scan-Scanned m start i zero hend hs = λ f p q. absurd (omega arith)
scan-Scanned m start i (suc n) hend hs =
    let exact : add_size start i ≡ start + i = omega arith in
    elim (Bool-cases (leb m.range_end (start + i))) [
      | inl past ↦ rw (exact, past) (i, omega arith, ground arith)
      | inr inside ↦
          let below : start + i < m.range_end = ground arith in
          elim (Bool-cases (get_bit m (start + i))) [
            | inl taken ↦ rw (exact, inside, taken) (omega arith, taken, below)
            | inr clear ↦
                rw (exact, inside, clear)
                  (Scanned-suc m start i n (scan m start (i + 1) n) below clear
                    (scan-Scanned m start (i + 1) n hend (omega arith)))
          ]
    ]

-- The outcome of a first-fit search: the lowest free run, marked, or none in the range.
pub data FirstFit (m : BitmapMemoryManager) (n : ℕ)
    : Option (BitmapMemoryManager × WithError ℕ) → Type 0 where
  found :
      (start : ℕ)
      → m.range_begin ≤ start
      → IsFreeRun m start n
      → ((t : ℕ) → m.range_begin ≤ t → t < start → ¬ IsFreeRun m t n)
      → FirstFit m n (some (mark_allocated m start n, record { value = start; error = success }))
  no_room :
      ((t : ℕ) → m.range_begin ≤ t → ¬ IsFreeRun m t n)
      → FirstFit m n (some (m, record { value = null_frame; error = no_enough_memory }))

-- No free run starts before a frame that the search has gone past.
module _ (m : BitmapMemoryManager) (start n k : ℕ) where
  -- The run from `t ≥ start` reaches the end of the range.
  no_room_after : k < n → m.range_end ≤ start + k → (t : ℕ) → start ≤ t → ¬ IsFreeRun m t n
  no_room_after p q t ht run = omega (arith, (run (t + k) (omega arith) (omega arith)).1)

  -- The run from `t` in `start … start + k` holds the allocated frame `start + k`.
  blocked_until :
      k < n
      → get_bit m (start + k) ≡ true
      → (t : ℕ) → start ≤ t
      → t < start + k + 1
      → ¬ IsFreeRun m t n
  blocked_until p q t ht h run = cc ((run (start + k) (omega arith) (omega arith)).0)

-- What the search from `start` needs to know.
record Searching (fuel : ℕ) (m : BitmapMemoryManager) (start n : ℕ) : Type 0 where
  end_fits : m.range_end < 2 ^ 64
  start_fits : start < 2 ^ 64
  fuel_left : m.range_end - start < fuel
  start_in : m.range_begin ≤ start
  none_before : (t : ℕ) → m.range_begin ≤ t → t < start → ¬ IsFreeRun m t n

-- One round of the outer loop: it returns, or goes on past an allocated frame.
round-FirstFit :
    (fuel : ℕ) (m : BitmapMemoryManager) (start n : ℕ) (r : Scan)
    → ((s : ℕ) → Searching fuel m s n → FirstFit m n (allocate_from fuel m s n))
    → Searching (suc fuel) m start n
    → scan m start 0 n ≡ r
    → Scanned m start 0 n r
    → FirstFit m n (allocate_from (suc fuel) m start n)
unfolding allocate_from
round-FirstFit fuel m start n out_of_range again c e (k, p, q) =
    rw (e, allocate_from)
      (no_room λ t ht. elim (dec_lt t start) [
        | yes early ↦ c.none_before t ht early
        | no late ↦ no_room_after m start n k (omega arith) q t (omega arith)
      ])
round-FirstFit fuel m start n (blocked k) again c e (p, q, r) =
    rw (e, allocate_from)
      (again (add_size start (k + 1)) (record {
        end_fits = c.end_fits;
        start_fits = omega arith;
        fuel_left = omega arith;
        start_in = omega arith;
        none_before = λ t ht h. elim (dec_lt t start) [
          | yes early ↦ c.none_before t ht early
          | no late ↦ blocked_until m start n k (omega arith) q t (omega arith) (omega arith)
        ];
      }))
round-FirstFit fuel m start n all_free again c e run =
    rw (e, allocate_from)
      (found start c.start_in (λ f p q. run f (omega arith) (omega arith)) c.none_before)

allocate_from-FirstFit :
    (fuel : ℕ) (m : BitmapMemoryManager) (start n : ℕ)
    → Searching fuel m start n
    → FirstFit m n (allocate_from fuel m start n)
allocate_from-FirstFit zero m start n c = absurd (omega arith)
allocate_from-FirstFit (suc fuel) m start n c =
    round-FirstFit fuel m start n (scan m start 0 n) (λ s. allocate_from-FirstFit fuel m s n) c refl
      (scan-Scanned m start 0 n c.end_fits (omega arith))

-- The range of a manager is within what `size_t` holds.
pub record IsValid (m : BitmapMemoryManager) : Type 0 where
  pub begin_fits : m.range_begin < 2 ^ 64
  pub end_fits : m.range_end < 2 ^ 64

-- For a range within 64-bit frame numbers `Allocate` ends. It marks the lowest free run of the
-- range and returns its first frame, or, when the range has no free run of that length, fails and
-- changes nothing.
pub allocate-FirstFit : (m : BitmapMemoryManager) (n : ℕ) → IsValid m → FirstFit m n (allocate m n)
unfolding allocate
allocate-FirstFit m n v = allocate_from-FirstFit (suc m.range_end) m m.range_begin n (record {
  end_fits = v.end_fits;
  start_fits = v.begin_fits;
  fuel_left = omega arith;
  start_in = omega arith;
  none_before = λ t p q. absurd (omega arith);
})
