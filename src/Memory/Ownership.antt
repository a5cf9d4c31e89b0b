-- ===== src/Memory/Ownership.antt =====
-- Who owns a frame: allocations are disjoint, and `Free` gives back what `Allocate` took.
use mikanos.Prelude.{
  ℕ, ◌+◌, ◌^◌, ◌<◌, ◌-◌, ◌≡◌, ◌∙◌, subst, sym, ap, true, false, ◌&&◌, Option, some, arith,
  if◌then◌else◌,
}
use mikanos.Error.{WithError, success}
use mikanos.Memory.{BitmapMemoryManager, get_bit, mark_allocated, allocate, free}
use mikanos.Memory.Bitmap.{within, get_bit-set_bits, range-set_bits}
use mikanos.Memory.Allocate.{IsValid, IsFreeRun, FirstFit, found, no_room, allocate-FirstFit}

-- A successful return of `Allocate`.
abbrev pub granted : BitmapMemoryManager → ℕ → Option (BitmapMemoryManager × WithError ℕ)
granted m start = some (m, record { value = start; error = success })

FirstFit-granted :
    {m : BitmapMemoryManager} {n : ℕ} {r : Option (BitmapMemoryManager × WithError ℕ)}
    → FirstFit m n r
    → (m' : BitmapMemoryManager) (start : ℕ) → r ≡ granted m' start
    → IsFreeRun m start n × (mark_allocated m start n ≡ m')
FirstFit-granted {m} {n} (found s p run before) m' start e =
    let same : s ≡ start = cc in
    let marked : mark_allocated m s n ≡ m' = cc in
    (subst (λ x. IsFreeRun m x n) same run, ap (λ x. mark_allocated m x n) (sym same) ∙ marked)
FirstFit-granted (no_room none_free) m' start e = cc

module _ {m m' : BitmapMemoryManager} (n : ℕ) {start : ℕ} (v : IsValid m)
    (e : allocate m n ≡ granted m' start) where
  -- The granted frames were free, and lie in the range.
  pub granted-IsFreeRun : IsFreeRun m start n
  granted-IsFreeRun = (FirstFit-granted (allocate-FirstFit m n v) m' start e).0

  granted-eq-mark : mark_allocated m start n ≡ m'
  granted-eq-mark = (FirstFit-granted (allocate-FirstFit m n v) m' start e).1

  -- The loop over the granted frames stays below the end of the range, so no frame number wraps.
  granted_fits : 0 < n → start + n < 2 ^ 64
  granted_fits some_frames =
      omega (arith, (granted-IsFreeRun (start + (n - 1)) (omega arith) (omega arith)).1, v.end_fits)

  -- Exactly the granted frames become allocated.
  pub get_bit-allocate :
      0 < n → (f : ℕ) → get_bit m' f ≡ (if within start n f then true else get_bit m f)
  unfolding mark_allocated
  get_bit-allocate some_frames f =
      rw (← granted-eq-mark) (
        get_bit-set_bits m start 0 n true f (omega (arith, granted_fits some_frames))
        ∙ ground arith)

  pub range-allocate : (m'.range_begin ≡ m.range_begin) × (m'.range_end ≡ m.range_end)
  unfolding mark_allocated
  range-allocate = rw (← granted-eq-mark) (range-set_bits m start 0 n true)

  pub allocate-IsValid : IsValid m'
  allocate-IsValid = omega (arith, range-allocate, v)

  -- From a valid manager, `Free` of the frames that a successful `Allocate` of at least one frame
  -- granted undoes it: every frame and the range are as they were before.
  pub free-allocate :
      0 < n
      → (f : ℕ)
      → (get_bit (free m' start n).0 f ≡ get_bit m f)
        × ((free m' start n).1 ≡ success)
        × ((free m' start n).0.range_begin ≡ m.range_begin)
        × ((free m' start n).0.range_end ≡ m.range_end)
  unfolding free
  free-allocate some_frames f = ground (
    arith,
    get_bit-set_bits m' start 0 n false f (omega (arith, granted_fits some_frames)),
    get_bit-allocate some_frames f,
    granted-IsFreeRun f,
    range-set_bits m' start 0 n false,
    range-allocate,
  )

-- From a valid manager, two successful allocations in a row, the first of at least one frame, share
-- no frame.
pub allocate_disjoint :
    {m m' m'' : BitmapMemoryManager} (n k : ℕ) {start next : ℕ}
    → IsValid m
    → 0 < n
    → allocate m n ≡ granted m' start
    → allocate m' k ≡ granted m'' next
    → (f : ℕ) → within start n f && within next k f ≡ false
allocate_disjoint n k {start} {next} v some_frames e e' f =
    ground (
      arith,
      get_bit-allocate n v e some_frames f,
      granted-IsFreeRun k (allocate-IsValid n v e) e' f,
    )
