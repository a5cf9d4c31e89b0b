-- ===== src/Memory/Stat.antt =====
-- `Stat`: the ones of the map lines are the allocated frames of those lines.
use mathlib.Core.Path.{ap₂}
use native.Mathlib.Nat.{pow-suc, zero-add, div-div-eq-div-mul}
use mikanos.Prelude.{
  ℕ, zero, suc, ◌+◌, ◌-◌, ◌*◌, ◌/◌, ◌^◌, ◌<◌, ◌≤◌, ◌≡◌, refl, ◌∙◌, ap, sym, arith, ◌==◌,
  if◌then◌else◌,
}
use mikanos.Bits.{bit}
use mikanos.Memory.{BitmapMemoryManager, get_bit, count_ones, sum_lines, stat}
use mikanos.Memory.Bitmap.{get_bit-bit}

-- How many of the `n` frames from `f` on are allocated.
pub count_frames : BitmapMemoryManager → ℕ → ℕ → ℕ
count_frames m f zero = 0
count_frames m f (suc n) = (if get_bit m f then 1 else 0) + count_frames m (f + 1) n

count_frames-suc :
    (m : BitmapMemoryManager) (f n : ℕ)
    → count_frames m f (suc n) ≡ (if get_bit m f then 1 else 0) + count_frames m (f + 1) n
unfolding count_frames
count_frames-suc m f n = refl

count_frames-add :
    (m : BitmapMemoryManager) (f a b c : ℕ)
    → f + a ≡ c
    → count_frames m f (a + b) ≡ count_frames m f a + count_frames m c b
unfolding count_frames
count_frames-add m f zero b c e =
    let same : f ≡ c = omega arith in rw (← same, zero-add b) (sym (zero-add (count_frames m f b)))
count_frames-add m f (suc a) b c e =
    ap (count_frames m f) regroup
    ∙ omega (arith, count_frames-suc m f (a + b), count_frames-add m (f + 1) a b c (omega arith))
  where
    regroup : suc a + b ≡ suc (a + b)
    regroup = omega arith

-- The frame at bit `k` of line `i`.
line-bit :
    (m : BitmapMemoryManager) (i k : ℕ)
    → k < 64
    → get_bit m (64 * i + k) ≡ (bit (m.alloc_map i) k == 1)
line-bit m i k h =
    get_bit-bit m (64 * i + k)
    ∙ ap₂ (λ line j. bit (m.alloc_map line) j == 1) (omega arith) (omega arith)

count_ones-frames :
    (m : BitmapMemoryManager) (i k n : ℕ)
    → k + n ≤ 64
    → count_ones n (m.alloc_map i / 2 ^ k) ≡ count_frames m (64 * i + k) n
unfolding count_ones count_frames
count_ones-frames m i k zero h = refl
count_ones-frames m i k (suc n) h = ground (
  arith,
  line-bit m i k (omega arith),
  next,
  count_ones-frames m i (suc k) n (omega arith),
  ap (λ f. count_frames m f n) place,
)
  where
    next : count_ones n (m.alloc_map i / 2 ^ k / 2) ≡ count_ones n (m.alloc_map i / 2 ^ suc k)
    next = ap (count_ones n) (
        div-div-eq-div-mul (m.alloc_map i) (2 ^ k) 2 ∙ ap (◌/◌ (m.alloc_map i)) (sym (pow-suc 2 k)))

    place : 64 * i + k + 1 ≡ 64 * i + suc k
    place = omega arith

sum_lines-frames :
    (m : BitmapMemoryManager) (i n : ℕ) → sum_lines m i n ≡ count_frames m (64 * i) (64 * n)
unfolding sum_lines count_frames
sum_lines-frames m i zero = refl
sum_lines-frames m i (suc n) = ground (
  arith,
  ap (count_ones 64) whole,
  count_ones-frames m i 0 64 (omega arith),
  ap (λ f. count_frames m f 64) start,
  sum_lines-frames m (i + 1) n,
  count_frames-add m (64 * i) 64 (64 * n) (64 * (i + 1)) (omega arith),
  ap (count_frames m (64 * i)) length,
)
  where
    whole : m.alloc_map i / 2 ^ 0 ≡ m.alloc_map i
    whole = omega arith

    start : 64 * i + 0 ≡ 64 * i
    start = omega arith

    length : 64 * suc n ≡ 64 + 64 * n
    length = omega arith

-- For a range that is in order and fits 64 bits, `Stat` counts the allocated frames from the start
-- of the line of `range_begin` to the start of the line of `range_end`, and reports the length of
-- the range.
pub stat_lem :
    (m : BitmapMemoryManager)
    → m.range_begin ≤ m.range_end
    → m.range_end < 2 ^ 64
    → ((stat m).allocated_frames
        ≡ count_frames m
            (64 * (m.range_begin / 64))
            (64 * (m.range_end / 64) - 64 * (m.range_begin / 64)))
      × ((stat m).total_frames ≡ m.range_end - m.range_begin)
unfolding stat
stat_lem m h q = (
  sum_lines-frames m (m.range_begin / 64) (m.range_end / 64 - m.range_begin / 64)
      ∙ ap (count_frames m (64 * (m.range_begin / 64))) (omega arith),
  omega arith,
)
