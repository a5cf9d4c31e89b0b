-- ===== src/Memory/Bitmap.antt =====
-- The bitmap as a set of frames: what `GetBit` reads after `SetBit`, and after the loop over it.
use mikanos.Prelude.{
  ℕ, zero, suc, ◌+◌, ◌*◌, ◌/◌, ◌%◌, ◌^◌, ◌<◌, ◌≡◌, refl, ◌∙◌, Bool, true, false, not, ◌&&◌, arith,
  bit_and, bit_or, ◌==◌, leb, ltb, if◌then◌else◌,
}
use native.Mathlib.Nat.{one-le-pow, pow-le-pow_right}
use mikanos.Bits.{
  bit, complement, bit-bit_or, bit-bit_and, bit-two_pow, bit-complement, bit_and-two_pow,
}
use mikanos.Memory.{BitmapMemoryManager, bits_per_map_line, get_bit, set_bit, set_bits, add_size}

-- The test `(line & (1 << k)) != 0` reads bit `k` of the line.
test_digit : (d p : ℕ) → d < 2 → 0 < p → not (d * p == 0) ≡ (d == 1)
test_digit zero p h q = ground arith
test_digit (suc zero) p h q = ground arith
test_digit (suc (suc d)) p h q = absurd (omega arith)

test-bit : (line k : ℕ) → not (bit_and line (2 ^ k) == 0) ≡ (bit line k == 1)
test-bit line k =
    rw (bit_and-two_pow k line)
      (test_digit (bit line k) (2 ^ k) (omega arith) (one-le-pow k 2 (omega arith)))

pub get_bit-bit :
    (m : BitmapMemoryManager) (f : ℕ)
    → get_bit m f ≡ (bit (m.alloc_map (f / bits_per_map_line)) (f % bits_per_map_line) == 1)
unfolding get_bit
get_bit-bit m f = test-bit (m.alloc_map (f / 64)) (f % 64)

-- `|= 1 << j` and `&= ~(1 << j)` set and clear bit `j`, and leave the other bits.
bit-or_one :
    (line j k : ℕ) → (bit (bit_or line (2 ^ j)) k == 1) ≡ (if j == k then true else bit line k == 1)
bit-or_one line j k = ground (arith, bit-bit_or k line (2 ^ j), bit-two_pow j k)

bit-and_one :
    (line j k : ℕ)
    → j < 64
    → k < 64
    → (bit (bit_and line (complement 64 (2 ^ j))) k == 1)
      ≡ (if j == k then false else bit line k == 1)
bit-and_one line j k hj hk = ground (
  arith,
  bit-bit_and k line (complement 64 (2 ^ j)),
  bit-complement 64 k (2 ^ j) fits hk,
  bit-two_pow j k,
)
  where
    fits : 2 ^ j < 2 ^ 64
    fits = omega (arith, pow-le-pow_right {n = 2} (omega arith) {i = j} {j = 63} (omega arith))

-- `SetBit` writes one frame's bit, and no other's.
pub get_bit-set_bit :
    (m : BitmapMemoryManager) (f : ℕ) (b : Bool) (g : ℕ)
    → get_bit (set_bit m f b) g ≡ (if f == g then b else get_bit m g)
unfolding set_bit
get_bit-set_bit m f true g =
    rw (get_bit-bit m g, get_bit-bit (set_bit m f true) g)
      (ground (arith, bit-or_one (m.alloc_map (f / 64)) (f % 64) (g % 64)))
get_bit-set_bit m f false g =
    rw (get_bit-bit m g, get_bit-bit (set_bit m f false) g)
      (ground (arith, bit-and_one (m.alloc_map (f / 64)) (f % 64) (g % 64)))

-- Whether frame `g` is among the `n` frames from `start` on.
abbrev pub within : ℕ → ℕ → ℕ → Bool
within start n g = leb start g && ltb g (start + n)

-- The loop writes the bits of exactly the frames that it counts through, from round `i` on.
pub get_bit-set_bits :
    (m : BitmapMemoryManager) (start i n : ℕ) (b : Bool) (g : ℕ)
    → start + i + n < 2 ^ 64
    → get_bit (set_bits m start i n b) g ≡ (if within (start + i) n g then b else get_bit m g)
unfolding set_bits
get_bit-set_bits m start i zero b g h = ground arith
get_bit-set_bits m start i (suc n) b g h =
    get_bit-set_bits (set_bit m (add_size start i) b) start (i + 1) n b g (omega arith)
    ∙ ground (arith, get_bit-set_bit m (add_size start i) b g)

-- The loop leaves the range alone.
pub range-set_bits :
    (m : BitmapMemoryManager) (start i n : ℕ) (b : Bool)
    → ((set_bits m start i n b).range_begin ≡ m.range_begin)
      × ((set_bits m start i n b).range_end ≡ m.range_end)
unfolding set_bits set_bit
range-set_bits m start i zero b = (refl, refl)
range-set_bits m start i (suc n) b =
    range-set_bits (set_bit m (add_size start i) b) start (i + 1) n b
