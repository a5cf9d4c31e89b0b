-- ===== src/Bits.antt =====
-- The bits of a machine word, and what `|`, `&` and `^` do to each bit. The native operations are
-- a recursion on binary digits; here each law is read off one digit at a time.
use Prim.Native.Nat.{digits, differ, bit_and-bitwise, bit_or-bitwise, bit_xor-bitwise}
use native.Mathlib.Nat.{pow-succ', div-div-eq-div-mul, one-le-pow, mul_left_comm}
use mikanos.Prelude.{
  ℕ, zero, suc, ◌+◌, ◌-◌, ◌*◌, ◌/◌, ◌%◌, ◌^◌, ◌≤◌, ◌<◌, min, max, bit_and, bit_or, bit_xor, ◌≡◌,
  refl, arith, ap, ◌==◌, if◌then◌else◌, ◌∙◌,
}

-- `(w >> k) & 1`
abbrev pub bit : ℕ → ℕ → ℕ
bit w k = w / 2 ^ k % 2

pub bit-suc : (w k : ℕ) → bit w (suc k) ≡ bit (w / 2) k
bit-suc w k = rw (pow-succ' 2 k, ← div-div-eq-div-mul w 2 (2 ^ k))

-- The recursion on digits, with any fuel that covers the first number.
module _ (z : ℕ → ℕ) (f : ℕ → ℕ → ℕ) where
  digits_enough : (n m : ℕ) {a : ℕ} (b : ℕ) → a ≤ n → a ≤ m → digits z f n a b ≡ digits z f m a b
  digits_enough zero zero b p q = refl
  digits_enough zero (suc m) {a = zero} b p q = refl
  digits_enough zero (suc m) {a = suc a} b p q = absurd (omega arith)
  digits_enough (suc n) zero {a = zero} b p q = refl
  digits_enough (suc n) zero {a = suc a} b p q = absurd (omega arith)
  digits_enough (suc n) (suc m) {a = zero} b p q = refl
  digits_enough (suc n) (suc m) {a = suc a} b p q =
      ap (λ d. d * 2 + f (suc a % 2) (b % 2))
        (digits_enough n m {a = suc a / 2} (b / 2) (omega arith) (omega arith))

  -- Where `z` continues `f` past the end, one equation gives the lowest digit and the rest.
  digits_step :
      ((b : ℕ) → z b ≡ z (b / 2) * 2 + f 0 (b % 2))
      → (a b : ℕ) → digits z f a a b ≡ digits z f (a / 2) (a / 2) (b / 2) * 2 + f (a % 2) (b % 2)
  digits_step past zero b = past b
  digits_step past (suc a) b =
      ap (λ d. d * 2 + f (suc a % 2) (b % 2))
        (digits_enough a (suc a / 2) {a = suc a / 2} (b / 2) (omega arith) (omega arith))

bit_or_step : (v w : ℕ) → bit_or v w ≡ bit_or (v / 2) (w / 2) * 2 + max (v % 2) (w % 2)
bit_or_step v w = simp bit_or-bitwise (digits_step (λ y. y) max (λ y. omega arith) v w)

bit_and_step : (v w : ℕ) → bit_and v w ≡ bit_and (v / 2) (w / 2) * 2 + min (v % 2) (w % 2)
bit_and_step v w = simp bit_and-bitwise (digits_step (λ y. 0) min (λ y. omega arith) v w)

differ-zero : (y : ℕ) → differ 0 y ≡ y
differ-zero y = refl

bit_xor_step : (v w : ℕ) → bit_xor v w ≡ bit_xor (v / 2) (w / 2) * 2 + differ (v % 2) (w % 2)
bit_xor_step v w = simp bit_xor-bitwise (digits_step (λ y. y) differ (λ y. omega arith) v w)

-- The bits of `a | b`, `a & b` and `a ^ b`, each from the bits of `a` and `b` at its place.
pub bit-bit_or : (k a b : ℕ) → bit (bit_or a b) k ≡ max (bit a k) (bit b k)
bit-bit_or zero a b = omega (arith, bit_or_step a b)
bit-bit_or (suc k) a b =
    rw (bit-suc (bit_or a b) k, bit-suc a k, bit-suc b k)
      (ap (λ h. bit h k) (omega (arith, bit_or_step a b)) ∙ bit-bit_or k (a / 2) (b / 2))

pub bit-bit_and : (k a b : ℕ) → bit (bit_and a b) k ≡ min (bit a k) (bit b k)
bit-bit_and zero a b = omega (arith, bit_and_step a b)
bit-bit_and (suc k) a b =
    rw (bit-suc (bit_and a b) k, bit-suc a k, bit-suc b k)
      (ap (λ h. bit h k) (omega (arith, bit_and_step a b)) ∙ bit-bit_and k (a / 2) (b / 2))

differ-lt : (a b : ℕ) → a < 2 → b < 2 → differ a b < 2
differ-lt zero b p q = q
differ-lt (suc a) zero p q = p
differ-lt (suc a) (suc b) p q = differ-lt a b (omega arith) (omega arith)

bit-first : (w : ℕ) → bit w 0 ≡ w % 2
bit-first w = omega arith

pub bit-bit_xor : (k a b : ℕ) → bit (bit_xor a b) k ≡ differ (bit a k) (bit b k)
bit-bit_xor zero a b =
    rw (bit-first (bit_xor a b), bit-first a, bit-first b)
      (omega (arith, bit_xor_step a b, differ-lt (a % 2) (b % 2) (omega arith) (omega arith)))
bit-bit_xor (suc k) a b =
    rw (bit-suc (bit_xor a b) k, bit-suc a k, bit-suc b k)
      (ap (λ h. bit h k) (omega (arith, bit_xor_step a b, differ-lt (a % 2) (b % 2)))
        ∙ bit-bit_xor k (a / 2) (b / 2))

pub zero-bit : (k : ℕ) → bit 0 k ≡ 0
zero-bit zero = refl
zero-bit (suc k) = rw (bit-suc 0 k) (zero-bit k)

two_pow-half : (k : ℕ) → 2 ^ suc k / 2 ≡ 2 ^ k
two_pow-half k = omega (arith, pow-succ' 2 k)

-- A word with one bit set, `1 << j`.
pub bit-two_pow : (j k : ℕ) → bit (2 ^ j) k ≡ (if j == k then 1 else 0)
bit-two_pow zero zero = refl
bit-two_pow zero (suc k) = ground (arith, bit-suc 1 k, zero-bit k)
bit-two_pow (suc j) zero = ground (arith, pow-succ' 2 j)
bit-two_pow (suc j) (suc k) =
    rw (bit-suc (2 ^ suc j) k, two_pow-half j) (ground (arith, bit-two_pow j k))

-- `~x` on `n` bits.
abbrev pub complement : ℕ → ℕ → ℕ
complement n x = 2 ^ n - 1 - x

pub bit-complement : (n k x : ℕ) → x < 2 ^ n → k < n → bit (complement n x) k ≡ 1 - bit x k
bit-complement zero k x p q = absurd (omega arith)
bit-complement (suc n) zero x p q = omega (arith, pow-succ' 2 n)
bit-complement (suc n) (suc k) x p q =
    rw (bit-suc (complement (suc n) x) k, bit-suc x k)
      (ap (λ h. bit h k) (omega (arith, pow-succ' 2 n))
        ∙ bit-complement n k (x / 2) (omega (arith, pow-succ' 2 n)) (omega arith))

digits_and_zero : (n a : ℕ) → digits (λ y. 0) min n a 0 ≡ 0
digits_and_zero zero a = refl
digits_and_zero (suc n) zero = refl
digits_and_zero (suc n) (suc a) = omega (arith, digits_and_zero n (suc a / 2))

pub bit_and-zero : (a : ℕ) → bit_and a 0 ≡ 0
bit_and-zero a = simp bit_and-bitwise (digits_and_zero a a)

-- `w & (1 << k)` is the bit of `w` at `k`, at its place.
pub bit_and-two_pow : (k w : ℕ) → bit_and w (2 ^ k) ≡ bit w k * 2 ^ k
bit_and-two_pow zero w = omega (arith, bit_and_step w 1, bit_and-zero (w / 2))
bit_and-two_pow (suc k) w =
    rw
      (
        bit-suc w k,
        bit_and_step w (2 ^ suc k),
        ap (bit_and (w / 2)) (two_pow-half k),
        bit_and-two_pow k (w / 2),
      )
      (omega (arith, ap (λ t. bit (w / 2) k * t) (pow-succ' 2 k), pow-succ' 2 k))

-- `w & ~(2 ^ k - 1)` on `n` bits: the low `k` bits are cleared.
pub bit_and-high : (n k w : ℕ) → k ≤ n → w < 2 ^ n → bit_and w (2 ^ n - 2 ^ k) ≡ w / 2 ^ k * 2 ^ k
bit_and-high zero zero w p q = omega (arith, bit_and_step w 0, bit_and-zero (w / 2))
bit_and-high zero (suc k) w p q = absurd (omega arith)
bit_and-high (suc n) zero w p q =
    let half : (2 ^ suc n - 1) / 2 ≡ 2 ^ n - 1 = omega (arith, pow-succ' 2 n) in
    omega (
      arith,
      bit_and_step w (2 ^ suc n - 1),
      ap (bit_and (w / 2)) half,
      pow-succ' 2 n,
      one-le-pow n 2 (omega arith),
      bit_and-high n zero (w / 2) (omega arith) (omega (arith, pow-succ' 2 n)),
    )
bit_and-high (suc n) (suc k) w p q =
    let half : (2 ^ suc n - 2 ^ suc k) / 2 ≡ 2 ^ n - 2 ^ k =
      omega (arith, pow-succ' 2 n, pow-succ' 2 k) in
    let deeper : w / 2 ^ suc k ≡ w / 2 / 2 ^ k =
      rw (pow-succ' 2 k, ← div-div-eq-div-mul w 2 (2 ^ k)) refl in
    omega (
      arith,
      bit_and_step w (2 ^ suc n - 2 ^ suc k),
      ap (bit_and (w / 2)) half,
      pow-succ' 2 n,
      pow-succ' 2 k,
      ap (λ x. x * 2 ^ suc k) deeper,
      ap (λ x. w / 2 / 2 ^ k * x) (pow-succ' 2 k),
      mul_left_comm (w / 2 / 2 ^ k) 2 (2 ^ k),
      bit_and-high n k (w / 2) (omega arith) (omega (arith, pow-succ' 2 n)),
    )
