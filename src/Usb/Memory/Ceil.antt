-- ===== src/Usb/Memory/Ceil.antt =====
-- `Ceil` is the first multiple of a power of two from a value on.
use native.Mathlib.Nat.{
  one-le-pow, suc-mul, div-lt_iff_lt-mul, mod-eq_of_lt, div-mul-le_self, lt-div-mul-add,
  mul-le-mul_right,
}
use mikanos.Prelude.{
  ℕ, suc, ◌+◌, ◌-◌, ◌*◌, ◌/◌, ◌%◌, ◌^◌, ◌<◌, ◌≤◌, ◌≡◌, ◌⊎◌, refl, sym, ◌∙◌, ap, subst, bit_and,
  arith,
}
use mikanos.Bits.{bit_and-high}
use mikanos.Usb.Memory.{ceil}

-- The first multiple of `a` from `v` on.
pub record IsCeil (v a c : ℕ) : Type 0 where
  pub from : v ≤ c
  pub near : c < v + a
  pub factor : ℕ
  pub multiple : c ≡ factor * a
  pub least : (m : ℕ) → v ≤ m * a → c ≤ m * a

-- 0 stands for no constraint.
abbrev pub IsConstraint : ℕ → Type 0
IsConstraint a = (a ≡ 0) ⊎ ((k : ℕ) × (k < 32) × (a ≡ 2 ^ k))

rounded-IsCeil : (v a : ℕ) → 0 < a → IsCeil v a ((v + (a - 1)) / a * a)
rounded-IsCeil v a pos =
    let n : ℕ = v + (a - 1) in
    record {
      from = omega (arith, lt-div-mul-add {a = n} {b = a} pos);
      near = omega (arith, div-mul-le_self n a);
      factor = n / a;
      multiple = refl;
      least = λ m h.
          let next : n < suc m * a = omega (arith, suc-mul m a) in
          let below : n / a < suc m = (div-lt_iff_lt-mul {k = a} {x = n} {y = suc m} pos).1 next in
          mul-le-mul_right a (omega (arith, below));
    }

pub ceil-IsCeil : (v k : ℕ) → k < 32 → v + 2 ^ k ≤ 2 ^ 64 → IsCeil v (2 ^ k) (ceil v (2 ^ k))
unfolding ceil
ceil-IsCeil v k h l =
    let pos = one-le-pow k 2 (omega arith) in
    let n : ℕ = v + (2 ^ k - 1) in
    let small : n % 2 ^ 64 ≡ n = mod-eq_of_lt (omega (arith, pos)) in
    let high : 2 ^ 64 - 1 - (2 ^ k - 1) ≡ 2 ^ 64 - 2 ^ k = omega (arith, pos) in
    subst (IsCeil v (2 ^ k))
      (sym (
        ap (λ x. bit_and x (2 ^ 64 - 1 - (2 ^ k - 1))) small
        ∙ ap (bit_and n) high
        ∙ bit_and-high 64 k n (omega arith) (omega (arith, pos))))
      (rounded-IsCeil v (2 ^ k) (omega (arith, pos)))
