-- ===== src/Paging/Address.antt =====
-- `LinearAddress4Level` of src/kernel/paging.hpp: an address of 64 bits and its fields.
use mikanos.Prelude.{ℕ, zero, suc, ◌+◌, ◌-◌, ◌*◌, ◌/◌, ◌%◌, ◌^◌, ◌<◌, ◌≤◌, ◌≡◌, ◌≢◌, refl, arith}

-- The value of the field with this weight and size, and a store to it.
abbrev pub get_field : ℕ → ℕ → ℕ → ℕ
get_field w n value = value / w % n

abbrev pub set_field : ℕ → ℕ → ℕ → ℕ → ℕ
set_field w n x value = value - get_field w n value * w + x % n * w

-- `Part`
unfoldable pub part : ℕ → ℕ → ℕ
part zero value = get_field 1 (2 ^ 12) value
part (suc zero) value = get_field (2 ^ 12) (2 ^ 9) value
part (suc (suc zero)) value = get_field (2 ^ 21) (2 ^ 9) value
part (suc (suc (suc zero))) value = get_field (2 ^ 30) (2 ^ 9) value
part (suc (suc (suc (suc zero)))) value = get_field (2 ^ 39) (2 ^ 9) value
part (suc (suc (suc (suc (suc level))))) value = 0

-- `SetPart`
unfoldable pub set_part : ℕ → ℕ → ℕ → ℕ
set_part zero x value = set_field 1 (2 ^ 12) x value
set_part (suc zero) x value = set_field (2 ^ 12) (2 ^ 9) x value
set_part (suc (suc zero)) x value = set_field (2 ^ 21) (2 ^ 9) x value
set_part (suc (suc (suc zero))) x value = set_field (2 ^ 30) (2 ^ 9) x value
set_part (suc (suc (suc (suc zero)))) x value = set_field (2 ^ 39) (2 ^ 9) x value
set_part (suc (suc (suc (suc (suc level))))) x value = value

-- The number of values of a field.
abbrev pub field_size : ℕ → ℕ
field_size zero = 2 ^ 12
field_size (suc level) = 2 ^ 9

-- The field of a level is set in a 64-bit address, and nothing else.
pub record IsFieldSet (level x value value' : ℕ) : Type 0 where
  pub fits : value' < 2 ^ 64
  pub set : part level value' ≡ x % field_size level
  pub others : (l : ℕ) → l ≢ level → part l value' ≡ part l value
  pub top : value' / 2 ^ 48 ≡ value / 2 ^ 48

set_part-fits :
    (level x value : ℕ)
    → value < 2 ^ 64
    → (set_part level x value < 2 ^ 64) × (set_part level x value / 2 ^ 48 ≡ value / 2 ^ 48)
unfolding set_part
set_part-fits zero x value h = (omega arith, omega arith)
set_part-fits (suc zero) x value h = (omega arith, omega arith)
set_part-fits (suc (suc zero)) x value h = (omega arith, omega arith)
set_part-fits (suc (suc (suc zero))) x value h = (omega arith, omega arith)
set_part-fits (suc (suc (suc (suc zero)))) x value h = (omega arith, omega arith)
set_part-fits (suc (suc (suc (suc (suc level))))) x value h = (h, refl)

set_part-same :
    (level x value : ℕ)
    → level ≤ 4
    → value < 2 ^ 64
    → part level (set_part level x value) ≡ x % field_size level
unfolding set_part part
set_part-same zero x value l h = omega arith
set_part-same (suc zero) x value l h = omega arith
set_part-same (suc (suc zero)) x value l h = omega arith
set_part-same (suc (suc (suc zero))) x value l h = omega arith
set_part-same (suc (suc (suc (suc zero)))) x value l h = omega arith
set_part-same (suc (suc (suc (suc (suc level))))) x value l h = absurd (omega arith)

set_part-other :
    (l level x value : ℕ)
    → value < 2 ^ 64
    → l ≢ level
    → part l (set_part level x value) ≡ part l value
unfolding set_part part
set_part-other zero zero x value h d = absurd (d refl)
set_part-other zero (suc zero) x value h d = omega arith
set_part-other zero (suc (suc zero)) x value h d = omega arith
set_part-other zero (suc (suc (suc zero))) x value h d = omega arith
set_part-other zero (suc (suc (suc (suc zero)))) x value h d = omega arith
set_part-other zero (suc (suc (suc (suc (suc k))))) x value h d = refl
set_part-other (suc zero) zero x value h d = omega arith
set_part-other (suc zero) (suc zero) x value h d = absurd (d refl)
set_part-other (suc zero) (suc (suc zero)) x value h d = omega arith
set_part-other (suc zero) (suc (suc (suc zero))) x value h d = omega arith
set_part-other (suc zero) (suc (suc (suc (suc zero)))) x value h d = omega arith
set_part-other (suc zero) (suc (suc (suc (suc (suc k))))) x value h d = refl
set_part-other (suc (suc zero)) zero x value h d = omega arith
set_part-other (suc (suc zero)) (suc zero) x value h d = omega arith
set_part-other (suc (suc zero)) (suc (suc zero)) x value h d = absurd (d refl)
set_part-other (suc (suc zero)) (suc (suc (suc zero))) x value h d = omega arith
set_part-other (suc (suc zero)) (suc (suc (suc (suc zero)))) x value h d = omega arith
set_part-other (suc (suc zero)) (suc (suc (suc (suc (suc k))))) x value h d = refl
set_part-other (suc (suc (suc zero))) zero x value h d = omega arith
set_part-other (suc (suc (suc zero))) (suc zero) x value h d = omega arith
set_part-other (suc (suc (suc zero))) (suc (suc zero)) x value h d = omega arith
set_part-other (suc (suc (suc zero))) (suc (suc (suc zero))) x value h d = absurd (d refl)
set_part-other (suc (suc (suc zero))) (suc (suc (suc (suc zero)))) x value h d = omega arith
set_part-other (suc (suc (suc zero))) (suc (suc (suc (suc (suc k))))) x value h d = refl
set_part-other (suc (suc (suc (suc zero)))) zero x value h d = omega arith
set_part-other (suc (suc (suc (suc zero)))) (suc zero) x value h d = omega arith
set_part-other (suc (suc (suc (suc zero)))) (suc (suc zero)) x value h d = omega arith
set_part-other (suc (suc (suc (suc zero)))) (suc (suc (suc zero))) x value h d = omega arith
set_part-other (suc (suc (suc (suc zero)))) (suc (suc (suc (suc zero)))) x value h d =
    absurd (d refl)
set_part-other (suc (suc (suc (suc zero)))) (suc (suc (suc (suc (suc k))))) x value h d = refl
set_part-other (suc (suc (suc (suc (suc l))))) level x value h d = refl

-- `SetPart` of level 0 to 4 in a 64-bit address sets that field to the value, cut to the field, and
-- leaves every other field and the top 16 bits.
pub set_part_lem :
    (level x value : ℕ)
    → level ≤ 4
    → value < 2 ^ 64
    → IsFieldSet level x value (set_part level x value)
set_part_lem level x value l h = record {
  fits = (set_part-fits level x value h).0;
  set = set_part-same level x value l h;
  others = λ k d. set_part-other k level x value h d;
  top = (set_part-fits level x value h).1;
}
