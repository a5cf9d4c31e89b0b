-- ===== src/Prelude/Lists.antt =====
-- Lists measured and indexed by native numbers, under the library's names.
use Prim.Native.Nat.{ℕ, zero, suc, ◌+◌, ◌-◌, min}
use mathlib.Core.Bool.{Bool, true, false}
use mathlib.Core.Path.{◌≡◌, refl, ap}
use mathlib.Core.List.{List, [], ◌∷◌, ◌++◌}
use mathlib.Core.Option.{Option, none, some}
use mikanos.Prelude.Tests.{◌==◌, if◌then◌else◌}
use native.Mathlib.Omega.{arith}

module _ {ℓ} {A : Type ℓ} where
  abbrev pub length : List A → ℕ
  length [] = 0
  length (x ∷ xs) = suc (length xs)

  abbrev pub get_elem? : List A → ℕ → Option A
  get_elem? [] i = none
  get_elem? (x ∷ xs) zero = some x
  get_elem? (x ∷ xs) (suc i) = get_elem? xs i

  abbrev pub get_or : List A → ℕ → A → A
  get_or [] i d = d
  get_or (x ∷ xs) zero d = x
  get_or (x ∷ xs) (suc i) d = get_or xs i d

  abbrev pub take : ℕ → List A → List A
  take zero xs = []
  take (suc n) [] = []
  take (suc n) (x ∷ xs) = x ∷ take n xs

  abbrev pub drop : ℕ → List A → List A
  drop zero xs = xs
  drop (suc n) [] = []
  drop (suc n) (x ∷ xs) = drop n xs

  abbrev pub All {κ} : (A → Type κ) → List A → Type κ
  All P [] = Unit
  All P (x ∷ xs) = P x × All P xs

  pub All-append {κ} : (P : A → Type κ) (xs ys : List A) → All P xs → All P ys → All P (xs ++ ys)
  All-append P [] ys h k = k
  All-append P (x ∷ xs) ys (h, hs) k = (h, All-append P xs ys hs k)

  pub All-parts {κ} : (P : A → Type κ) (xs ys : List A) → All P (xs ++ ys) → All P xs × All P ys
  All-parts P [] ys h = (tt, h)
  All-parts P (x ∷ xs) ys (h, hs) = let (l, r) = All-parts P xs ys hs in ((h, l), r)

  pub length-append : (xs ys : List A) → length (xs ++ ys) ≡ length xs + length ys
  length-append [] ys = omega arith
  length-append (x ∷ xs) ys = omega (arith, length-append xs ys)

  pub length-take : (n : ℕ) (xs : List A) → length (take n xs) ≡ min n (length xs)
  length-take zero xs = omega arith
  length-take (suc n) [] = omega arith
  length-take (suc n) (x ∷ xs) = omega (arith, length-take n xs)

  pub length-drop : (n : ℕ) (xs : List A) → length (drop n xs) ≡ length xs - n
  length-drop zero xs = omega arith
  length-drop (suc n) [] = omega arith
  length-drop (suc n) (x ∷ xs) = omega (arith, length-drop n xs)

  pub take-append :
      (n k : ℕ) (xs ys : List A) → n ≡ length xs + k → take n (xs ++ ys) ≡ xs ++ take k ys
  take-append n k [] ys e = ap (λ m. take m ys) (omega arith)
  take-append zero k (x ∷ xs) ys e = absurd (omega arith)
  take-append (suc n) k (x ∷ xs) ys e = ap (◌∷◌ x) (take-append n k xs ys (omega arith))

  pub drop-append : (n k : ℕ) (xs ys : List A) → n ≡ length xs + k → drop n (xs ++ ys) ≡ drop k ys
  drop-append n k [] ys e = ap (λ m. drop m ys) (omega arith)
  drop-append zero k (x ∷ xs) ys e = absurd (omega arith)
  drop-append (suc n) k (x ∷ xs) ys e = drop-append n k xs ys (omega arith)

  drop-nil : (n : ℕ) → drop n [] ≡ []
  drop-nil zero = refl
  drop-nil (suc n) = refl

  pub drop-drop : (n k m : ℕ) (xs : List A) → k + n ≡ m → drop n (drop k xs) ≡ drop m xs
  drop-drop n zero m xs e = ap (λ i. drop i xs) (omega arith)
  drop-drop n (suc k) zero xs e = absurd (omega arith)
  drop-drop n (suc k) (suc m) [] e = drop-nil n
  drop-drop n (suc k) (suc m) (x ∷ xs) e = drop-drop n k m xs (omega arith)

  abbrev pub is_empty : List A → Bool
  is_empty [] = true
  is_empty (x ∷ xs) = false

abbrev pub count : ℕ → List ℕ → ℕ
count a [] = 0
count a (x ∷ xs) = (if x == a then 1 else 0) + count a xs

-- `c.erase(std::remove(c.begin(), c.end(), a), c.end())`
abbrev pub erase_all : ℕ → List ℕ → List ℕ
erase_all a [] = []
erase_all a (x ∷ xs) = if x == a then erase_all a xs else x ∷ erase_all a xs

pub count-append :
    (id : ℕ) (front back : List ℕ) → count id (front ++ back) ≡ count id front + count id back
count-append id [] back = omega arith
count-append id (x ∷ front) back = ground (arith, count-append id front back)

pub count-erase_all :
    (a b : ℕ) (xs : List ℕ) → count b (erase_all a xs) ≡ (if a == b then 0 else count b xs)
count-erase_all a b [] = ground arith
count-erase_all a b (x ∷ xs) = ground (arith, count-erase_all a b xs)
