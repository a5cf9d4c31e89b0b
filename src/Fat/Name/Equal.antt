-- ===== src/Fat/Name/Equal.antt =====
-- `NameIsEqual` finds an entry under the short name that `SetFileName` has stored.
use mathlib.Core.List.{append-nil}
use mikanos.Prelude.{
  ℕ, zero, suc, ◌+◌, ◌<◌, ◌≤◌, ◌≡◌, refl, sym, ◌∙◌, ap, subst, true, false, List, [], ◌∷◌, ◌++◌,
  arith, ◌==◌, ltb, length, take, drop, length-append, map, All,
}
use mikanos.Fat.Volume.{DirectoryEntry}
use mikanos.Fat.Name.{
  to_upper, space, dot, c_string, trim, read_name, join_parts, format_name, set_byte, fill83,
  same_bytes, name_is_equal, copy_upper, set_file_name,
}
use mikanos.Fat.Name.Print.{
  IsNameByte, IsShortName, short_name, stored_name, length-copy_upper, format_name-set_file_name,
}

-- `NameIsEqual` goes up through the array; a dot takes it to index 8.
fill83-before :
    (name : List ℕ) (i : ℕ) (bytes : ℕ → ℕ) (j : ℕ)
    → j < i
    → j < 8
    → fill83 name i bytes j ≡ bytes j
unfolding fill83
fill83-before [] i bytes j h k = refl
fill83-before (c ∷ name) i bytes j h k = ground (
  arith,
  fill83-before name 8 bytes j k k,
  fill83-before name (i + 1) (set_byte bytes i (to_upper c)) j (omega arith) k,
)

fill83-below :
    (name : List ℕ) (i : ℕ) (bytes : ℕ → ℕ) (j : ℕ)
    → j < i
    → All IsNameByte name
    → fill83 name i bytes j ≡ bytes j
unfolding fill83
fill83-below [] i bytes j h k = refl
fill83-below (c ∷ name) i bytes j h (b, k) =
    ground (arith, fill83-below name (i + 1) (set_byte bytes i (to_upper c)) j (omega arith) k)

-- From index `i` on the array is blank.
abbrev IsBlank : ℕ → (ℕ → ℕ) → Type 0
IsBlank i bytes = (j : ℕ) → i ≤ j → bytes j ≡ space

set_byte-IsBlank :
    (i : ℕ) (bytes : ℕ → ℕ) (b : ℕ) → IsBlank i bytes → IsBlank (i + 1) (set_byte bytes i b)
set_byte-IsBlank i bytes b k j h = ground (arith, k j)

same_spaces :
    (m i : ℕ) (bytes : ℕ → ℕ) → IsBlank i bytes → same_bytes (copy_upper m []) i bytes ≡ true
unfolding same_bytes copy_upper
same_spaces zero i bytes k = refl
same_spaces (suc m) i bytes k =
    ground (arith, k i, same_spaces m (i + 1) bytes (λ j h. k j (omega arith)))

same_ext :
    (ext : List ℕ) (m i : ℕ) (bytes : ℕ → ℕ)
    → length ext ≤ m
    → i + m ≤ 11
    → All IsNameByte ext
    → IsBlank i bytes
    → same_bytes (copy_upper m ext) i (fill83 ext i bytes) ≡ true
unfolding same_bytes copy_upper fill83
same_ext [] m i bytes h l k blank = same_spaces m i bytes blank
same_ext (c ∷ ext) zero i bytes h l k blank = absurd (omega arith)
same_ext (c ∷ ext) (suc m) i bytes h l (b, k) blank =
    let next : ℕ → ℕ = set_byte bytes i (to_upper c) in
    let inside : ltb i 11 ≡ true = ground arith in
    let letter : (c == dot) ≡ false = ground arith in
    rw (inside, letter)
      (ground (
        arith,
        fill83-below ext (i + 1) next i (omega arith) k,
        same_ext ext m (i + 1) next (omega arith) (omega arith) k
            (set_byte-IsBlank i bytes (to_upper c) blank),
      ))

same_gap :
    (m i : ℕ) (bytes : ℕ → ℕ) (rest : List ℕ)
    → i + m ≡ 8
    → ((j : ℕ) → i ≤ j → j < 8 → bytes j ≡ space)
    → same_bytes rest 8 bytes ≡ true
    → same_bytes (copy_upper m [] ++ rest) i bytes ≡ true
unfolding same_bytes copy_upper
same_gap zero i bytes rest e k h = subst (λ x. same_bytes rest x bytes ≡ true) (omega arith) h
same_gap (suc m) i bytes rest e k h =
    ground
      (arith, k i, same_gap m (i + 1) bytes rest (omega arith) (λ j p q. k j (omega arith) q) h)

-- After the base, what is left of the name makes a blank array into these last three bytes.
abbrev IsTail : List ℕ → List ℕ → Type 0
IsTail tail rest =
    (i : ℕ) (bytes : ℕ → ℕ)
    → i ≤ 8
    → IsBlank i bytes
    → ((j : ℕ) → i ≤ j → j < 8 → fill83 tail i bytes j ≡ space)
      × (same_bytes rest 8 (fill83 tail i bytes) ≡ true)

same_base :
    (base tail rest : List ℕ) (m i : ℕ) (bytes : ℕ → ℕ)
    → length base ≤ m
    → i + m ≡ 8
    → All IsNameByte base
    → IsBlank i bytes
    → IsTail tail rest
    → same_bytes (copy_upper m base ++ rest) i (fill83 (base ++ tail) i bytes) ≡ true
unfolding same_bytes copy_upper fill83
same_base [] tail rest m i bytes h e k blank ends =
    let last = ends i bytes (omega arith) blank in
    same_gap m i (fill83 tail i bytes) rest e last.0 last.1
same_base (c ∷ base) tail rest zero i bytes h e k blank ends = absurd (omega arith)
same_base (c ∷ base) tail rest (suc m) i bytes h e (b, k) blank ends =
    let next : ℕ → ℕ = set_byte bytes i (to_upper c) in
    let inside : ltb i 11 ≡ true = ground arith in
    let letter : (c == dot) ≡ false = ground arith in
    rw (inside, letter)
      (ground (
        arith,
        fill83-before (base ++ tail) (i + 1) next i (omega arith) (omega arith),
        same_base base tail rest m (i + 1) next (omega arith) (omega arith) k
            (set_byte-IsBlank i bytes (to_upper c) blank) ends,
      ))

none-IsTail : IsTail [] (copy_upper 3 [])
unfolding fill83
none-IsTail i bytes h blank =
    (λ j p q. blank j p, same_spaces 3 8 bytes (λ j p. blank j (omega arith)))

ext-IsTail :
    (ext : List ℕ) → length ext ≤ 3 → All IsNameByte ext → IsTail (dot ∷ ext) (copy_upper 3 ext)
unfolding fill83
ext-IsTail ext l k i bytes h blank =
    let inside : ltb i 11 ≡ true = ground arith in
    let later : IsBlank 8 bytes = λ j p. blank j (omega arith) in
    rw inside (
      λ j p q. fill83-before ext 8 bytes j q q ∙ blank j p,
      same_ext ext 3 8 bytes l (omega arith) k later,
    )

-- An entry that a short name is stored in is equal to that name.
pub name_is_equal-set_file_name :
    (e : DirectoryEntry) (base ext : List ℕ)
    → IsShortName base ext
    → name_is_equal (set_file_name e (short_name base ext)) (short_name base ext) ≡ true
unfolding name_is_equal
name_is_equal-set_file_name e base [] k =
    subst (λ bs. same_bytes bs 0 (fill83 base 0 (λ _. space)) ≡ true)
      (sym (stored_name e base [] k [] refl))
      (subst
        (λ n. same_bytes (copy_upper 8 base ++ copy_upper 3 []) 0 (fill83 n 0 (λ _. space)) ≡ true)
        (append-nil base)
        (same_base base [] (copy_upper 3 []) 8 0 (λ _. space) k.base_fits refl k.base_bytes
          (λ j h. refl) none-IsTail))
name_is_equal-set_file_name e base (c ∷ ext) k =
    subst (λ bs. same_bytes bs 0 (fill83 (base ++ dot ∷ c ∷ ext) 0 (λ _. space)) ≡ true)
      (sym (stored_name e base (c ∷ ext) k (c ∷ ext) refl))
      (same_base base (dot ∷ c ∷ ext) (copy_upper 3 (c ∷ ext)) 8 0 (λ _. space) k.base_fits refl
        k.base_bytes (λ j h. refl) (ext-IsTail (c ∷ ext) k.ext_fits k.ext_bytes))

same_bytes_unique :
    (xs ys : List ℕ) (i : ℕ) (bytes : ℕ → ℕ)
    → length xs ≡ length ys
    → same_bytes xs i bytes ≡ true
    → same_bytes ys i bytes ≡ true
    → xs ≡ ys
unfolding same_bytes
same_bytes_unique [] [] i bytes e h k = refl
same_bytes_unique [] (y ∷ ys) i bytes e h k = absurd (omega arith)
same_bytes_unique (x ∷ xs) [] i bytes e h k = absurd (omega arith)
same_bytes_unique (x ∷ xs) (y ∷ ys) i bytes e h k =
    let rest : xs ≡ ys =
      same_bytes_unique xs ys (i + 1) bytes (omega arith) (ground arith) (ground arith) in
    let head : x ≡ y = ground arith in ap (◌∷◌ x) rest ∙ ap (λ z. z ∷ ys) head

length-stored :
    (e : DirectoryEntry) (base ext : List ℕ)
    → IsShortName base ext
    → length (set_file_name e (short_name base ext)).name ≡ 11
length-stored e base ext k =
    ap length (stored_name e base ext k ext refl)
    ∙ length-append (copy_upper 8 base) (copy_upper 3 ext)
    ∙ omega (arith, length-copy_upper 8 base, length-copy_upper 3 ext)

-- An entry with 11 bytes that `NameIsEqual` finds equal to a short name is formatted as that name in
-- upper case.
pub format_name-equal :
    (e : DirectoryEntry) (base ext : List ℕ)
    → IsShortName base ext
    → length e.name ≡ 11
    → name_is_equal e (short_name base ext) ≡ true
    → format_name e ≡ map to_upper (short_name base ext)
unfolding name_is_equal format_name read_name
format_name-equal e base ext k size equal =
    let name : List ℕ = short_name base ext in
    let same : e.name ≡ (set_file_name e name).name =
      same_bytes_unique e.name (set_file_name e name).name 0 (fill83 name 0 (λ _. space))
        (size ∙ sym (length-stored e base ext k)) equal
        (name_is_equal-set_file_name e base ext k) in
    ap (λ bs. join_parts (c_string (trim (take 8 bs)), c_string (trim (take 3 (drop 8 bs))))) same
    ∙ format_name-set_file_name e base ext k
