-- ===== src/Fat/Name/Print.antt =====
-- A short name that `SetFileName` has stored is what `FormatName` prints, in upper case.
use mathlib.Core.List.{append-nil}
use mikanos.Prelude.{
  ℕ, zero, suc, ◌≤◌, ◌≡◌, ◌≢◌, refl, sym, ◌∙◌, ap, true, false, ◌&&◌, none, some, List, [], ◌∷◌,
  ◌++◌, map, arith, ◌==◌, length, take, drop, is_empty, All, subst, take-append, drop-append,
}
use mikanos.Fat.Volume.{DirectoryEntry}
use mikanos.Fat.Name.{
  to_upper, space, dot, c_string, trim, read_name, join_parts, format_name, strrchr, copy_upper,
  set_file_name,
}

-- A byte that names use: no 0, space or dot.
abbrev pub IsNameByte : ℕ → Type 0
IsNameByte c = (c ≢ 0) × (c ≢ space) × (c ≢ dot)

-- A base of at most eight bytes and an extension of at most three.
pub record IsShortName (base ext : List ℕ) : Type 0 where
  pub base_bytes : All IsNameByte base
  pub ext_bytes : All IsNameByte ext
  pub base_fits : length base ≤ 8
  pub ext_fits : length ext ≤ 3

-- The name with these parts; without an extension it has no dot.
abbrev pub short_name : List ℕ → List ℕ → List ℕ
short_name base [] = base
short_name base (c ∷ ext) = base ++ dot ∷ c ∷ ext

pub strrchr-none : (name : List ℕ) (b : ℕ) → All (λ c. c ≢ b) name → strrchr name b ≡ none
unfolding strrchr
strrchr-none [] b k = refl
strrchr-none (c ∷ name) b (h, k) = rw (strrchr-none name b k) (ground arith)

pub strrchr-some :
    (front back : List ℕ) (b : ℕ)
    → All (λ c. c ≢ b) back
    → strrchr (front ++ b ∷ back) b ≡ some (front, back)
unfolding strrchr
strrchr-some [] back b k =
    let here : (b == b) ≡ true = ground arith in rw (strrchr-none back b k, here) refl
strrchr-some (c ∷ front) back b k = rw (strrchr-some front back b k) refl

All-dot : (name : List ℕ) → All IsNameByte name → All (λ c. c ≢ dot) name
All-dot [] k = tt
All-dot (c ∷ name) (h, k) = (h.2, All-dot name k)

pub length-copy_upper : (n : ℕ) (name : List ℕ) → length (copy_upper n name) ≡ n
unfolding copy_upper
length-copy_upper zero name = refl
length-copy_upper (suc n) [] = ap suc (length-copy_upper n [])
length-copy_upper (suc n) (c ∷ name) = ap suc (length-copy_upper n name)

trim-spaces : (n : ℕ) → trim (copy_upper n []) ≡ []
unfolding copy_upper trim
trim-spaces zero = refl
trim-spaces (suc n) = rw (trim-spaces n) refl

pub upper-IsNameByte : (c : ℕ) → IsNameByte c → (to_upper c ≢ 0) × (to_upper c ≢ space)
unfolding to_upper
upper-IsNameByte c h = ground arith

-- The stored bytes, read back.
trim-copy_upper :
    (n : ℕ) (name : List ℕ)
    → All IsNameByte name
    → length name ≤ n
    → c_string (trim (copy_upper n name)) ≡ map to_upper name
unfolding copy_upper trim c_string
trim-copy_upper zero [] k h = refl
trim-copy_upper zero (c ∷ name) k h = absurd (omega arith)
trim-copy_upper (suc n) [] k h = rw (trim-spaces n) refl
trim-copy_upper (suc n) (c ∷ name) (b, k) h =
    let stays : (is_empty (trim (copy_upper n name)) && to_upper c == space) ≡ false =
      ground (arith, upper-IsNameByte c b) in
    let some_byte : (to_upper c == 0) ≡ false = ground (arith, upper-IsNameByte c b) in
    rw (stays, some_byte, trim-copy_upper n name k (omega arith)) refl

-- The two parts of the stored name.
module _ (e : DirectoryEntry) (base ext : List ℕ) (k : IsShortName base ext) where
  pub stored_name :
      (x : List ℕ)
      → ext ≡ x
      → (set_file_name e (short_name base x)).name ≡ copy_upper 8 base ++ copy_upper 3 x
  unfolding set_file_name
  stored_name [] h = rw (set_file_name, strrchr-none base dot (All-dot base k.base_bytes)) refl
  stored_name (c ∷ x) h =
      rw
        (
          set_file_name,
          strrchr-some base (c ∷ x) dot (All-dot (c ∷ x) (subst (All IsNameByte) h k.ext_bytes)),
        )
        refl

  pub read_name-set_file_name :
      read_name (set_file_name e (short_name base ext)) ≡ (map to_upper base, map to_upper ext)
  unfolding read_name
  read_name-set_file_name =
      let first : take 8 (copy_upper 8 base ++ copy_upper 3 ext) ≡ copy_upper 8 base =
        take-append 8 0 (copy_upper 8 base) (copy_upper 3 ext)
          (omega (arith, length-copy_upper 8 base))
        ∙ append-nil (copy_upper 8 base) in
      let second : take 3 (drop 8 (copy_upper 8 base ++ copy_upper 3 ext)) ≡ copy_upper 3 ext =
        ap (take 3) (
          drop-append 8 0 (copy_upper 8 base) (copy_upper 3 ext)
            (omega (arith, length-copy_upper 8 base)))
        ∙ ap (take 3) (sym (append-nil (copy_upper 3 ext)))
        ∙ take-append 3 0 (copy_upper 3 ext) [] (omega (arith, length-copy_upper 3 ext))
        ∙ append-nil (copy_upper 3 ext) in
      rw
        (
          stored_name ext refl,
          first,
          second,
          trim-copy_upper 8 base k.base_bytes k.base_fits,
          trim-copy_upper 3 ext k.ext_bytes k.ext_fits,
        )
        refl

map_append :
    (xs : List ℕ) (ys : List ℕ) → map to_upper (xs ++ ys) ≡ map to_upper xs ++ map to_upper ys
map_append [] ys = refl
map_append (x ∷ xs) ys = ap (◌∷◌ (to_upper x)) (map_append xs ys)

-- A short name that is stored in an entry is formatted as the same name in upper case.
pub format_name-set_file_name :
    (e : DirectoryEntry) (base ext : List ℕ)
    → IsShortName base ext
    → format_name (set_file_name e (short_name base ext)) ≡ map to_upper (short_name base ext)
unfolding format_name to_upper
format_name-set_file_name e base [] k = ap join_parts (read_name-set_file_name e base [] k)
format_name-set_file_name e base (c ∷ ext) k =
    ap join_parts (read_name-set_file_name e base (c ∷ ext) k)
    ∙ sym (map_append base (dot ∷ c ∷ ext))
