-- ===== src/Fat/Directory/Resolve.antt =====
-- `FindFile` follows a path of names from directory to directory.
use mikanos.Prelude.{
  ℕ, zero, suc, ◌+◌, ◌<◌, ◌≤◌, ◌≡◌, ◌≢◌, refl, sym, ◌∙◌, ap, Bool, true, false, ◌&&◌, Option, none,
  some, List, [], ◌∷◌, ◌++◌, arith, ◌==◌, leb, if◌then◌else◌, length, is_empty, All, Option-cases,
  inl, inr,
}
use mikanos.Fat.Volume.{Volume, first_cluster}
use mikanos.Fat.Chain.{Chain}
use mikanos.Fat.Directory.{
  Position, entry_at, slash, directory, next_path_element, search_dir, start_dir, find_element,
  find_file,
}
use mikanos.Fat.Directory.Listing.{listing, first_equal, search_dir_lem}

-- A name as an element of a path: no slash, and `path_elem` has room for it.
pub record IsElement (name : List ℕ) : Type 0 where
  pub bytes : All (λ c. c ≢ slash) name
  pub some_byte : 0 < length name
  pub fits : length name ≤ 12

-- The path of the names.
abbrev pub join : List ℕ → List (List ℕ) → List ℕ
join name [] = name
join name (next ∷ names) = name ++ slash ∷ join next names

-- The cluster where the directory of this number starts; 0 is the root.
abbrev pub directory_start : Volume → ℕ → ℕ
directory_start v c = if c == 0 then v.bpb.root_cluster else c

-- What a path of names stands for, from the directory of this number: each name but the last is the
-- first entry of that name in its directory, and is a directory. The flag tells that the search ended
-- at a name before the last.
pub data Resolves (v : Volume) : ℕ → List ℕ → List (List ℕ) → Option Position × Bool → Type 0 where
  last :
      (c : ℕ) (name : List ℕ) (cs : List ℕ) (r : Option Position × Bool)
      → Chain v.fat (directory_start v c) cs
      → length cs ≤ v.fat_entries
      → r ≡ (first_equal v name (listing v cs), false)
      → Resolves v c name [] r
  absent :
      (c : ℕ) (name next : List ℕ) (names : List (List ℕ)) (cs : List ℕ)
      (r : Option Position × Bool)
      → Chain v.fat (directory_start v c) cs
      → length cs ≤ v.fat_entries
      → first_equal v name (listing v cs) ≡ none
      → r ≡ (none, true)
      → Resolves v c name (next ∷ names) r
  enter :
      (c : ℕ) (name next : List ℕ) (names : List (List ℕ)) (cs : List ℕ) (p : Position)
      (r : Option Position × Bool)
      → Chain v.fat (directory_start v c) cs
      → length cs ≤ v.fat_entries
      → first_equal v name (listing v cs) ≡ some p
      → (entry_at v p).attr ≡ directory
      → Resolves v (first_cluster (entry_at v p)) next names r
      → Resolves v c name (next ∷ names) r

next_path_element-last :
    (name : List ℕ) → All (λ c. c ≢ slash) name → next_path_element name ≡ (name, none)
unfolding next_path_element
next_path_element-last [] k = refl
next_path_element-last (c ∷ name) (b, k) =
    let letter : (c == slash) ≡ false = ground arith in
    rw (letter, next_path_element-last name k) refl

next_path_element-slash :
    (name path : List ℕ)
    → All (λ c. c ≢ slash) name
    → next_path_element (name ++ slash ∷ path) ≡ (name, some path)
unfolding next_path_element
next_path_element-slash [] path k = refl
next_path_element-slash (c ∷ name) path (b, k) =
    let letter : (c == slash) ≡ false = ground arith in
    rw (letter, next_path_element-slash name path k) refl

start_dir-join :
    (v : Volume) (name : List ℕ) (names : List (List ℕ)) (c : ℕ)
    → IsElement name
    → start_dir v (join name names) c ≡ (join name names, directory_start v c)
unfolding start_dir
start_dir-join v [] names c k = absurd (omega (arith, k.some_byte))
start_dir-join v (b ∷ name) [] c k =
    let letter : (b == slash) ≡ false = ground (arith, k.bytes.0) in rw letter refl
start_dir-join v (b ∷ name) (next ∷ names) c k =
    let letter : (b == slash) ≡ false = ground (arith, k.bytes.0) in rw letter refl

pub join-some :
    (name : List ℕ) (names : List (List ℕ)) → IsElement name → is_empty (join name names) ≡ false
join-some [] names k = absurd (omega (arith, k.some_byte))
join-some (c ∷ name) [] k = refl
join-some (c ∷ name) (next ∷ names) k = refl

-- The three ways through the body of `FindFile`.
module _ (v : Volume) (deeper : List ℕ → ℕ → Option (Option Position × Bool)) (name : List ℕ)
    (k : IsElement name) (c : ℕ) (cs : List ℕ) (chain : Chain v.fat c cs)
    (short : length cs ≤ v.fat_entries) where
  fits : leb (length name) 12 ≡ true
  fits = ground (arith, k.fits)

  result : search_dir (v.fat_entries + 1) v name c ≡ some (first_equal v name (listing v cs))
  result = search_dir_lem (v.fat_entries + 1) v name c cs chain (omega arith)

  find_element-last :
      find_element v deeper (name, none) c ≡ some (first_equal v name (listing v cs), false)
  unfolding find_element
  find_element-last = elim (Option-cases (first_equal v name (listing v cs))) [
    | inl missing ↦ rw (fits, result, missing) refl
    | inr (p, found) ↦
        let stops : ((entry_at v p).attr == directory && false) ≡ false = ground arith in
        rw (fits, result, found, stops) refl
  ]

  find_element-absent :
      (next : List ℕ)
      → first_equal v name (listing v cs) ≡ none
      → find_element v deeper (name, some next) c ≡ some (none, true)
  unfolding find_element
  find_element-absent next missing = rw (fits, result, missing) refl

  find_element-enter :
      (next : List ℕ) (p : Position)
      → first_equal v name (listing v cs) ≡ some p
      → (entry_at v p).attr ≡ directory
      → is_empty next ≡ false
      → find_element v deeper (name, some next) c ≡ deeper next (first_cluster (entry_at v p))
  unfolding find_element
  find_element-enter next p found dir more =
      let is_dir : ((entry_at v p).attr == directory) ≡ true = ground arith in
      rw (fits, result, found, is_dir, more) refl

find_file-suc :
    (fuel : ℕ) (v : Volume) (path rest : List ℕ) (elem : List ℕ × Option (List ℕ)) (c d : ℕ)
    → start_dir v path c ≡ (rest, d)
    → next_path_element rest ≡ elem
    → find_file (suc fuel) v path c ≡ find_element v (λ next e. find_file fuel v next e) elem d
unfolding find_file
find_file-suc fuel v path rest elem c d h k =
    ap (λ s. find_element v (λ next e. find_file fuel v next e) (next_path_element s.0) s.1) h
    ∙ ap (λ x. find_element v (λ next e. find_file fuel v next e) x d) k

-- `FindFile` of the path of names without slashes, of 1 to 12 bytes each, with more fuel than names, is
-- what the path stands for, where it stands for something.
pub find_file_lem :
    (fuel : ℕ) (v : Volume) (c : ℕ) (name : List ℕ) (names : List (List ℕ))
    (r : Option Position × Bool)
    → IsElement name
    → All IsElement names
    → length names < fuel
    → Resolves v c name names r
    → find_file fuel v (join name names) c ≡ some r
find_file_lem zero v c name names r k ks h x = absurd (omega arith)
find_file_lem (suc fuel) v c name names r k ks h (last _ _ cs _ chain short e) =
    find_file-suc fuel v name name (name, none) c (directory_start v c)
      (start_dir-join v name [] c k) (next_path_element-last name k.bytes)
    ∙ find_element-last v _ name k (directory_start v c) cs chain short
    ∙ ap some (sym e)
find_file_lem (suc fuel) v c name names r k ks h (absent _ _ next more cs _ chain short missing e) =
    find_file-suc fuel v (join name (next ∷ more)) _ (name, some (join next more)) c
      (directory_start v c) (start_dir-join v name (next ∷ more) c k)
      (next_path_element-slash name (join next more) k.bytes)
    ∙ find_element-absent v _ name k (directory_start v c) cs chain short (join next more) missing
    ∙ ap some (sym e)
find_file_lem (suc fuel) v c name names r k ks h
      (enter _ _ next more cs p _ chain short found dir rest) =
    find_file-suc fuel v (join name (next ∷ more)) _ (name, some (join next more)) c
      (directory_start v c) (start_dir-join v name (next ∷ more) c k)
      (next_path_element-slash name (join next more) k.bytes)
    ∙ find_element-enter v _ name k (directory_start v c) cs chain short (join next more) p found
        dir (join-some next more ks.0)
    ∙ find_file_lem fuel v (first_cluster (entry_at v p)) next more r ks.0 ks.1 (omega arith) rest
