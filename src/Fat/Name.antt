-- ===== src/Fat/Name.antt =====
-- The names of directory entries: `ReadName`, `FormatName`, `NameIsEqual` and `SetFileName` of
-- src/kernel/fat.cpp. A C string is the list of its bytes, without the terminating 0.
pub mod Print
pub mod Equal
use mikanos.Prelude.{
  ℕ, zero, suc, ◌+◌, ◌-◌, Bool, true, false, ◌&&◌, Option, none, some, List, [], ◌∷◌, ◌++◌, ◌==◌,
  leb, ltb, if◌then◌else◌, take, drop, is_empty,
}
use mikanos.Fat.Volume.{DirectoryEntry}

-- `toupper` in the C locale
unfoldable pub to_upper : ℕ → ℕ
to_upper c = if leb 97 c && leb c 122 then c - 32 else c

abbrev pub space : ℕ
space = 0x20

abbrev pub dot : ℕ
dot = 46

-- The bytes before the first 0.
unfoldable pub c_string : List ℕ → List ℕ
c_string [] = []
c_string (b ∷ bs) = if b == 0 then [] else b ∷ c_string bs

-- The loops of `ReadName`, from the end of the array: trailing spaces go.
unfoldable pub trim : List ℕ → List ℕ
trim [] = []
trim (b ∷ bs) = let rest = trim bs in if is_empty rest && b == space then [] else b ∷ rest

-- `ReadName`: base and extension.
unfoldable pub read_name : DirectoryEntry → List ℕ × List ℕ
unfolding trim c_string
read_name e = (c_string (trim (take 8 e.name)), c_string (trim (take 3 (drop 8 e.name))))

-- The extension is appended if there is one.
abbrev pub join_parts : List ℕ × List ℕ → List ℕ
join_parts (base, ext) = if is_empty ext then base else base ++ dot ∷ ext

-- `FormatName`
unfoldable pub format_name : DirectoryEntry → List ℕ
unfolding read_name
format_name e = join_parts (read_name e)

-- An element of an array of bytes is set.
abbrev pub set_byte : (ℕ → ℕ) → ℕ → ℕ → ℕ → ℕ
set_byte bytes i b j = if j == i then b else bytes j

-- The loop of `NameIsEqual`, which fills `name83` from index `i83` on.
unfoldable pub fill83 : List ℕ → ℕ → (ℕ → ℕ) → ℕ → ℕ
unfolding to_upper
fill83 [] i83 name83 = name83
fill83 (c ∷ name) i83 name83 =
    let extension = fill83 name 8 name83 in
    let next = fill83 name (i83 + 1) (set_byte name83 i83 (to_upper c)) in
    if ltb i83 11 then if c == dot then extension else next else name83

-- `memcmp` of the bytes of a list and those of an array, from index `i` on, is 0.
unfoldable pub same_bytes : List ℕ → ℕ → (ℕ → ℕ) → Bool
same_bytes [] i bytes = true
same_bytes (b ∷ bs) i bytes = b == bytes i && same_bytes bs (i + 1) bytes

unfoldable pub name_is_equal : DirectoryEntry → List ℕ → Bool
unfolding fill83 same_bytes
name_is_equal e name = same_bytes e.name 0 (fill83 name 0 (λ _. space))

-- `strrchr`: what stands before the last `b`, and behind it.
unfoldable pub strrchr : List ℕ → ℕ → Option (List ℕ × List ℕ)
strrchr [] b = none
strrchr (c ∷ name) b = elim (strrchr name b) [
  | some r ↦ some (c ∷ r.0, r.1)
  | none ↦ if c == b then some ([], name) else none
]

-- `n` bytes of an entry's name: those of a string in upper case, then spaces.
unfoldable pub copy_upper : ℕ → List ℕ → List ℕ
unfolding to_upper
copy_upper zero name = []
copy_upper (suc n) [] = space ∷ copy_upper n []
copy_upper (suc n) (c ∷ name) = to_upper c ∷ copy_upper n name

-- `SetFileName`
unfoldable pub set_file_name : DirectoryEntry → List ℕ → DirectoryEntry
unfolding strrchr copy_upper
set_file_name e name = record e {
  name = elim (strrchr name dot) [
    | some r ↦ copy_upper 8 r.0 ++ copy_upper 3 r.1
    | none ↦ copy_upper 8 name ++ copy_upper 3 []
  ];
}
