-- ===== src/Fat/Directory.antt =====
-- Directories: `FindFile`, `AllocateEntry` and `CreateFile` of src/kernel/fat.cpp. A pointer to an entry
-- is its cluster and its index there.
pub mod Listing
pub mod Resolve
pub mod Create
use mathlib.Core.Option
use mikanos.Prelude.{
  ℕ, zero, suc, ◌+◌, ◌-◌, ◌*◌, ◌/◌, ◌%◌, ◌^◌, Bool, true, false, ◌&&◌, ◌||◌, not, Option, none,
  some, List, [], ◌∷◌, ◌==◌, leb, ltb, if◌then◌else◌, length, is_empty, get_or, ◌>>=◌,
}
use mikanos.Error.{Error, WithError}
use mikanos.Fat.Volume.{
  Volume, DirectoryEntry, first_cluster, bytes_per_cluster, end_of_cluster_chain, next_cluster,
}
use mikanos.Fat.Name.{name_is_equal, strrchr, set_file_name}
use mikanos.Fat.Cluster.{extend_cluster}

abbrev pub slash : ℕ
slash = 47

-- `Attribute::kDirectory`
abbrev pub directory : ℕ
directory = 0x10

abbrev pub Position : Type 0
Position = ℕ × ℕ

abbrev pub entry_at : Volume → Position → DirectoryEntry
entry_at v p = v.entries p.0 p.1

-- `entry.name[0]`
abbrev pub first_byte : DirectoryEntry → ℕ
first_byte e = get_or e.name 0 0

-- `bytes_per_cluster / sizeof(DirectoryEntry)`
abbrev pub entries_per_cluster : Volume → ℕ
entries_per_cluster v = bytes_per_cluster v / 32

-- `NextPathElement`: the element, and what follows a slash.
unfoldable pub next_path_element : List ℕ → List ℕ × Option (List ℕ)
next_path_element [] = ([], none)
next_path_element (c ∷ path) =
    let rest = next_path_element path in
    if c == slash then ([], some path) else (c ∷ rest.0, rest.1)

-- How the loop over the entries of a cluster goes out.
pub data ScanResult : Type 0 where
  found : ℕ → ScanResult
  not_found : ScanResult
  further : ScanResult

-- The inner loop of `FindFile`, with `rounds` entries left.
unfoldable pub scan_cluster : ℕ → (ℕ → DirectoryEntry) → List ℕ → ℕ → ScanResult
scan_cluster zero dir name i = further
scan_cluster (suc rounds) dir name i =
    let rest = scan_cluster rounds dir name (i + 1) in
    if first_byte (dir i) == 0
    then not_found
    else if name_is_equal (dir i) name
    then found i
    else rest

-- The outer loop of `FindFile`, on fuel.
unfoldable pub search_dir : ℕ → Volume → List ℕ → ℕ → Option (Option Position)
unfolding scan_cluster
search_dir zero v name cluster = none
search_dir (suc fuel) v name cluster =
    let rest = search_dir fuel v name (next_cluster v.fat cluster) in
    if cluster == end_of_cluster_chain
    then some none
    else elim (scan_cluster (entries_per_cluster v) (v.entries cluster) name 0) [
      | found i ↦ some (some (cluster, i))
      | not_found ↦ some none
      | further ↦ rest
    ]

-- Where `FindFile` starts: at the root for a path with a leading slash and for cluster 0.
unfoldable pub start_dir : Volume → List ℕ → ℕ → List ℕ × ℕ
start_dir v [] cluster = ([], if cluster == 0 then v.bpb.root_cluster else cluster)
start_dir v (c ∷ path) cluster =
    if c == slash
    then (path, v.bpb.root_cluster)
    else (c ∷ path, if cluster == 0 then v.bpb.root_cluster else cluster)

abbrev pub is_none {ℓ} : {A : Type ℓ} → Option A → Bool
is_none none = true
is_none (some a) = false

-- `path_last`
abbrev pub path_last : Option (List ℕ) → Bool
path_last none = true
path_last (some next) = is_empty next

-- The body of `FindFile` for an element of the path and what follows it, in the directory at a cluster;
-- `deeper` is the recursive call.
unfoldable pub find_element :
    Volume
    → (List ℕ → ℕ → Option (Option Position × Bool))
    → List ℕ × Option (List ℕ)
    → ℕ
    → Option (Option Position × Bool)
unfolding search_dir
find_element v deeper (path_elem, next_path) cluster =
    let post_slash = not (is_none next_path) in
    if leb (length path_elem) 12
    then (do
      result ← search_dir (v.fat_entries + 1) v path_elem cluster
      elim result [
        | none ↦ some (none, post_slash)
        | some p ↦
            if (entry_at v p).attr == directory && not (path_last next_path)
            then deeper (Option.get_or next_path []) (first_cluster (entry_at v p))
            else some (some p, post_slash)
      ])
    else none

-- `FindFile`, on fuel for the recursion: the entry, if there is one, and `post_slash`. `none`: an element
-- does not fit `path_elem`, or a chain does not end.
unfoldable pub find_file : ℕ → Volume → List ℕ → ℕ → Option (Option Position × Bool)
unfolding next_path_element find_element start_dir
find_file zero v path cluster = none
find_file (suc fuel) v path cluster =
    let start = start_dir v path cluster in
    find_element v (λ next c. find_file fuel v next c) (next_path_element start.0) start.1

-- The inner loop of `AllocateEntry`
unfoldable pub scan_free : ℕ → (ℕ → DirectoryEntry) → ℕ → Option ℕ
scan_free zero dir i = none
scan_free (suc rounds) dir i =
    let rest = scan_free rounds dir (i + 1) in
    if first_byte (dir i) == 0 || first_byte (dir i) == 0xe5 then some i else rest

-- Its outer loop, on fuel: a cluster with an index, or the last cluster alone.
unfoldable pub find_slot : ℕ → Volume → ℕ → Option (ℕ × Option ℕ)
unfolding scan_free
find_slot zero v cluster = none
find_slot (suc fuel) v cluster =
    let next = next_cluster v.fat cluster in
    let rest = find_slot fuel v next in
    elim (scan_free (entries_per_cluster v) (v.entries cluster) 0) [
      | some i ↦ some (cluster, some i)
      | none ↦ if next == end_of_cluster_chain then some (cluster, none) else rest
    ]

-- A cluster is filled with 0.
abbrev pub blank_entry : DirectoryEntry
blank_entry = record {
  name = 0 ∷ 0 ∷ 0 ∷ 0 ∷ 0 ∷ 0 ∷ 0 ∷ 0 ∷ 0 ∷ 0 ∷ 0 ∷ [];
  attr = 0;
  first_cluster_high = 0;
  first_cluster_low = 0;
  file_size = 0;
}

unfoldable pub clear_cluster : Volume → ℕ → Volume
clear_cluster v c = record v {
  sector = λ d j. if d == c && ltb j (bytes_per_cluster v) then 0 else v.sector d j;
  entries = λ d j. if d == c && ltb j (entries_per_cluster v) then blank_entry else v.entries d j;
}

-- `AllocateEntry`
unfoldable pub allocate_entry : Volume → ℕ → Option (Volume × Position)
unfolding find_slot extend_cluster clear_cluster
allocate_entry v dir_cluster = do
  (cluster, slot) ← find_slot (v.fat_entries + 1) v dir_cluster
  elim slot [
    | some i ↦ some (v, (cluster, i))
    | none ↦ Option.map (λ r. (clear_cluster r.0 r.1, (r.1, 0))) (extend_cluster v cluster 1)
  ]

-- A store to an entry.
abbrev pub set_entry : Volume → Position → DirectoryEntry → Volume
set_entry v p e = record v { entries = λ d j. if d == p.0 && j == p.1 then e else v.entries d j }

-- The end of `CreateFile`, in the parent directory. `AllocateEntry` never returns a null pointer.
unfoldable pub create_in : Volume → ℕ → List ℕ → Option (Volume × WithError (Option Position))
unfolding allocate_entry set_file_name
create_in v parent filename = do
  (w, p) ← allocate_entry v parent
  let dir = record (set_file_name (entry_at w p) filename) { file_size = 0 }
  some (set_entry w p dir, record { value = some p; error = Error.success })

-- `CreateFile`
unfoldable pub create_file : Volume → List ℕ → Option (Volume × WithError (Option Position))
unfolding create_in find_file strrchr
create_file v path = elim (strrchr path slash) [
  | none ↦ create_in v v.bpb.root_cluster path
  | some (parent, filename) ↦
      if is_empty filename
      then some (v, record { value = none; error = Error.is_directory })
      else if is_empty parent
      then create_in v v.bpb.root_cluster filename
      else (do
        (dir, post_slash) ← find_file (suc (length parent)) v parent 0
        elim dir [
          | none ↦ some (v, record { value = none; error = Error.no_such_entry })
          | some p ↦ create_in v (first_cluster (entry_at v p)) filename
        ])
]
