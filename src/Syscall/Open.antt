-- ===== src/Syscall/Open.antt =====
-- A file that is opened gets the lowest number that is free.
use mikanos.Prelude.{
  ℕ, zero, suc, ◌+◌, ◌<◌, ◌≤◌, ◌≡◌, ◌≢◌, refl, subst, bit_and, Bool, true, false, not, ◌&&◌, Option,
  none, some, List, [], ◌∷◌, ◌==◌, length, All, Returns, arith,
}
use mathlib.Core.Option.{some-ne-none}
use mikanos.Fat.Volume.{Volume}
use mikanos.Fat.File.{new_descriptor}
use mikanos.Fat.Directory.{Position, directory, entry_at, find_file}
use mikanos.Fat.Directory.Resolve.{IsElement, join, Resolves, find_file_lem}
use mikanos.Fat.Directory.Create.{length-join}
use mikanos.Syscall.{
  no_error, enoent, file_of, allocate_from, allocate_fd, set_file, stdin_name, same_text,
  OpenedFile, Opened, failed, add_file, open_file,
}

module _ {ℓ} {File : Type ℓ} where
  -- `fd` was the lowest free number, and now has `f`; nothing else has changed.
  pub record IsAdded (files : List (Option File)) (f : File) (files' : List (Option File)) (fd : ℕ)
      : Type ℓ where
    pub unused : file_of files fd ≡ none
    pub near : fd ≤ length files
    pub lowest : (i : ℕ) → i < fd → file_of files i ≢ none
    pub added : file_of files' fd ≡ some f
    pub others : (i : ℕ) → i ≢ fd → file_of files' i ≡ file_of files i

  free-IsAdded :
      (files : List (Option File)) (f : File) → IsAdded (none ∷ files) f (some f ∷ files) 0
  free-IsAdded files f = record {
    unused = refl;
    near = omega arith;
    lowest = λ i h. absurd (omega arith);
    added = refl;
    others = rest;
  }
    where
      rest : (i : ℕ) → i ≢ 0 → file_of (some f ∷ files) i ≡ file_of (none ∷ files) i
      rest zero h = absurd (h refl)
      rest (suc i) h = refl

  behind-IsAdded :
      (files : List (Option File)) (g f : File) (files' : List (Option File)) (fd : ℕ)
      → IsAdded files f files' fd
      → IsAdded (some g ∷ files) f (some g ∷ files') (suc fd)
  behind-IsAdded files g f files' fd k = record {
    unused = k.unused;
    near = omega (arith, k.near);
    lowest = below;
    added = k.added;
    others = apart;
  }
    where
      below : (i : ℕ) → i < suc fd → file_of (some g ∷ files) i ≢ none
      below zero h = some-ne-none g
      below (suc i) h = k.lowest i (omega arith)

      apart : (i : ℕ) → i ≢ suc fd → file_of (some g ∷ files') i ≡ file_of (some g ∷ files) i
      apart zero h = refl
      apart (suc i) h = k.others i (omega arith)

  empty-IsAdded : (f : File) → IsAdded [] f (some f ∷ []) 0
  empty-IsAdded f = record {
    unused = refl;
    near = omega arith;
    lowest = λ i h. absurd (omega arith);
    added = refl;
    others = rest;
  }
    where
      rest : (i : ℕ) → i ≢ 0 → file_of (some f ∷ []) i ≡ file_of [] i
      rest zero h = absurd (h refl)
      rest (suc i) h = refl

  -- The loop, from the entry `i` on.
  allocate_from-IsAdded :
      (files : List (Option File)) (f : File) (i : ℕ)
      → (k : ℕ) × ((allocate_from files i).1 ≡ i + k)
        × IsAdded files f (set_file (allocate_from files i).0 k f) k
  unfolding allocate_from
  allocate_from-IsAdded [] f i = (0, omega arith, empty-IsAdded f)
  allocate_from-IsAdded (none ∷ files) f i = (0, omega arith, free-IsAdded files f)
  allocate_from-IsAdded (some g ∷ files) f i =
      let (k, e, h) = allocate_from-IsAdded files f (i + 1) in
      (suc k, omega (arith, e), behind-IsAdded files g f _ k h)

  pub allocate_fd-IsAdded :
      (files : List (Option File)) (f : File)
      → IsAdded files f
          (set_file (allocate_fd files).0 (allocate_fd files).1 f)
          (allocate_fd files).1
  unfolding allocate_fd
  allocate_fd-IsAdded files f =
      let (k, e, h) = allocate_from-IsAdded files f 0 in
      let here : k ≡ (allocate_from files 0).1 = omega (arith, e) in
      subst (λ n. IsAdded files f (set_file (allocate_from files 0).0 n f) n) here h

-- The call has opened the file at `p`, and returns its number.
pub record IsOpened (v : Volume) (files : List (Option OpenedFile)) (p : Position) (r : Opened)
    : Type 0 where
  pub success : r.1.1.error ≡ no_error
  pub same_volume : r.0 ≡ v
  pub added : IsAdded files (p, new_descriptor) r.1.0 r.1.1.value

add_file-IsOpened :
    (v : Volume) (files : List (Option OpenedFile)) (p : Position)
    → IsOpened v files p (add_file v files p)
unfolding add_file
add_file-IsOpened v files p = record {
  success = refl;
  same_volume = refl;
  added = allocate_fd-IsAdded files (p, new_descriptor);
}

-- The path of names.
module _ (o_creat : ℕ) (v : Volume) (files : List (Option OpenedFile)) (name : List ℕ)
    (names : List (List ℕ)) (flags : ℕ) (k : IsElement name) (ks : All IsElement names)
    (file : same_text (join name names) stdin_name ≡ false) where
  -- `FindFile` has its answer.
  found_path :
      (r : Option Position × Bool)
      → Resolves v 0 name names r
      → find_file (suc (length (join name names))) v (join name names) 0 ≡ some r
  found_path r x =
      find_file_lem (suc (length (join name names))) v 0 name names r k ks
        (omega (arith, length-join name names k ks)) x

  -- `OpenFile` of a path of names without slashes, of 1 to 12 bytes each, other than `@stdin`, that
  -- stands for an entry, which is a directory or has no name behind it, succeeds. It returns the
  -- lowest number that was free, which has now a new descriptor of the entry; the other numbers
  -- have the files that they had, and the volume is the same.
  pub open_file-IsOpened :
      (p : Position) (skipped : Bool)
      → Resolves v 0 name names (some p, skipped)
      → (not ((entry_at v p).attr == directory) && skipped) ≡ false
      → Returns (open_file o_creat v files (join name names) flags) (IsOpened v files p)
  unfolding open_file
  open_file-IsOpened p skipped x whole =
      rw (open_file, file, found_path (some p, skipped) x, whole) (add_file-IsOpened v files p)

  -- `OpenFile` of a path of names without slashes, of 1 to 12 bytes each, other than `@stdin`, that
  -- stands for no entry, fails without `O_CREAT` with ENOENT, and changes nothing.
  pub open_file-absent :
      (skipped : Bool)
      → Resolves v 0 name names (none, skipped)
      → bit_and flags o_creat ≡ 0
      → open_file o_creat v files (join name names) flags ≡ some (failed v files enoent)
  unfolding open_file
  open_file-absent skipped x creates =
      let no_creation : (bit_and flags o_creat == 0) ≡ true = ground arith in
      rw (open_file, file, found_path (none, skipped) x, no_creation) refl
