-- ===== src/Paging/Fault/Answer.antt =====
-- Which of its answers `HandlePageFault` gives.
use mikanos.Prelude.{
  ℕ, ◌/◌, ◌%◌, ◌&&◌, Bool, true, false, Option, none, some, List, [], ◌∷◌, ◌++◌, ◌==◌, leb, ltb,
  if◌then◌else◌, ◌<◌, ◌≤◌, ◌≡◌, ◌≢◌, refl, ◌∙◌, ap, arith, All, ◌⊎◌, inl, inr,
}
use mikanos.Error.{Error}
use mikanos.Task.State.{Task, FileMapping}
use mikanos.Paging.{Pages}
use mikanos.Paging.Setup.{setup_page_maps}
use mikanos.Paging.Copy.{copy_one_page}
use mikanos.Paging.Fault.{find_file_mapping, prepare_page_cache, handle_page_fault}
use mikanos.Prelude.Int.{ℤ}

-- An address before or behind a range.
abbrev pub IsOutside : ℕ → ℕ → ℕ → Type 0
IsOutside addr first past = (addr < first) ⊎ (past ≤ addr)

-- The causes of a page fault, as bits 0 to 2 of the error code and the address tell them: a write of a
-- program to a page that is there, another access to such a page, and, for a page that is not there, an
-- address in the range of demand paging, in a mapped file, and in neither.
pub data Cause (task : Task) (code addr : ℕ) : Type 0 where
  first_write : code % 8 ≡ 7 → Cause task code addr
  forbidden : code % 2 ≡ 1 → code % 8 ≢ 7 → Cause task code addr
  on_demand :
      code % 2 ≡ 0 → task.dpaging_begin ≤ addr → addr < task.dpaging_end → Cause task code addr
  in_file :
      (before : List FileMapping) (m : FileMapping) (after : List FileMapping)
      → code % 2 ≡ 0
      → IsOutside addr task.dpaging_begin task.dpaging_end
      → task.file_maps ≡ before ++ m ∷ after
      → All (λ x. IsOutside addr x.vaddr_begin x.vaddr_end) before
      → m.vaddr_begin ≤ addr
      → addr < m.vaddr_end
      → Cause task code addr
  nowhere :
      code % 2 ≡ 0
      → IsOutside addr task.dpaging_begin task.dpaging_end
      → All (λ x. IsOutside addr x.vaddr_begin x.vaddr_end) task.file_maps
      → Cause task code addr

-- The answer to each of them.
abbrev pub answer :
    (ℤ → ℕ → ℕ → List ℕ)
    → (task : Task) → Pages
    → (code addr : ℕ) → Cause task code addr
    → Option (Pages × Error)
answer load task s code addr (first_write _) = copy_one_page s addr
answer load task s code addr (forbidden _ _) = some (s, Error.already_allocated)
answer load task s code addr (on_demand _ _ _) = setup_page_maps s addr 1 true
answer load task s code addr (in_file _ m _ _ _ _ _ _ _) = prepare_page_cache load s m addr
answer load task s code addr (nowhere _ _ _) = some (s, Error.index_out_of_range)

pub missed :
    (addr first past : ℕ) → IsOutside addr first past → (leb first addr && ltb addr past) ≡ false
missed addr first past (inl h) = ground arith
missed addr first past (inr h) = ground arith

pub find_file_mapping-first :
    (before : List FileMapping) (m : FileMapping) (after : List FileMapping) (addr : ℕ)
    → All (λ x. IsOutside addr x.vaddr_begin x.vaddr_end) before
    → m.vaddr_begin ≤ addr
    → addr < m.vaddr_end
    → find_file_mapping (before ++ m ∷ after) addr ≡ some m
unfolding find_file_mapping
find_file_mapping-first [] m after addr k h l =
    let inside : (leb m.vaddr_begin addr && ltb addr m.vaddr_end) ≡ true = ground arith in
    rw inside refl
find_file_mapping-first (x ∷ before) m after addr (b, k) h l =
    rw (missed addr x.vaddr_begin x.vaddr_end b) (find_file_mapping-first before m after addr k h l)

find_file_mapping-none :
    (fmaps : List FileMapping) (addr : ℕ)
    → All (λ x. IsOutside addr x.vaddr_begin x.vaddr_end) fmaps
    → find_file_mapping fmaps addr ≡ none
unfolding find_file_mapping
find_file_mapping-none [] addr k = refl
find_file_mapping-none (x ∷ fmaps) addr (b, k) =
    rw (missed addr x.vaddr_begin x.vaddr_end b) (find_file_mapping-none fmaps addr k)

-- The tests of `HandlePageFault`, and what it does after them.
abbrev choose {ℓ} :
    {A : Type ℓ} → A → A → A → (FileMapping → A) → A → Bool → Bool → Bool → Option FileMapping → A
choose copied refused demanded filled missing writes present in_range mapping =
    if writes
    then copied
    else if present
    then refused
    else if in_range
    then demanded
    else elim mapping [ some m ↦ filled m | none ↦ missing ]

module _ (load : ℤ → ℕ → ℕ → List ℕ) (task : Task) (s : Pages) (code addr : ℕ) where
  chosen : Bool → Bool → Bool → Option FileMapping → Option (Pages × Error)
  chosen =
      choose (copy_one_page s addr) (some (s, Error.already_allocated))
        (setup_page_maps s addr 1 true) (λ m. prepare_page_cache load s m addr)
        (some (s, Error.index_out_of_range))

  tested :
      (writes present in_range : Bool) (mapping : Option FileMapping)
      → (code % 2 == 1 && (code / 2 % 2 == 1 && code / 4 % 2 == 1)) ≡ writes
      → (code % 2 == 1) ≡ present
      → (leb task.dpaging_begin addr && ltb addr task.dpaging_end) ≡ in_range
      → find_file_mapping task.file_maps addr ≡ mapping
      → handle_page_fault load task s code addr ≡ chosen writes present in_range mapping
  unfolding handle_page_fault chosen
  tested writes present in_range mapping a b c d =
      ap
        (λ x.
          chosen x (code % 2 == 1) (leb task.dpaging_begin addr && ltb addr task.dpaging_end)
            (find_file_mapping task.file_maps addr))
        a
      ∙ ap
          (λ x.
            chosen writes x (leb task.dpaging_begin addr && ltb addr task.dpaging_end)
              (find_file_mapping task.file_maps addr))
          b
      ∙ ap (λ x. chosen writes present x (find_file_mapping task.file_maps addr)) c
      ∙ ap (λ x. chosen writes present in_range x) d

-- `HandlePageFault` gives the answer to the cause of the fault: a page is copied on the first write of
-- a program, mapped on demand, or filled from the first file mapping that has the address; any other
-- fault is an error and changes nothing.
pub handle_page_fault_lem :
    (load : ℤ → ℕ → ℕ → List ℕ) (task : Task) (s : Pages) (code addr : ℕ) (c : Cause task code addr)
    → handle_page_fault load task s code addr ≡ answer load task s code addr c
unfolding chosen
handle_page_fault_lem load task s code addr (first_write h) =
    tested load task s code addr true _ _ _ (ground arith) refl refl refl
handle_page_fault_lem load task s code addr (forbidden h k) =
    tested load task s code addr false true _ _ (ground arith) (ground arith) refl refl
handle_page_fault_lem load task s code addr (on_demand h l u) =
    tested load task s code addr false false true _ (ground arith) (ground arith) (ground arith)
      refl
handle_page_fault_lem load task s code addr (in_file before m after h o e k l u) =
    tested load task s code addr false false false (some m) (ground arith) (ground arith)
      (missed addr task.dpaging_begin task.dpaging_end o)
      (ap (λ x. find_file_mapping x addr) e ∙ find_file_mapping-first before m after addr k l u)
handle_page_fault_lem load task s code addr (nowhere h o k) =
    tested load task s code addr false false false none (ground arith) (ground arith)
      (missed addr task.dpaging_begin task.dpaging_end o)
      (find_file_mapping-none task.file_maps addr k)
