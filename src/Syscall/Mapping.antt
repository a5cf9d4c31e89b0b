-- ===== src/Syscall/Mapping.antt =====
-- A file that is mapped is found at its addresses.
use native.Mathlib.Nat.{mod-eq_of_lt, add-mod_right}
use mikanos.Prelude.{
  ℕ, ◌+◌, ◌-◌, ◌*◌, ◌/◌, ◌%◌, ◌^◌, ◌<◌, ◌≤◌, ◌≡◌, inl, inr, refl, ◌∙◌, ap, bit_and, Option, some,
  List, [], ◌∷◌, ◌++◌, ◌&&◌, leb, ltb, if◌then◌else◌, All, arith,
}
use mikanos.Bits.{bit_and-high}
use mikanos.Prelude.Int.{pos}
use mikanos.Task.State.{Task, FileMapping}
use mikanos.Paging.Fault.{find_file_mapping}
use mikanos.Paging.Fault.Answer.{IsOutside, find_file_mapping-first, missed}
use mikanos.Syscall.{Result, no_error, lookup, map_file}

-- The mappings stand one below the other, from `top` down to `bottom`.
abbrev pub Descends : ℕ → List FileMapping → ℕ → Type 0
Descends top [] bottom = bottom ≡ top
Descends top (m ∷ fmaps) bottom =
    (m.vaddr_end ≡ top) × ((m.vaddr_begin ≤ m.vaddr_end) × Descends m.vaddr_begin fmaps bottom)

Descends-append :
    (top bottom begin fd : ℕ) (fmaps : List FileMapping)
    → Descends top fmaps bottom
    → begin ≤ bottom
    → Descends top
        (fmaps ++ record { fd = pos fd; vaddr_begin = begin; vaddr_end = bottom } ∷ [])
        begin
Descends-append top bottom begin fd [] d h = (d, (h, refl))
Descends-append top bottom begin fd (m ∷ fmaps) (e, (l, d)) h =
    (e, (l, Descends-append m.vaddr_begin bottom begin fd fmaps d h))

bottom-top : (top bottom : ℕ) (fmaps : List FileMapping) → Descends top fmaps bottom → bottom ≤ top
bottom-top top bottom [] d = omega arith
bottom-top top bottom (m ∷ fmaps) (e, (l, d)) =
    omega (arith, bottom-top m.vaddr_begin bottom fmaps d)

-- An address below the mappings.
below-IsOutside :
    (top bottom addr : ℕ) (fmaps : List FileMapping)
    → Descends top fmaps bottom
    → addr < bottom
    → All (λ m. IsOutside addr m.vaddr_begin m.vaddr_end) fmaps
below-IsOutside top bottom addr [] d h = tt
below-IsOutside top bottom addr (m ∷ fmaps) (e, (l, d)) h = (
  inl (omega (arith, bottom-top m.vaddr_begin bottom fmaps d)),
  below-IsOutside m.vaddr_begin bottom addr fmaps d h,
)

-- A mapping at the end changes nothing for addresses above it.
above-find_file_mapping :
    (fmaps : List FileMapping) (m : FileMapping) (addr : ℕ)
    → m.vaddr_end ≤ addr
    → find_file_mapping (fmaps ++ m ∷ []) addr ≡ find_file_mapping fmaps addr
unfolding find_file_mapping
above-find_file_mapping [] m addr h = rw (missed addr m.vaddr_begin m.vaddr_end (inr h)) refl
above-find_file_mapping (x ∷ fmaps) m addr h =
    ap (λ o. if leb x.vaddr_begin addr && ltb addr x.vaddr_end then some x else o)
      (above-find_file_mapping fmaps m addr h)

-- The call has mapped `size` bytes of the file `fd` for the task `t`.
pub record IsMapped (top fd size : ℕ) (t t' : Task) (r : Option ℕ × Result) : Type 0 where
  pub told : r.0 ≡ some size
  pub success : r.1.error ≡ no_error
  pub aligned : r.1.value % 4096 ≡ 0
  pub room : r.1.value + size ≤ t.file_map_end
  pub tight : t.file_map_end < r.1.value + size + 4096
  pub descends : Descends top t'.file_maps t'.file_map_end
  pub here :
      (addr : ℕ)
      → r.1.value ≤ addr
      → addr < t.file_map_end
      → find_file_mapping t'.file_maps addr
        ≡ some (record { fd = pos fd; vaddr_begin = r.1.value; vaddr_end = t.file_map_end })
  pub elsewhere :
      (addr : ℕ)
      → t.file_map_end ≤ addr
      → find_file_mapping t'.file_maps addr ≡ find_file_mapping t.file_maps addr

-- The address of the mapping.
begin_lem :
    (top size : ℕ)
    → size ≤ top
    → top < 2 ^ 64
    → bit_and ((top + 2 ^ 64 - size) % 2 ^ 64) 0xfffffffffffff000 ≡ (top - size) / 4096 * 4096
begin_lem top size h l =
    let small : (top + 2 ^ 64 - size) % 2 ^ 64 ≡ top - size =
      ap (λ x. x % 2 ^ 64) (omega arith)
      ∙ add-mod_right (top - size) (2 ^ 64)
      ∙ mod-eq_of_lt (omega arith) in
    ap (λ x. bit_and x 0xfffffffffffff000) small
    ∙ bit_and-high 64 12 (top - size) (omega arith) (omega arith)

-- The mappings of a task stand one below the other, and the file fits below them. Then `MapFile` of
-- an open file tells its size, and returns a page-aligned address from which on the file fits below
-- the earlier mappings, with less than a page to spare. The mappings stand one below the other
-- again; `FindFileMapping` finds the new mapping for each address in it, and for each address above
-- what it found before.
pub map_file-IsMapped :
    {File : Type 0} (size : File → ℕ) (top : ℕ) (t : Task) (files : List (Option File)) (arg fd : ℕ)
    (f : File)
    → Descends top t.file_maps t.file_map_end
    → lookup files arg ≡ some (fd, f)
    → size f ≤ t.file_map_end
    → t.file_map_end < 2 ^ 64
    → IsMapped top fd (size f) t (map_file size t files arg).0 (map_file size t files arg).1
unfolding map_file
map_file-IsMapped size top t files arg fd f d found h l =
    let begin : ℕ = (t.file_map_end - size f) / 4096 * 4096 in
    let at = begin_lem t.file_map_end (size f) h l in
    rw (map_file, found, at)
      (record {
        told = refl;
        success = refl;
        aligned = omega arith;
        room = omega arith;
        tight = omega arith;
        descends = Descends-append top t.file_map_end begin fd t.file_maps d (omega arith);
        here = λ addr from to.
            find_file_mapping-first t.file_maps
              (record { fd = pos fd; vaddr_begin = begin; vaddr_end = t.file_map_end }) [] addr
              (below-IsOutside top t.file_map_end addr t.file_maps d to) from to;
        elsewhere = λ addr from.
            above-find_file_mapping t.file_maps
              (record { fd = pos fd; vaddr_begin = begin; vaddr_end = t.file_map_end }) addr from;
      })
