-- ===== src/Paging/Setup/Ends.antt =====
-- `SetupPageMaps` ends: the loops of all levels reach the last entry of a table or the last page.
use mikanos.Prelude.{
  ℕ, zero, suc, ◌+◌, ◌-◌, ◌^◌, ◌<◌, ◌≤◌, ◌≡◌, ◌≢◌, refl, ◌∙◌, Bool, true, Option, ◌==◌, arith,
  Bool-cases, inl, inr, Returns, Returns->>=, Returns-map,
}
use mikanos.Error.{WithError, is_error}
use mikanos.Memory.{BitmapMemoryManager, allocate, add_size, set_bits, mark_allocated, set_bit}
use mikanos.Memory.Allocate.{IsValid, FirstFit, found, no_room, allocate-FirstFit}
use mikanos.Paging.{Pages, set_entry, clear_frame, new_page_map}
use mikanos.Paging.Address.{part, set_part, set_part_lem}
use mikanos.Paging.Setup.{
  set_new_page_map_if_not_present, clear_parts, next_address, mark_entry, setup_entry, setup_loop,
  setup_page_map, setup_page_maps,
}

-- The entry index is below 512.
part-fits : (level addr : ℕ) → part (suc level) addr < 512
unfolding part
part-fits zero addr = omega arith
part-fits (suc zero) addr = omega arith
part-fits (suc (suc zero)) addr = omega arith
part-fits (suc (suc (suc zero))) addr = omega arith
part-fits (suc (suc (suc (suc level)))) addr = omega arith

clear_parts-above :
    (k l addr : ℕ)
    → k ≤ 4
    → k < l
    → addr < 2 ^ 64
    → (clear_parts k addr < 2 ^ 64) × (part l (clear_parts k addr) ≡ part l addr)
unfolding clear_parts
clear_parts-above zero l addr h p q = (q, refl)
clear_parts-above (suc k) l addr h p q =
    let one = set_part_lem (suc k) 0 addr h q in
    let rest =
      clear_parts-above k l (set_part (suc k) 0 addr) (omega arith) (omega arith) one.fits in
    (rest.0, rest.1 ∙ one.others l (omega arith))

-- The next address has the next index.
next_address-part :
    (level addr : ℕ)
    → level ≤ 3
    → addr < 2 ^ 64
    → part (suc level) addr ≢ 511
    → (next_address (suc level) addr < 2 ^ 64)
      × (part (suc level) (next_address (suc level) addr) ≡ part (suc level) addr + 1)
unfolding next_address
next_address-part level addr h p q =
    let i : ℕ = part (suc level) addr in
    let one = set_part_lem (suc level) (i + 1) addr (omega arith) p in
    let rest =
      clear_parts-above level (suc level) (set_part (suc level) (i + 1) addr) (omega arith)
        (omega arith) one.fits in
    let back : suc level - 1 ≡ level = omega arith in
    rw back (rest.0, rest.1 ∙ one.set ∙ omega (arith, part-fits level addr))

-- The manager is valid: what all these calls keep.
abbrev pub HasValid : Pages → Type 0
HasValid s = IsValid s.manager

set_bits-IsValid :
    (m : BitmapMemoryManager) (start i n : ℕ) (b : Bool)
    → IsValid m
    → IsValid (set_bits m start i n b)
unfolding set_bits set_bit
set_bits-IsValid m start i zero b k = k
set_bits-IsValid m start i (suc n) b k =
    set_bits-IsValid (set_bit m (add_size start i) b) start (i + 1) n b
      (record { begin_fits = k.begin_fits; end_fits = k.end_fits })

fit-HasValid :
    (s : Pages) (o : Option (BitmapMemoryManager × WithError ℕ))
    → FirstFit s.manager 1 o
    → allocate s.manager 1 ≡ o
    → HasValid s
    → Returns (new_page_map s) (λ r. HasValid r.0)
unfolding new_page_map clear_frame mark_allocated
fit-HasValid s o (found start a run b) e k = rw e (set_bits-IsValid s.manager start 0 1 true k)
fit-HasValid s o (no_room h) e k = rw e k

new_page_map-HasValid : (s : Pages) → HasValid s → Returns (new_page_map s) (λ r. HasValid r.0)
new_page_map-HasValid s k =
    fit-HasValid s (allocate s.manager 1) (allocate-FirstFit s.manager 1 k) refl k

set_new-HasValid :
    (s : Pages) (table i : ℕ)
    → HasValid s
    → Returns (set_new_page_map_if_not_present s table i) (λ r. HasValid r.0)
unfolding set_new_page_map_if_not_present set_entry
set_new-HasValid s table i k = elim (Bool-cases (s.tables table i).present) [
  | inl here ↦ rw here k
  | inr absent ↦ rw absent (
      Returns->>= (new_page_map s) _ (λ r. HasValid r.0) _ (new_page_map-HasValid s k)
        (λ r h. elim (Bool-cases (is_error r.1.error)) [
          | inl fails ↦ rw fails h
          | inr works ↦ rw works h
        ]))
]

-- The call for the level below is defined and keeps the manager valid.
abbrev IsTotal : (Pages → ℕ → ℕ → ℕ → Bool → Option (Pages × WithError ℕ)) → Type 0
IsTotal child =
    (s : Pages) (page_map addr n : ℕ) (writable : Bool)
    → addr < 2 ^ 64
    → HasValid s
    → Returns (child s page_map addr n writable) (λ r. HasValid r.0)

setup_entry-HasValid :
    (child : Pages → ℕ → ℕ → ℕ → Bool → Option (Pages × WithError ℕ)) (level : ℕ)
    → (level ≢ 1 → IsTotal child)
    → IsTotal (setup_entry child level)
unfolding setup_entry mark_entry set_entry
setup_entry-HasValid child level below s page_map addr n writable low k =
    Returns->>= (set_new_page_map_if_not_present s page_map (part level addr)) _ (λ r. HasValid r.0)
      _ (set_new-HasValid s page_map (part level addr) k)
      (λ r h. elim (Bool-cases (is_error r.1.error)) [
        | inl fails ↦ rw fails h
        | inr works ↦ elim (Bool-cases (level == 1)) [
          | inl last ↦ rw (works, last) h
          | inr upper ↦
              rw (works, upper)
                (Returns->>=
                  (child (mark_entry r.0 page_map (part level addr) true) r.1.value addr n writable)
                  _ (λ x. HasValid x.0) _
                  (below (ground arith) (mark_entry r.0 page_map (part level addr) true) r.1.value
                    addr n writable low h)
                  (λ x p. p))
        ]
      ])

setup_loop-HasValid :
    (child : Pages → ℕ → ℕ → ℕ → Bool → Option (Pages × WithError ℕ)) (level rounds : ℕ) (s : Pages)
    (page_map addr n : ℕ) (writable : Bool)
    → level ≤ 3
    → (suc level ≢ 1 → IsTotal child)
    → 513 ≤ rounds + part (suc level) addr
    → addr < 2 ^ 64
    → HasValid s
    → Returns (setup_loop child (suc level) rounds s page_map addr n writable) (λ r. HasValid r.0)
unfolding setup_loop
setup_loop-HasValid child level zero s page_map addr n writable h below fuel low k =
    absurd (omega (arith, part-fits level addr))
setup_loop-HasValid child level (suc rounds) s page_map addr n writable h below fuel low k =
    elim (Bool-cases (n == 0)) [
      | inl no_page ↦ rw no_page k
      | inr pages ↦ rw pages (
          Returns->>= (setup_entry child (suc level) s page_map addr n writable) _
            (λ r. HasValid r.0) _
            (setup_entry-HasValid child (suc level) below s page_map addr n writable low k)
            (λ r p. elim (Bool-cases (is_error r.1.error)) [
              | inl fails ↦ rw fails p
              | inr works ↦ elim (Bool-cases (part (suc level) addr == 511)) [
                | inl at_end ↦ rw (works, at_end) p
                | inr inside ↦
                    let next = next_address-part level addr h low (ground arith) in
                    rw (works, inside)
                      (setup_loop-HasValid child level rounds r.0 page_map
                        (next_address (suc level) addr) r.1.value writable h below
                        (omega (arith, next.1)) next.0 p)
              ]
            ]))
    ]

setup_page_map-IsTotal : (level : ℕ) → level ≤ 3 → IsTotal (setup_page_map (suc level))
unfolding setup_page_map
setup_page_map-IsTotal zero h s page_map addr n writable low k =
    setup_loop-HasValid (setup_page_map 0) 0 513 s page_map addr n writable h (λ e. absurd (e refl))
      (omega arith) low k
setup_page_map-IsTotal (suc level) h s page_map addr n writable low k =
    setup_loop-HasValid (setup_page_map (suc level)) (suc level) 513 s page_map addr n writable h
      (λ e. setup_page_map-IsTotal level (omega arith)) (omega arith) low k

-- With a valid memory manager `SetupPageMaps` of any number of pages from a 64-bit address on ends, and
-- leaves the manager valid.
pub setup_page_maps_lem :
    (s : Pages) (addr num_4kpages : ℕ) (writable : Bool)
    → addr < 2 ^ 64
    → IsValid s.manager
    → Returns (setup_page_maps s addr num_4kpages writable) (λ r. IsValid r.0.manager)
unfolding setup_page_maps
setup_page_maps_lem s addr n writable low k =
    Returns-map (setup_page_map 4 s s.cr3 addr n writable) _ (λ r. HasValid r.0) _
      (setup_page_map-IsTotal 3 (omega arith) s s.cr3 addr n writable low k) (λ r h. h)
