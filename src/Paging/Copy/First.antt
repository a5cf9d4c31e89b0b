-- ===== src/Paging/Copy/First.antt =====
-- `CopyPageMaps` above the lowest level goes no further than the first entry that is present.
use mikanos.Prelude.{
  ℕ, zero, suc, ◌+◌, ◌<◌, ◌≤◌, ◌≡◌, ◌≢◌, ◌&&◌, refl, sym, ◌∙◌, ap, subst, true, false, Option, some,
  ◌==◌, if◌then◌else◌, arith, Bool-cases, inl, inr, Returns, Returns->>=, Returns_mono,
}
use mikanos.Error.{Error, WithError, is_error}
use mikanos.Memory.{get_bit, allocate}
use mikanos.Memory.Allocate.{IsValid, allocate-FirstFit}
use mikanos.Paging.{Pages, set_pointer, set_entry, new_page_map}
use mikanos.Paging.Copy.{copy_first, copy_page_maps}
use mikanos.Paging.NewPage.{taken, IsNewPage, fit-IsNewPage, other_frame, taken-tables}
use mikanos.Paging.Copy.Leaves.{copy_page_maps_lem}

-- The table at `dest` keeps its entries but the one at `i`.
abbrev KeepsOthers : Pages → ℕ → ℕ → Pages × Error → Type 0
KeepsOthers s dest i r = (j : ℕ) → j ≢ i → r.0.tables dest j ≡ s.tables dest j

module _ (s : Pages) (dest src i : ℕ) (valid : IsValid s.manager) (apart : dest ≢ src)
    (dest_used : get_bit s.manager dest ≡ true) (src_used : get_bit s.manager src ≡ true)
    (child_used : get_bit s.manager (s.tables src i).addr ≡ true) where
  -- What follows `NewPageMap`.
  abbrev rest : Pages × WithError ℕ → Option (Pages × Error)
  rest (s₁, table) =
      if is_error table.error
      then some (s₁, table.error)
      else (let s₂ = set_entry s₁ dest i (set_pointer (s₁.tables src i) table.value) in
          copy_page_maps 1 s₂ table.value (s₂.tables src i).addr 0)

  rest-taken :
      (f : ℕ) → get_bit s.manager f ≡ false → Returns (rest (taken s f)) (KeepsOthers s dest i)
  unfolding taken set_entry
  rest-taken f free =
      let s₂ : Pages =
        set_entry (taken s f).0 dest i (set_pointer ((taken s f).0.tables src i) f) in
      let dest_other : dest ≢ f = other_frame s.manager dest f dest_used free in
      let src_other : src ≢ f = other_frame s.manager src f src_used free in
      let elsewhere : (src == dest && i == i) ≡ false = ground (arith, apart) in
      let below : (s₂.tables src i).addr ≡ (s.tables src i).addr =
        rw elsewhere (ap (λ e. e.addr) (taken-tables s f src i src_other)) in
      let child_other : f ≢ (s₂.tables src i).addr =
        λ e. other_frame s.manager (s.tables src i).addr f child_used free (sym (e ∙ below)) in
      Returns_mono (copy_page_maps 1 s₂ f (s₂.tables src i).addr 0) _ (KeepsOthers s dest i)
        (λ r h j d.
          let skipped : (dest == dest && j == i) ≡ false = ground arith in
          h.1.others dest j (inl dest_other) ∙ rw skipped (taken-tables s f dest j dest_other))
        (copy_page_maps_lem s₂ f (s₂.tables src i).addr 0 child_other (omega arith))

  rest-IsNewPage :
      (r : Pages × WithError ℕ) → IsNewPage s r → Returns (rest r) (KeepsOthers s dest i)
  unfolding IsNewPage
  rest-IsNewPage r (inl e) =
      subst (λ x. Returns (rest x) (KeepsOthers s dest i)) (sym e) (λ j d. refl)
  rest-IsNewPage r (inr (f, free, low, e)) =
      subst (λ x. Returns (rest x) (KeepsOthers s dest i)) (sym e) (rest-taken f free)

  copy_first-KeepsOthers :
      (rounds k : ℕ)
      → k ≤ i
      → i < k + rounds
      → ((j : ℕ) → j < i → (s.tables src j).present ≡ false)
      → (s.tables src i).present ≡ true
      → Returns
          (copy_first (λ t d m. copy_page_maps 1 t d m 0) rounds s dest src k)
          (KeepsOthers s dest i)
  unfolding copy_first
  copy_first-KeepsOthers zero k h l absent here = absurd (omega arith)
  copy_first-KeepsOthers (suc rounds) k h l absent here = elim (Bool-cases (k == i)) [
    | inl same ↦
        let at : k ≡ i = ground arith in
        rw (at, here)
          (Returns->>= (new_page_map s) _ (IsNewPage s) (KeepsOthers s dest i)
            (fit-IsNewPage s (allocate s.manager 1) (allocate-FirstFit s.manager 1 valid) refl)
            rest-IsNewPage)
    | inr later ↦
        rw (absent k (ground arith))
          (copy_first-KeepsOthers rounds (k + 1) (ground arith) (omega arith) absent here)
  ]

-- `CopyPageMaps` of level 2 from the first entry on, with a valid memory manager, into another table,
-- where both tables and the one below the first entry that is present are in frames in use, is defined.
-- It changes no entry of the table that it copies to but that one, also where later entries are present.
pub copy_page_maps_first :
    (s : Pages) (dest src i : ℕ)
    → IsValid s.manager
    → dest ≢ src
    → get_bit s.manager dest ≡ true
    → get_bit s.manager src ≡ true
    → get_bit s.manager (s.tables src i).addr ≡ true
    → i < 512
    → ((j : ℕ) → j < i → (s.tables src j).present ≡ false)
    → (s.tables src i).present ≡ true
    → Returns
        (copy_page_maps 2 s dest src 0)
        (λ r. (j : ℕ) → j ≢ i → r.0.tables dest j ≡ s.tables dest j)
unfolding copy_page_maps
copy_page_maps_first s dest src i valid apart d u c fits absent here =
    copy_first-KeepsOthers s dest src i valid apart d u c 512 0 (omega arith) (omega arith) absent
      here
