-- ===== src/Paging/Copy/OnWrite.antt =====
-- A page that is written for the first time gets a frame of its own.
use mathlib.Core.Option
use mikanos.Prelude.{
  suc, ◌/◌, ◌%◌, Option, some, ℕ, ◌^◌, ◌<◌, ◌≤◌, ◌≡◌, ◌≢◌, ◌&&◌, refl, sym, ◌∙◌, ap, subst, true,
  false, ◌==◌, ltb, if◌then◌else◌, Returns, Returns->>=, arith, ◌⊎◌, inl, inr,
}
use mikanos.Error.{Error, WithError, is_error}
use mikanos.Memory.{allocate, get_bit}
use mikanos.Memory.Allocate.{IsValid, allocate-FirstFit}
use mikanos.Paging.NewPage.{taken, IsNewPage, fit-IsNewPage, other_frame, taken-tables}
use mikanos.Paging.{PageMapEntry, Pages, data_of, byte_at, set_entry, clear_frame, new_page_map}
use mikanos.Paging.Address.{part}
use mikanos.Paging.Copy.{copy_bytes, set_page_content, frame_of, copy_one_page}

-- The tables that an address goes through, below the one at `cr3`, and its page.
abbrev pub table3 : Pages → ℕ → ℕ
table3 s addr = (s.tables s.cr3 (part 4 addr)).addr

abbrev pub table2 : Pages → ℕ → ℕ
table2 s addr = (s.tables (table3 s addr) (part 3 addr)).addr

abbrev pub table1 : Pages → ℕ → ℕ
table1 s addr = (s.tables (table2 s addr) (part 2 addr)).addr

abbrev pub page_of : Pages → ℕ → ℕ
page_of s addr = (s.tables (table1 s addr) (part 1 addr)).addr

-- An entry that leads to a table.
abbrev pub LeadsOn : PageMapEntry → Type 0
LeadsOn e = (e.present ≡ true) × (e.huge_page ≡ false)

-- Four tables lead to the page of an address, in frames that are in use, and the lowest is none of the
-- others.
pub record IsMapped (s : Pages) (addr : ℕ) : Type 0 where
  pub used4 : get_bit s.manager s.cr3 ≡ true
  pub used3 : get_bit s.manager (table3 s addr) ≡ true
  pub used2 : get_bit s.manager (table2 s addr) ≡ true
  pub used1 : get_bit s.manager (table1 s addr) ≡ true
  pub used : get_bit s.manager (page_of s addr) ≡ true
  pub leads4 : LeadsOn (s.tables s.cr3 (part 4 addr))
  pub leads3 : LeadsOn (s.tables (table3 s addr) (part 3 addr))
  pub leads2 : LeadsOn (s.tables (table2 s addr) (part 2 addr))
  pub present1 : (s.tables (table1 s addr) (part 1 addr)).present ≡ true
  pub apart4 : s.cr3 ≢ table1 s addr
  pub apart3 : table3 s addr ≢ table1 s addr
  pub apart2 : table2 s addr ≢ table1 s addr

-- The address has a new page of its own, that may be written and holds the bytes of the old one; of the
-- other frames nothing has changed but the entry of the page.
pub record IsCopied (s : Pages) (addr : ℕ) (r : Pages × Error) : Type 0 where
  pub success : r.1 ≡ Error.success
  pub frame : ℕ
  pub was_free : get_bit s.manager frame ≡ false
  pub mapped : frame_of 4 r.0 r.0.cr3 addr ≡ some frame
  pub writable : (r.0.tables (table1 s addr) (part 1 addr)).writable ≡ true
  pub copied : (j : ℕ) → j < 4096 → byte_at r.0 frame j ≡ byte_at s (page_of s addr) j
  pub other_bytes : (t j : ℕ) → t ≢ frame → t ≢ table1 s addr → byte_at r.0 t j ≡ byte_at s t j
  pub other_entries :
      (t j : ℕ)
      → t ≢ frame
      → (t ≢ table1 s addr) ⊎ (j ≢ part 1 addr)
      → r.0.tables t j ≡ s.tables t j

-- One table of the walk.
frame_of-table :
    (w : Pages) (level table addr : ℕ)
    → LeadsOn (w.tables table (part (suc level) addr))
    → frame_of (suc level) w table addr
      ≡ frame_of level w (w.tables table (part (suc level) addr)).addr addr
unfolding frame_of
frame_of-table w level table addr (here, small) = rw (here, small) refl

frame_of-leaf :
    (w : Pages) (table addr : ℕ)
    → (w.tables table (part 1 addr)).present ≡ true
    → frame_of 1 w table addr ≡ some (w.tables table (part 1 addr)).addr
unfolding frame_of
frame_of-leaf w table addr here = ground (arith, here)

module _ (s : Pages) (addr f : ℕ) (k : IsMapped s addr) (free : get_bit s.manager f ≡ false)
    (fits : f < 2 ^ 40) where
  not4 : s.cr3 ≢ f
  not4 = other_frame s.manager s.cr3 f k.used4 free

  not3 : table3 s addr ≢ f
  not3 = other_frame s.manager (table3 s addr) f k.used3 free

  not2 : table2 s addr ≢ f
  not2 = other_frame s.manager (table2 s addr) f k.used2 free

  not1 : table1 s addr ≢ f
  not1 = other_frame s.manager (table1 s addr) f k.used1 free

  -- The walk of the processor, where the three upper tables are as in `s`.
  frame_of-upper :
      (w : Pages)
      → w.cr3 ≡ s.cr3
      → w.tables s.cr3 (part 4 addr) ≡ s.tables s.cr3 (part 4 addr)
      → w.tables (table3 s addr) (part 3 addr) ≡ s.tables (table3 s addr) (part 3 addr)
      → w.tables (table2 s addr) (part 2 addr) ≡ s.tables (table2 s addr) (part 2 addr)
      → (w.tables (table1 s addr) (part 1 addr)).present ≡ true
      → frame_of 4 w w.cr3 addr ≡ some (w.tables (table1 s addr) (part 1 addr)).addr
  frame_of-upper w top a b c here =
      ap (λ t. frame_of 4 w t addr) top
      ∙ frame_of-table w 3 s.cr3 addr (subst LeadsOn (sym a) k.leads4)
      ∙ ap (λ e. frame_of 3 w e.addr addr) a
      ∙ frame_of-table w 2 (table3 s addr) addr (subst LeadsOn (sym b) k.leads3)
      ∙ ap (λ e. frame_of 2 w e.addr addr) b
      ∙ frame_of-table w 1 (table2 s addr) addr (subst LeadsOn (sym c) k.leads2)
      ∙ ap (λ e. frame_of 1 w e.addr addr) c
      ∙ frame_of-leaf w (table1 s addr) addr here

  set_page_content-upper :
      (w : Pages)
      → w.cr3 ≡ s.cr3
      → w.tables s.cr3 (part 4 addr) ≡ s.tables s.cr3 (part 4 addr)
      → w.tables (table3 s addr) (part 3 addr) ≡ s.tables (table3 s addr) (part 3 addr)
      → w.tables (table2 s addr) (part 2 addr) ≡ s.tables (table2 s addr) (part 2 addr)
      → set_page_content 4 w w.cr3 addr f ≡ set_page_content 1 w (table1 s addr) addr f
  unfolding set_page_content
  set_page_content-upper w top a b c = rw (top, a) (rw b (rw c refl))

  -- The copy, from the frame that the old page is in.
  abbrev filled : ℕ → Pages
  filled page = copy_bytes (taken s f).0 f page

  filled-tables : (page t j : ℕ) → t ≢ f → (filled page).tables t j ≡ s.tables t j
  unfolding copy_bytes
  filled-tables page t j h =
      let other : (t == f && ltb j 512) ≡ false = ground arith in rw other (taken-tables s f t j h)

  -- The words of the copy.
  filled-copied : (page j : ℕ) → page ≢ f → j < 512 → (filled page).tables f j ≡ s.tables page j
  unfolding copy_bytes
  filled-copied page j h l =
      let inside : (f == f && ltb j 512) ≡ true = ground arith in
      rw inside (taken-tables s f page j h)

  filled-cr3 : (page : ℕ) → (filled page).cr3 ≡ s.cr3
  unfolding copy_bytes taken clear_frame
  filled-cr3 page = refl

  abbrev final : Pages
  final = set_page_content 1 (filled (page_of s addr)) (table1 s addr) addr f

  final-tables :
      (t j : ℕ) → t ≢ f → (t ≢ table1 s addr) ⊎ (j ≢ part 1 addr) → final.tables t j ≡ s.tables t j
  unfolding set_page_content set_entry
  final-tables t j h apart =
      let elsewhere : (t == table1 s addr && j == part 1 addr) ≡ false = ground (arith, apart) in
      rw elsewhere (filled-tables (page_of s addr) t j h)

  final-leaf :
      ((final.tables (table1 s addr) (part 1 addr)).addr ≡ f)
      × ((final.tables (table1 s addr) (part 1 addr)).writable ≡ true)
      × ((final.tables (table1 s addr) (part 1 addr)).present ≡ true)
  unfolding set_page_content set_entry
  final-leaf =
      let here : (table1 s addr == table1 s addr && part 1 addr == part 1 addr) ≡ true =
        ground arith in
      rw here (
        omega (arith, fits),
        refl,
        ap (λ e. e.present) (filled-tables (page_of s addr) (table1 s addr) (part 1 addr) not1)
            ∙ k.present1,
      )

  final-cr3 : final.cr3 ≡ s.cr3
  unfolding set_page_content set_entry copy_bytes taken clear_frame
  final-cr3 = refl

  -- The words of the new page; the entry is in another frame.
  final-copied : (j : ℕ) → j < 512 → final.tables f j ≡ s.tables (page_of s addr) j
  unfolding set_page_content set_entry
  final-copied j h =
      let elsewhere : (f == table1 s addr && j == part 1 addr) ≡ false = ground (arith, not1) in
      rw elsewhere
        (filled-copied (page_of s addr) j (other_frame s.manager (page_of s addr) f k.used free) h)

  final-IsCopied : IsCopied s addr (final, Error.success)
  final-IsCopied = record {
    success = refl;
    frame = f;
    was_free = free;
    mapped =
        frame_of-upper final final-cr3 (final-tables s.cr3 (part 4 addr) not4 (inl k.apart4))
          (final-tables (table3 s addr) (part 3 addr) not3 (inl k.apart3))
          (final-tables (table2 s addr) (part 2 addr) not2 (inl k.apart2)) final-leaf.2
        ∙ ap some final-leaf.0;
    writable = final-leaf.1;
    copied = λ j h. ap (λ e. data_of e / 256 ^ (j % 8) % 256) (final-copied (j / 8) (omega arith));
    other_bytes = λ t j h apart.
        ap (λ e. data_of e / 256 ^ (j % 8) % 256) (final-tables t (j / 8) h (inl apart));
    other_entries = final-tables;
  }

  taken-cr3 : (taken s f).0.cr3 ≡ s.cr3
  unfolding taken clear_frame
  taken-cr3 = refl

  old_page : frame_of 4 (taken s f).0 (taken s f).0.cr3 addr ≡ some (page_of s addr)
  old_page =
      frame_of-upper (taken s f).0 taken-cr3 (taken-tables s f s.cr3 (part 4 addr) not4)
        (taken-tables s f (table3 s addr) (part 3 addr) not3)
        (taken-tables s f (table2 s addr) (part 2 addr) not2)
        (ap (λ e. e.present) (taken-tables s f (table1 s addr) (part 1 addr) not1) ∙ k.present1)
      ∙ ap (λ e. some e.addr) (taken-tables s f (table1 s addr) (part 1 addr) not1)

  -- What `CopyOnePage` computes from there.
  final-same :
      Option.map {B = Pages × Error}
        (λ src. (set_page_content 4 (filled src) (taken s f).0.cr3 addr f, Error.success))
        (frame_of 4 (taken s f).0 (taken s f).0.cr3 addr)
      ≡ some (final, Error.success)
  unfolding copy_bytes
  final-same =
      ap
        (Option.map {B = Pages × Error}
          (λ src. (set_page_content 4 (filled src) (taken s f).0.cr3 addr f, Error.success)))
        old_page
      ∙ ap (λ w. some (w, Error.success))
          (set_page_content-upper (filled (page_of s addr)) (filled-cr3 (page_of s addr))
            (filled-tables (page_of s addr) s.cr3 (part 4 addr) not4)
            (filled-tables (page_of s addr) (table3 s addr) (part 3 addr) not3)
            (filled-tables (page_of s addr) (table2 s addr) (part 2 addr) not2))

-- The end of `CopyOnePage`, behind the call of `NewPageMap`.
abbrev copy_end : ℕ → Pages × WithError ℕ → Option (Pages × Error)
copy_end addr (s₁, page) =
    let copied =
      Option.map
        (λ src.
          (set_page_content 4 (copy_bytes s₁ page.value src) s₁.cr3 addr page.value, Error.success))
        (frame_of 4 s₁ s₁.cr3 addr) in
    if is_error page.error then some (s₁, page.error) else copied

-- How `CopyOnePage` ends.
abbrev IsDone : Pages → ℕ → Pages × Error → Type 0
IsDone s addr r = (r ≡ (s, Error.no_enough_memory)) ⊎ IsCopied s addr r

copy_end_lem :
    (s : Pages) (addr : ℕ) (r : Pages × WithError ℕ)
    → s.manager.range_end ≤ 2 ^ 40
    → IsMapped s addr
    → IsNewPage s r
    → Returns (copy_end addr r) (IsDone s addr)
unfolding IsNewPage
copy_end_lem s addr r small k (inl e) =
    subst (λ x. Returns (copy_end addr x) (IsDone s addr)) (sym e) (inl refl)
copy_end_lem s addr r small k (inr (f, free, low, e)) =
    let fits : f < 2 ^ 40 = omega arith in
    subst (λ x. Returns (copy_end addr x) (IsDone s addr)) (sym e)
      (subst (λ x. Returns x (IsDone s addr)) (sym (final-same s addr f k free fits))
        (inr (final-IsCopied s addr f k free fits)))

-- `CopyOnePage` for an address that four tables lead to a page for, in frames that are in use and the
-- lowest table apart from the others, with a valid memory manager of frames below 2^40, is defined; the
-- four entries on the way are present, and the upper three have no huge page. If no frame is left it fails
-- and changes nothing. Otherwise the address has a frame that was free, may be written, and holds the bytes
-- of the old page. Of the other frames only the entry of that page has changed, and so no byte of a
-- frame but that of the lowest table.
pub copy_one_page_lem :
    (s : Pages) (addr : ℕ)
    → IsValid s.manager
    → s.manager.range_end ≤ 2 ^ 40
    → IsMapped s addr
    → Returns (copy_one_page s addr) (λ r. (r ≡ (s, Error.no_enough_memory)) ⊎ IsCopied s addr r)
unfolding copy_one_page
copy_one_page_lem s addr valid small k =
    Returns->>= (new_page_map s) _ (IsNewPage s) _
      (fit-IsNewPage s (allocate s.manager 1) (allocate-FirstFit s.manager 1 valid) refl)
      (λ r h. copy_end_lem s addr r small k h)
