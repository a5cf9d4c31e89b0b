-- ===== src/Paging/Copy.antt =====
-- `CopyPageMaps`, `SetPageContent` and `CopyOnePage` of src/kernel/paging.cpp.
pub mod OnWrite
pub mod Leaves
pub mod First
use mathlib.Core.Option
use mikanos.Prelude.{
  ℕ, zero, suc, ◌+◌, ◌-◌, ◌*◌, ◌/◌, ◌%◌, ◌^◌, ◌&&◌, ◌||◌, not, Bool, true, false, Option, none,
  some, ◌==◌, ltb, if◌then◌else◌, ◌>>=◌,
}
use mikanos.Error.{Error, WithError, is_error}
use mikanos.Paging.{PageMapEntry, Pages, set_pointer, set_entry, new_page_map}
use mikanos.Paging.Address.{part}

-- The loop for level 1: an entry that is present is copied, and may not be written there.
unfoldable pub copy_leaves : ℕ → Pages → ℕ → ℕ → ℕ → Pages
unfolding set_entry
copy_leaves zero s dest src i = s
copy_leaves (suc rounds) s dest src i =
    let entry = s.tables src i in
    copy_leaves rounds
      (if entry.present then set_entry s dest i (record entry { writable = false }) else s) dest src
      (i + 1)

-- The loop for the levels above, which returns after the first entry that is present. `none`: there is
-- none, and the function ends without a value.
unfoldable pub copy_first :
    (Pages → ℕ → ℕ → Option (Pages × Error)) → ℕ → Pages → ℕ → ℕ → ℕ → Option (Pages × Error)
unfolding set_entry new_page_map
copy_first child zero s dest src i = none
copy_first child (suc rounds) s dest src i =
    if (s.tables src i).present
    then (do
      (s₁, table) ← new_page_map s
      if is_error table.error
          then some (s₁, table.error)
          else (let s₂ = set_entry s₁ dest i (set_pointer (s₁.tables src i) table.value) in
              child s₂ table.value (s₂.tables src i).addr))
    else copy_first child rounds s dest src (i + 1)

-- `CopyPageMaps`
unfoldable pub copy_page_maps : ℕ → Pages → ℕ → ℕ → ℕ → Option (Pages × Error)
unfolding copy_leaves copy_first
copy_page_maps zero s dest src start = none
copy_page_maps (suc zero) s dest src start =
    some (copy_leaves (512 - start) s dest src start, Error.success)
copy_page_maps (suc (suc level)) s dest src start =
    copy_first (λ t d m. copy_page_maps (suc level) t d m 0) (512 - start) s dest src start

-- `SetPageContent`; the processor's cache of addresses is not modelled.
unfoldable pub set_page_content : ℕ → Pages → ℕ → ℕ → ℕ → Pages
unfolding set_entry part
set_page_content zero s table addr content = s
set_page_content (suc zero) s table addr content =
    let i = part 1 addr in
    set_entry s table i (record (set_pointer (s.tables table i) content) { writable = true })
set_page_content (suc (suc level)) s table addr content =
    set_page_content (suc level) s (s.tables table (part (suc (suc level)) addr)).addr addr content

-- The frame that the processor finds for an address through the tables, from a level on; `none` is a
-- page fault. A huge page of level 2 or 3 has 512 or 512 * 512 frames; of level 4 there is none.
unfoldable pub frame_of : ℕ → Pages → ℕ → ℕ → Option ℕ
unfolding part
frame_of zero s frame addr = some frame
frame_of (suc level) s table addr =
    let entry = s.tables table (part (suc level) addr) in
    let below = frame_of level s entry.addr addr in
    if not entry.present || (entry.huge_page && level == 3)
    then none
    else if entry.huge_page && ltb 0 level
    then some (entry.addr / 512 ^ level * 512 ^ level + addr / 4096 % 512 ^ level)
    else below

-- `memcpy` of a page, from the start of a frame to the start of another
unfoldable pub copy_bytes : Pages → ℕ → ℕ → Pages
copy_bytes s dest src = record s {
  tables = λ t j. if t == dest && ltb j 512 then s.tables src j else s.tables t j;
}

-- `CopyOnePage`; `none` is a page fault at the address that it reads from.
unfoldable pub copy_one_page : Pages → ℕ → Option (Pages × Error)
unfolding new_page_map copy_bytes frame_of set_page_content
copy_one_page s causal_addr = do
  (s₁, page) ← new_page_map s
  let copied =
      Option.map
        (λ src. (
          set_page_content 4 (copy_bytes s₁ page.value src) s₁.cr3 causal_addr page.value,
          Error.success,
        ))
        (frame_of 4 s₁ s₁.cr3 causal_addr)
  if is_error page.error then some (s₁, page.error) else copied
