-- ===== src/Paging/NewPage.antt =====
-- `NewPageMap` of src/kernel/paging.cpp takes a frame that was free.
use mikanos.Prelude.{
  ℕ, ◌<◌, ◌≡◌, ◌≢◌, refl, sym, ◌∙◌, ap, true, false, Option, ◌==◌, Returns, arith, ◌⊎◌, inl, inr,
}
use mathlib.Core.Bool.{true≢false}
use mikanos.Error.{Error, WithError}
use mikanos.Memory.{BitmapMemoryManager, allocate, get_bit, mark_allocated}
use mikanos.Memory.Allocate.{FirstFit, found, no_room}
use mikanos.Paging.{Pages, clear_frame, null_map, new_page_map}

-- A free frame has been taken and cleared.
unfoldable pub taken : Pages → ℕ → Pages × WithError ℕ
unfolding clear_frame
taken s f = (
  clear_frame (record s { manager = mark_allocated s.manager f 1 }) f,
  record { value = f; error = Error.success },
)

-- How a call of `NewPageMap` ends: nothing is left, or a free frame is taken.
unfoldable pub IsNewPage : Pages → Pages × WithError ℕ → Type 0
unfolding taken
IsNewPage s r =
    (r ≡ (s, record { value = null_map; error = Error.no_enough_memory }))
    ⊎ ((f : ℕ) × (get_bit s.manager f ≡ false) × (f < s.manager.range_end) × (r ≡ taken s f))

pub fit-IsNewPage :
    (s : Pages) (o : Option (BitmapMemoryManager × WithError ℕ))
    → FirstFit s.manager 1 o
    → allocate s.manager 1 ≡ o
    → Returns (new_page_map s) (IsNewPage s)
unfolding new_page_map IsNewPage taken
fit-IsNewPage s o (found start a run b) e = rw e (
    inr (
      start,
      (run start (omega arith) (omega arith)).0,
      (run start (omega arith) (omega arith)).1,
      refl,
    ))
fit-IsNewPage s o (no_room h) e = rw e (inl refl)

pub other_frame :
    (m : BitmapMemoryManager) (t f : ℕ) → get_bit m t ≡ true → get_bit m f ≡ false → t ≢ f
other_frame m t f used free e = true≢false (sym used ∙ ap (get_bit m) e ∙ free)

-- A table other than the taken frame stays as it is.
pub taken-tables : (s : Pages) (f t j : ℕ) → t ≢ f → (taken s f).0.tables t j ≡ s.tables t j
unfolding taken clear_frame
taken-tables s f t j h = let other : (t == f) ≡ false = ground arith in rw other refl
