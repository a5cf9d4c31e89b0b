-- ===== src/Paging/Fault/Present.antt =====
-- `HandlePageFault` at a page that is present.
use mikanos.Prelude.{
  ℕ, ◌%◌, ◌^◌, List, some, ◌≤◌, ◌≡◌, ◌≢◌, subst, sym, Returns, arith, ◌⊎◌, inl, inr,
}
use mikanos.Prelude.Int.{ℤ}
use mikanos.Error.{Error}
use mikanos.Memory.Allocate.{IsValid}
use mikanos.Task.State.{Task}
use mikanos.Paging.{Pages}
use mikanos.Paging.Copy.OnWrite.{IsMapped, IsCopied, copy_one_page_lem}
use mikanos.Paging.Fault.{handle_page_fault}
use mikanos.Paging.Fault.Answer.{first_write, forbidden, handle_page_fault_lem}

-- `HandlePageFault` for an address that four tables lead to a page for, as in `CopyOnePage`, and an
-- error code that says that the page is present. If the program has written, either no frame is left
-- and the state is as before, or the address has a frame that was free, may be written, and holds the
-- bytes of the old page. Any other access fails with `kAlreadyAllocated`, and the state is as before.
pub handle_page_fault_present :
    (load : ℤ → ℕ → ℕ → List ℕ) (task : Task) (s : Pages) (code addr : ℕ)
    → IsValid s.manager
    → s.manager.range_end ≤ 2 ^ 40
    → IsMapped s addr
    → code % 2 ≡ 1
    → ((code % 8 ≡ 7)
        × Returns
            (handle_page_fault load task s code addr)
            (λ r. (r ≡ (s, Error.no_enough_memory)) ⊎ IsCopied s addr r))
      ⊎ ((code % 8 ≢ 7)
          × (handle_page_fault load task s code addr ≡ some (s, Error.already_allocated)))
handle_page_fault_present load task s code addr valid small k present = elim (decide code) [
  | inl h ↦ inl (
    h,
    subst (λ x. Returns x (λ r. (r ≡ (s, Error.no_enough_memory)) ⊎ IsCopied s addr r))
        (sym (handle_page_fault_lem load task s code addr (first_write h)))
        (copy_one_page_lem s addr valid small k),
  )
  | inr h ↦ inr (h, handle_page_fault_lem load task s code addr (forbidden present h))
]
  where
    decide : (c : ℕ) → (c % 8 ≡ 7) ⊎ (c % 8 ≢ 7)
    decide c = omega arith
