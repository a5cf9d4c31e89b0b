-- ===== src/Paging/Fault.antt =====
-- `HandlePageFault` of src/kernel/paging.cpp. `Load` of the file descriptor that a mapping names is a
-- parameter: the bytes that it gives for a length and an offset.
pub mod Answer
pub mod Present
use mathlib.Core.Option
use mikanos.Prelude.{
  ℕ, zero, suc, ◌+◌, ◌-◌, ◌*◌, ◌/◌, ◌%◌, ◌^◌, ◌&&◌, not, Bool, true, false, Option, none, some,
  List, [], ◌∷◌, ◌==◌, leb, ltb, if◌then◌else◌, ◌>>=◌, length, get_or, ◌<◌, ◌≤◌, ◌≡◌, refl, arith,
  All, bit_and, ◌⊎◌, inl, inr,
}
use mikanos.Error.{Error, is_error}
use mikanos.Task.State.{Task, FileMapping}
use mikanos.Paging.{Pages, entry_of, byte_at}
use mikanos.Paging.Address.{set_part}
use mikanos.Paging.Setup.{setup_page_maps}
use mikanos.Paging.Copy.{copy_one_page, frame_of}
use mikanos.Prelude.Int.{ℤ}

-- `FindFileMapping`
unfoldable pub find_file_mapping : List FileMapping → ℕ → Option FileMapping
find_file_mapping [] causal_vaddr = none
find_file_mapping (m ∷ fmaps) causal_vaddr =
    let rest = find_file_mapping fmaps causal_vaddr in
    if leb m.vaddr_begin causal_vaddr && ltb causal_vaddr m.vaddr_end then some m else rest

-- The word with `k` bytes that `bytes` gives, from index `i` on
abbrev pub word_of : ℕ → (ℕ → ℕ) → ℕ → ℕ
word_of zero bytes i = 0
word_of (suc k) bytes i = bytes i % 256 + 256 * word_of k bytes (i + 1)

-- The first bytes of a frame are replaced.
unfoldable pub store_bytes : Pages → ℕ → List ℕ → Pages
unfolding entry_of
store_bytes s frame content =
    let stored : ℕ → ℕ =
      λ i. if ltb i (length content) then get_or content i 0 else byte_at s frame i in
    record s {
      tables = λ t j.
          if t == frame && ltb (8 * j) (length content)
          then entry_of (word_of 8 stored (8 * j))
          else s.tables t j;
    }

module _ (load : ℤ → ℕ → ℕ → List ℕ) where
  -- `PreparePageCache`; `none` is a page fault at the address that it writes to.
  unfoldable pub prepare_page_cache : Pages → FileMapping → ℕ → Option (Pages × Error)
  unfolding setup_page_maps store_bytes set_part frame_of
  prepare_page_cache s m causal_vaddr = do
    let page_vaddr = set_part 0 0 causal_vaddr
    (s₁, err) ← setup_page_maps s page_vaddr 1 true
    let file_offset = (page_vaddr + 2 ^ 64 - m.vaddr_begin) % 2 ^ 64
    let filled =
        Option.map (λ frame. (store_bytes s₁ frame (load m.fd 4096 file_offset), Error.success))
          (frame_of 4 s₁ s₁.cr3 page_vaddr)
    if is_error err then some (s₁, err) else filled

  -- `HandlePageFault`; the task is the current one.
  unfoldable pub handle_page_fault : Task → Pages → ℕ → ℕ → Option (Pages × Error)
  unfolding find_file_mapping prepare_page_cache copy_one_page setup_page_maps
  handle_page_fault task s error_code causal_addr =
      let present = error_code % 2 == 1 in
      let rw = error_code / 2 % 2 == 1 in
      let user = error_code / 4 % 2 == 1 in
      if present && (rw && user)
      then copy_one_page s causal_addr
      else if present
      then some (s, Error.already_allocated)
      else if leb task.dpaging_begin causal_addr && ltb causal_addr task.dpaging_end
      then setup_page_maps s causal_addr 1 true
      else elim (find_file_mapping task.file_maps causal_addr) [
        | some m ↦ prepare_page_cache s m causal_addr
        | none ↦ some (s, Error.index_out_of_range)
      ]
