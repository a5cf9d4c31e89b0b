-- ===== src/Paging/Setup.antt =====
-- `SetNewPageMapIfNotPresent`, `SetupPageMap` and `SetupPageMaps` of src/kernel/paging.cpp.
pub mod Ends
use mathlib.Core.Option
use mikanos.Prelude.{
  ℕ, zero, suc, ◌+◌, ◌-◌, Bool, true, Option, none, some, ◌==◌, if◌then◌else◌, ◌>>=◌,
}
use mikanos.Error.{Error, WithError, is_error}
use mikanos.Paging.{Pages, set_pointer, set_entry, null_map, new_page_map}
use mikanos.Paging.Address.{part, set_part}

unfoldable pub set_new_page_map_if_not_present : Pages → ℕ → ℕ → Option (Pages × WithError ℕ)
unfolding set_entry new_page_map
set_new_page_map_if_not_present s table i =
    let entry = s.tables table i in
    if entry.present then some (s, record { value = entry.addr; error = Error.success }) else (do
      (s', child) ← new_page_map s
      if is_error child.error
          then some (s', record { value = null_map; error = child.error })
          else some (
            set_entry s' table i
                (record (set_pointer (s'.tables table i) child.value) { present = true }),
            child,
          ))

-- The fields of the levels below are set to 0.
unfoldable pub clear_parts : ℕ → ℕ → ℕ
unfolding set_part
clear_parts zero addr = addr
clear_parts (suc level) addr = clear_parts level (set_part (suc level) 0 addr)

-- The next page map entry of a level.
unfoldable pub next_address : ℕ → ℕ → ℕ
unfolding part set_part clear_parts
next_address level addr = clear_parts (level - 1) (set_part level (part level addr + 1) addr)

-- `page_map[entry_index].bits.user = 1`, and a value of `bits.writable`.
abbrev pub mark_entry : Pages → ℕ → ℕ → Bool → Pages
unfolding set_entry
mark_entry s table i writable =
    set_entry s table i (record (s.tables table i) { user = true; writable = writable })

-- A round of the loop at this level up to `if (entry_index == 511)`: the number of pages left, and an
-- error. `child` is the call for the level below.
unfoldable pub setup_entry :
    (Pages → ℕ → ℕ → ℕ → Bool → Option (Pages × WithError ℕ))
    → ℕ
    → Pages
    → ℕ
    → ℕ
    → ℕ
    → Bool
    → Option (Pages × WithError ℕ)
unfolding set_new_page_map_if_not_present part mark_entry
setup_entry child level s page_map addr num_4kpages writable = do
  (s₁, child_map) ← set_new_page_map_if_not_present s page_map (part level addr)
  let i = part level addr
  if is_error child_map.error
      then some (s₁, record { value = num_4kpages; error = child_map.error })
      else if level == 1
      then some (
        mark_entry s₁ page_map i writable,
        record { value = num_4kpages - 1; error = Error.success },
      )
      else (do
        (s₂, remain) ←
            child (mark_entry s₁ page_map i true) child_map.value addr num_4kpages writable
        some (s₂, if is_error remain.error then record remain { value = num_4kpages } else remain))

-- The loop of `SetupPageMap` at this level; each round goes to the next of 512 entries.
unfoldable pub setup_loop :
    (Pages → ℕ → ℕ → ℕ → Bool → Option (Pages × WithError ℕ))
    → ℕ
    → ℕ
    → Pages
    → ℕ
    → ℕ
    → ℕ
    → Bool
    → Option (Pages × WithError ℕ)
unfolding setup_entry next_address part
setup_loop child level zero s page_map addr num_4kpages writable = none
setup_loop child level (suc rounds) s page_map addr num_4kpages writable =
    if num_4kpages == 0
    then some (s, record { value = num_4kpages; error = Error.success })
    else (setup_entry child level s page_map addr num_4kpages writable >>= λ r.
        if is_error r.1.error
        then some r
        else if part level addr == 511
        then some r
        else setup_loop child level rounds r.0 page_map (next_address level addr) r.1.value
            writable)

-- `SetupPageMap`
unfoldable pub setup_page_map : ℕ → Pages → ℕ → ℕ → ℕ → Bool → Option (Pages × WithError ℕ)
unfolding setup_loop
setup_page_map zero s page_map addr num_4kpages writable = none
setup_page_map (suc level) s page_map addr num_4kpages writable =
    setup_loop (λ t m a n w. setup_page_map level t m a n w) (suc level) 513 s page_map addr
      num_4kpages writable

-- `SetupPageMaps`
unfoldable pub setup_page_maps : Pages → ℕ → ℕ → Bool → Option (Pages × Error)
unfolding setup_page_map
setup_page_maps s addr num_4kpages writable =
    Option.map (λ r. (r.0, r.1.error)) (setup_page_map 4 s s.cr3 addr num_4kpages writable)
