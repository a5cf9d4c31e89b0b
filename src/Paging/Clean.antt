-- ===== src/Paging/Clean.antt =====
-- `CleanPageMap` and `CleanPageMaps` of src/kernel/paging.cpp.
use mikanos.Prelude.{ℕ, zero, suc, ◌+◌, ◌-◌, leb, ◌&&◌, if◌then◌else◌}
use mikanos.Error.{Error, is_error}
use mikanos.Paging.{PageMapEntry, Pages, empty_entry, set_entry, free_page_map}
use mikanos.Paging.Address.{part}

-- The end of a round for an entry that is present: a frame that may be written is freed, then the entry
-- is cleared.
unfoldable pub clean_entry : Pages → ℕ → ℕ → PageMapEntry → Pages × Error
unfolding set_entry free_page_map
clean_entry s page_map i entry =
    let freed = free_page_map s entry.addr in
    if entry.writable
    then if is_error freed.1
      then freed
      else (set_entry freed.0 page_map i empty_entry, Error.success)
    else (set_entry s page_map i empty_entry, Error.success)

-- The loop of `CleanPageMap` from entry `i` on, with `rounds` entries left; `child` is the call for the
-- level below.
unfoldable pub clean_loop : (Pages → ℕ → Pages × Error) → ℕ → ℕ → Pages → ℕ → ℕ → Pages × Error
unfolding clean_entry
clean_loop child level zero s page_map i = (s, Error.success)
clean_loop child level (suc rounds) s page_map i =
    let entry = s.tables page_map i in
    let below = if leb 2 level then child s entry.addr else (s, Error.success) in
    let cleaned = clean_entry below.0 page_map i entry in
    let rest =
      clean_loop child level rounds (if entry.present then cleaned.0 else s) page_map (i + 1) in
    if entry.present && is_error below.1
    then below
    else if entry.present && is_error cleaned.1
    then cleaned
    else rest

-- `CleanPageMap`
unfoldable pub clean_page_map : ℕ → Pages → ℕ → ℕ → Pages × Error
unfolding clean_loop part
clean_page_map zero s page_map addr = (s, Error.success)
clean_page_map (suc level) s page_map addr =
    clean_loop (λ t m. clean_page_map level t m addr) (suc level) (512 - part (suc level) addr) s
      page_map (part (suc level) addr)

-- `CleanPageMaps`
unfoldable pub clean_page_maps : Pages → ℕ → Pages × Error
unfolding clean_page_map
clean_page_maps s addr = clean_page_map 4 s s.cr3 addr
