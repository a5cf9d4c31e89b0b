-- ===== src/Usb/Memory/Tests.antt =====
-- A block of 64 bytes shortly before a page boundary.
use mikanos.Prelude.{ℕ, ◌+◌, ◌≡◌, refl, inr, none, some, ltb, if◌then◌else◌, arith}
use mikanos.Usb.Memory.{memory_pool_size, ceil, alloc_mem}
use mikanos.Usb.Memory.First.{IsFirstPlace, IsBounded, alloc_mem-IsFirstPlace}

page-IsBounded : IsBounded 64 64 4096
page-IsBounded = λ d. (omega arith, λ e. (64, refl))

-- After the boundary, if the block would cross it; the memory pool ends 131072 bytes after its start.
alloc_crossing : alloc_mem 65536 69600 64 32 4096 ≡ (69696, some 69632)
unfolding alloc_mem ceil
alloc_crossing = refl

alloc_full : alloc_mem 65536 196600 64 0 0 ≡ (196600, none)
unfolding alloc_mem ceil
alloc_full = refl

alloc_mem-IsFirstPlace_example :
    (p : ℕ) × IsFirstPlace 69568 64 64 4096 p
    × (alloc_mem 65536 69568 64 64 4096
        ≡ (if ltb (65536 + memory_pool_size) (p + 64) then (p, none) else (p + 64, some p)))
alloc_mem-IsFirstPlace_example =
    alloc_mem-IsFirstPlace 65536 69568 64 64 4096 (inr (6, omega arith, refl))
      (inr (12, omega arith, refl)) page-IsBounded (omega arith) (omega arith)
