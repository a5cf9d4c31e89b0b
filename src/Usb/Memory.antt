-- ===== src/Usb/Memory.antt =====
-- src/kernel/usb/memory.hpp and memory.cpp: the memory that the USB driver hands out and never
-- takes back.
pub mod Ceil
pub mod First
pub mod Tests
use mikanos.Prelude.{ℕ, ◌+◌, ◌-◌, ◌*◌, ◌%◌, ◌^◌, bit_and, Option, none, some, ltb, if◌then◌else◌}
use mikanos.Bits.{complement}

-- `kMemoryPoolSize`
abbrev pub memory_pool_size : ℕ
memory_pool_size = 4096 * 32

-- `Ceil`, for an alignment that is not 0, on 64-bit addresses
unfoldable pub ceil : ℕ → ℕ → ℕ
ceil value alignment = bit_and ((value + (alignment - 1)) % 2 ^ 64) (complement 64 (alignment - 1))

-- `AllocMem`, where the next free address is `alloc_ptr`: the next one after it, and the block.
unfoldable pub alloc_mem : (memory_pool alloc_ptr size alignment boundary : ℕ) → ℕ × Option ℕ
unfolding ceil
alloc_mem memory_pool alloc_ptr size alignment boundary =
    let aligned = if ltb 0 alignment then ceil alloc_ptr alignment else alloc_ptr in
    let next_boundary = ceil aligned boundary in
    let p =
      (if ltb 0 boundary
        then (if ltb next_boundary ((aligned + size) % 2 ^ 64) then next_boundary else aligned)
        else aligned) in
    if ltb ((memory_pool + memory_pool_size) % 2 ^ 64) ((p + size) % 2 ^ 64)
    then (p, none)
    else ((p + size) % 2 ^ 64, some p)
