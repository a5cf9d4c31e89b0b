-- ===== src/Memory/Tests.antt =====
-- The frame bitmap on a manager of 127 frames, and the start on a map of three descriptors.
use mikanos.Prelude.{◌≡◌, refl, false, ◌&&◌, List, [], ◌∷◌, arith, ◌==◌, if◌then◌else◌}
use mikanos.Error.{success}
use mikanos.Memory.{
  BitmapMemoryManager, allocate_from, scan, set_bits, set_bit, set_line, sum_lines, count_ones,
  get_bit, mark_allocated, free, allocate, stat,
}
use mikanos.Memory.Bitmap.{within}
use mikanos.Memory.Allocate.{IsValid, FirstFit, allocate-FirstFit}
use mikanos.Memory.Ownership.{granted, free-allocate, allocate_disjoint}
use mikanos.Memory.Boot.{MemoryDescriptor, initialize_memory_manager}
use mikanos.Memory.Boot.Map.{IsSortedMap}
use mikanos.Memory.Boot.Start.{Outcome, initialize_memory_manager-Outcome}

-- Frames 0, 1, 3 and 4 are allocated.
abbrev small : BitmapMemoryManager
small = record { alloc_map = λ line. if line == 0 then 27 else 0; range_begin = 1; range_end = 128 }

small-IsValid : IsValid small
small-IsValid = record { begin_fits = omega arith; end_fits = omega arith }

abbrev small₁ : BitmapMemoryManager
small₁ = mark_allocated small 5 2

abbrev small₂ : BitmapMemoryManager
small₂ = mark_allocated small₁ 7 3

-- Two frames: frame 2 is too short a run, so the run starts at frame 5.
first_grant : allocate small 2 ≡ granted small₁ 5
unfolding allocate allocate_from scan get_bit mark_allocated set_bits set_bit set_line
first_grant = refl

next_grant : allocate small₁ 3 ≡ granted small₂ 7
unfolding allocate allocate_from scan get_bit mark_allocated set_bits set_bit set_line
next_grant = refl

allocate-FirstFit_example : FirstFit small 2 (allocate small 2)
allocate-FirstFit_example = allocate-FirstFit small 2 small-IsValid

free-allocate_example :
    (get_bit (free small₁ 5 2).0 6 ≡ get_bit small 6)
    × ((free small₁ 5 2).1 ≡ success)
    × ((free small₁ 5 2).0.range_begin ≡ 1)
    × ((free small₁ 5 2).0.range_end ≡ 128)
free-allocate_example = free-allocate 2 small-IsValid first_grant (omega arith) 6

allocate_disjoint_example : within 5 2 6 && within 7 3 6 ≡ false
allocate_disjoint_example =
    allocate_disjoint 2 3 small-IsValid (omega arith) first_grant next_grant 6

stat-small : stat small ≡ record { allocated_frames = 4; total_frames = 127 }
unfolding stat sum_lines count_ones
stat-small = refl

-- One page of boot code, a reserved gap of two pages, and 256 MiB of free memory.
abbrev memory_map : List MemoryDescriptor
memory_map =
    record { memory_type = 3; physical_start = 0; number_of_pages = 1 }
    ∷ record { memory_type = 0; physical_start = 8192; number_of_pages = 2 }
    ∷ record { memory_type = 7; physical_start = 16384; number_of_pages = 65536 }
    ∷ []

memory_map-IsSortedMap : IsSortedMap 0 memory_map
memory_map-IsSortedMap = omega arith

initialize_memory_manager-Outcome_example :
    Outcome memory_map (initialize_memory_manager memory_map)
initialize_memory_manager-Outcome_example =
    initialize_memory_manager-Outcome memory_map memory_map-IsSortedMap
