-- ===== src/Memory.antt =====
-- src/kernel/memory_manager.hpp and memory_manager.cpp: the bitmap of physical frames.
pub mod Bitmap
pub mod Allocate
pub mod Ownership
pub mod Stat
pub mod Boot
pub mod Tests
use mikanos.Prelude.{
  ℕ, zero, suc, ◌+◌, ◌-◌, ◌*◌, ◌/◌, ◌%◌, ◌^◌, bit_and, bit_or, Bool, true, false, not, Option, none,
  some, ◌==◌, leb, if◌then◌else◌,
}
use mikanos.Bits.{complement}
use mikanos.Error.{Error, WithError, success, no_enough_memory}

abbrev pub bytes_per_frame : ℕ
bytes_per_frame = 4096

-- `kMaxPhysicalMemoryBytes / kBytesPerFrame`
abbrev pub frame_count : ℕ
frame_count = 128 * 1024 * 1024 * 1024 / 4096

abbrev pub bits_per_map_line : ℕ
bits_per_map_line = 64

-- A `FrameID` is its number.
abbrev pub null_frame : ℕ
null_frame = 2 ^ 64 - 1

-- The bitmap, from the index of a line to the line.
pub record BitmapMemoryManager : Type 0 where
  pub alloc_map : ℕ → ℕ
  pub range_begin : ℕ
  pub range_end : ℕ

pub record MemoryStat : Type 0 where
  pub allocated_frames : ℕ
  pub total_frames : ℕ

pub init : BitmapMemoryManager
init = record { alloc_map = λ _. 0; range_begin = 0; range_end = frame_count }

-- `size_t` addition
abbrev pub add_size : ℕ → ℕ → ℕ
add_size a b = (a + b) % 2 ^ 64

unfoldable pub get_bit : BitmapMemoryManager → ℕ → Bool
get_bit m frame =
    not (bit_and (m.alloc_map (frame / bits_per_map_line)) (2 ^ (frame % bits_per_map_line)) == 0)

set_line : (ℕ → ℕ) → ℕ → ℕ → ℕ → ℕ
set_line lines index line j = if j == index then line else lines j

unfoldable pub set_bit : BitmapMemoryManager → ℕ → Bool → BitmapMemoryManager
unfolding set_line
set_bit m frame allocated =
    let index = frame / bits_per_map_line in
    let one_bit = 2 ^ (frame % bits_per_map_line) in
    let line = m.alloc_map index in
    record m {
      alloc_map =
          set_line m.alloc_map index
            (if allocated then bit_or line one_bit else bit_and line (complement 64 one_bit));
    }

-- The loop of `MarkAllocated` and of `Free`: `n` rounds, from round `i` on.
unfoldable pub set_bits : BitmapMemoryManager → ℕ → ℕ → ℕ → Bool → BitmapMemoryManager
set_bits m start i zero allocated = m
set_bits m start i (suc n) allocated =
    set_bits (set_bit m (add_size start i) allocated) start (i + 1) n allocated

unfoldable pub mark_allocated : BitmapMemoryManager → ℕ → ℕ → BitmapMemoryManager
unfolding set_bits
mark_allocated m start_frame num_frames = set_bits m start_frame 0 num_frames true

pub free : BitmapMemoryManager → ℕ → ℕ → BitmapMemoryManager × Error
unfolding set_bits
free m start_frame num_frames = (set_bits m start_frame 0 num_frames false, success)

pub set_memory_range : BitmapMemoryManager → ℕ → ℕ → BitmapMemoryManager
set_memory_range m range_begin range_end = record m {
  range_begin = range_begin;
  range_end = range_end;
}

-- How the inner loop of `Allocate` ends: past the range, at an allocated frame, or with all free.
pub data Scan : Type 0 where
  out_of_range : Scan
  blocked : ℕ → Scan
  all_free : Scan

pub scan : BitmapMemoryManager → ℕ → ℕ → ℕ → Scan
scan m start i zero = all_free
scan m start i (suc n) =
    let rest = scan m start (i + 1) n in
    if leb m.range_end (add_size start i)
    then out_of_range
    else if get_bit m (add_size start i)
    then blocked i
    else rest

-- The outer loop, on fuel: `none` means that the fuel ran out.
pub allocate_from : ℕ → BitmapMemoryManager → ℕ → ℕ → Option (BitmapMemoryManager × WithError ℕ)
allocate_from zero m start num_frames = none
allocate_from (suc fuel) m start num_frames = elim (scan m start 0 num_frames) [
  | out_of_range ↦ some (m, record { value = null_frame; error = no_enough_memory })
  | blocked i ↦ allocate_from fuel m (add_size start (i + 1)) num_frames
  | all_free ↦ some (mark_allocated m start num_frames, record { value = start; error = success })
]

-- Every round but the last goes past a frame below `range_end`.
pub allocate : BitmapMemoryManager → ℕ → Option (BitmapMemoryManager × WithError ℕ)
unfolding allocate_from
allocate m num_frames = allocate_from (suc m.range_end) m m.range_begin num_frames

-- `std::bitset<64>(w).count()`: the ones among the lowest `n` bits.
pub count_ones : ℕ → ℕ → ℕ
count_ones zero w = 0
count_ones (suc n) w = w % 2 + count_ones n (w / 2)

-- The sum of `n` lines from line `i` on.
pub sum_lines : BitmapMemoryManager → ℕ → ℕ → ℕ
sum_lines m i zero = 0
sum_lines m i (suc n) = count_ones bits_per_map_line (m.alloc_map i) + sum_lines m (i + 1) n

pub stat : BitmapMemoryManager → MemoryStat
stat m =
    let first = m.range_begin / bits_per_map_line in
    let past = m.range_end / bits_per_map_line in
    record {
      allocated_frames = sum_lines m first (past - first);
      total_frames = (2 ^ 64 + m.range_end - m.range_begin) % 2 ^ 64;
    }
