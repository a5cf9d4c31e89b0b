-- ===== src/Memory/Boot.antt =====
-- `InitializeMemoryManager` and `InitializeHeap` of src/kernel/memory_manager.cpp, over the memory map
-- of src/kernel/memory_map.hpp that the UEFI loader hands over.
pub mod Map
pub mod Start
use mikanos.Prelude.{
  ℕ, ◌+◌, ◌-◌, ◌*◌, ◌/◌, ◌%◌, ◌^◌, Bool, ◌||◌, Option, none, some, List, [], ◌∷◌, ◌==◌, ltb,
  if◌then◌else◌, ◌>>=◌,
}
use mikanos.Error.{Error, is_error}
use mikanos.Memory.{
  BitmapMemoryManager, bytes_per_frame, add_size, init, mark_allocated, set_memory_range, allocate,
}

abbrev pub uefi_page_size : ℕ
uefi_page_size = 4096

-- The values of `MemoryType` that `IsAvailable` names.
abbrev pub efi_boot_services_code : ℕ
efi_boot_services_code = 3

abbrev pub efi_boot_services_data : ℕ
efi_boot_services_data = 4

abbrev pub efi_conventional_memory : ℕ
efi_conventional_memory = 7

pub is_available : ℕ → Bool
is_available memory_type =
    memory_type == efi_boot_services_code
    || (memory_type == efi_boot_services_data || memory_type == efi_conventional_memory)

-- The fields of `MemoryDescriptor` that are read.
pub record MemoryDescriptor : Type 0 where
  pub memory_type : ℕ
  pub physical_start : ℕ
  pub number_of_pages : ℕ

-- `uint64_t` product
abbrev pub mul_size : ℕ → ℕ → ℕ
mul_size a b = a * b % 2 ^ 64

abbrev pub physical_end : MemoryDescriptor → ℕ
physical_end d = add_size d.physical_start (mul_size d.number_of_pages uefi_page_size)

-- Frames between the last available end and this descriptor are marked.
mark_gap : BitmapMemoryManager → ℕ → MemoryDescriptor → BitmapMemoryManager
mark_gap m available_end d =
    if ltb available_end d.physical_start
    then mark_allocated m (available_end / bytes_per_frame)
        ((d.physical_start - available_end) / bytes_per_frame)
    else m

-- What one descriptor does to the bitmap and to `available_end`.
pub visit : BitmapMemoryManager × ℕ → MemoryDescriptor → BitmapMemoryManager × ℕ
visit (m, available_end) d =
    let marked = mark_gap m available_end d in
    if is_available d.memory_type then (marked, physical_end d) else (
      mark_allocated marked (d.physical_start / bytes_per_frame)
          (mul_size d.number_of_pages uefi_page_size / bytes_per_frame),
      available_end,
    )

-- The loop over the map, with `available_end`.
pub visit_all : BitmapMemoryManager × ℕ → List MemoryDescriptor → BitmapMemoryManager × ℕ
visit_all s [] = s
visit_all s (d ∷ ds) = visit_all (visit s d) ds

-- `program_break` and `program_break_end`
pub record Heap : Type 0 where
  pub program_break : ℕ
  pub program_break_end : ℕ

abbrev pub heap_frames : ℕ
heap_frames = 64 * 512

pub data Boot : Type 0 where
  started : BitmapMemoryManager → Heap → Boot
  -- `exit(1)`
  exited : Error → Boot

pub initialize_heap : BitmapMemoryManager → Option Boot
initialize_heap m = do
  (m', heap_start) ← allocate m heap_frames
  some (
      if is_error heap_start.error
      then exited heap_start.error
      else started m' (record {
        program_break = mul_size heap_start.value bytes_per_frame;
        program_break_end =
            add_size (mul_size heap_start.value bytes_per_frame) (heap_frames * bytes_per_frame);
      }))

pub initialize_memory_manager : List MemoryDescriptor → Option Boot
initialize_memory_manager memory_map =
    let (m, available_end) = visit_all (init, 0) memory_map in
    initialize_heap (set_memory_range m 1 (available_end / bytes_per_frame))
