-- ===== src/Syscall/Tests.antt =====
-- A file of the test volume is opened, and a file of 5000 bytes is mapped below another mapping.
use mikanos.Prelude.{ℕ, List, Option, ◌≡◌, refl, true, false, none, some, [], ◌∷◌, Returns, arith}
use mikanos.Prelude.Int.{pos}
use mikanos.Task.Context.{zero_context}
use mikanos.Task.State.{Task}
use mikanos.Fat.File.{new_descriptor}
use mikanos.Fat.Name.{to_upper, name_is_equal, fill83, same_bytes}
use mikanos.Fat.Directory.Listing.{positions, listing, first_equal}
use mikanos.Fat.Directory.Resolve.{last}
use mikanos.Fat.Tests.{volume, root-Chain, kernel-IsFile}
use mikanos.Syscall.{
  allocate_from, allocate_fd, demand_pages, map_file, OpenedFile, open_file, read_file,
}
use mikanos.Syscall.Mapping.{IsMapped, map_file-IsMapped}
use mikanos.Fat.File.Content.{contents}
use mikanos.Syscall.Open.{IsOpened}
use mikanos.Syscall.Read.{HasRead, read_file-open_file}

-- Number 1 is free.
abbrev some_files : List (Option OpenedFile)
some_files = some ((2, 0), new_descriptor) ∷ none ∷ some ((2, 0), new_descriptor) ∷ []

lowest_number : (allocate_fd some_files).1 ≡ 1
unfolding allocate_fd allocate_from
lowest_number = refl

abbrev program : Task
program = record {
  id = 3;
  context = zero_context;
  os_stack_ptr = 0;
  msgs = [];
  level = 1;
  running = true;
  dpaging_begin = 0x10000;
  dpaging_end = 0x12000;
  file_map_end = 0x7000;
  file_maps = record { fd = pos 0; vaddr_begin = 0x7000; vaddr_end = 0x8000 } ∷ [];
}

demanded : (demand_pages program 2).0.dpaging_end ≡ 0x14000
unfolding demand_pages
demanded = refl

abbrev sizes : OpenedFile → ℕ
sizes f = 5000

map_file-IsMapped_example :
    IsMapped 0x8000 2 5000 program
      (map_file sizes program some_files 2).0
      (map_file sizes program some_files 2).1
map_file-IsMapped_example =
    map_file-IsMapped sizes 0x8000 program some_files 2 2 ((2, 0), new_descriptor)
      (refl, (omega arith, refl)) refl (omega arith) (omega arith)

-- kernel.elf
abbrev kernel_path : List ℕ
kernel_path = 107 ∷ 101 ∷ 114 ∷ 110 ∷ 101 ∷ 108 ∷ 46 ∷ 101 ∷ 108 ∷ 102 ∷ []

read_file-open_file_example :
    Returns (open_file 512 volume some_files kernel_path 0) (λ (w, (opened, r)).
      IsOpened volume some_files (2, 0) (w, (opened, r))
      × Returns
          (read_file w opened r.value 70)
          (HasRead volume opened r.value (2, 0) new_descriptor 70 (contents volume (3 ∷ 4 ∷ []))))
unfolding listing positions first_equal name_is_equal fill83 same_bytes to_upper
read_file-open_file_example =
    read_file-open_file 512 volume some_files kernel_path [] 0 (2, 0) false 70
      (contents volume (3 ∷ 4 ∷ []))
      (record { bytes = ground arith; some_byte = omega arith; fits = omega arith }) tt refl
      (last 0 kernel_path (2 ∷ []) (some (2, 0), false) root-Chain (omega arith) refl) refl
      kernel-IsFile (omega arith)
