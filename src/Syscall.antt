-- ===== src/Syscall.antt =====
-- src/kernel/syscall.cpp: the calls that open files and map memory, for the current task.
pub mod Events
pub mod Mapping
pub mod Open
pub mod Read
pub mod Tests
use mikanos.Prelude.{
  ℕ, zero, suc, ◌+◌, ◌-◌, ◌*◌, ◌%◌, ◌^◌, bit_and, Bool, true, false, not, ◌&&◌, Option, none, some,
  List, [], ◌∷◌, ◌++◌, ◌==◌, ltb, leb, length, get_elem?, if◌then◌else◌, ◌>>=◌,
}
use mikanos.Prelude.Int.{ℤ, pos}
use mathlib.Core.Option
use mikanos.Error.{Error, WithError, is_directory, no_such_entry, no_enough_memory}
use mikanos.Task.State.{Task, FileMapping}
use mikanos.Fat.Volume.{Volume}
use mikanos.Fat.File.{FileDescriptor, new_descriptor, read}
use mikanos.Fat.Directory.{Position, directory, entry_at, find_file, create_file}

-- `int` of `Result`; 0 is `no_error`.
pub data Errno : Type 0 where
  no_error eperm enoent e2big ebadf efault einval eisdir enospc : Errno

pub record Result : Type 0 where
  pub value : ℕ
  pub error : Errno

-- `const int fd = arg1`, where it is not negative
abbrev pub to_fd : ℕ → Option ℕ
to_fd arg = if ltb (arg % 2 ^ 32) (2 ^ 31) then some (arg % 2 ^ 32) else none

-- `DemandPages`
unfoldable pub demand_pages : Task → ℕ → Task × Result
demand_pages t num_pages = (
  record t { dpaging_end = (t.dpaging_end + 4096 * num_pages) % 2 ^ 64 },
  record { value = t.dpaging_end; error = no_error },
)

-- `files_` of a task, whose entries are null pointers or own a descriptor.
module _ {ℓ} {File : Type ℓ} where
  -- `fd < 0 || task.Files().size() <= fd || !task.Files()[fd]`
  abbrev pub file_of : List (Option File) → ℕ → Option File
  file_of files i = elim (get_elem? files i) [ none ↦ none | some f ↦ f ]

  abbrev pub lookup : List (Option File) → ℕ → Option (ℕ × File)
  lookup files arg = elim (to_fd arg) [
    | none ↦ none
    | some fd ↦ elim (file_of files fd) [ none ↦ none | some f ↦ some (fd, f) ]
  ]

  -- The rest of the loop of `AllocateFD`, and the new entry behind it; `i` entries have been passed.
  unfoldable pub allocate_from : List (Option File) → ℕ → List (Option File) × ℕ
  allocate_from [] i = (none ∷ [], i)
  allocate_from (none ∷ files) i = (none ∷ files, i)
  allocate_from (some f ∷ files) i =
      let rest = allocate_from files (i + 1) in (some f ∷ rest.0, rest.1)

  -- `AllocateFD`
  unfoldable pub allocate_fd : List (Option File) → List (Option File) × ℕ
  unfolding allocate_from
  allocate_fd files = allocate_from files 0

  abbrev pub set_file : List (Option File) → ℕ → File → List (Option File)
  set_file [] i f = []
  set_file (g ∷ files) zero f = some f ∷ files
  set_file (g ∷ files) (suc i) f = g ∷ set_file files i f

  -- `MapFile`: the task, what is stored in `*file_size`, and the result.
  unfoldable pub map_file : (File → ℕ) → Task → List (Option File) → ℕ → Task × (Option ℕ × Result)
  map_file size t files arg = elim (lookup files arg) [
    | none ↦ (t, (none, record { value = 0; error = ebadf }))
    | some (fd, f) ↦
        let vaddr_begin =
          bit_and ((t.file_map_end + 2 ^ 64 - size f) % 2 ^ 64) 0xfffffffffffff000 in
        (
          record t {
            file_map_end = vaddr_begin;
            file_maps =
                t.file_maps
                ++ record { fd = pos fd; vaddr_begin = vaddr_begin; vaddr_end = t.file_map_end }
                  ∷ [];
          },
          (some (size f), record { value = vaddr_begin; error = no_error }),
        )
  ]

-- `CreateFile` of this file: the error of the file system as a number
abbrev pub create_errno : Error → Errno
create_errno is_directory = eisdir
create_errno no_such_entry = enoent
create_errno no_enough_memory = enospc
create_errno _ = no_error

-- `@stdin`
abbrev pub stdin_name : List ℕ
stdin_name = 64 ∷ 115 ∷ 116 ∷ 100 ∷ 105 ∷ 110 ∷ []

-- A descriptor of a file of the volume: the place of its entry, and the positions.
abbrev pub OpenedFile : Type 0
OpenedFile = Position × FileDescriptor

-- `strcmp(a, b) == 0`
abbrev pub same_text : List ℕ → List ℕ → Bool
same_text [] [] = true
same_text [] (d ∷ b) = false
same_text (c ∷ a) [] = false
same_text (c ∷ a) (d ∷ b) = c == d && same_text a b

-- What the call leaves: the volume, the files of the task, and the result.
abbrev pub Opened : Type 0
Opened = Volume × (List (Option OpenedFile) × Result)

abbrev pub failed : Volume → List (Option OpenedFile) → Errno → Opened
failed v files e = (v, (files, record { value = 0; error = e }))

-- The end of `OpenFile`
unfoldable pub add_file : Volume → List (Option OpenedFile) → Position → Opened
unfolding allocate_fd
add_file v files p =
    let (files', fd) = allocate_fd files in
    (v, (set_file files' fd (p, new_descriptor), record { value = fd; error = no_error }))

-- Whether `CreateFile` has succeeded; a null pointer is dereferenced where it has failed with
-- another error.
unfoldable pub add_created :
    List (Option OpenedFile) → Volume × WithError (Option Position) → Option Opened
unfolding add_file
add_created files (v, created) = elim (create_errno created.error) [
  | no_error ↦ Option.map (λ p. add_file v files p) created.value
  | e ↦ some (failed v files e)
]

-- `OpenFile`; `o_creat` is `O_CREAT` of the C library.
unfoldable pub open_file :
    (o_creat : ℕ) → Volume → List (Option OpenedFile) → List ℕ → ℕ → Option Opened
unfolding find_file create_file add_file add_created
open_file o_creat v files path flags =
    if same_text path stdin_name
    then some (v, (files, record { value = 0; error = no_error }))
    else do
      (file, post_slash) ← find_file (suc (length path)) v path 0
      elim file [
        | some p ↦
            if not ((entry_at v p).attr == directory) && post_slash
            then some (failed v files enoent)
            else some (add_file v files p)
        | none ↦
            let created = create_file v path in
            if bit_and flags o_creat == 0
            then some (failed v files enoent)
            else (created >>= (λ c. add_created files c))
      ]

-- `ReadFile` from a descriptor of the volume: the files of the task, the bytes that are put into
-- the buffer, and the result.
unfoldable pub read_file :
    Volume
    → List (Option OpenedFile)
    → (arg count : ℕ) → Option (List (Option OpenedFile) × (List ℕ × Result))
unfolding read
read_file v files arg count = elim (lookup files arg) [
  | none ↦ some (files, ([], record { value = 0; error = ebadf }))
  | some (fd, (p, d)) ↦
      Option.map
        (λ r. (set_file files fd (p, r.0), (r.1, record { value = length r.1; error = no_error })))
        (read v (entry_at v p) d count)
]
