-- ===== src/Fat/Tests.antt =====
-- A volume with clusters of 64 bytes: a root directory that is full, a directory and two files.
use mikanos.Prelude.{
  ℕ, zero, suc, ◌+◌, ◌%◌, ◌≡◌, refl, false, none, some, List, [], ◌∷◌, ◌++◌, ◌==◌, if◌then◌else◌,
  Returns, arith, get_or, ◌*◌,
}
use mikanos.Error.{Error}
use mikanos.Fat.Volume.{Volume, DirectoryEntry, first_cluster, next_cluster}
use mikanos.Fat.Chain.{Chain}
use mikanos.Fat.Extend.{count_free}
use mikanos.Fat.Grow.{HasRoom}
use mikanos.Fat.File.{new_descriptor, num_cluster, slice, read, write}
use mikanos.Fat.File.Content.{contents}
use mikanos.Fat.File.Cursor.{IsFile, IsReadTo, read_lem, new_descriptor-IsCursor}
use mikanos.Fat.File.Fresh.{IsWritten, write_fresh_lem}
use mikanos.Fat.File.Overrun.{write_overrun_lem}
use mikanos.Fat.Name.{to_upper, name_is_equal, fill83, same_bytes}
use mikanos.Fat.Name.Print.{IsShortName}
use mikanos.Fat.Directory.{slash, find_file, create_file, blank_entry}
use mikanos.Fat.Directory.Listing.{positions, listing, first_equal}
use mikanos.Fat.Directory.Resolve.{join, last, enter, find_file_lem}
use mikanos.Fat.Directory.Create.{create_file-refuses}
use mikanos.Fat.Directory.Create.Stored.{IsCreated, create_file-IsCreated}

-- KERNEL.ELF, 100 bytes in the clusters 3 and 4
abbrev kernel : DirectoryEntry
kernel = record blank_entry {
  name = 75 ∷ 69 ∷ 82 ∷ 78 ∷ 69 ∷ 76 ∷ 32 ∷ 32 ∷ 69 ∷ 76 ∷ 70 ∷ [];
  attr = 32;
  first_cluster_low = 3;
  file_size = 100;
}

-- APPS, the directory at cluster 5
abbrev apps : DirectoryEntry
apps = record blank_entry {
  name = 65 ∷ 80 ∷ 80 ∷ 83 ∷ 32 ∷ 32 ∷ 32 ∷ 32 ∷ 32 ∷ 32 ∷ 32 ∷ [];
  attr = 16;
  first_cluster_low = 5;
}

-- CUBE, an empty file
abbrev cube : DirectoryEntry
cube = record blank_entry {
  name = 67 ∷ 85 ∷ 66 ∷ 69 ∷ 32 ∷ 32 ∷ 32 ∷ 32 ∷ 32 ∷ 32 ∷ 32 ∷ [];
  attr = 32;
}

abbrev table : List ℕ
table = 0x0ffffff8 ∷ 0x0fffffff ∷ 0x0fffffff ∷ 4 ∷ 0x0fffffff ∷ 0x0fffffff ∷ 0 ∷ 0 ∷ []

abbrev root_entries : ℕ → DirectoryEntry
root_entries zero = kernel
root_entries (suc i) = apps

abbrev apps_entries : ℕ → DirectoryEntry
apps_entries zero = cube
apps_entries (suc i) = blank_entry

abbrev pub volume : Volume
volume = record {
  bpb = record {
    bytes_per_sector = 64;
    sectors_per_cluster = 1;
    reserved_sector_count = 32;
    num_fats = 2;
    fat_size_32 = 1;
    root_cluster = 2;
  };
  fat_entries = 8;
  fat = λ i. get_or table i 0;
  sector = λ c i. (c + i) % 256;
  entries = λ c. if c == 2 then root_entries else apps_entries;
}

pub root-Chain : Chain volume.fat 2 (2 ∷ [])
unfolding next_cluster
root-Chain = (refl, omega arith, omega arith, refl)

room : HasRoom volume 2
unfolding count_free
room = record { starts = omega arith; fits = omega arith; room = omega arith }

one_room : HasRoom volume 1
one_room = record { starts = omega arith; fits = omega arith; room = omega (arith, room.room) }

pub kernel-IsFile : IsFile volume kernel (contents volume (3 ∷ 4 ∷ []))
unfolding next_cluster first_cluster contents slice
kernel-IsFile = record {
  clusters = 3 ∷ 4 ∷ [];
  chain = (refl, omega arith, omega arith, (refl, omega arith, omega arith, refl));
  stored = refl;
  size = omega arith;
  fits = omega arith;
  clustered = omega arith;
}

read_example :
    Returns
      (read volume kernel new_descriptor 70)
      (IsReadTo volume kernel (contents volume (3 ∷ 4 ∷ [])) new_descriptor 70)
read_example =
    read_lem volume kernel (contents volume (3 ∷ 4 ∷ [])) new_descriptor 70 kernel-IsFile
      (new_descriptor-IsCursor volume kernel (contents volume (3 ∷ 4 ∷ [])) kernel-IsFile)

write_fresh_example :
    Returns (write volume cube new_descriptor (λ i. i) 10) (IsWritten volume (λ i. i) 10)
unfolding first_cluster num_cluster
write_fresh_example =
    write_fresh_lem volume cube (λ i. i) 10 refl (omega arith) (omega arith) (omega arith) one_room

write_overrun_example :
    Returns (write volume cube new_descriptor (λ i. i) 100) (λ r. r.3 ≡ num_cluster volume 100 * 64)
unfolding first_cluster num_cluster
write_overrun_example =
    write_overrun_lem volume cube (λ i. i) 100 refl (omega arith) (omega arith) (omega arith) room

abbrev kernel_base : List ℕ
kernel_base = 107 ∷ 69 ∷ 82 ∷ 78 ∷ 69 ∷ 76 ∷ []

abbrev elf : List ℕ
elf = 101 ∷ 108 ∷ 102 ∷ []

letters : IsShortName kernel_base elf
letters = record {
  base_bytes = ground arith;
  ext_bytes = ground arith;
  base_fits = omega arith;
  ext_fits = omega arith;
}

abbrev pub apps_name : List ℕ
apps_name = 97 ∷ 112 ∷ 112 ∷ 115 ∷ []

abbrev pub cube_name : List ℕ
cube_name = 99 ∷ 117 ∷ 98 ∷ 101 ∷ []

abbrev pub note_name : List ℕ
note_name = 110 ∷ 111 ∷ 116 ∷ 101 ∷ []

find_file_example :
    find_file 2 volume (join apps_name (cube_name ∷ [])) 0 ≡ some (some (5, 0), false)
unfolding next_cluster first_cluster listing positions first_equal name_is_equal fill83 same_bytes
    to_upper
find_file_example =
    find_file_lem 2 volume 0 apps_name (cube_name ∷ []) (some (5, 0), false)
      (record { bytes = ground arith; some_byte = omega arith; fits = omega arith })
      (record { bytes = ground arith; some_byte = omega arith; fits = omega arith }, tt)
      (omega arith)
      (enter 0 apps_name cube_name [] (2 ∷ []) (2, 1) (some (5, 0), false) root-Chain (omega arith)
        refl refl
        (last 5 cube_name (5 ∷ []) (some (5, 0), false) (refl, omega arith, omega arith, refl)
          (omega arith) refl))

note_missing : find_file 5 volume note_name 0 ≡ some (none, false)
unfolding listing positions first_equal name_is_equal fill83 same_bytes to_upper
note_missing =
    find_file_lem 5 volume 0 note_name [] (none, false)
      (record { bytes = ground arith; some_byte = omega arith; fits = omega arith }) tt
      (omega arith) (last 0 note_name (2 ∷ []) (none, false) root-Chain (omega arith) refl)

create_file-refuses_example :
    (create_file volume (slash ∷ apps_name ++ slash ∷ [])
      ≡ some (volume, record { value = none; error = Error.is_directory }))
    × (create_file volume (note_name ++ slash ∷ cube_name)
        ≡ some (volume, record { value = none; error = Error.no_such_entry }))
create_file-refuses_example =
    create_file-refuses volume (slash ∷ apps_name) note_name cube_name false refl note_missing refl
      (ground arith)

create_file-IsCreated_example :
    Returns (create_file volume note_name) (IsCreated volume note_name (2 ∷ []))
unfolding listing positions name_is_equal fill83 same_bytes to_upper
create_file-IsCreated_example =
    create_file-IsCreated volume note_name [] 2 []
      (record {
        base_bytes = ground arith;
        ext_bytes = tt;
        base_fits = omega arith;
        ext_fits = omega arith;
      })
      (record { bytes = ground arith; some_byte = omega arith; fits = omega arith }) root-Chain
      (omega arith) (omega arith) (refl, (refl, tt)) one_room
