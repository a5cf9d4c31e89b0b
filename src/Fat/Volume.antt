-- ===== src/Fat/Volume.antt =====
-- The volume of src/kernel/fat.hpp. The image in memory is three functions: the file allocation table,
-- the bytes of a cluster, and a cluster that is read as directory entries.
use mikanos.Prelude.{ℕ, ◌+◌, ◌-◌, ◌*◌, ◌%◌, ◌^◌, Bool, List, ◌==◌, leb, if◌then◌else◌}

-- The fields of `BPB` that are read.
pub record Bpb : Type 0 where
  pub bytes_per_sector : ℕ
  pub sectors_per_cluster : ℕ
  pub reserved_sector_count : ℕ
  pub num_fats : ℕ
  pub fat_size_32 : ℕ
  pub root_cluster : ℕ

-- The fields of `DirectoryEntry` that are used; `name` has 11 bytes.
pub record DirectoryEntry : Type 0 where
  pub name : List ℕ
  pub attr : ℕ
  pub first_cluster_high : ℕ
  pub first_cluster_low : ℕ
  pub file_size : ℕ

-- `FirstCluster`: the halves do not overlap, so `|` adds them.
unfoldable pub first_cluster : DirectoryEntry → ℕ
first_cluster e = e.first_cluster_low + e.first_cluster_high * 2 ^ 16 % 2 ^ 32

-- `fat_entries` is the number of entries of the table, which the code does not check.
pub record Volume : Type 0 where
  pub bpb : Bpb
  pub fat_entries : ℕ
  pub fat : ℕ → ℕ
  pub sector : ℕ → ℕ → ℕ
  pub entries : ℕ → ℕ → DirectoryEntry

-- `bytes_per_cluster`
abbrev pub bytes_per_cluster : Volume → ℕ
bytes_per_cluster v = v.bpb.bytes_per_sector * v.bpb.sectors_per_cluster

-- `GetClusterAddr`, for an image at `base`. The first sum is 32 bits wide, the rest 64 bits.
unfoldable pub get_cluster_addr : Bpb → ℕ → ℕ → ℕ
get_cluster_addr b base cluster =
    let data_start = (b.reserved_sector_count + b.num_fats * b.fat_size_32) % 2 ^ 32 in
    let sector_num = (data_start + (cluster + 2 ^ 64 - 2) * b.sectors_per_cluster) % 2 ^ 64 in
    (base + sector_num * b.bytes_per_sector) % 2 ^ 64

-- `kEndOfClusterchain`
abbrev pub end_of_cluster_chain : ℕ
end_of_cluster_chain = 0x0fffffff

abbrev pub is_end_of_cluster_chain : ℕ → Bool
is_end_of_cluster_chain cluster = leb 0x0ffffff8 cluster

-- `NextCluster`
unfoldable pub next_cluster : (ℕ → ℕ) → ℕ → ℕ
next_cluster fat cluster =
    if leb 0x0ffffff8 (fat cluster) then end_of_cluster_chain else fat cluster

-- A store into the table, whose entries have 32 bits.
unfoldable pub set_fat : (ℕ → ℕ) → ℕ → ℕ → ℕ → ℕ
set_fat fat i value j = if j == i then value % 2 ^ 32 else fat j
