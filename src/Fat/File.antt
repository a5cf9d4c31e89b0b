-- ===== src/Fat/File.antt =====
-- `fat::FileDescriptor` of src/kernel/fat.cpp. The directory entry that it refers to is an argument.
pub mod Content
pub mod Cursor
pub mod Fresh
pub mod Overrun
use mathlib.Core.Option
use mikanos.Prelude.{
  ℕ, zero, suc, ◌+◌, ◌-◌, ◌*◌, ◌/◌, ◌%◌, ◌^◌, min, Bool, Option, none, some, List, [], ◌∷◌, ◌++◌,
  ◌&&◌, ◌==◌, ltb, leb, if◌then◌else◌, ◌>>=◌, length,
}
use mikanos.Fat.Volume.{
  Volume, DirectoryEntry, first_cluster, bytes_per_cluster, end_of_cluster_chain, next_cluster,
}
use mikanos.Fat.Cluster.{extend_cluster, allocate_cluster_chain}

pub record FileDescriptor : Type 0 where
  pub rd_off : ℕ
  pub rd_cluster : ℕ
  pub rd_cluster_off : ℕ
  pub wr_off : ℕ
  pub wr_cluster : ℕ
  pub wr_cluster_off : ℕ

abbrev pub new_descriptor : FileDescriptor
new_descriptor = record {
  rd_off = 0;
  rd_cluster = 0;
  rd_cluster_off = 0;
  wr_off = 0;
  wr_cluster = 0;
  wr_cluster_off = 0;
}

-- `n` bytes of a cluster, from offset `off` on.
unfoldable pub slice : (ℕ → ℕ) → ℕ → ℕ → List ℕ
slice bytes off zero = []
slice bytes off (suc n) = bytes off ∷ slice bytes (off + 1) n

-- The loop of `Read`, with `left` bytes to go, on fuel: the bytes, the cluster and the offset in it.
unfoldable pub read_loop : ℕ → Volume → ℕ → ℕ → ℕ → Option (List ℕ × ℕ × ℕ)
unfolding slice next_cluster
read_loop zero v cluster off left = none
read_loop (suc fuel) v cluster off left =
    let n = min left (bytes_per_cluster v - off) in
    let full = off + n == bytes_per_cluster v in
    let rest =
      read_loop fuel v (if full then next_cluster v.fat cluster else cluster)
        (if full then 0 else off + n) (left - n) in
    if left == 0
    then some ([], cluster, off)
    else Option.map (λ r. (slice (v.sector cluster) off n ++ r.0, r.1, r.2)) rest

-- Where `Read` starts.
abbrev pub read_cluster : DirectoryEntry → FileDescriptor → ℕ
read_cluster e fd = if fd.rd_cluster == 0 then first_cluster e else fd.rd_cluster

-- `Read`: the bytes that it puts into the buffer; their number is what it returns.
unfoldable pub read :
    Volume → DirectoryEntry → FileDescriptor → ℕ → Option (FileDescriptor × List ℕ)
unfolding read_loop first_cluster
read v e fd len =
    let n = min len ((e.file_size + 2 ^ 64 - fd.rd_off) % 2 ^ 64) in
    Option.map
      (λ r. (
        record fd {
          rd_off = (fd.rd_off + length r.0) % 2 ^ 64;
          rd_cluster = r.1;
          rd_cluster_off = r.2;
        },
        r.0,
      ))
      (read_loop (suc n) v (read_cluster e fd) fd.rd_cluster_off n)

-- The loop of `Load`, on fuel: the cluster that holds an offset, and the offset in it.
unfoldable pub seek : ℕ → Volume → ℕ → ℕ → Option (ℕ × ℕ)
unfolding next_cluster
seek zero v cluster offset = none
seek (suc fuel) v cluster offset =
    let further = seek fuel v (next_cluster v.fat cluster) (offset - bytes_per_cluster v) in
    if leb (bytes_per_cluster v) offset then further else some (cluster, offset)

-- `Load`
unfoldable pub load : Volume → DirectoryEntry → ℕ → ℕ → Option (List ℕ)
unfolding seek read first_cluster
load v e len offset = do
  (cluster, rest) ← seek (suc offset) v (first_cluster e) offset
  let fd = record new_descriptor { rd_off = offset; rd_cluster = cluster; rd_cluster_off = rest }
  Option.map (λ r. r.1) (read v e fd len)

-- `num_cluster` of `Write`
unfoldable pub num_cluster : Volume → ℕ → ℕ
num_cluster v bytes = (bytes + bytes_per_cluster v - 1) % 2 ^ 64 / bytes_per_cluster v

-- `memcpy` of `n` bytes of the buffer, from `total` on, into a cluster, from `off` on.
unfoldable pub copy_in : Volume → ℕ → ℕ → (ℕ → ℕ) → ℕ → ℕ → Volume
copy_in v cluster off buf total n = record v {
  sector = λ c i.
      if c == cluster && (leb off i && ltb i (off + n))
      then buf (total + (i - off))
      else v.sector c i;
}

-- At the end of a cluster `Write` goes to the next one, or to the cluster that `ExtendCluster` returns.
unfoldable pub advance : Volume → ℕ → ℕ → ℕ → Option (Volume × ℕ × ℕ)
unfolding next_cluster extend_cluster num_cluster
advance v cluster off left =
    if off == bytes_per_cluster v
    then if next_cluster v.fat cluster == end_of_cluster_chain
      then Option.map (λ r. (r.0, r.1, 0)) (extend_cluster v cluster (num_cluster v left))
      else some (v, next_cluster v.fat cluster, 0)
    else some (v, cluster, off)

-- The loop of `Write`, on fuel: the volume, the cluster, the offset in it, and `total`.
unfoldable pub write_loop : ℕ → Volume → (ℕ → ℕ) → ℕ → ℕ → ℕ → ℕ → Option (Volume × ℕ × ℕ × ℕ)
unfolding advance copy_in
write_loop zero v buf len cluster off total = none
write_loop (suc fuel) v buf len cluster off total =
    if ltb total len
    then (advance v cluster off (len - total) >>= λ a.
        let n = min len (bytes_per_cluster v - a.2) in
        write_loop fuel (copy_in a.0 a.1 a.2 buf total n) buf len a.1 (a.2 + n) (total + n))
    else some (v, cluster, off, total)

-- The cluster that `Write` starts in; a file without one gets a chain.
unfoldable pub open_for_write :
    Volume → DirectoryEntry → FileDescriptor → ℕ → Option (Volume × DirectoryEntry × ℕ)
unfolding first_cluster allocate_cluster_chain num_cluster
open_for_write v e fd len =
    if fd.wr_cluster == 0
    then if first_cluster e == 0
      then Option.map
          (λ r. (
            r.0,
            record e {
              first_cluster_low = r.1 % 2 ^ 16;
              first_cluster_high = r.1 / 2 ^ 16 % 2 ^ 16;
            },
            r.1,
          ))
          (allocate_cluster_chain v (num_cluster v len))
      else some (v, e, first_cluster e)
    else some (v, e, fd.wr_cluster)

-- `Write` of `len` bytes of a buffer, which is the memory from its start on: the volume, the entry,
-- the descriptor, and the number returned.
unfoldable pub write :
    Volume
    → DirectoryEntry
    → FileDescriptor
    → (ℕ → ℕ)
    → ℕ
    → Option (Volume × DirectoryEntry × FileDescriptor × ℕ)
unfolding open_for_write write_loop
write v e fd buf len = do
  (v', e', start) ← open_for_write v e fd len
  (v'', cluster, off, total) ← write_loop (suc len) v' buf len start fd.wr_cluster_off 0
  let wr_off = (fd.wr_off + total) % 2 ^ 64
  some (
    v'',
    record e' { file_size = wr_off % 2 ^ 32 },
    record fd { wr_off = wr_off; wr_cluster = cluster; wr_cluster_off = off },
    total,
  )
