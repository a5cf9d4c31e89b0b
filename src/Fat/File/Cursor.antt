-- ===== src/Fat/File/Cursor.antt =====
-- `Read` and `Load`: a descriptor is a cursor over the bytes of the file.
use mikanos.Prelude.{
  ℕ, zero, suc, ◌+◌, ◌-◌, ◌%◌, ◌^◌, ◌<◌, ◌≤◌, ◌≡◌, refl, sym, ◌∙◌, ap, subst, min, true, false,
  List, [], ◌∷◌, ◌++◌, arith, ◌==◌, leb, length, take, drop, length-append, take-append,
  drop-append, drop-drop, length-take, length-drop, Bool-cases, inl, inr, Returns, Returns-map,
  Returns->>=,
}
use mikanos.Fat.Volume.{Volume, DirectoryEntry, first_cluster, bytes_per_cluster, next_cluster}
use mikanos.Fat.Chain.{Chain}
use mikanos.Fat.File.{
  FileDescriptor, new_descriptor, slice, read_loop, read_cluster, read, seek, load,
}
use mikanos.Fat.File.Content.{
  length-slice, contents, Remains, next_place, IsAdvanced, Remains-advance, Chain-Remains,
}

-- How the loop of `Read` ends: `left` of the bytes to come have been read.
record IsRead (v : Volume) (bytes : List ℕ) (left : ℕ) (r : List ℕ × ℕ × ℕ) : Type 0 where
  data_read : r.0 ≡ take left bytes
  remains : Remains v r.1 r.2 (drop left bytes)

read_loop-IsRead :
    (fuel : ℕ) (v : Volume) (c off left : ℕ) (bytes : List ℕ)
    → left < fuel
    → Remains v c off bytes
    → left ≤ length bytes
    → Returns (read_loop fuel v c off left) (IsRead v bytes left)
unfolding read_loop
read_loop-IsRead zero v c off left bytes h k p = absurd (omega arith)
read_loop-IsRead (suc fuel) v c off zero bytes h k p = record { data_read = refl; remains = k }
read_loop-IsRead (suc fuel) v c off (suc left) bytes h k p =
    let n : ℕ = min (suc left) (bytes_per_cluster v - off) in
    let a = Remains-advance v c off n bytes k (omega (arith, p)) (omega arith) in
    let size : length (slice (v.sector c) off n) ≡ n = length-slice (v.sector c) off n in
    let whole : length bytes ≡ n + length a.more =
      ap length a.splits ∙ length-append (slice (v.sector c) off n) a.more ∙ omega (arith, size) in
    let more : (suc left == 0) ≡ false = ground arith in
    rw more (
      Returns-map
        (read_loop fuel v (next_place v c off n).0 (next_place v c off n).1 (suc left - n)) _
        (IsRead v a.more (suc left - n)) (IsRead v bytes (suc left))
        (read_loop-IsRead fuel v (next_place v c off n).0 (next_place v c off n).1 (suc left - n)
          a.more (omega (arith, k.inside)) a.remains (omega (arith, whole, p)))
        (λ r t. record {
          data_read =
              ap (λ x. slice (v.sector c) off n ++ x) t.data_read
              ∙ sym (
                  take-append (suc left) (suc left - n) (slice (v.sector c) off n) a.more
                    (omega (arith, size)))
              ∙ ap (take (suc left)) (sym a.splits);
          remains =
              subst (λ x. Remains v r.1 r.2 x)
                (sym (
                  ap (drop (suc left)) a.splits
                  ∙ drop-append (suc left) (suc left - n) (slice (v.sector c) off n) a.more
                      (omega (arith, size))))
                t.remains;
        }))

-- The bytes that a chain of clusters holds from the entry on; the file is the first of them.
pub record IsFile (v : Volume) (e : DirectoryEntry) (bytes : List ℕ) : Type 0 where
  pub clusters : List ℕ
  pub chain : Chain v.fat (first_cluster e) clusters
  pub stored : bytes ≡ contents v clusters
  pub size : e.file_size ≤ length bytes
  pub fits : e.file_size < 2 ^ 32
  pub clustered : 0 < bytes_per_cluster v

-- The descriptor stands at `rd_off` of the file.
pub record IsCursor (v : Volume) (e : DirectoryEntry) (bytes : List ℕ) (fd : FileDescriptor)
    : Type 0 where
  pub inside : fd.rd_off ≤ e.file_size
  pub remains : Remains v (read_cluster e fd) fd.rd_cluster_off (drop fd.rd_off bytes)

pub new_descriptor-IsCursor :
    (v : Volume) (e : DirectoryEntry) (bytes : List ℕ)
    → IsFile v e bytes
    → IsCursor v e bytes new_descriptor
new_descriptor-IsCursor v e bytes k = record {
  inside = omega arith;
  remains =
      subst (λ x. Remains v (first_cluster e) 0 x) (sym k.stored)
        (Chain-Remains v (first_cluster e) k.clusters k.clustered k.chain);
}

-- How a call of `Read` for `len` bytes ends: it gives the bytes of the file that are left, `len` at
-- most, and the cursor is behind them.
pub record IsReadTo (v : Volume) (e : DirectoryEntry) (bytes : List ℕ) (fd : FileDescriptor)
    (len : ℕ) (r : FileDescriptor × List ℕ) : Type 0 where
  pub data_read : r.1 ≡ take (min len (e.file_size - fd.rd_off)) (drop fd.rd_off bytes)
  pub total : length r.1 ≡ min len (e.file_size - fd.rd_off)
  pub moved : r.0.rd_off ≡ fd.rd_off + length r.1
  pub cursor : IsCursor v e bytes r.0
  pub same_writer :
      (r.0.wr_off ≡ fd.wr_off)
      × (r.0.wr_cluster ≡ fd.wr_cluster)
      × (r.0.wr_cluster_off ≡ fd.wr_cluster_off)

-- The cluster where a place is is never 0, which stands for no cluster.
Chain-positive : (v : Volume) (c : ℕ) (cs : List ℕ) → Chain v.fat c cs → (c == 0) ≡ false
Chain-positive v c [] k = ground arith
Chain-positive v c (d ∷ cs) (same, l, f, k) = ground arith

-- For a file whose bytes stand in its chain of clusters, `Read` through a cursor is defined. It gives
-- the bytes that follow in the file, `len` at most, and the cursor is behind them.
pub read_lem :
    (v : Volume) (e : DirectoryEntry) (bytes : List ℕ) (fd : FileDescriptor) (len : ℕ)
    → IsFile v e bytes
    → IsCursor v e bytes fd
    → Returns (read v e fd len) (IsReadTo v e bytes fd len)
unfolding read
read_lem v e bytes fd len k c =
    let n : ℕ = min len (e.file_size - fd.rd_off) in
    let exact : min len ((e.file_size + 2 ^ 64 - fd.rd_off) % 2 ^ 64) ≡ n =
      omega (arith, k.fits, c.inside) in
    let left : length (drop fd.rd_off bytes) ≡ length bytes - fd.rd_off =
      length-drop fd.rd_off bytes in
    rw exact (
      Returns-map (read_loop (suc n) v (read_cluster e fd) fd.rd_cluster_off n) _
        (IsRead v (drop fd.rd_off bytes) n) (IsReadTo v e bytes fd len)
        (read_loop-IsRead (suc n) v (read_cluster e fd) fd.rd_cluster_off n (drop fd.rd_off bytes)
          (omega arith) c.remains (omega (arith, left, k.size, c.inside)))
        (λ r t.
          let total : length r.0 ≡ n =
            ap length t.data_read
            ∙ length-take n (drop fd.rd_off bytes)
            ∙ omega (arith, left, k.size, c.inside) in
          let moved : (fd.rd_off + length r.0) % 2 ^ 64 ≡ fd.rd_off + length r.0 =
            omega (arith, total, c.inside, k.fits) in
          record {
            data_read = t.data_read;
            total = total;
            moved = moved;
            cursor = record {
              inside = omega (arith, total, moved, c.inside);
              remains =
                  rw (Chain-positive v r.1 t.remains.clusters t.remains.chain, moved)
                    (subst (λ x. Remains v r.1 r.2 x)
                      (drop-drop n fd.rd_off (fd.rd_off + length r.0) bytes (omega (arith, total)))
                      t.remains);
            };
            same_writer = (refl, refl, refl);
          }))

-- The bytes behind `n` bytes of the cluster.
advance-drop :
    (v : Volume) (c off n m : ℕ) (bytes : List ℕ) (a : IsAdvanced v c off n bytes)
    → n ≤ m
    → (drop m bytes ≡ drop (m - n) a.more) × (length bytes ≡ n + length a.more)
advance-drop v c off n m bytes a h =
    let size : length (slice (v.sector c) off n) ≡ n = length-slice (v.sector c) off n in
    (
      ap (drop m) a.splits
          ∙ drop-append m (m - n) (slice (v.sector c) off n) a.more (omega (arith, size)),
      ap length a.splits ∙ length-append (slice (v.sector c) off n) a.more ∙ omega (arith, size),
    )

-- The loop of `Load` finds the place of an offset.
seek-Remains :
    (fuel : ℕ) (v : Volume) (c offset : ℕ) (bytes : List ℕ)
    → offset < fuel
    → Remains v c 0 bytes
    → offset < length bytes
    → Returns (seek fuel v c offset) (λ r. Remains v r.0 r.1 (drop offset bytes))
unfolding seek
seek-Remains zero v c offset bytes p k q = absurd (omega arith)
seek-Remains (suc fuel) v c offset bytes p k q =
    elim (Bool-cases (leb (bytes_per_cluster v) offset)) [
      | inl further ↦
          let a =
            Remains-advance v c 0 (bytes_per_cluster v) bytes k (omega (arith, q)) (omega arith) in
          let d = advance-drop v c 0 (bytes_per_cluster v) offset bytes a (ground arith) in
          let full : (0 + bytes_per_cluster v == bytes_per_cluster v) ≡ true = ground arith in
          rw (further, d.0)
            (seek-Remains fuel v (next_cluster v.fat c) (offset - bytes_per_cluster v) a.more
              (ground (arith, k.inside)) (rw full at a.remains) (ground (arith, d.1, q)))
      | inr here ↦
          let a = Remains-advance v c 0 offset bytes k (omega (arith, q)) (ground arith) in
          let d = advance-drop v c 0 offset offset bytes a (omega arith) in
          let short : (0 + offset == bytes_per_cluster v) ≡ false = ground arith in
          let place : 0 + offset ≡ offset = omega arith in
          let none_left : offset - offset ≡ 0 = omega arith in
          rw (here, d.0, none_left) (rw (short, place) at a.remains)
    ]

-- For a file whose bytes stand in its chain of clusters, `Load` from an offset within the file is
-- defined, and gives the bytes from there on, `len` at most.
pub load_lem :
    (v : Volume) (e : DirectoryEntry) (bytes : List ℕ) (len offset : ℕ)
    → IsFile v e bytes
    → offset < e.file_size
    → Returns
        (load v e len offset)
        (λ r. r ≡ take (min len (e.file_size - offset)) (drop offset bytes))
unfolding load
load_lem v e bytes len offset k h =
    Returns->>= (seek (suc offset) v (first_cluster e) offset) _
      (λ r. Remains v r.0 r.1 (drop offset bytes)) _
      (seek-Remains (suc offset) v (first_cluster e) offset bytes (omega arith)
        (new_descriptor-IsCursor v e bytes k).remains (omega (arith, k.size)))
      (λ r p.
        let fd : FileDescriptor = record new_descriptor {
          rd_off = offset;
          rd_cluster = r.0;
          rd_cluster_off = r.1;
        } in
        Returns-map (read v e fd len) (λ x. x.1) (IsReadTo v e bytes fd len) _
          (read_lem v e bytes fd len k (record {
            inside = omega (arith, h);
            remains = rw (Chain-positive v r.0 p.clusters p.chain) p;
          }))
          (λ x t. t.data_read))
