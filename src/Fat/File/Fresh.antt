-- ===== src/Fat/File/Fresh.antt =====
-- `Write` to a file that has no cluster yet, of at most one cluster.
use mathlib.Core.List.{append_assoc, append-nil}
use mikanos.Prelude.{
  ℕ, zero, suc, ◌+◌, ◌-◌, ◌/◌, ◌%◌, ◌^◌, ◌<◌, ◌≤◌, ◌≡◌, ◌≢◌, refl, sym, ◌∙◌, ap, subst, min, max,
  true, false, some, List, [], ◌∷◌, ◌++◌, ◌&&◌, arith, ◌==◌, leb, ltb, ◌>>=◌, length, take, count,
  length-append, take-append, Bool-cases, Option-cases, inl, inr, Returns, Returns_mono,
}
use mikanos.Fat.Volume.{Volume, DirectoryEntry, first_cluster, bytes_per_cluster}
use mikanos.Fat.Chain.{Chain, Chain-used}
use mikanos.Fat.Grow.{HasRoom}
use mikanos.Fat.Cluster.{allocate_cluster_chain}
use mikanos.Fat.Allocate.{IsAllocated, allocate_cluster_chain_lem}
use mikanos.Fat.File.{
  FileDescriptor, new_descriptor, slice, read, num_cluster, copy_in, advance, write_loop,
  open_for_write, write,
}
use mikanos.Fat.File.Content.{length-slice, slice-add, contents}
use mikanos.Fat.File.Cursor.{IsFile, IsReadTo, read_lem, new_descriptor-IsCursor}

-- The bytes of a cluster after `len` bytes of the buffer have been copied to its start.
slice-copy_in :
    (v : Volume) (c : ℕ) (buf : ℕ → ℕ) (len i n : ℕ)
    → i + n ≤ len
    → slice ((copy_in v c 0 buf 0 len).sector c) i n ≡ slice buf i n
unfolding copy_in slice
slice-copy_in v c buf len i zero h = refl
slice-copy_in v c buf len i (suc n) h =
    let here : (c == c && (leb 0 i && ltb i (0 + len))) ≡ true = ground arith in
    let place : 0 + (i - 0) ≡ i = omega arith in
    rw (here, place) (ap (◌∷◌ (buf i)) (slice-copy_in v c buf len (i + 1) n (omega arith)))

slice-other :
    (v : Volume) (c d : ℕ) (buf : ℕ → ℕ) (len i n : ℕ)
    → c ≢ d
    → slice ((copy_in v c 0 buf 0 len).sector d) i n ≡ slice (v.sector d) i n
unfolding copy_in slice
slice-other v c d buf len i zero h = refl
slice-other v c d buf len i (suc n) h =
    let away : (d == c && (leb 0 i && ltb i (0 + len))) ≡ false = ground arith in
    rw away (ap (◌∷◌ (v.sector d i)) (slice-other v c d buf len (i + 1) n h))

copy_in-size :
    (v : Volume) (c : ℕ) (buf : ℕ → ℕ) (len : ℕ)
    → bytes_per_cluster (copy_in v c 0 buf 0 len) ≡ bytes_per_cluster v
unfolding copy_in
copy_in-size v c buf len = refl

-- Clusters other than `c` hold what they held.
contents-copy_in :
    (v : Volume) (c : ℕ) (buf : ℕ → ℕ) (len : ℕ) (cs : List ℕ)
    → count c cs ≡ 0
    → contents (copy_in v c 0 buf 0 len) cs ≡ contents v cs
unfolding contents
contents-copy_in v c buf len [] h = refl
contents-copy_in v c buf len (d ∷ cs) h =
    ap
      (λ n. slice ((copy_in v c 0 buf 0 len).sector d) 0 n ++ contents (copy_in v c 0 buf 0 len) cs)
      (copy_in-size v c buf len)
    ∙ ap (λ s. s ++ contents (copy_in v c 0 buf 0 len) cs)
        (slice-other v c d buf len 0 (bytes_per_cluster v) (ground arith))
    ∙ ap (λ s. slice (v.sector d) 0 (bytes_per_cluster v) ++ s)
        (contents-copy_in v c buf len cs (ground arith))

contents-fat :
    (v : Volume) (fat : ℕ → ℕ) (cs : List ℕ) → contents (record v { fat = fat }) cs ≡ contents v cs
unfolding contents
contents-fat v fat [] = refl
contents-fat v fat (d ∷ cs) =
    ap (λ s. slice (v.sector d) 0 (bytes_per_cluster v) ++ s) (contents-fat v fat cs)

-- The loop of `Write` from the start of a cluster that holds all the bytes.
write_loop-once :
    (v : Volume) (c : ℕ) (buf : ℕ → ℕ) (m : ℕ)
    → suc m ≤ bytes_per_cluster v
    → write_loop (suc (suc m)) v buf (suc m) c 0 0
      ≡ some (copy_in v c 0 buf 0 (suc m), c, suc m, suc m)
unfolding write_loop advance
write_loop-once v c buf m h =
    let starts : ltb 0 (suc m) ≡ true = ground arith in
    let inside : (0 == bytes_per_cluster v) ≡ false = ground arith in
    let all : min (suc m) (bytes_per_cluster v - 0) ≡ suc m = omega arith in
    let total : 0 + suc m ≡ suc m = omega arith in
    let ends : ltb (suc m) (suc m) ≡ false = ground arith in
    rw (starts, inside, all, total, ends) refl

-- The chain that the new file gets, and its entry.
abbrev placed : DirectoryEntry → ℕ → ℕ → DirectoryEntry
placed e c len = record e {
  first_cluster_low = c % 2 ^ 16;
  first_cluster_high = c / 2 ^ 16 % 2 ^ 16;
  file_size = len % 2 ^ 32;
}

placed-first_cluster :
    (e : DirectoryEntry) (c len : ℕ) → c < 2 ^ 28 → first_cluster (placed e c len) ≡ c
unfolding first_cluster
placed-first_cluster e c len h = omega arith

-- How a first `Write` of `len` bytes ends: it returns `len`, a new descriptor reads the bytes of the
-- buffer, and every other file holds what it held.
pub record IsWritten (v : Volume) (buf : ℕ → ℕ) (len : ℕ)
    (r : Volume × DirectoryEntry × FileDescriptor × ℕ) : Type 0 where
  pub total : r.3 ≡ len
  pub size : r.1.file_size ≡ len
  pub reads :
      (more : ℕ)
      → len ≤ more
      → Returns (read r.0 r.1 new_descriptor more) (λ x. x.1 ≡ slice buf 0 len)
  pub other_files : (f : DirectoryEntry) (bytes : List ℕ) → IsFile v f bytes → IsFile r.0 f bytes

module _ (v w : Volume) (e : DirectoryEntry) (buf : ℕ → ℕ) (len c : ℕ) (cs : List ℕ)
    (only_fat : w ≡ record v { fat = w.fat }) (chain : Chain w.fat c (c ∷ cs))
    (some_bytes : 0 < len) (fits : len ≤ bytes_per_cluster v) (small : len < 2 ^ 32)
    (were_free : (x : ℕ) → 0 < count x (c ∷ cs) → v.fat x ≡ 0)
    (other_chains : (f : ℕ) (fs : List ℕ) → Chain v.fat f fs → Chain w.fat f fs) where
  abbrev after : Volume
  after = copy_in w c 0 buf 0 len

  same_size : bytes_per_cluster after ≡ bytes_per_cluster v
  same_size = copy_in-size w c buf len ∙ ap bytes_per_cluster only_fat

  after-fat : after.fat ≡ w.fat
  unfolding copy_in
  after-fat = refl

  written-IsFile : IsFile after (placed e c len) (contents after (c ∷ cs))
  unfolding contents
  written-IsFile = record {
    clusters = c ∷ cs;
    chain =
        subst (λ x. Chain after.fat x (c ∷ cs))
          (sym (placed-first_cluster e c len (omega (arith, chain.2))))
          (subst (λ f. Chain f c (c ∷ cs)) (sym after-fat) chain);
    stored = refl;
    size = omega (
      arith,
      length-append (slice (after.sector c) 0 (bytes_per_cluster after)) (contents after cs),
      length-slice (after.sector c) 0 (bytes_per_cluster after),
      same_size,
    );
    fits = omega arith;
    clustered = omega (arith, same_size);
  }

  written_bytes : take len (contents after (c ∷ cs)) ≡ slice buf 0 len
  unfolding contents
  written_bytes =
      let more : ℕ = bytes_per_cluster after - len in
      ap (λ n. take len (slice (after.sector c) 0 n ++ contents after cs))
        (omega (arith, same_size))
      ∙ ap (λ s. take len (s ++ contents after cs))
          (slice-add (after.sector c) 0 len more len (omega arith))
      ∙ ap (take len) (
          append_assoc (slice (after.sector c) 0 len) (slice (after.sector c) len more)
            (contents after cs))
      ∙ take-append len 0 (slice (after.sector c) 0 len)
          (slice (after.sector c) len more ++ contents after cs)
          (omega (arith, length-slice (after.sector c) 0 len))
      ∙ append-nil (slice (after.sector c) 0 len)
      ∙ slice-copy_in w c buf len 0 len (omega arith)

  absent : (f : DirectoryEntry) (fs : List ℕ) → Chain v.fat (first_cluster f) fs → count c fs ≡ 0
  absent f fs k = elim (Bool-cases (ltb 0 (count c fs))) [
    | inl shared ↦
        absurd
          (Chain-used v.fat (first_cluster f) fs k c (ground arith) (were_free c (ground arith)))
    | inr apart ↦ ground arith
  ]

  others-IsFile : (f : DirectoryEntry) (bytes : List ℕ) → IsFile v f bytes → IsFile after f bytes
  others-IsFile f bytes k = record {
    clusters = k.clusters;
    chain =
        subst (λ g. Chain g (first_cluster f) k.clusters) (sym after-fat)
          (other_chains (first_cluster f) k.clusters k.chain);
    stored =
        k.stored
        ∙ sym (
            contents-copy_in w c buf len k.clusters (absent f k.clusters k.chain)
            ∙ ap (λ x. contents x k.clusters) only_fat
            ∙ contents-fat v w.fat k.clusters);
    size = k.size;
    fits = k.fits;
    clustered = omega (arith, same_size, k.clustered);
  }

  copied-IsWritten : (fd : FileDescriptor) → IsWritten v buf len (after, placed e c len, fd, len)
  copied-IsWritten fd = record {
    total = refl;
    size = omega arith;
    reads = λ more h.
        Returns_mono (read after (placed e c len) new_descriptor more)
          (IsReadTo after (placed e c len) (contents after (c ∷ cs)) new_descriptor more) _
          (λ x t.
            t.data_read ∙ ap (λ n. take n (contents after (c ∷ cs))) (omega arith) ∙ written_bytes)
          (read_lem after (placed e c len) (contents after (c ∷ cs)) new_descriptor more
            written-IsFile
            (new_descriptor-IsCursor after (placed e c len) (contents after (c ∷ cs))
              written-IsFile));
    other_files = others-IsFile;
  }

fresh-IsWritten :
    (v : Volume) (e : DirectoryEntry) (buf : ℕ → ℕ) (m n : ℕ) (a : Volume × ℕ) (cs : List ℕ)
    → suc m ≤ bytes_per_cluster v
    → suc m < 2 ^ 32
    → (k : IsAllocated v n a) → k.clusters ≡ cs
    → Returns
        (write_loop (suc (suc m)) a.0 buf (suc m) a.1 0 0 >>= λ r. some (
          r.0,
          record e {
            first_cluster_low = a.1 % 2 ^ 16;
            first_cluster_high = a.1 / 2 ^ 16 % 2 ^ 16;
            file_size = (0 + r.3) % 2 ^ 64 % 2 ^ 32;
          },
          record new_descriptor {
            wr_off = (0 + r.3) % 2 ^ 64;
            wr_cluster = r.1;
            wr_cluster_off = r.2;
          },
          r.3,
        ))
        (IsWritten v buf (suc m))
fresh-IsWritten v e buf m n a [] h small k e' = absurd (omega (arith, k.size, ap length e'))
fresh-IsWritten v e buf m n a (c ∷ cs) h small k e' =
    let chain : Chain a.0.fat a.1 (c ∷ cs) = subst (λ x. Chain a.0.fat a.1 x) e' k.chain in
    let start : a.1 ≡ c = chain.0 in
    let own : Chain a.0.fat c (c ∷ cs) = (refl, chain.1, chain.2, chain.3) in
    let size : bytes_per_cluster a.0 ≡ bytes_per_cluster v = ap bytes_per_cluster k.only_fat in
    let low : (0 + suc m) % 2 ^ 64 ≡ suc m = omega arith in
    rw (start, write_loop-once a.0 c buf m (omega (arith, size)), low)
      (copied-IsWritten v a.0 e buf (suc m) c cs k.only_fat own (omega arith) h small
        (λ x p. (k.were_free x (subst (λ l. 0 < count x l) (sym e') p)).0) k.other_chains _)

-- `Write` of at least one byte and at most one cluster, and of fewer than 2^32 bytes, to a file
-- without a cluster, through a new descriptor, in a table with room for its chain, is defined. It
-- returns their number; a new descriptor that reads at least as many gets the bytes back, and
-- every other file holds what it held.
pub write_fresh_lem :
    (v : Volume) (e : DirectoryEntry) (buf : ℕ → ℕ) (len : ℕ)
    → first_cluster e ≡ 0
    → 0 < len
    → len ≤ bytes_per_cluster v
    → len < 2 ^ 32
    → HasRoom v (max 1 (num_cluster v len))
    → Returns (write v e new_descriptor buf len) (IsWritten v buf len)
unfolding write open_for_write
write_fresh_lem v e buf zero none_yet h fits small room = absurd (omega arith)
write_fresh_lem v e buf (suc m) none_yet h fits small room =
    let n : ℕ = num_cluster v (suc m) in
    elim (Option-cases (allocate_cluster_chain v n)) [
      | inl fails ↦
          absurd
            (subst (λ o. Returns o (IsAllocated v n)) fails (allocate_cluster_chain_lem v n room))
      | inr (a, e') ↦
          let k =
            subst (λ o. Returns o (IsAllocated v n)) e' (allocate_cluster_chain_lem v n room) in
          rw (none_yet, e') (fresh-IsWritten v e buf m n a k.clusters fits small k refl)
    ]
