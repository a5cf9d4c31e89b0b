-- ===== src/Fat/File/Overrun.antt =====
-- `Write` of more than one cluster copies whole clusters, whatever the number of bytes.
use native.Mathlib.Nat.{div-add-mod, mod-lt}
use mikanos.Prelude.{
  ℕ, zero, suc, ◌+◌, ◌-◌, ◌*◌, ◌/◌, ◌%◌, ◌^◌, ◌<◌, ◌≤◌, ◌≡◌, refl, sym, ◌∙◌, ap, subst, min, max,
  true, false, some, List, [], ◌∷◌, arith, ◌==◌, ltb, length, Option-cases, inl, inr, Returns,
  Returns->>=,
}
use mikanos.Fat.Volume.{
  Volume, DirectoryEntry, first_cluster, bytes_per_cluster, next_cluster, end_of_cluster_chain,
}
use mikanos.Fat.Chain.{Chain}
use mikanos.Fat.Grow.{HasRoom}
use mikanos.Fat.Cluster.{allocate_cluster_chain}
use mikanos.Fat.Allocate.{IsAllocated, allocate_cluster_chain_lem}
use mikanos.Fat.File.{
  new_descriptor, num_cluster, copy_in, advance, write_loop, open_for_write, write,
}

-- At the end of a cluster with a next one, `Write` goes there.
advance-next :
    (v : Volume) (c d left : ℕ) (cs : List ℕ)
    → Chain v.fat (next_cluster v.fat c) (d ∷ cs)
    → advance v c (bytes_per_cluster v) left ≡ some (v, d, 0)
unfolding advance
advance-next v c d left cs (e, l, h, k) =
    let full : (bytes_per_cluster v == bytes_per_cluster v) ≡ true = ground arith in
    let leads : (next_cluster v.fat c == end_of_cluster_chain) ≡ false = ground arith in
    rw (full, leads) (rw e refl)

copy_in-fat :
    (v : Volume) (c off : ℕ) (buf : ℕ → ℕ) (total n : ℕ)
    → ((copy_in v c off buf total n).fat ≡ v.fat)
      × (bytes_per_cluster (copy_in v c off buf total n) ≡ bytes_per_cluster v)
unfolding copy_in
copy_in-fat v c off buf total n = (refl, refl)

-- From the end of a cluster, `k` rounds go through `k` clusters of `b` bytes.
whole_rounds :
    (fuel k : ℕ) (v : Volume) (buf : ℕ → ℕ) (len b c total end : ℕ) (cs : List ℕ)
    → bytes_per_cluster v ≡ b
    → b < len
    → k < fuel
    → k ≤ length cs
    → Chain v.fat (next_cluster v.fat c) cs
    → total + k * b ≡ end
    → len ≤ end
    → end < len + b
    → Returns (write_loop fuel v buf len c b total) (λ r. r.3 ≡ end)
unfolding write_loop
whole_rounds zero k v buf len b c total end cs size big p q h e low high = absurd (omega arith)
whole_rounds (suc fuel) zero v buf len b c total end cs size big p q h e low high =
    let ends : ltb total len ≡ false = ground arith in rw ends (omega arith)
whole_rounds (suc fuel) (suc k) v buf len b c total end [] size big p q h e low high =
    absurd (omega arith)
whole_rounds (suc fuel) (suc k) v buf len b c total end (d ∷ cs) size big p q (e', l, f, h) e low
      high =
    let expand : suc k * b ≡ k * b + b = grind arith in
    let goes_on : ltb total len ≡ true = ground (arith, expand) in
    let moved : advance v c b (len - total) ≡ some (v, d, 0) =
      subst (λ x. advance v c x (len - total) ≡ some (v, d, 0)) size
        (advance-next v c d (len - total) cs (e', l, f, h)) in
    let n : min len (bytes_per_cluster v - 0) ≡ b = omega (arith, size) in
    let place : 0 + b ≡ b = omega arith in
    let kept = copy_in-fat v d 0 buf total b in
    rw (goes_on, moved, n)
      (subst
        (λ x.
          Returns (write_loop fuel (copy_in v d 0 buf total b) buf len d x (total + b))
            (λ r. r.3 ≡ end))
        (sym place)
        (whole_rounds fuel k (copy_in v d 0 buf total b) buf len b d (total + b) end cs
          (kept.1 ∙ size) big (omega arith) (omega arith)
          (subst (λ g. Chain g (next_cluster g d) cs) (sym kept.0) h) (omega (arith, expand)) low
          high))

-- The clusters that `Write` asks for hold the bytes, and the last of them is needed.
num_cluster_bounds :
    (v : Volume) (len : ℕ)
    → 0 < bytes_per_cluster v
    → len + bytes_per_cluster v < 2 ^ 64
    → (len ≤ num_cluster v len * bytes_per_cluster v)
      × (num_cluster v len * bytes_per_cluster v < len + bytes_per_cluster v)
unfolding num_cluster
num_cluster_bounds v len h p =
    let b : ℕ = bytes_per_cluster v in
    let x : ℕ = len + b - 1 in
    let exact : x % 2 ^ 64 ≡ x = omega arith in
    let split : b * (x / b) + x % b ≡ x = div-add-mod x b in
    let less : x % b < b = mod-lt x h in
    let turn : b * (x / b) ≡ x / b * b = grind arith in rw exact (omega (arith, split, less, turn))

advance-start :
    (v : Volume) (c left : ℕ) → 0 < bytes_per_cluster v → advance v c 0 left ≡ some (v, c, 0)
unfolding advance
advance-start v c left h =
    let inside : (0 == bytes_per_cluster v) ≡ false = ground arith in rw inside refl

-- The first round, from the start of a cluster.
first_round :
    (v : Volume) (buf : ℕ → ℕ) (len b m c end : ℕ) (cs : List ℕ)
    → bytes_per_cluster v ≡ b
    → 0 < b
    → b < len
    → m ≤ length cs
    → Chain v.fat (next_cluster v.fat c) cs
    → b + m * b ≡ end
    → len ≤ end
    → end < len + b
    → Returns (write_loop (suc len) v buf len c 0 0) (λ r. r.3 ≡ end)
unfolding write_loop
first_round v buf len b m c end cs size some_size big q h e low high =
    let starts : ltb 0 len ≡ true = ground arith in
    let n : min len (bytes_per_cluster v - 0) ≡ b = omega (arith, size) in
    let place : 0 + b ≡ b = omega arith in
    let kept = copy_in-fat v c 0 buf 0 b in
    let expand : m ≤ m * b = grind arith in
    let enough : m < len = omega (arith, expand) in
    rw (starts, advance-start v c (len - 0) (omega (arith, size)), n)
      (subst (λ x. Returns (write_loop len (copy_in v c 0 buf 0 b) buf len c x x) (λ r. r.3 ≡ end))
        (sym place)
        (whole_rounds len m (copy_in v c 0 buf 0 b) buf len b c b end cs (kept.1 ∙ size) big enough
          q (subst (λ g. Chain g (next_cluster g c) cs) (sym kept.0) h) e low high))

overrun-loop :
    (v : Volume) (buf : ℕ → ℕ) (len n : ℕ) (a : Volume × ℕ) (cs : List ℕ)
    → n ≡ num_cluster v len
    → 0 < bytes_per_cluster v
    → bytes_per_cluster v < len
    → len + bytes_per_cluster v < 2 ^ 64
    → (k : IsAllocated v n a) → k.clusters ≡ cs
    → Returns (write_loop (suc len) a.0 buf len a.1 0 0) (λ r. r.3 ≡ n * bytes_per_cluster v)
overrun-loop v buf len n a [] e some_size big fits k e' =
    absurd (omega (arith, k.size, ap length e'))
overrun-loop v buf len n a (c ∷ cs) e some_size big fits k e' =
    let b : ℕ = bytes_per_cluster v in
    let bounds = num_cluster_bounds v len some_size fits in
    let low : len ≤ n * b = subst (λ x. len ≤ x * b) (sym e) bounds.0 in
    let high : n * b < len + b = subst (λ x. x * b < len + b) (sym e) bounds.1 in
    let some_clusters : 0 < n = grind (arith, low, big) in
    let chain : Chain a.0.fat a.1 (c ∷ cs) = subst (λ x. Chain a.0.fat a.1 x) e' k.chain in
    let expand : b + (n - 1) * b ≡ n * b = grind (arith, some_clusters) in
    first_round a.0 buf len b (n - 1) a.1 (n * b) cs (ap bytes_per_cluster k.only_fat) some_size big
      (omega (arith, k.size, ap length e', some_clusters))
      (subst (λ x. Chain a.0.fat (next_cluster a.0.fat x) cs) (sym chain.0) chain.3) expand low high

-- `Write` of more bytes than a cluster of at least one byte holds, with sums that fit 64 bits, to
-- a file without a cluster, through a new descriptor, in a table with room for its chain, is
-- defined and returns the size of all clusters of the chain, where it was asked for `len` bytes.
pub write_overrun_lem :
    (v : Volume) (e : DirectoryEntry) (buf : ℕ → ℕ) (len : ℕ)
    → first_cluster e ≡ 0
    → 0 < bytes_per_cluster v
    → bytes_per_cluster v < len
    → len + bytes_per_cluster v < 2 ^ 64
    → HasRoom v (max 1 (num_cluster v len))
    → Returns
        (write v e new_descriptor buf len)
        (λ r. r.3 ≡ num_cluster v len * bytes_per_cluster v)
unfolding write open_for_write
write_overrun_lem v e buf len none_yet some_size big fits room =
    let n : ℕ = num_cluster v len in
    elim (Option-cases (allocate_cluster_chain v n)) [
      | inl fails ↦
          absurd
            (subst (λ o. Returns o (IsAllocated v n)) fails (allocate_cluster_chain_lem v n room))
      | inr (a, e') ↦
          let k =
            subst (λ o. Returns o (IsAllocated v n)) e' (allocate_cluster_chain_lem v n room) in
          rw (none_yet, e')
            (Returns->>= (write_loop (suc len) a.0 buf len a.1 0 0) _
              (λ r. r.3 ≡ n * bytes_per_cluster v) _
              (overrun-loop v buf len n a k.clusters refl some_size big fits k refl) (λ r t. t))
    ]
