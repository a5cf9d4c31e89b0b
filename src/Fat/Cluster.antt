-- ===== src/Fat/Cluster.antt =====
-- `ExtendCluster` and `AllocateClusterChain` of src/kernel/fat.cpp.
use mathlib.Core.Option
use mikanos.Prelude.{ℕ, zero, suc, ◌+◌, ◌-◌, Option, none, some, ◌==◌, ltb, if◌then◌else◌, ◌>>=◌}
use mikanos.Fat.Volume.{Volume, end_of_cluster_chain, is_end_of_cluster_chain, set_fat}

-- The first loop of `ExtendCluster`, to the last cluster of the chain, on fuel.
unfoldable pub find_end : ℕ → (ℕ → ℕ) → ℕ → Option ℕ
find_end zero fat cluster = none
find_end (suc fuel) fat cluster =
    let further = find_end fuel fat (fat cluster) in
    if is_end_of_cluster_chain (fat cluster) then some cluster else further

-- The second loop, with `n` clusters to allocate and `rounds` entries of the table left. `none`: the
-- search runs past the table.
unfoldable pub extend_loop : ℕ → (ℕ → ℕ) → ℕ → ℕ → ℕ → Option ((ℕ → ℕ) × ℕ)
unfolding set_fat
extend_loop rounds fat current candidate zero = some (fat, current)
extend_loop zero fat current candidate (suc n) = none
extend_loop (suc rounds) fat current candidate (suc n) =
    let taken = extend_loop rounds fat current (candidate + 1) (suc n) in
    let free = extend_loop rounds (set_fat fat current candidate) candidate (candidate + 1) n in
    if fat candidate == 0 then free else taken

-- `fat[current] = kEndOfClusterchain`
abbrev pub close_chain : (ℕ → ℕ) × ℕ → (ℕ → ℕ) × ℕ
close_chain (fat, current) = (set_fat fat current end_of_cluster_chain, current)

-- `ExtendCluster`: the table, and the last cluster of the chain.
unfoldable pub extend_cluster : Volume → ℕ → ℕ → Option (Volume × ℕ)
unfolding find_end extend_loop
extend_cluster v eoc_cluster n = do
  last ← find_end v.fat_entries v.fat eoc_cluster
  (fat, current) ← Option.map close_chain (extend_loop (v.fat_entries - 2) v.fat last 2 n)
  some (record v { fat = fat }, current)

-- The loop of `AllocateClusterChain`, with `rounds` entries left.
unfoldable pub find_free : ℕ → (ℕ → ℕ) → ℕ → Option ℕ
find_free zero fat candidate = none
find_free (suc rounds) fat candidate =
    let further = find_free rounds fat (candidate + 1) in
    if fat candidate == 0 then some candidate else further

-- `AllocateClusterChain`: the table, and the first cluster.
unfoldable pub allocate_cluster_chain : Volume → ℕ → Option (Volume × ℕ)
unfolding find_free extend_cluster set_fat
allocate_cluster_chain v n = do
  first ← find_free (v.fat_entries - 2) v.fat 2
  let marked = record v { fat = set_fat v.fat first end_of_cluster_chain }
  if ltb 1 n
      then Option.map (λ r. (r.0, first)) (extend_cluster marked first (n - 1))
      else some (marked, first)
