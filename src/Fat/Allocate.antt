-- ===== src/Fat/Allocate.antt =====
-- `AllocateClusterChain`: a chain of free clusters, beside the chains that there are.
use mikanos.Prelude.{
  ℕ, zero, suc, ◌+◌, ◌-◌, ◌%◌, ◌^◌, ◌<◌, ◌≤◌, ◌≡◌, refl, List, [], ◌∷◌, max, arith, ◌==◌, ltb,
  length, count, Returns, Returns_mono, Returns->>=, Returns-map, Bool-cases, inl, inr,
}
use mikanos.Fat.Volume.{Volume, end_of_cluster_chain, next_cluster, set_fat}
use mikanos.Fat.Cluster.{extend_cluster, find_free, allocate_cluster_chain}
use mikanos.Fat.Chain.{Chain, Chain-frame, Chain-used}
use mikanos.Fat.Extend.{count_free, count_free-set}
use mikanos.Fat.Grow.{HasRoom, IsGrown, extend_cluster_lem}

-- The first free cluster.
record IsFirstFree (fat : ℕ → ℕ) (candidate rounds c : ℕ) : Type 0 where
  free : fat c ≡ 0
  from : candidate ≤ c
  below : c < candidate + rounds
  counted :
      (value : ℕ)
      → 0 < value % 2 ^ 32
      → count_free (set_fat fat c value) candidate rounds + 1 ≡ count_free fat candidate rounds

find_free-IsFirstFree :
    (rounds : ℕ) (fat : ℕ → ℕ) (candidate : ℕ)
    → 0 < count_free fat candidate rounds
    → Returns (find_free rounds fat candidate) (IsFirstFree fat candidate rounds)
unfolding find_free count_free set_fat
find_free-IsFirstFree zero fat candidate h = omega arith
find_free-IsFirstFree (suc rounds) fat candidate h = elim (Bool-cases (fat candidate == 0)) [
  | inl here ↦ rw here (record {
    free = ground arith;
    from = omega arith;
    below = omega arith;
    counted = λ value p.
        ground
          (arith, count_free-set fat (candidate + 1) rounds candidate value p (inr (omega arith)));
  })
  | inr used ↦ rw used (
      Returns_mono (find_free rounds fat (candidate + 1)) (IsFirstFree fat (candidate + 1) rounds) _
        (λ c k. record {
          free = k.free;
          from = omega (arith, k.from);
          below = omega (arith, k.below);
          counted = λ value p. ground (arith, k.counted value p, k.from);
        })
        (find_free-IsFirstFree rounds fat (candidate + 1) (ground arith)))
]

-- How a call of `AllocateClusterChain` ends.
pub record IsAllocated (v : Volume) (n : ℕ) (r : Volume × ℕ) : Type 0 where
  pub clusters : List ℕ
  pub size : length clusters ≡ max 1 n
  pub chain : Chain r.0.fat r.1 clusters
  pub were_free : (x : ℕ) → 0 < count x clusters → (v.fat x ≡ 0) × (2 ≤ x) × (x < v.fat_entries)
  pub other_chains : (e : ℕ) (es : List ℕ) → Chain v.fat e es → Chain r.0.fat e es
  pub only_fat : r.0 ≡ record v { fat = r.0.fat }

-- The table with cluster `first` as a chain of its own.
abbrev marked : Volume → ℕ → Volume
marked v first = record v { fat = set_fat v.fat first end_of_cluster_chain }

module _ (v : Volume) (first : ℕ) (fits : v.fat_entries ≤ 0x0ffffff8) (free : v.fat first ≡ 0)
    (low : 2 ≤ first) (below : first < v.fat_entries) where
  marked-Chain : Chain (marked v first).fat first (first ∷ [])
  unfolding set_fat next_cluster
  marked-Chain = ground arith

  marked_other : (e : ℕ) (es : List ℕ) → Chain v.fat e es → Chain (marked v first).fat e es
  unfolding set_fat
  marked_other e es k =
      Chain-frame v.fat (marked v first).fat e es k
        (λ x p. ground (arith, Chain-used v.fat e es k x p))

  apart : (e : ℕ) (es : List ℕ) → Chain v.fat e es → count first es ≡ 0
  apart e es k = elim (Bool-cases (ltb 0 (count first es))) [
    | inl inside ↦ absurd (Chain-used v.fat e es k first (ground arith) free)
    | inr outside ↦ ground arith
  ]

  one-IsAllocated : (n : ℕ) → n ≤ 1 → IsAllocated v n (marked v first, first)
  one-IsAllocated n h = record {
    clusters = first ∷ [];
    size = omega arith;
    chain = marked-Chain;
    were_free = λ x p. ground arith;
    other_chains = marked_other;
    only_fat = refl;
  }

  more-IsAllocated :
      (n : ℕ) (r : Volume × ℕ)
      → 1 < n
      → IsGrown (marked v first) first first [] (n - 1) r
      → IsAllocated v n (r.0, first)
  unfolding set_fat
  more-IsAllocated n r h g = record {
    clusters = first ∷ g.new;
    size = omega (arith, g.size);
    chain = g.chain;
    were_free = λ x p. ground (arith, g.were_free x);
    other_chains = λ e es k. g.other_chains e es (marked_other e es k) (apart e es k);
    only_fat = g.only_fat;
  }

-- `AllocateClusterChain` in a table with room for `n` clusters, and for one if `n` is 0, is defined. It
-- returns the start of a chain of `n` clusters, or of one if `n` is 0, all of them free before; the
-- chains that there are stay as they are, and nothing but the table changes.
pub allocate_cluster_chain_lem :
    (v : Volume) (n : ℕ)
    → HasRoom v (max 1 n)
    → Returns (allocate_cluster_chain v n) (IsAllocated v n)
unfolding allocate_cluster_chain
allocate_cluster_chain_lem v n room =
    Returns->>= (find_free (v.fat_entries - 2) v.fat 2) _ (IsFirstFree v.fat 2 (v.fat_entries - 2))
      (IsAllocated v n)
      (find_free-IsFirstFree (v.fat_entries - 2) v.fat 2 (omega (arith, room.room)))
      (λ first f. elim (Bool-cases (ltb 1 n)) [
        | inl many ↦ rw many (
            Returns-map (extend_cluster (marked v first) first (n - 1)) (λ r. (r.0, first))
              (IsGrown (marked v first) first first [] (n - 1)) (IsAllocated v n)
              (extend_cluster_lem (marked v first) first first [] (n - 1)
                (marked-Chain v first room.fits f.free f.from (omega (arith, f.below, room.starts)))
                (omega (arith, room.starts, f.below, f.from))
                (record {
                  starts = room.starts;
                  fits = room.fits;
                  room = omega (arith, f.counted end_of_cluster_chain (omega arith), room.room);
                }))
              (λ r g.
                more-IsAllocated v first room.fits f.free f.from
                  (omega (arith, f.below, room.starts)) n r (ground arith) g))
        | inr few ↦ rw few (
            one-IsAllocated v first room.fits f.free f.from (omega (arith, f.below, room.starts)) n
              (ground arith))
      ])
