-- ===== src/Fat/Grow.antt =====
-- Whole chains: what `ExtendCluster` and `AllocateClusterChain` make of a volume.
use mathlib.Core.Option
use mikanos.Prelude.{
  ℕ, zero, suc, ◌-◌, ◌<◌, ◌≤◌, ◌≡◌, refl, sym, ◌∙◌, subst, some, List, [], ◌∷◌, ◌++◌, arith, length,
  count, Returns, Returns->>=, Returns-map, inl,
}
use mikanos.Fat.Volume.{Volume, next_cluster}
use mikanos.Fat.Cluster.{find_end, extend_loop, close_chain, extend_cluster}
use mikanos.Fat.Chain.{
  Chain, last_of, Chain-frame, next_cluster-end, next_cluster-more, Chain-used, last_of-IsEnd,
}
use mikanos.Fat.Extend.{count_free, IsExtended, extend_loop-IsExtended}

pub find_end-last :
    (fuel : ℕ) (fat : ℕ → ℕ) (c d : ℕ) (cs : List ℕ)
    → Chain fat c (d ∷ cs)
    → length cs < fuel
    → find_end fuel fat c ≡ some (last_of d cs)
unfolding find_end
find_end-last zero fat c d cs k h = absurd (omega arith)
find_end-last (suc fuel) fat c d [] (e, l, f, k) h = rw (e, next_cluster-end fat d k) refl
find_end-last (suc fuel) fat c d (g ∷ cs) (e, l, f, k) h =
    let more = next_cluster-more fat d g cs k in
    rw (e, more.0)
      (find_end-last fuel fat (fat d) g cs
        (subst (λ x. Chain fat x (g ∷ cs)) (more.3 ∙ sym more.1) k) (omega arith))

-- A chain goes on where its last cluster has been extended.
Chain-extended :
    (limit : ℕ) (fat : ℕ → ℕ) (c d n : ℕ) (cs : List ℕ) (r : (ℕ → ℕ) × ℕ)
    → Chain fat c (d ∷ cs)
    → (k : IsExtended limit fat (last_of d cs) 2 n r) → Chain r.0 c (d ∷ cs ++ k.new)
unfolding next_cluster
Chain-extended limit fat c d n [] r (e, l, f, k) x =
    subst (λ y. Chain r.0 y (d ∷ x.new)) (sym e) x.chain
Chain-extended limit fat c d n (g ∷ cs) r (e, l, f, k) x =
    let more = next_cluster-more fat d g cs k in
    let last = last_of-IsEnd fat (next_cluster fat d) g cs k in
    let kept : r.0 d ≡ fat d = ground (arith, x.others d, x.were_free d, more, last.at_end) in
    let here : next_cluster fat d ≡ next_cluster r.0 d = rw kept refl in
    (
      e,
      l,
      f,
      subst (λ y. Chain r.0 y (g ∷ cs ++ x.new)) here
          (Chain-extended limit fat (next_cluster fat d) g n cs r k x),
    )

-- A table of a size that FAT32 allows, and room for `n` clusters in it.
pub record HasRoom (v : Volume) (n : ℕ) : Type 0 where
  pub starts : 2 ≤ v.fat_entries
  pub fits : v.fat_entries ≤ 0x0ffffff8
  pub room : n ≤ count_free v.fat 2 (v.fat_entries - 2)

-- How a call of `ExtendCluster` on the chain `d ∷ cs` from cluster `c` ends.
pub record IsGrown (v : Volume) (c d : ℕ) (cs : List ℕ) (n : ℕ) (r : Volume × ℕ) : Type 0 where
  pub new : List ℕ
  pub size : length new ≡ n
  pub chain : Chain r.0.fat c (d ∷ cs ++ new)
  pub were_free : (x : ℕ) → 0 < count x new → (v.fat x ≡ 0) × (2 ≤ x) × (x < v.fat_entries)
  pub other_chains :
      (e : ℕ) (es : List ℕ) → Chain v.fat e es → count (last_of d cs) es ≡ 0 → Chain r.0.fat e es
  pub last : r.1 ≡ last_of (last_of d cs) new
  pub only_fat : r.0 ≡ record v { fat = r.0.fat }

linked_new-IsGrown :
    (v : Volume) (c d : ℕ) (cs : List ℕ) (n : ℕ) (r : (ℕ → ℕ) × ℕ)
    → Chain v.fat c (d ∷ cs)
    → IsExtended v.fat_entries v.fat (last_of d cs) 2 n r
    → IsGrown v c d cs n (record v { fat = r.0 }, r.1)
linked_new-IsGrown v c d cs n r k x = record {
  new = x.new;
  size = x.size;
  chain = Chain-extended v.fat_entries v.fat c d n cs r k x;
  were_free = x.were_free;
  other_chains = λ e es h apart. Chain-frame v.fat r.0 e es h (λ y p.
      x.others y (ground arith) (ground (arith, x.were_free y, Chain-used v.fat e es h y p)));
  last = x.ends;
  only_fat = refl;
}

-- `ExtendCluster` of a chain that is shorter than the table, in a table with room for `n` clusters,
-- is defined. The chain goes on through `n` clusters that were free, the last of them is returned,
-- every other chain is as before, and nothing but the table changes.
pub extend_cluster_lem :
    (v : Volume) (c d : ℕ) (cs : List ℕ) (n : ℕ)
    → Chain v.fat c (d ∷ cs)
    → length cs < v.fat_entries
    → HasRoom v n
    → Returns (extend_cluster v c n) (IsGrown v c d cs n)
unfolding extend_cluster
extend_cluster_lem v c d cs n k short room =
    let last = last_of-IsEnd v.fat c d cs k in
    rw (find_end-last v.fat_entries v.fat c d cs k short) (
      Returns->>=
        (Option.map close_chain (extend_loop (v.fat_entries - 2) v.fat (last_of d cs) 2 n)) _
        (IsExtended v.fat_entries v.fat (last_of d cs) 2 n) (IsGrown v c d cs n)
        (Returns-map (extend_loop (v.fat_entries - 2) v.fat (last_of d cs) 2 n) close_chain
          (λ r. IsExtended v.fat_entries v.fat (last_of d cs) 2 n (close_chain r))
          (IsExtended v.fat_entries v.fat (last_of d cs) 2 n)
          (extend_loop-IsExtended v.fat_entries (v.fat_entries - 2) v.fat (last_of d cs) 2 n
            (record {
              table_end = omega (arith, room.starts);
              limit_fits = room.fits;
              candidate_starts = omega arith;
              current_starts = last.starts;
              current_fits = last.fits;
              current_taken = inl (ground (arith, last.at_end));
              enough = room.room;
            }))
          (λ r h. h))
        (λ r h. linked_new-IsGrown v c d cs n r k h))
