-- ===== src/Fat/Chain.antt =====
-- What a chain of clusters is, and what changes of the table it survives.
use mikanos.Prelude.{
  ℕ, ◌<◌, ◌≤◌, ◌≡◌, ◌≢◌, refl, subst, true, false, List, [], ◌∷◌, arith, ◌==◌, count, Bool-cases,
  inl, inr,
}
use mikanos.Fat.Volume.{end_of_cluster_chain, is_end_of_cluster_chain, next_cluster}

-- From cluster `c` the table leads through the clusters `cs` to the end.
abbrev pub Chain : (ℕ → ℕ) → ℕ → List ℕ → Type 0
Chain fat c [] = c ≡ end_of_cluster_chain
Chain fat c (d ∷ ds) = (c ≡ d) × (2 ≤ d) × (d < 0x0ffffff8) × Chain fat (next_cluster fat d) ds

-- The last cluster of a chain that starts at `c`.
abbrev pub last_of : ℕ → List ℕ → ℕ
last_of c [] = c
last_of c (d ∷ cs) = last_of d cs

-- A chain survives a change of the table that spares its clusters.
pub Chain-frame :
    (fat fat' : ℕ → ℕ) (c : ℕ) (cs : List ℕ)
    → Chain fat c cs
    → ((x : ℕ) → 0 < count x cs → fat' x ≡ fat x)
    → Chain fat' c cs
unfolding next_cluster
Chain-frame fat fat' c [] k same = k
Chain-frame fat fat' c (d ∷ ds) (e, l, h, k) same =
    let here : next_cluster fat d ≡ next_cluster fat' d = rw (same d (ground arith)) refl in
    (
      e,
      l,
      h,
      subst (λ x. Chain fat' x ds) here
          (Chain-frame fat fat' (next_cluster fat d) ds k (λ x p. same x (ground arith))),
    )

-- A cluster that leads to the end, and one that leads on.
pub next_cluster-end :
    (fat : ℕ → ℕ) (c : ℕ)
    → Chain fat (next_cluster fat c) []
    → is_end_of_cluster_chain (fat c) ≡ true
unfolding next_cluster
next_cluster-end fat c e = ground arith

pub next_cluster-more :
    (fat : ℕ → ℕ) (c d : ℕ) (ds : List ℕ)
    → Chain fat (next_cluster fat c) (d ∷ ds)
    → (is_end_of_cluster_chain (fat c) ≡ false) × (fat c ≡ d) × (2 ≤ d) × (next_cluster fat c ≡ d)
unfolding next_cluster
next_cluster-more fat c d ds e = ground (arith, e.0, e.1, e.2)

-- No cluster of a chain is free.
pub Chain-used :
    (fat : ℕ → ℕ) (c : ℕ) (cs : List ℕ) → Chain fat c cs → (x : ℕ) → 0 < count x cs → fat x ≢ 0
Chain-used fat c [] k x h = absurd (omega arith)
Chain-used fat c (d ∷ []) (e, l, f, k) x h = ground (arith, next_cluster-end fat d k)
Chain-used fat c (d ∷ g ∷ ds) (e, l, f, k) x h = elim (Bool-cases (d == x)) [
  | inl here ↦ ground (arith, next_cluster-more fat d g ds k)
  | inr later ↦ Chain-used fat (next_cluster fat d) (g ∷ ds) k x (ground arith)
]

-- The last cluster of a chain leads to the end.
pub record IsEnd (fat : ℕ → ℕ) (last : ℕ) : Type 0 where
  pub at_end : is_end_of_cluster_chain (fat last) ≡ true
  pub starts : 2 ≤ last
  pub fits : last < 0x0ffffff8

pub last_of-IsEnd :
    (fat : ℕ → ℕ) (c d : ℕ) (cs : List ℕ) → Chain fat c (d ∷ cs) → IsEnd fat (last_of d cs)
last_of-IsEnd fat c d [] (e, l, h, k) = record {
  at_end = next_cluster-end fat d k;
  starts = l;
  fits = h;
}
last_of-IsEnd fat c d (g ∷ cs) (e, l, h, k) = last_of-IsEnd fat (next_cluster fat d) g cs k
