-- ===== src/Fat/Directory/Listing/Laws.antt =====
-- The list of the entries of a directory: what it depends on, and what it holds.
use mathlib.Core.List.{append_assoc}
use mikanos.Prelude.{
  ℕ, zero, suc, ◌+◌, ◌-◌, ◌<◌, ◌≤◌, ◌≡◌, refl, sym, ◌∙◌, ap, List, [], ◌∷◌, ◌++◌, arith, count, All,
}
use mikanos.Fat.Volume.{Volume, bytes_per_cluster}
use mikanos.Fat.Directory.{Position, entries_per_cluster}
use mikanos.Fat.Directory.Listing.{positions, listing}

-- The listing depends on the size of a cluster only.
pub listing-size :
    (v w : Volume) (cs : List ℕ)
    → entries_per_cluster w ≡ entries_per_cluster v
    → listing w cs ≡ listing v cs
unfolding listing
listing-size v w [] e = refl
listing-size v w (c ∷ cs) e =
    ap (λ n. positions n 0 c ++ listing w cs) e
    ∙ ap (◌++◌ (positions (entries_per_cluster v) 0 c)) (listing-size v w cs e)

pub listing-append :
    (v : Volume) (cs ds : List ℕ) → listing v (cs ++ ds) ≡ listing v cs ++ listing v ds
unfolding listing
listing-append v [] ds = refl
listing-append v (c ∷ cs) ds =
    ap (◌++◌ (positions (entries_per_cluster v) 0 c)) (listing-append v cs ds)
    ∙ sym (append_assoc (positions (entries_per_cluster v) 0 c) (listing v cs) (listing v ds))

pub listing-new :
    (v : Volume) (x : ℕ)
    → 32 ≤ bytes_per_cluster v
    → listing v (x ∷ []) ≡ (x, 0) ∷ (positions (entries_per_cluster v - 1) 1 x ++ [])
unfolding listing positions
listing-new v x size =
    let some_entry : entries_per_cluster v ≡ suc (entries_per_cluster v - 1) = omega arith in
    ap (λ k. positions k 0 x ++ []) some_entry

positions-All :
    (P : Position → Type 0) (n i c : ℕ) (more : List Position)
    → ((j : ℕ) → P (c, j))
    → All P more
    → All P (positions n i c ++ more)
unfolding positions
positions-All P zero i c more h k = k
positions-All P (suc n) i c more h k = (h i, positions-All P n (i + 1) c more h k)

pub listing-All :
    (v : Volume) (P : Position → Type 0) (cs : List ℕ)
    → ((c j : ℕ) → 0 < count c cs → P (c, j))
    → All P (listing v cs)
unfolding listing
listing-All v P [] h = tt
listing-All v P (c ∷ cs) h =
    positions-All P (entries_per_cluster v) 0 c (listing v cs) (λ j. h c j (ground arith))
      (listing-All v P cs (λ d j p. h d j (omega arith)))
