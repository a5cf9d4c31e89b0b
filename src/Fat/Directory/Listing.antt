-- ===== src/Fat/Directory/Listing.antt =====
-- The search of one directory, as a search of the list of its entries.
pub mod Laws
use mikanos.Prelude.{
  ℕ, zero, suc, ◌+◌, ◌<◌, ◌≡◌, refl, sym, ◌∙◌, ap, subst, true, false, Option, none, some, List, [],
  ◌∷◌, ◌++◌, arith, ◌==◌, if◌then◌else◌, length, Bool-cases, inl, inr,
}
use mikanos.Fat.Volume.{Volume, end_of_cluster_chain, next_cluster}
use mikanos.Fat.Chain.{Chain}
use mikanos.Fat.Name.{name_is_equal}
use mikanos.Fat.Directory.{
  Position, entry_at, first_byte, entries_per_cluster, ScanResult, scan_cluster, search_dir,
}

-- The positions of `n` entries of a cluster from index `i` on, and of a chain of clusters.
unfoldable pub positions : ℕ → ℕ → ℕ → List Position
positions zero i c = []
positions (suc n) i c = (c, i) ∷ positions n (i + 1) c

unfoldable pub listing : Volume → List ℕ → List Position
unfolding positions
listing v [] = []
listing v (c ∷ cs) = positions (entries_per_cluster v) 0 c ++ listing v cs

-- The first entry of a name, up to an entry that was never used.
unfoldable pub first_equal : Volume → List ℕ → List Position → Option Position
first_equal v name [] = none
first_equal v name (p ∷ ps) =
    let rest = first_equal v name ps in
    if first_byte (entry_at v p) == 0
    then none
    else if name_is_equal (entry_at v p) name
    then some p
    else rest

-- What the inner loop of `FindFile` leaves to be done.
abbrev after_scan : Volume → List ℕ → ℕ → List Position → ScanResult → Option Position
after_scan v name c more (ScanResult.found j) = some (c, j)
after_scan v name c more ScanResult.not_found = none
after_scan v name c more ScanResult.further = first_equal v name more

first_equal-positions :
    (v : Volume) (name : List ℕ) (n i c : ℕ) (more : List Position)
    → first_equal v name (positions n i c ++ more)
      ≡ after_scan v name c more (scan_cluster n (v.entries c) name i)
unfolding first_equal positions scan_cluster
first_equal-positions v name zero i c more = refl
first_equal-positions v name (suc n) i c more =
    elim (Bool-cases (first_byte (v.entries c i) == 0)) [
      | inl unused ↦ rw unused refl
      | inr used ↦ elim (Bool-cases (name_is_equal (v.entries c i) name)) [
        | inl equal ↦ rw (used, equal) refl
        | inr other ↦ rw (used, other) (first_equal-positions v name n (i + 1) c more)
      ]
    ]

scanned :
    (v : Volume) (name : List ℕ) (c : ℕ) (more : List Position) (s : ScanResult)
    (rest : Option (Option Position))
    → rest ≡ some (first_equal v name more)
    → (elim s [
      | ScanResult.found i ↦ some (some (c, i))
      | ScanResult.not_found ↦ some none
      | ScanResult.further ↦ rest
    ])
      ≡ some (after_scan v name c more s)
scanned v name c more (ScanResult.found i) rest e = refl
scanned v name c more ScanResult.not_found rest e = refl
scanned v name c more ScanResult.further rest e = e

-- The loops of `FindFile` find, in a chain of clusters and with more fuel than the chain has clusters,
-- what a search of the list of all its entries finds.
pub search_dir_lem :
    (fuel : ℕ) (v : Volume) (name : List ℕ) (c : ℕ) (cs : List ℕ)
    → Chain v.fat c cs
    → length cs < fuel
    → search_dir fuel v name c ≡ some (first_equal v name (listing v cs))
unfolding search_dir listing first_equal
search_dir_lem zero v name c cs k h = absurd (omega arith)
search_dir_lem (suc fuel) v name c [] k h =
    let ends : (c == end_of_cluster_chain) ≡ true = ground arith in rw ends refl
search_dir_lem (suc fuel) v name c (d ∷ cs) (e, l, f, k) h =
    let goes_on : (c == end_of_cluster_chain) ≡ false = ground arith in
    let rest : search_dir fuel v name (next_cluster v.fat c)
        ≡ some (first_equal v name (listing v cs)) =
      search_dir_lem fuel v name (next_cluster v.fat c) cs
        (subst (λ x. Chain v.fat (next_cluster v.fat x) cs) (sym e) k) (omega arith) in
    rw goes_on (
      scanned v name c (listing v cs) (scan_cluster (entries_per_cluster v) (v.entries c) name 0) _
        rest
      ∙ ap some (sym (first_equal-positions v name (entries_per_cluster v) 0 c (listing v cs)))
      ∙ ap (λ x. some (first_equal v name (positions (entries_per_cluster v) 0 x ++ listing v cs)))
          e)
