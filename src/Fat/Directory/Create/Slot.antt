-- ===== src/Fat/Directory/Create/Slot.antt =====
-- The entry that `AllocateEntry` takes, and that `FindFile` finds it under the name stored there.
use mathlib.Core.Option.{some-injective, none-ne-some, some-ne-none}
use mathlib.Core.Bool.{true≢false}
use mikanos.Prelude.{
  ℕ, zero, suc, ◌+◌, ◌<◌, ◌≡◌, ◌≢◌, refl, sym, ◌∙◌, ap, subst, Bool, true, false, ◌&&◌, ◌||◌,
  Option, none, some, List, [], ◌∷◌, ◌++◌, arith, ◌==◌, if◌then◌else◌, length, All, Bool-cases,
  Option-cases, inl, inr,
}
use mikanos.Fat.Volume.{Volume, DirectoryEntry, next_cluster, end_of_cluster_chain}
use mikanos.Fat.Chain.{Chain, last_of}
use mikanos.Fat.Name.{name_is_equal}
use mikanos.Fat.Directory.{
  Position, entry_at, first_byte, entries_per_cluster, scan_free, find_slot, set_entry,
}
use mikanos.Fat.Directory.Listing.{positions, listing, first_equal}

-- `AllocateEntry` takes an entry that was never used or that was deleted.
abbrev pub is_free : DirectoryEntry → Bool
is_free e = first_byte e == 0 || first_byte e == 0xe5

unfoldable pub first_free : Volume → List Position → Option Position
first_free v [] = none
first_free v (p ∷ ps) =
    let rest = first_free v ps in if is_free (entry_at v p) then some p else rest

abbrev after_free : Volume → ℕ → List Position → Option ℕ → Option Position
after_free v c more (some i) = some (c, i)
after_free v c more none = first_free v more

first_free-positions :
    (v : Volume) (n i c : ℕ) (more : List Position)
    → first_free v (positions n i c ++ more) ≡ after_free v c more (scan_free n (v.entries c) i)
unfolding first_free positions scan_free
first_free-positions v zero i c more = refl
first_free-positions v (suc n) i c more = elim (Bool-cases (is_free (v.entries c i))) [
  | inl free ↦ rw free refl
  | inr used ↦ rw used (first_free-positions v n (i + 1) c more)
]

-- A cluster with an index, or the last cluster alone.
abbrev pub slot_of : ℕ → Option Position → ℕ × Option ℕ
slot_of last none = (last, none)
slot_of last (some p) = (p.0, some p.1)

pub find_slot_lem :
    (fuel : ℕ) (v : Volume) (c d : ℕ) (cs : List ℕ)
    → Chain v.fat c (d ∷ cs)
    → length cs < fuel
    → find_slot fuel v c ≡ some (slot_of (last_of d cs) (first_free v (listing v (d ∷ cs))))
unfolding find_slot listing first_free
find_slot_lem zero v c d cs k h = absurd (omega arith)
find_slot_lem (suc fuel) v c d [] (e, l, f, k) h =
    rw (e, first_free-positions v (entries_per_cluster v) 0 d (listing v []))
      (elim (Option-cases (scan_free (entries_per_cluster v) (v.entries d) 0)) [
        | inl full ↦
            let ends : (next_cluster v.fat d == end_of_cluster_chain) ≡ true = ground (arith, k) in
            rw (find_slot, full, ends) refl
        | inr (i, free) ↦ rw (find_slot, free) refl
      ])
find_slot_lem (suc fuel) v c d (g ∷ cs) (e, l, f, k) h =
    rw (e, first_free-positions v (entries_per_cluster v) 0 d (listing v (g ∷ cs)))
      (elim (Option-cases (scan_free (entries_per_cluster v) (v.entries d) 0)) [
        | inl full ↦
            let more : (next_cluster v.fat d == end_of_cluster_chain) ≡ false =
              ground (arith, k.0, k.1, k.2) in
            rw (find_slot, full, more)
              (find_slot_lem fuel v (next_cluster v.fat d) g cs k (omega arith))
        | inr (i, free) ↦ rw (find_slot, free) refl
      ])

-- An entry of this name that is in use is found.
abbrev pub IsNamed : DirectoryEntry → List ℕ → Type 0
IsNamed e name = (first_byte e ≢ 0) × (name_is_equal e name ≡ true)

found_first :
    (v : Volume) (name : List ℕ) (p : Position) (ps : List Position)
    → IsNamed (entry_at v p) name
    → first_equal v name (p ∷ ps) ≡ some p
unfolding first_equal
found_first v name p ps (used, equal) =
    let byte : (first_byte (entry_at v p) == 0) ≡ false = ground arith in rw (byte, equal) refl

passed :
    (v : Volume) (name : List ℕ) (p : Position) (ps : List Position)
    → is_free (entry_at v p) ≡ false
    → name_is_equal (entry_at v p) name ≡ false
    → first_equal v name (p ∷ ps) ≡ first_equal v name ps
unfolding first_equal
passed v name p ps used other =
    let byte : (first_byte (entry_at v p) == 0) ≡ false = ground arith in rw (byte, other) refl

pub set_entry-same :
    (v : Volume) (p : Position) (e : DirectoryEntry) → entry_at (set_entry v p e) p ≡ e
set_entry-same v p e =
    let column : (p.0 == p.0) ≡ true = ground arith in
    let row : (p.1 == p.1) ≡ true = ground arith in rw (column, row) refl

pub set_entry-other :
    (v : Volume) (p q : Position) (e : DirectoryEntry)
    → is_free (entry_at v p) ≡ true
    → is_free (entry_at v q) ≡ false
    → entry_at (set_entry v p e) q ≡ entry_at v q
set_entry-other v p q e free used = elim (Bool-cases (q.0 == p.0 && q.1 == p.1)) [
  | inl same ↦
      let column : q.0 ≡ p.0 = ground arith in
      let row : q.1 ≡ p.1 = ground arith in
      absurd (true≢false (sym free ∙ rw (sym column, sym row) used))
  | inr apart ↦ rw apart refl
]

first_free-here :
    (v : Volume) (q : Position) (ps : List Position)
    → is_free (entry_at v q) ≡ true
    → first_free v (q ∷ ps) ≡ some q
unfolding first_free
first_free-here v q ps free = rw free refl

first_free-later :
    (v : Volume) (q : Position) (ps : List Position)
    → is_free (entry_at v q) ≡ false
    → first_free v (q ∷ ps) ≡ first_free v ps
unfolding first_free
first_free-later v q ps used = rw used refl

-- In the free entry that comes first, a name that no other entry has is found.
pub first_equal-reused :
    (v : Volume) (name : List ℕ) (e : DirectoryEntry) (ps : List Position) (p : Position)
    → All (λ q. name_is_equal (entry_at v q) name ≡ false) ps
    → IsNamed e name
    → first_free v ps ≡ some p
    → (is_free (entry_at v p) ≡ true) × (first_equal (set_entry v p e) name ps ≡ some p)
unfolding first_free
first_equal-reused v name e [] p others named h = absurd (none-ne-some p h)
first_equal-reused v name e (q ∷ ps) p (other, others) named h =
    elim (Bool-cases (is_free (entry_at v q))) [
      | inl free ↦
          let here : q ≡ p = some-injective q p (sym (first_free-here v q ps free) ∙ h) in
          subst
            (λ x.
              (is_free (entry_at v x) ≡ true)
              × (first_equal (set_entry v x e) name (q ∷ ps) ≡ some x))
            here
            (
              free,
              found_first (set_entry v q e) name q ps
                  (subst (λ x. IsNamed x name) (sym (set_entry-same v q e)) named),
            )
      | inr used ↦
          let later : first_free v ps ≡ some p = sym (first_free-later v q ps used) ∙ h in
          let rest = first_equal-reused v name e ps p others named later in
          let same = set_entry-other v p q e rest.0 used in
          (
            rest.0,
            passed (set_entry v p e) name q ps (ap is_free same ∙ used)
                  (ap (λ x. name_is_equal x name) same ∙ other)
                ∙ rest.1,
          )
    ]

-- Behind entries that are all in use, a name that none of them has is found.
pub first_equal-new :
    (v w : Volume) (name : List ℕ) (ps : List Position) (p : Position) (more : List Position)
    → All (λ q. name_is_equal (entry_at v q) name ≡ false) ps
    → All (λ q. entry_at w q ≡ entry_at v q) ps
    → first_free v ps ≡ none
    → IsNamed (entry_at w p) name
    → first_equal w name (ps ++ p ∷ more) ≡ some p
first_equal-new v w name [] p more others same h named = found_first w name p more named
first_equal-new v w name (q ∷ ps) p more (other, others) (same, rest) h named =
    elim (Bool-cases (is_free (entry_at v q))) [
      | inl free ↦ absurd (some-ne-none q (sym (first_free-here v q ps free) ∙ h))
      | inr used ↦
          passed w name q (ps ++ p ∷ more) (ap is_free same ∙ used)
            (ap (λ x. name_is_equal x name) same ∙ other)
          ∙ first_equal-new v w name ps p more others rest (sym (first_free-later v q ps used) ∙ h)
              named
    ]
