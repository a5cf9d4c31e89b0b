-- ===== src/Paging/Copy/Leaves.antt =====
-- `CopyPageMaps` of the lowest level: the pages are shared, and none may be written through the copy.
use mikanos.Prelude.{
  ℕ, zero, suc, ◌+◌, ◌-◌, ◌<◌, ◌≤◌, ◌≡◌, ◌≢◌, ◌&&◌, refl, sym, ◌∙◌, ap, true, false, ◌==◌,
  if◌then◌else◌, arith, Bool-cases, inl, inr, ◌⊎◌, Returns,
}
use mikanos.Error.{Error}
use mikanos.Paging.{PageMapEntry, Pages, set_entry}
use mikanos.Paging.Copy.{copy_leaves, copy_page_maps}

-- Entry `j` of the copy, where the entries from `i` on have been copied.
abbrev pub shared_entry : Pages → ℕ → ℕ → ℕ → PageMapEntry
shared_entry s dest src j =
    let entry = s.tables src j in
    if entry.present then record entry { writable = false } else s.tables dest j

pub record IsShared (s : Pages) (dest src i past : ℕ) (s' : Pages) : Type 0 where
  pub copied : (j : ℕ) → i ≤ j → j < past → s'.tables dest j ≡ shared_entry s dest src j
  pub others : (t j : ℕ) → (t ≢ dest) ⊎ ((j < i) ⊎ (past ≤ j)) → s'.tables t j ≡ s.tables t j
  pub same_manager : s'.manager ≡ s.manager

abbrev one_leaf : Pages → ℕ → ℕ → ℕ → Pages
unfolding set_entry
one_leaf s dest src i =
    let entry = s.tables src i in
    if entry.present then set_entry s dest i (record entry { writable = false }) else s

one_leaf-IsShared :
    (s : Pages) (dest src i : ℕ) → IsShared s dest src i (i + 1) (one_leaf s dest src i)
unfolding one_leaf set_entry
one_leaf-IsShared s dest src i = elim (Bool-cases (s.tables src i).present) [
  | inl here ↦ rw here (record {
    copied = λ j h l.
        let same : j ≡ i = omega arith in
        let found : (dest == dest && j == i) ≡ true = ground arith in
        rw found (sym (ap (shared_entry s dest src) same ∙ rw here refl));
    others = λ t j h. let apart : (t == dest && j == i) ≡ false = ground arith in rw apart refl;
    same_manager = refl;
  })
  | inr absent ↦ rw absent (record {
    copied = λ j h l.
        let same : j ≡ i = omega arith in
        ap (s.tables dest) same ∙ sym (ap (shared_entry s dest src) same ∙ rw absent refl);
    others = λ t j h. refl;
    same_manager = refl;
  })
]

outside_after :
    (i past t dest j : ℕ)
    → i < past
    → ((t ≢ dest) ⊎ ((j < i) ⊎ (past ≤ j)))
    → ((t ≢ dest) ⊎ ((j < i + 1) ⊎ (past ≤ j))) × ((t ≢ dest) ⊎ ((j < i) ⊎ (i + 1 ≤ j)))
outside_after i past t dest j low (inl h) = (inl h, inl h)
outside_after i past t dest j low (inr (inl h)) = (inr (inl (omega arith)), inr (inl h))
outside_after i past t dest j low (inr (inr h)) = (inr (inr h), inr (inr (omega arith)))

IsShared-trans :
    (s s₁ s₂ : Pages) (dest src i past : ℕ)
    → dest ≢ src
    → i < past
    → IsShared s dest src i (i + 1) s₁
    → IsShared s₁ dest src (i + 1) past s₂
    → IsShared s dest src i past s₂
IsShared-trans s s₁ s₂ dest src i past apart low k l = record {
  copied = λ j h p. elim (Bool-cases (j == i)) [
    | inl here ↦ l.others dest j (inr (inl (ground arith))) ∙ k.copied j h (ground arith)
    | inr later ↦
        let entry : s₁.tables src j ≡ s.tables src j = k.others src j (inl (λ e. apart (sym e))) in
        let kept : s₁.tables dest j ≡ s.tables dest j =
          k.others dest j (inr (inr (ground arith))) in
        l.copied j (ground arith) p
        ∙ ap (λ x. if x.present then record x { writable = false } else s₁.tables dest j) entry
        ∙ ap
            (λ y.
              if (s.tables src j).present then record (s.tables src j) { writable = false } else y)
            kept
  ];
  others = λ t j h.
      l.others t j (outside_after i past t dest j low h).0
      ∙ k.others t j (outside_after i past t dest j low h).1;
  same_manager = l.same_manager ∙ k.same_manager;
}

copy_leaves-IsShared :
    (rounds : ℕ) (s : Pages) (dest src i past : ℕ)
    → dest ≢ src
    → i + rounds ≡ past
    → IsShared s dest src i past (copy_leaves rounds s dest src i)
unfolding copy_leaves one_leaf
copy_leaves-IsShared zero s dest src i past apart e = record {
  copied = λ j h l. absurd (omega arith);
  others = λ t j h. refl;
  same_manager = refl;
}
copy_leaves-IsShared (suc rounds) s dest src i past apart e =
    IsShared-trans s (one_leaf s dest src i)
      (copy_leaves rounds (one_leaf s dest src i) dest src (i + 1)) dest src i past apart
      (omega arith) (one_leaf-IsShared s dest src i)
      (copy_leaves-IsShared rounds (one_leaf s dest src i) dest src (i + 1) past apart
        (omega arith))

-- `CopyPageMaps` of level 1, from an entry of the table on into another table, succeeds: each entry
-- from there on that is present is copied and may not be written; every other entry of the table, every
-- other frame, and which frames are in use, are as before.
pub copy_page_maps_lem :
    (s : Pages) (dest src start : ℕ)
    → dest ≢ src
    → start ≤ 512
    → Returns
        (copy_page_maps 1 s dest src start)
        (λ r. (r.1 ≡ Error.success) × IsShared s dest src start 512 r.0)
unfolding copy_page_maps
copy_page_maps_lem s dest src start apart h =
    (refl, copy_leaves-IsShared (512 - start) s dest src start 512 apart (omega arith))
