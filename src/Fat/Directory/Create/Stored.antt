-- ===== src/Fat/Directory/Create/Stored.antt =====
-- A file that `CreateFile` makes in the root directory, and its entry.
use mikanos.Prelude.{
  ℕ, suc, ◌+◌, ◌-◌, ◌<◌, ◌≤◌, ◌≡◌, ◌≢◌, refl, sym, ◌∙◌, ap, subst, true, false, Option, none, some,
  List, [], ◌∷◌, ◌++◌, map, arith, ◌==◌, ltb, length, length-append, count, All, Bool-cases,
  Option-cases, inl, inr, Returns,
}
use mikanos.Error.{Error, WithError}
use mikanos.Fat.Volume.{
  Volume, DirectoryEntry, bytes_per_cluster, next_cluster, end_of_cluster_chain,
  is_end_of_cluster_chain,
}
use mikanos.Fat.Chain.{Chain, last_of, last_of-IsEnd, Chain-used}
use mikanos.Fat.Cluster.{extend_cluster}
use mikanos.Fat.Grow.{HasRoom, IsGrown, extend_cluster_lem, find_end-last}
use mikanos.Fat.Name.{to_upper, copy_upper, name_is_equal, format_name, set_file_name}
use mikanos.Fat.Name.Print.{
  IsShortName, short_name, strrchr-none, stored_name, upper-IsNameByte, format_name-set_file_name,
}
use mikanos.Fat.Name.Equal.{name_is_equal-set_file_name}
use mikanos.Fat.Directory.{
  Position, entry_at, slash, first_byte, entries_per_cluster, find_file, set_entry, clear_cluster,
  allocate_entry, create_in, create_file,
}
use mikanos.Fat.Directory.Listing.{positions, listing, first_equal}
use mikanos.Fat.Directory.Listing.Laws.{listing-size, listing-append, listing-new, listing-All}
use mikanos.Fat.Directory.Resolve.{IsElement, find_file_lem, last}
use mikanos.Fat.Directory.Create.Slot.{
  is_free, IsNamed, first_free, find_slot_lem, set_entry-same, set_entry-other, first_equal-reused,
  first_equal-new,
}

-- How a call of `CreateFile` for a name in the root directory ends, whose clusters are `cs`.
pub record IsCreated (v : Volume) (name : List ℕ) (cs : List ℕ)
    (r : Volume × WithError (Option Position)) : Type 0 where
  pub slot : Position
  pub result : r.1 ≡ record { value = some slot; error = Error.success }
  pub found : find_file 1 r.0 name 0 ≡ some (some slot, false)
  pub printed : format_name (entry_at r.0 slot) ≡ map to_upper name
  pub empty : (entry_at r.0 slot).file_size ≡ 0
  pub others :
      (q : Position)
      → 0 < count q.0 cs
      → is_free (entry_at v q) ≡ false
      → entry_at r.0 q ≡ entry_at v q

-- The entry that `CreateFile` writes.
abbrev new_entry : DirectoryEntry → List ℕ → DirectoryEntry
new_entry e name = record (set_file_name e name) { file_size = 0 }

stored_byte :
    (e : DirectoryEntry) (base ext : List ℕ)
    → IsShortName base ext
    → first_byte (set_file_name e (short_name base ext)) ≢ 0
unfolding copy_upper
stored_byte e [] ext k = rw (stored_name e [] ext k ext refl) (ground arith)
stored_byte e (c ∷ base) ext k =
    rw (stored_name e (c ∷ base) ext k ext refl) (upper-IsNameByte c k.base_bytes.0).0

new_entry-IsNamed :
    (e : DirectoryEntry) (base ext : List ℕ)
    → IsShortName base ext
    → IsNamed (new_entry e (short_name base ext)) (short_name base ext)
unfolding name_is_equal
new_entry-IsNamed e base ext k =
    (stored_byte e base ext k, name_is_equal-set_file_name e base ext k)

-- An entry `e` of the directory that starts at the root and has the clusters `cs` is made new.
module _ (v w : Volume) (base ext cs : List ℕ) (p : Position) (e : DirectoryEntry)
    (short : IsShortName base ext) (elem : IsElement (short_name base ext))
    (chain : Chain w.fat w.bpb.root_cluster cs) (some_cluster : 2 ≤ w.bpb.root_cluster)
    (fits : length cs ≤ w.fat_entries) where
  abbrev stored : Volume
  stored = set_entry w p (new_entry e (short_name base ext))

  find_file-stored :
      first_equal stored (short_name base ext) (listing stored cs) ≡ some p
      → find_file 1 stored (short_name base ext) 0 ≡ some (some p, false)
  find_file-stored h =
      find_file_lem 1 stored 0 (short_name base ext) [] (some p, false) elem tt (omega arith)
        (last 0 (short_name base ext) cs (some p, false) chain fits (ap (λ o. (o, false)) (sym h)))

  stored-IsCreated :
      (ds : List ℕ)
      → first_equal stored (short_name base ext) (listing stored cs) ≡ some p
      → ((q : Position)
          → 0 < count q.0 ds
          → is_free (entry_at v q) ≡ false
          → entry_at stored q ≡ entry_at v q)
      → IsCreated v
          (short_name base ext)
          ds
          (stored, record { value = some p; error = Error.success })
  unfolding format_name
  stored-IsCreated ds h same = record {
    slot = p;
    result = refl;
    found = find_file-stored h;
    printed =
        ap format_name (set_entry-same w p (new_entry e (short_name base ext)))
        ∙ format_name-set_file_name e base ext short;
    empty = ap (λ x. x.file_size) (set_entry-same w p (new_entry e (short_name base ext)));
    others = same;
  }

-- A free entry of the directory is used.
reused-IsCreated :
    (v : Volume) (base ext cs : List ℕ) (p : Position)
    → IsShortName base ext
    → IsElement (short_name base ext)
    → Chain v.fat v.bpb.root_cluster cs
    → 2 ≤ v.bpb.root_cluster
    → length cs ≤ v.fat_entries
    → All (λ q. name_is_equal (entry_at v q) (short_name base ext) ≡ false) (listing v cs)
    → first_free v (listing v cs) ≡ some p
    → IsCreated v (short_name base ext) cs (
      set_entry v p (new_entry (entry_at v p) (short_name base ext)),
      record { value = some p; error = Error.success },
    )
reused-IsCreated v base ext cs p short elem chain starts fits absent free =
    let e : DirectoryEntry = new_entry (entry_at v p) (short_name base ext) in
    let named = new_entry-IsNamed (entry_at v p) base ext short in
    let there = first_equal-reused v (short_name base ext) e (listing v cs) p absent named free in
    stored-IsCreated v v base ext cs p (entry_at v p) short elem chain starts fits cs
      (ap (first_equal (set_entry v p e) (short_name base ext))
          (listing-size v (set_entry v p e) cs refl)
        ∙ there.1)
      (λ q _ used. set_entry-other v p q e there.0 used)

other_cluster : (c x : ℕ) (cs : List ℕ) → 0 < count c cs → count x cs ≡ 0 → c ≢ x
other_cluster c x cs h apart e = omega (arith, subst (λ y. 0 < count y cs) e h, apart)

-- The directory gets a cluster, whose first entry is used.
abbrev extended : Volume × ℕ → List ℕ → Volume × WithError (Option Position)
extended (g, x) name =
    let w = clear_cluster g x in
    (
      set_entry w (x, 0) (new_entry (entry_at w (x, 0)) name),
      record { value = some (x, 0); error = Error.success },
    )

extended-IsCreated :
    (v : Volume) (f : ℕ → ℕ) (base ext : List ℕ) (d x : ℕ) (cs : List ℕ)
    → IsShortName base ext
    → IsElement (short_name base ext)
    → Chain f v.bpb.root_cluster (d ∷ cs ++ x ∷ [])
    → suc (length cs) < v.fat_entries
    → 32 ≤ bytes_per_cluster v
    → All (λ q. name_is_equal (entry_at v q) (short_name base ext) ≡ false) (listing v (d ∷ cs))
    → first_free v (listing v (d ∷ cs)) ≡ none
    → count x (d ∷ cs) ≡ 0
    → IsCreated v
        (short_name base ext)
        (d ∷ cs)
        (extended (record v { fat = f }, x) (short_name base ext))
unfolding clear_cluster
extended-IsCreated v f base ext d x cs short elem chain fits size absent full apart =
    let name : List ℕ = short_name base ext in
    let w : Volume = clear_cluster (record v { fat = f }) x in
    let e : DirectoryEntry = new_entry (entry_at w (x, 0)) name in
    let same : (q : Position)
        → 0 < count q.0 (d ∷ cs)
        → entry_at (set_entry w (x, 0) e) q ≡ entry_at v q =
      λ q h.
        let elsewhere : (q.0 == x) ≡ false = ground (arith, other_cluster q.0 x (d ∷ cs) h apart) in
        rw elsewhere refl in
    let n : ℕ = entries_per_cluster v in
    let all : listing (set_entry w (x, 0) e) (d ∷ cs ++ x ∷ [])
        ≡ listing v (d ∷ cs) ++ (x, 0) ∷ (positions (n - 1) 1 x ++ []) =
      listing-size v (set_entry w (x, 0) e) (d ∷ cs ++ x ∷ []) refl
      ∙ listing-append v (d ∷ cs) (x ∷ [])
      ∙ ap (◌++◌ (listing v (d ∷ cs))) (listing-new v x size) in
    stored-IsCreated v w base ext (d ∷ cs ++ x ∷ []) (x, 0) (entry_at w (x, 0)) short elem chain
      (omega (arith, chain.0, chain.1)) (omega (arith, length-append cs (x ∷ []))) (d ∷ cs)
      (ap (first_equal (set_entry w (x, 0) e) name) all
        ∙ first_equal-new v (set_entry w (x, 0) e) name (listing v (d ∷ cs)) (x, 0)
            (positions (n - 1) 1 x ++ []) absent
            (listing-All v (λ q. entry_at (set_entry w (x, 0) e) q ≡ entry_at v q) (d ∷ cs)
              (λ c j h. same (c, j) h))
            full
            (subst (λ y. IsNamed y name) (sym (set_entry-same w (x, 0) e))
              (new_entry-IsNamed (entry_at w (x, 0)) base ext short)))
      (λ q h _. same q h)

ends_here :
    (fat : ℕ → ℕ) (c : ℕ)
    → is_end_of_cluster_chain (fat c) ≡ true
    → next_cluster fat c ≡ end_of_cluster_chain
unfolding next_cluster
ends_here fat c h = rw h refl

extend_cluster-last :
    (v : Volume) (c d : ℕ) (cs : List ℕ) (n : ℕ)
    → Chain v.fat c (d ∷ cs)
    → length cs < v.fat_entries
    → extend_cluster v (last_of d cs) n ≡ extend_cluster v c n
unfolding extend_cluster
extend_cluster-last v c d cs n chain fits =
    let end = last_of-IsEnd v.fat c d cs chain in
    let alone : Chain v.fat (last_of d cs) (last_of d cs ∷ []) =
      (refl, end.starts, end.fits, ends_here v.fat (last_of d cs) end.at_end) in
    rw
      (
        find_end-last v.fat_entries v.fat c d cs chain fits,
        find_end-last v.fat_entries v.fat (last_of d cs) (last_of d cs) [] alone (omega arith),
      )
      refl

grown-IsCreated :
    (v : Volume) (base ext : List ℕ) (d : ℕ) (cs : List ℕ) (r : Volume × ℕ)
    → IsShortName base ext
    → IsElement (short_name base ext)
    → Chain v.fat v.bpb.root_cluster (d ∷ cs)
    → suc (length cs) < v.fat_entries
    → 32 ≤ bytes_per_cluster v
    → All (λ q. name_is_equal (entry_at v q) (short_name base ext) ≡ false) (listing v (d ∷ cs))
    → first_free v (listing v (d ∷ cs)) ≡ none
    → (k : IsGrown v v.bpb.root_cluster d cs 1 r) → (new : List ℕ) → k.new ≡ new
    → IsCreated v (short_name base ext) (d ∷ cs) (extended r (short_name base ext))
grown-IsCreated v base ext d cs r short elem chain fits size absent full k [] e =
    absurd (omega (arith, k.size, ap length e))
grown-IsCreated v base ext d cs r short elem chain fits size absent full k (x ∷ y ∷ new) e =
    absurd (omega (arith, k.size, ap length e))
grown-IsCreated v base ext d cs r short elem chain fits size absent full k (x ∷ []) e =
    let x_last : x ≡ r.1 = sym (k.last ∙ ap (last_of (last_of d cs)) e) in
    let free = k.were_free x (subst (λ l. 0 < count x l) (sym e) (ground arith)) in
    let apart : count x (d ∷ cs) ≡ 0 = elim (Bool-cases (ltb 0 (count x (d ∷ cs)))) [
      | inl shared ↦
          absurd (Chain-used v.fat v.bpb.root_cluster (d ∷ cs) chain x (ground arith) free.0)
      | inr outside ↦ ground arith
    ] in
    subst (λ p. IsCreated v (short_name base ext) (d ∷ cs) (extended p (short_name base ext)))
      (ap (λ g. (g, x)) (sym k.only_fat) ∙ ap (λ y. (r.0, y)) x_last)
      (extended-IsCreated v r.0.fat base ext d x cs short elem
        (subst (λ l. Chain r.0.fat v.bpb.root_cluster (d ∷ cs ++ l)) e k.chain) fits size absent
        full apart)

-- `CreateFile` of a short name, which is not empty and has no slash, in a root directory of
-- clusters of 32 bytes or more, which ends, has no entry of that name and whose chain can grow by
-- one cluster in the table, is defined and succeeds. `FindFile` then finds the new entry under
-- the name; it is printed as the name in upper case and has size 0, and every entry that was in
-- use is as before.
pub create_file-IsCreated :
    (v : Volume) (base ext : List ℕ) (d : ℕ) (cs : List ℕ)
    → IsShortName base ext
    → IsElement (short_name base ext)
    → Chain v.fat v.bpb.root_cluster (d ∷ cs)
    → suc (length cs) < v.fat_entries
    → 32 ≤ bytes_per_cluster v
    → All (λ q. name_is_equal (entry_at v q) (short_name base ext) ≡ false) (listing v (d ∷ cs))
    → HasRoom v 1
    → Returns (create_file v (short_name base ext)) (IsCreated v (short_name base ext) (d ∷ cs))
unfolding create_in allocate_entry create_file
create_file-IsCreated v base ext d cs short elem chain fits size absent room =
    let name : List ℕ = short_name base ext in
    let slot = find_slot_lem (v.fat_entries + 1) v v.bpb.root_cluster d cs chain (omega arith) in
    rw (create_file, strrchr-none name slash elem.bytes, slot)
      (elim (Option-cases (first_free v (listing v (d ∷ cs)))) [
        | inl full ↦
            let grown = extend_cluster_lem v v.bpb.root_cluster d cs 1 chain (omega arith) room in
            elim (Option-cases (extend_cluster v v.bpb.root_cluster 1)) [
              | inl fails ↦
                  absurd (subst (λ o. Returns o (IsGrown v v.bpb.root_cluster d cs 1)) fails grown)
              | inr (r, e) ↦
                  let k = subst (λ o. Returns o (IsGrown v v.bpb.root_cluster d cs 1)) e grown in
                  rw (full, extend_cluster-last v v.bpb.root_cluster d cs 1 chain (omega arith), e)
                    (grown-IsCreated v base ext d cs r short elem chain fits size absent full k
                      k.new refl)
            ]
        | inr (p, free) ↦ rw free (
            reused-IsCreated v base ext (d ∷ cs) p short elem chain
              (omega (arith, chain.0, chain.1)) (omega arith) absent free)
      ])
