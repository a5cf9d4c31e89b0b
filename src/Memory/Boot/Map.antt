-- ===== src/Memory/Boot/Map.antt =====
-- What the bitmap says after the UEFI memory map has been read.
use mikanos.Prelude.{
  ℕ, ◌+◌, ◌-◌, ◌*◌, ◌/◌, ◌%◌, ◌<◌, ◌≤◌, ◌^◌, ◌≡◌, refl, ◌∙◌, ap, Bool, true, false, not, ◌&&◌, ◌||◌,
  List, [], ◌∷◌, arith, ltb, leb, if◌then◌else◌,
}
use mikanos.Memory.{BitmapMemoryManager, bytes_per_frame, get_bit, mark_allocated}
use mikanos.Memory.Bitmap.{within, get_bit-set_bits}
use mikanos.Memory.Boot.{
  MemoryDescriptor, is_available, mark_gap, mul_size, visit, visit_all, physical_end,
}

-- Whether descriptor `d` covers frame `f`.
abbrev pub covers : MemoryDescriptor → ℕ → Bool
covers d f = within (d.physical_start / bytes_per_frame) d.number_of_pages f

-- Whether the map offers frame `f`: some available descriptor covers it.
pub offered : List MemoryDescriptor → ℕ → Bool
offered [] f = false
offered (d ∷ ds) f = is_available d.memory_type && covers d f || offered ds f

-- The end of the last available descriptor, or `e` if there is none.
pub last_available : ℕ → List MemoryDescriptor → ℕ
last_available e [] = e
last_available e (d ∷ ds) =
    last_available (if is_available d.memory_type then physical_end d else e) ds

-- A map from address `from` on: page-aligned, in ascending order, without overlap, within the
-- 128 GiB that the bitmap covers.
abbrev pub IsSortedMap : ℕ → List MemoryDescriptor → Type 0
IsSortedMap from [] = Unit
IsSortedMap from (d ∷ ds) =
    (from ≤ d.physical_start)
    × (d.physical_start % 4096 ≡ 0)
    × (d.physical_start + d.number_of_pages * 4096 ≤ 2 ^ 37)
    × IsSortedMap (d.physical_start + d.number_of_pages * 4096) ds

offered_before :
    (from : ℕ) (ds : List MemoryDescriptor) (f : ℕ)
    → IsSortedMap from ds
    → f < from / 4096
    → offered ds f ≡ false
unfolding offered
offered_before from [] f s h = refl
offered_before from (d ∷ ds) f (s0, s1, s2, s3) h =
    ground (arith, offered_before (d.physical_start + d.number_of_pages * 4096) ds f s3)

get_bit-mark :
    (m : BitmapMemoryManager) (start n f : ℕ)
    → start + n < 2 ^ 64
    → get_bit (mark_allocated m start n) f ≡ (if within start n f then true else get_bit m f)
unfolding mark_allocated
get_bit-mark m start n f h = get_bit-set_bits m start 0 n true f (omega arith) ∙ ground arith

-- A descriptor in order, on page boundaries, behind the last available end `e`.
abbrev InOrder : ℕ → MemoryDescriptor → Type 0
InOrder e d =
    (e ≤ d.physical_start)
    × (e % 4096 ≡ 0)
    × (d.physical_start % 4096 ≡ 0)
    × (d.physical_start + d.number_of_pages * 4096 ≤ 2 ^ 37)

get_bit-mark_gap :
    (m : BitmapMemoryManager) (e : ℕ) (d : MemoryDescriptor) (f : ℕ)
    → InOrder e d
    → get_bit (mark_gap m e d) f
      ≡ (if leb (e / 4096) f && ltb f (d.physical_start / 4096) then true else get_bit m f)
unfolding mark_gap
get_bit-mark_gap m e d f o =
    ground (arith, get_bit-mark m (e / 4096) ((d.physical_start - e) / 4096) f (omega arith))

-- One descriptor: what it marks, frame by frame.
get_bit-visit :
    (m : BitmapMemoryManager) (e : ℕ) (d : MemoryDescriptor) (f : ℕ)
    → InOrder e d
    → get_bit (visit (m, e) d).0 f ≡ (
        if not (is_available d.memory_type) && covers d f
        then true
        else if leb (e / 4096) f && ltb f (d.physical_start / 4096)
        then true
        else get_bit m f)
unfolding visit
get_bit-visit m e d f o = ground (
  arith,
  get_bit-mark (mark_gap m e d) (d.physical_start / 4096) (mul_size d.number_of_pages 4096 / 4096)
      f,
  get_bit-mark_gap m e d f o,
)

end-visit :
    (m : BitmapMemoryManager) (e : ℕ) (d : MemoryDescriptor)
    → InOrder e d
    → (visit (m, e) d).1
      ≡ (if is_available d.memory_type then d.physical_start + d.number_of_pages * 4096 else e)
unfolding visit
end-visit m e d o = ground arith

-- The loop from available end `e` and address `from`: below `e` nothing changes, and from there to
-- the last available end a frame is left free exactly when the map offers it.
pub record Visited (m : BitmapMemoryManager) (e : ℕ) (ds : List MemoryDescriptor)
    (r : BitmapMemoryManager × ℕ) (f : ℕ) : Type 0 where
  pub kept : f < e / 4096 → get_bit r.0 f ≡ get_bit m f
  pub read : e / 4096 ≤ f → f < r.1 / 4096 → get_bit r.0 f ≡ not (offered ds f)
  pub grows : e ≤ r.1
  pub bounded : r.1 ≤ 2 ^ 37
  pub last : r.1 ≡ last_available e ds

pub visit_all-Visited :
    (m : BitmapMemoryManager) (e from : ℕ) (ds : List MemoryDescriptor) (f : ℕ)
    → e ≤ from
    → from ≤ 2 ^ 37
    → e % 4096 ≡ 0
    → IsSortedMap from ds
    → ((g : ℕ) → from / 4096 ≤ g → get_bit m g ≡ false)
    → Visited m e ds (visit_all (m, e) ds) f
unfolding visit_all offered last_available
visit_all-Visited m e from [] f h top a s clear = ground arith
visit_all-Visited m e from (d ∷ ds) f h top a (s0, s1, s2, s3) clear =
    let o : InOrder e d = omega arith in
    let past : ℕ = d.physical_start + d.number_of_pages * 4096 in
    let rest =
      visit_all-Visited (visit (m, e) d).0 (visit (m, e) d).1 past ds f
        (ground (arith, end-visit m e d o)) s2 (ground (arith, end-visit m e d o)) s3
        (λ g q. ground (arith, get_bit-visit m e d g o, clear g)) in
    record {
      kept = ground (arith, rest.kept, get_bit-visit m e d f o, end-visit m e d o);
      read = ground (
        arith,
        rest.kept,
        rest.read,
        get_bit-visit m e d f o,
        end-visit m e d o,
        offered_before past ds f s3,
        clear f,
      );
      grows = ground (arith, rest.grows, end-visit m e d o);
      bounded = rest.bounded;
      last = rest.last ∙ ap (λ k. last_available k ds) (end-visit m e d o ∙ ground arith);
    }
