-- ===== src/Memory/Boot/Start.antt =====
-- The frame allocator that the kernel starts with.
use mikanos.Prelude.{
  ℕ, ◌+◌, ◌*◌, ◌/◌, ◌%◌, ◌<◌, ◌≤◌, ◌^◌, ◌≡◌, ◌↔◌, ap, refl, ◌∙◌, true, false, not, Option, some,
  List, arith, if◌then◌else◌,
}
use mikanos.Bits.{zero-bit}
use mikanos.Error.{WithError, no_enough_memory}
use mikanos.Memory.{
  BitmapMemoryManager, init, mark_allocated, get_bit, set_memory_range, allocate, bytes_per_frame,
}
use mikanos.Memory.Bitmap.{within, get_bit-bit}
use mikanos.Memory.Allocate.{IsValid, IsFreeRun, FirstFit, found, no_room, allocate-FirstFit}
use mikanos.Memory.Ownership.{get_bit-allocate, range-allocate}
use mikanos.Memory.Boot.{
  MemoryDescriptor, Heap, Boot, started, exited, heap_frames, initialize_heap,
  initialize_memory_manager, visit_all,
}
use mikanos.Memory.Boot.Map.{IsSortedMap, offered, last_available, Visited, visit_all-Visited}

-- The manager before the heap is taken.
abbrev mapped : List MemoryDescriptor → BitmapMemoryManager
mapped ds =
    set_memory_range (visit_all (init, 0) ds).0 1 ((visit_all (init, 0) ds).1 / bytes_per_frame)

init_clear : (f : ℕ) → get_bit init f ≡ false
unfolding init get_bit
init_clear f = rw (get_bit-bit init f) (ground (arith, zero-bit (f % 64)))

init-Visited :
    (ds : List MemoryDescriptor) (f : ℕ)
    → IsSortedMap 0 ds
    → Visited init 0 ds (visit_all (init, 0) ds) f
init-Visited ds f s =
    visit_all-Visited init 0 0 ds f (omega arith) (omega arith) (omega arith) s
      (λ g h. init_clear g)

-- Of the frames of its range, the manager has free exactly those that the map offers.
get_bit-mapped :
    (ds : List MemoryDescriptor) (f : ℕ)
    → IsSortedMap 0 ds
    → f < (mapped ds).range_end
    → get_bit (mapped ds) f ≡ not (offered ds f)
unfolding set_memory_range get_bit
get_bit-mapped ds f s h = (init-Visited ds f s).read (omega arith) h

mapped-IsValid :
    (ds : List MemoryDescriptor)
    → IsSortedMap 0 ds
    → IsValid (mapped ds)
      × ((mapped ds).range_end ≤ 2 ^ 25)
      × ((mapped ds).range_begin ≡ 1)
      × ((mapped ds).range_end ≡ last_available 0 ds / bytes_per_frame)
unfolding set_memory_range
mapped-IsValid ds s = omega (arith, (init-Visited ds 0 s).bounded, (init-Visited ds 0 s).last)

-- The heap's frames from `t` on are offered by the map, below the last available end.
abbrev pub IsOfferedRun : List MemoryDescriptor → ℕ → Type 0
IsOfferedRun ds t =
    (f : ℕ)
    → t ≤ f
    → f < t + heap_frames
    → (offered ds f ≡ true) × (f < last_available 0 ds / bytes_per_frame)

-- How the start ends. `h` is the first frame of the heap.
pub data Outcome (ds : List MemoryDescriptor) : Option Boot → Type 0 where
  starts :
      (m : BitmapMemoryManager) (heap : Heap) (h : ℕ)
      → heap.program_break ≡ h * bytes_per_frame
      → heap.program_break_end ≡ (h + heap_frames) * bytes_per_frame
      → IsOfferedRun ds h
      → m.range_end ≡ last_available 0 ds / bytes_per_frame
      → ((f : ℕ)
          → f < m.range_end
          → get_bit m f ≡ (if within h heap_frames f then true else not (offered ds f)))
      → Outcome ds (some (started m heap))
  no_heap : ((t : ℕ) → 1 ≤ t → ¬ IsOfferedRun ds t) → Outcome ds (some (exited no_enough_memory))

-- A free run of the manager is a run that the map offers, and the other way round.
free-offered :
    (ds : List MemoryDescriptor) (t : ℕ)
    → IsSortedMap 0 ds
    → IsFreeRun (mapped ds) t heap_frames ↔ IsOfferedRun ds t
free-offered ds t s = (
  λ run f p q. ground (arith, run f p q, get_bit-mapped ds f s (run f p q).1, mapped-IsValid ds s),
  λ run f p q.
      let inside : f < (mapped ds).range_end = omega (arith, run f p q, mapped-IsValid ds s) in
      ground (arith, run f p q, get_bit-mapped ds f s inside, inside),
)

heap-Outcome :
    (ds : List MemoryDescriptor) (r : Option (BitmapMemoryManager × WithError ℕ))
    → IsSortedMap 0 ds
    → FirstFit (mapped ds) heap_frames r
    → allocate (mapped ds) heap_frames ≡ r
    → Outcome ds (initialize_heap (mapped ds))
unfolding initialize_heap
heap-Outcome ds r s (found start p run before) e =
    let v = mapped-IsValid ds s in
    let below : start < 2 ^ 25 = omega (arith, (run start (omega arith) (omega arith)).1, v.1) in
    let range = range-allocate heap_frames v.0 e in
    rw (e, initialize_heap)
      (starts (mark_allocated (mapped ds) start heap_frames) _ start (omega arith) (omega arith)
        ((free-offered ds start s).0 run) (range.1 ∙ v.3)
        (λ f h.
          get_bit-allocate heap_frames v.0 e (omega arith) f
          ∙ ap (λ b. if within start heap_frames f then true else b)
              (get_bit-mapped ds f s (omega (arith, range, h)))))
heap-Outcome ds r s (no_room none_free) e =
    rw (e, initialize_heap)
      (no_heap
        λ t h run. none_free t (omega (arith, mapped-IsValid ds s)) ((free-offered ds t s).1 run))

-- On a sorted map below 128 GiB the start ends. It exits only when the map offers no run of frames
-- for the heap; else the heap lies on offered frames, and below the last available end a frame is
-- free exactly when the map offers it and the heap does not hold it.
pub initialize_memory_manager-Outcome :
    (ds : List MemoryDescriptor) → IsSortedMap 0 ds → Outcome ds (initialize_memory_manager ds)
unfolding initialize_memory_manager
initialize_memory_manager-Outcome ds s =
    heap-Outcome ds _ s (allocate-FirstFit (mapped ds) heap_frames (mapped-IsValid ds s).0) refl
