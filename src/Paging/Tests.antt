-- ===== src/Paging/Tests.antt =====
-- Four tables in the frames 1 to 4 that lead to a page in frame 5, which may not be written.
use mikanos.Prelude.{
  ◌%◌, ◌≢◌, some, ◌+◌, ◌-◌, ◌^◌, ◌≡◌, refl, true, false, [], ◌==◌, if◌then◌else◌, Returns, arith,
  ◌⊎◌,
}
use mikanos.Error.{Error}
use mikanos.Memory.{get_bit}
use mikanos.Memory.Allocate.{IsValid}
use mikanos.Paging.Setup.{setup_page_maps}
use mikanos.Paging.Setup.Ends.{setup_page_maps_lem}
use mikanos.Task.State.{fresh_task}
use mikanos.Paging.{Pages}
use mikanos.Paging.Copy.{copy_one_page, copy_page_maps}
use mikanos.Paging.Copy.OnWrite.{IsMapped, IsCopied, copy_one_page_lem}
use mikanos.Paging.Copy.Leaves.{IsShared, copy_page_maps_lem}
use mikanos.Paging.Fault.{handle_page_fault}
use mikanos.Paging.Fault.Present.{handle_page_fault_present}

abbrev pages : Pages
pages = record {
  manager = record {
    alloc_map = λ i. if i == 0 then 2 ^ 64 - 1 else 0;
    range_begin = 1;
    range_end = 128;
  };
  tables = λ t j. record {
    present = true;
    writable = false;
    user = true;
    huge_page = false;
    attributes = 0;
    addr = t + 1;
  };
  cr3 = 1;
}

pages-IsMapped : IsMapped pages 8192
unfolding get_bit
pages-IsMapped = record {
  used4 = refl;
  used3 = refl;
  used2 = refl;
  used1 = refl;
  used = refl;
  leads4 = (refl, refl);
  leads3 = (refl, refl);
  leads2 = (refl, refl);
  present1 = refl;
  apart4 = omega arith;
  apart3 = omega arith;
  apart2 = omega arith;
}

copy_one_page_example :
    Returns
      (copy_one_page pages 8192)
      (λ r. (r ≡ (pages, Error.no_enough_memory)) ⊎ IsCopied pages 8192 r)
copy_one_page_example =
    copy_one_page_lem pages 8192 (record { begin_fits = omega arith; end_fits = omega arith })
      (omega arith) pages-IsMapped

handle_page_fault_present_example :
    ((7 % 8 ≡ 7)
      × Returns
          (handle_page_fault (λ fd n offset. []) (fresh_task 1) pages 7 8192)
          (λ r. (r ≡ (pages, Error.no_enough_memory)) ⊎ IsCopied pages 8192 r))
    ⊎ ((7 % 8 ≢ 7)
        × (handle_page_fault (λ fd n offset. []) (fresh_task 1) pages 7 8192
            ≡ some (pages, Error.already_allocated)))
handle_page_fault_present_example =
    handle_page_fault_present (λ fd n offset. []) (fresh_task 1) pages 7 8192
      (record { begin_fits = omega arith; end_fits = omega arith }) (omega arith) pages-IsMapped
      refl

copy_page_maps_example :
    Returns
      (copy_page_maps 1 pages 6 4 256)
      (λ r. (r.1 ≡ Error.success) × IsShared pages 6 4 256 512 r.0)
copy_page_maps_example = copy_page_maps_lem pages 6 4 256 (omega arith) (omega arith)

setup_page_maps_example : Returns (setup_page_maps pages 8192 3 true) (λ r. IsValid r.0.manager)
setup_page_maps_example =
    setup_page_maps_lem pages 8192 3 true (omega arith)
      (record { begin_fits = omega arith; end_fits = omega arith })
