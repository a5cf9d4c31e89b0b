-- ===== src/Error.antt =====
-- src/kernel/error.hpp: the error codes with their names, and a value beside an error. The file and
-- the line that `MAKE_ERROR` records serve messages only, and are not modelled.
use mikanos.Prelude.{Bool, true, false}

pub data Error : Type 0 where
  success full empty no_enough_memory index_out_of_range host_controller_not_halted : Error
  invalid_slot_id port_not_connected invalid_endpoint_number transfer_ring_not_set : Error
  already_allocated not_implemented invalid_descriptor buffer_too_small unknown_device : Error
  no_corresponding_setup_stage transfer_failed invalid_phase unknown_xhci_speed_id : Error
  no_waiter no_pci_msi unknown_pixel_format no_such_task invalid_format frame_too_small : Error
  invalid_file is_directory no_such_entry free_type_error : Error

-- `operator bool`
abbrev pub is_error : Error → Bool
is_error Error.success = false
is_error _ = true

pub record WithError {ℓ} (A : Type ℓ) : Type ℓ where
  pub value : A
  pub error : Error
