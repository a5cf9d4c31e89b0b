-- ===== src/Usb/Xhci/Event.antt =====
-- The events of the controller, and the start: src/kernel/usb/xhci/xhci.cpp.
use mikanos.Prelude.{
  ℕ, zero, suc, ◌+◌, Bool, false, not, ◌&&◌, ◌||◌, none, some, [], ◌==◌, ltb, if◌then◌else◌,
}
use mikanos.Error.{Error, is_error}
use mikanos.Usb.Xhci.{
  not_connected, waiting_addressed, resetting_port, enabling_slot, addressing_device,
  initializing_device, configuring_endpoints, same_phase, Port, push, configure_endpoint_command,
  Controller, set_phase, request, find_by_slot, reset_port, enable_slot, address_device,
  initialize_device, complete_configuration,
}

-- What the controller's registers and the device contexts, which it writes, hold at an event: the ports,
-- and the port of the device in a slot.
pub record Readings : Type 0 where
  pub ports : ℕ → Port
  pub root_hub_port_num : ℕ → ℕ

-- `OnEvent` of a `PortStatusChangeEventTRB`
unfoldable pub on_port_status_change : Readings → Controller → ℕ → Controller × Error
unfolding reset_port enable_slot
on_port_status_change r s port_id =
    if same_phase (s.phase port_id) not_connected
    then reset_port r.ports s port_id
    else if same_phase (s.phase port_id) resetting_port
    then enable_slot r.ports s port_id
    else (s, Error.invalid_phase)

-- `ConfigureEndpoints`; the contexts of the endpoints are left out.
unfoldable pub configure_endpoints : Readings → Controller → ℕ → Controller × Error
configure_endpoints r s slot_id =
    let port_id = r.root_hub_port_num slot_id in
    let port_speed = (r.ports port_id).speed in
    if port_speed == 0 || ltb 5 port_speed then (s, Error.unknown_xhci_speed_id) else (
      request (set_phase s port_id configuring_endpoints)
          (push (configure_endpoint_command slot_id)),
      Error.success,
    )

-- `OnEvent` of a `TransferEventTRB`. `err` is what `OnTransferEventReceived` of the device returns, and
-- `is_initialized` what `IsInitialized` tells after it.
unfoldable pub on_transfer : Readings → Controller → ℕ → Error → Bool → Controller × Error
unfolding find_by_slot configure_endpoints
on_transfer r s slot_id err is_initialized = elim (find_by_slot s slot_id) [
  | none ↦ (s, Error.invalid_slot_id)
  | some dev ↦
      if is_error err
      then (s, err)
      else if is_initialized
          && same_phase (s.phase (r.root_hub_port_num slot_id)) initializing_device
      then configure_endpoints r s slot_id
      else (s, Error.success)
]

-- The loop over `port_config_phase` after an address has been given, with `rounds` entries left.
unfoldable pub reset_next : Readings → ℕ → Controller → ℕ → Controller × Error
unfolding reset_port
reset_next r zero s i = (s, Error.success)
reset_next r (suc rounds) s i =
    if same_phase (s.phase i) waiting_addressed
    then reset_port r.ports s i
    else reset_next r rounds s (i + 1)

-- `trb_type` of the command that has completed
pub data Issuer : Type 0 where
  by_enable_slot by_address_device by_configure_endpoint by_other : Issuer

-- The end of a command to address the device of a slot.
unfoldable pub on_addressed : Readings → Controller → ℕ → Controller × Error
unfolding reset_next initialize_device
on_addressed r s slot_id =
    let port_id = r.root_hub_port_num slot_id in
    if not (port_id == s.addressing_port)
    then (s, Error.invalid_phase)
    else if not (same_phase (s.phase port_id) addressing_device)
    then (s, Error.invalid_phase)
    else (let next = reset_next r 256 (record s { addressing_port = 0 }) 0 in
        if is_error next.1 then next else initialize_device next.0 port_id slot_id)

-- `OnEvent` of a `CommandCompletionEventTRB`
unfoldable pub on_command_completion : Readings → Controller → Issuer → ℕ → Controller × Error
unfolding find_by_slot address_device on_addressed complete_configuration
on_command_completion r s by_enable_slot slot_id =
    if same_phase (s.phase s.addressing_port) enabling_slot
    then address_device r.ports s s.addressing_port slot_id
    else (s, Error.invalid_phase)
on_command_completion r s by_address_device slot_id = elim (find_by_slot s slot_id) [
  | none ↦ (s, Error.invalid_slot_id)
  | some dev ↦ on_addressed r s slot_id
]
on_command_completion r s by_configure_endpoint slot_id = elim (find_by_slot s slot_id) [
  | none ↦ (s, Error.invalid_slot_id)
  | some dev ↦
      if same_phase (s.phase (r.root_hub_port_num slot_id)) configuring_endpoints
      then complete_configuration s (r.root_hub_port_num slot_id) slot_id
      else (s, Error.invalid_phase)
]
on_command_completion r s by_other slot_id = (s, Error.invalid_phase)

-- The block at the front of the event ring.
pub data Event : Type 0 where
  port_status_change : (port_id : ℕ) → Event
  transfer : (slot_id : ℕ) (err : Error) (is_initialized : Bool) → Event
  command_completion : Issuer → (slot_id : ℕ) → Event
  other : Event

-- `ProcessEvent`, where there is an event
unfoldable pub process_event : Readings → Controller → Event → Controller × Error
unfolding on_port_status_change on_transfer on_command_completion
process_event r s (port_status_change port_id) = on_port_status_change r s port_id
process_event r s (transfer slot_id err is_initialized) = on_transfer r s slot_id err is_initialized
process_event r s (command_completion issuer slot_id) = on_command_completion r s issuer slot_id
process_event r s other = (s, Error.not_implemented)

-- `ConfigurePort`
unfoldable pub configure_port : (ℕ → Port) → Controller → ℕ → Controller × Error
unfolding reset_port
configure_port ports s port =
    if same_phase (s.phase port) not_connected then reset_port ports s port else (s, Error.success)

-- The loop of `Initialize` over the ports, with `rounds` ports left; errors are only logged.
unfoldable pub configure_ports : (ℕ → Port) → ℕ → Controller → ℕ → Controller
unfolding configure_port
configure_ports ports zero s i = s
configure_ports ports (suc rounds) s i =
    configure_ports ports rounds
      (if (ports i).is_connected then (configure_port ports s i).0 else s) (i + 1)

-- Before the first port is configured.
abbrev pub start : ℕ → Controller
start max_slots = record {
  phase = λ _. not_connected;
  addressing_port = 0;
  max_slots = max_slots;
  devices = λ _. none;
  loaded = λ _. false;
  requests = [];
}
