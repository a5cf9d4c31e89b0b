-- ===== src/Usb/Xhci.antt =====
-- src/kernel/usb/xhci/xhci.cpp and devmgr.cpp: how the ports of the hub are brought up one after the
-- other. What the code reads from a register of the controller is an argument; what it writes there, and
-- what it tells a device, is a list of requests.
pub mod Event
pub mod Exclusive
pub mod Turn
pub mod Tests
use mikanos.Prelude.{
  ℕ, zero, suc, ◌+◌, ◌-◌, Bool, true, false, not, ◌&&◌, ◌||◌, Option, none, some, List, [], ◌∷◌,
  ◌++◌, ◌==◌, ltb, if◌then◌else◌,
}
use mikanos.Error.{Error, is_error}

pub data ConfigPhase : Type 0 where
  not_connected waiting_addressed resetting_port enabling_slot : ConfigPhase
  addressing_device initializing_device configuring_endpoints configured : ConfigPhase

-- `==` on the enumeration
abbrev pub phase_code : ConfigPhase → ℕ
phase_code not_connected = 0
phase_code waiting_addressed = 1
phase_code resetting_port = 2
phase_code enabling_slot = 3
phase_code addressing_device = 4
phase_code initializing_device = 5
phase_code configuring_endpoints = 6
phase_code configured = 7

abbrev pub same_phase : ConfigPhase → ConfigPhase → Bool
same_phase p q = phase_code p == phase_code q

-- What `PORTSC` of a port tells.
pub record Port : Type 0 where
  pub is_connected : Bool
  pub is_enabled : Bool
  pub is_port_reset_changed : Bool
  pub speed : ℕ

-- The fields of the input context that the start of a device sets.
pub record Device : Type 0 where
  pub root_hub_port_num : ℕ
  pub speed : ℕ
  pub max_packet_size : ℕ

pub data Command : Type 0 where
  enable_slot_command : Command
  address_device_command configure_endpoint_command : (slot_id : ℕ) → Command

pub data Request : Type 0 where
  reset clear_port_reset_change : (port_id : ℕ) → Request
  push : Command → Request
  start_initialize endpoints_configured : (slot_id : ℕ) → Request

-- `port_config_phase`, `addressing_port`, the device manager, and the requests so far.
pub record Controller : Type 0 where
  pub phase : ℕ → ConfigPhase
  pub addressing_port : ℕ
  pub max_slots : ℕ
  pub devices : ℕ → Option Device
  pub loaded : ℕ → Bool
  pub requests : List Request

abbrev pub set_phase : Controller → ℕ → ConfigPhase → Controller
set_phase s port p = record s { phase = λ i. if i == port then p else s.phase i }

abbrev pub request : Controller → Request → Controller
request s r = record s { requests = s.requests ++ r ∷ [] }

-- `FindBySlot`
unfoldable pub find_by_slot : Controller → ℕ → Option Device
find_by_slot s slot_id = if ltb s.max_slots slot_id then none else s.devices slot_id

abbrev pub set_device : Controller → ℕ → Device → Controller
set_device s slot_id d = record s { devices = λ i. if i == slot_id then some d else s.devices i }

abbrev pub is_none {ℓ} : {A : Type ℓ} → Option A → Bool
is_none none = true
is_none (some a) = false

-- `AllocDevice`, where the pool has the memory of the device: a null result of `AllocArray` is not modelled
unfoldable pub alloc_device : Controller → ℕ → Controller × Error
alloc_device s slot_id =
    if ltb s.max_slots slot_id
    then (s, Error.invalid_slot_id)
    else if not (is_none (s.devices slot_id))
    then (s, Error.already_allocated)
    else (
      set_device s slot_id (record { root_hub_port_num = 0; speed = 0; max_packet_size = 0 }),
      Error.success,
    )

-- `LoadDCBAA`
unfoldable pub load_dcbaa : Controller → ℕ → Controller × Error
load_dcbaa s slot_id =
    if ltb s.max_slots slot_id
    then (s, Error.invalid_slot_id)
    else (record s { loaded = λ i. i == slot_id || s.loaded i }, Error.success)

-- `DetermineMaxPacketSizeForControlPipe`
abbrev pub determine_max_packet_size : ℕ → ℕ
determine_max_packet_size slot_speed =
    if slot_speed == 4 then 512 else if slot_speed == 3 then 64 else 8

-- `ResetPort`
unfoldable pub reset_port : (ℕ → Port) → Controller → ℕ → Controller × Error
reset_port ports s port =
    if not (ports port).is_connected
    then (s, Error.success)
    else if not (s.addressing_port == 0)
    then (set_phase s port waiting_addressed, Error.success)
    else if same_phase (s.phase port) not_connected || same_phase (s.phase port) waiting_addressed
    then (
      request (set_phase (record s { addressing_port = port }) port resetting_port) (reset port),
      Error.success,
    )
    else (s, Error.invalid_phase)

-- `EnableSlot`
unfoldable pub enable_slot : (ℕ → Port) → Controller → ℕ → Controller × Error
enable_slot ports s port =
    if (ports port).is_enabled && (ports port).is_port_reset_changed
    then (
      request (set_phase (request s (clear_port_reset_change port)) port enabling_slot)
          (push enable_slot_command),
      Error.success,
    )
    else (s, Error.success)

-- `AddressDevice`; the result of `AllocDevice` is not looked at.
unfoldable pub address_device : (ℕ → Port) → Controller → ℕ → ℕ → Controller × Error
unfolding alloc_device find_by_slot load_dcbaa
address_device ports s port_id slot_id =
    let s₁ = (alloc_device s slot_id).0 in
    elim (find_by_slot s₁ slot_id) [
      | none ↦ (s₁, Error.invalid_slot_id)
      | some dev ↦
          let s₂ = set_device s₁ slot_id (record {
            root_hub_port_num = port_id;
            speed = (ports port_id).speed;
            max_packet_size = determine_max_packet_size (ports port_id).speed;
          }) in
          let s₃ = (load_dcbaa s₂ slot_id).0 in
          (
            request (set_phase s₃ port_id addressing_device)
                (push (address_device_command slot_id)),
            Error.success,
          )
    ]

-- `InitializeDevice`
unfoldable pub initialize_device : Controller → ℕ → ℕ → Controller × Error
unfolding find_by_slot
initialize_device s port_id slot_id = elim (find_by_slot s slot_id) [
  | none ↦ (s, Error.invalid_slot_id)
  | some dev ↦
      (request (set_phase s port_id initializing_device) (start_initialize slot_id), Error.success)
]

-- `CompleteConfiguration`
unfoldable pub complete_configuration : Controller → ℕ → ℕ → Controller × Error
unfolding find_by_slot
complete_configuration s port_id slot_id = elim (find_by_slot s slot_id) [
  | none ↦ (s, Error.invalid_slot_id)
  | some dev ↦
      (set_phase (request s (endpoints_configured slot_id)) port_id configured, Error.success)
]
