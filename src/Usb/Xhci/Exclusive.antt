-- ===== src/Usb/Xhci/Exclusive.antt =====
-- At most one port is between its reset and its address.
pub mod Released
pub mod Reach
use mikanos.Prelude.{
  ℕ, zero, suc, ◌+◌, ◌-◌, ◌<◌, ◌≤◌, ◌≡◌, ◌≢◌, refl, sym, ◌∙◌, ap, subst, Bool, true, false, not,
  ◌&&◌, ◌||◌, Option, none, some, [], ◌==◌, ltb, leb, if◌then◌else◌, arith, Bool-cases,
  Option-cases, inl, inr,
}
use mathlib.Core.Bool.{true≢false}
use mikanos.Error.{Error, is_error}
use mikanos.Usb.Xhci.{
  ConfigPhase, not_connected, waiting_addressed, resetting_port, enabling_slot, addressing_device,
  initializing_device, configuring_endpoints, configured, phase_code, same_phase, Port, Controller,
  set_phase, request, set_device, determine_max_packet_size, find_by_slot, alloc_device, load_dcbaa,
  reset_port, enable_slot, address_device, initialize_device, complete_configuration,
}
use mikanos.Usb.Xhci.Event.{
  Readings, on_port_status_change, configure_endpoints, on_transfer, reset_next, Issuer,
  on_addressed, on_command_completion, Event, port_status_change, transfer, command_completion,
  other, process_event, configure_port, configure_ports, start,
}

-- From the reset of the port to its address.
abbrev pub is_addressing : ConfigPhase → Bool
is_addressing p = leb 2 (phase_code p) && leb (phase_code p) 4

-- The port that is being addressed is `addressing_port`, and 0 means none; there is no port 0.
pub record IsExclusive (s : Controller) : Type 0 where
  pub only : (p : ℕ) → is_addressing (s.phase p) ≡ true → p ≡ s.addressing_port
  pub under_way : s.addressing_port ≢ 0 → is_addressing (s.phase s.addressing_port) ≡ true
  pub no_port : phase_code (s.phase 0) ≡ 0

pub reset_port-IsExclusive :
    (ports : ℕ → Port) (s : Controller) (port : ℕ)
    → port ≢ 0
    → is_addressing (s.phase port) ≡ false
    → IsExclusive s
    → IsExclusive (reset_port ports s port).0
unfolding reset_port
reset_port-IsExclusive ports s port h q k = ground (arith, k.only, k.under_way, k.no_port)

pub enable_slot-IsExclusive :
    (ports : ℕ → Port) (s : Controller) (port : ℕ)
    → is_addressing (s.phase port) ≡ true
    → IsExclusive s
    → IsExclusive (enable_slot ports s port).0
unfolding enable_slot
enable_slot-IsExclusive ports s port q k = ground (arith, k.only, k.under_way, k.no_port)

-- The bookkeeping of devices does not touch the ports.
abbrev pub SamePorts : Controller → Controller → Type 0
SamePorts s t = (t.phase ≡ s.phase) × (t.addressing_port ≡ s.addressing_port)

alloc_device-SamePorts : (s : Controller) (slot_id : ℕ) → SamePorts s (alloc_device s slot_id).0
unfolding alloc_device
alloc_device-SamePorts s slot_id = ground arith

load_dcbaa-SamePorts : (s : Controller) (slot_id : ℕ) → SamePorts s (load_dcbaa s slot_id).0
unfolding load_dcbaa
load_dcbaa-SamePorts s slot_id = ground arith

pub same-IsExclusive : (s t : Controller) → SamePorts s t → IsExclusive s → IsExclusive t
same-IsExclusive s t (e, f) k = record {
  only = λ p h. k.only p (sym (ap (λ g. is_addressing (g p)) e) ∙ h) ∙ sym f;
  under_way = λ h.
      ap (λ g. is_addressing (g t.addressing_port)) e
      ∙ ap (λ p. is_addressing (s.phase p)) f
      ∙ k.under_way (λ x. h (f ∙ x));
  no_port = ap (λ g. phase_code (g 0)) e ∙ k.no_port;
}

-- The port that is being addressed, or one that is not, gets a phase.
module _ (s : Controller) (port : ℕ) (p : ConfigPhase)
    (q : is_addressing p ≡ is_addressing (s.phase port)) where
  kept : (x : ℕ) → is_addressing ((set_phase s port p).phase x) ≡ is_addressing (s.phase x)
  kept x = elim (Bool-cases (x == port)) [
    | inl e ↦
        let here : x ≡ port = ground arith in
        rw e (q ∙ ap (λ y. is_addressing (s.phase y)) (sym here))
    | inr e ↦ rw e refl
  ]

  pub set_phase-IsExclusive :
      (t : Controller) → SamePorts (set_phase s port p) t → port ≢ 0 → IsExclusive s → IsExclusive t
  set_phase-IsExclusive t same h k =
      let apart : (0 == port) ≡ false = ground arith in
      same-IsExclusive (set_phase s port p) t same (record {
        only = λ x e. k.only x (sym (kept x) ∙ e);
        under_way = λ e. kept s.addressing_port ∙ k.under_way e;
        no_port = rw apart k.no_port;
      })

  set_phase-SamePorts :
      (t : Controller) → SamePorts s t → SamePorts (set_phase s port p) (set_phase t port p)
  set_phase-SamePorts t (e, f) = (ap (λ g i. if i == port then p else g i) e, f)

-- The port that is being addressed is not port 0.
addressing_port-positive :
    (s : Controller)
    → is_addressing (s.phase s.addressing_port) ≡ true
    → IsExclusive s
    → s.addressing_port ≢ 0
addressing_port-positive s q k e =
    let none : is_addressing (s.phase 0) ≡ false = ground (arith, k.no_port) in
    true≢false (sym q ∙ ap (λ x. is_addressing (s.phase x)) e ∙ none)

pub address_device-IsExclusive :
    (ports : ℕ → Port) (s : Controller) (slot_id : ℕ)
    → is_addressing (s.phase s.addressing_port) ≡ true
    → IsExclusive s
    → IsExclusive (address_device ports s s.addressing_port slot_id).0
unfolding address_device
address_device-IsExclusive ports s slot_id q k =
    let s₁ : Controller = (alloc_device s slot_id).0 in
    let alloc = alloc_device-SamePorts s slot_id in
    elim (Option-cases (find_by_slot s₁ slot_id)) [
      | inl missing ↦ rw (address_device, missing) (same-IsExclusive s s₁ alloc k)
      | inr (dev, there) ↦
          let s₂ : Controller = set_device s₁ slot_id (record {
            root_hub_port_num = s.addressing_port;
            speed = (ports s.addressing_port).speed;
            max_packet_size = determine_max_packet_size (ports s.addressing_port).speed;
          }) in
          let load = load_dcbaa-SamePorts s₂ slot_id in
          rw (address_device, there)
            (set_phase-IsExclusive s s.addressing_port addressing_device (sym q) _
              (set_phase-SamePorts s s.addressing_port addressing_device (sym q)
                (load_dcbaa s₂ slot_id).0 (load.0 ∙ alloc.0, load.1 ∙ alloc.1))
              (addressing_port-positive s q k) k)
    ]

-- A port that is not being addressed goes on.
pub initialize_device-IsExclusive :
    (s : Controller) (port slot_id : ℕ)
    → is_addressing (s.phase port) ≡ false
    → port ≢ 0
    → IsExclusive s
    → IsExclusive (initialize_device s port slot_id).0
unfolding initialize_device
initialize_device-IsExclusive s port slot_id q h k = elim (Option-cases (find_by_slot s slot_id)) [
  | inl missing ↦ rw (initialize_device, missing) k
  | inr (dev, there) ↦
      rw (initialize_device, there)
        (set_phase-IsExclusive s port initializing_device (sym q) _ (refl, refl) h k)
]

pub complete_configuration-IsExclusive :
    (s : Controller) (port slot_id : ℕ)
    → is_addressing (s.phase port) ≡ false
    → port ≢ 0
    → IsExclusive s
    → IsExclusive (complete_configuration s port slot_id).0
unfolding complete_configuration
complete_configuration-IsExclusive s port slot_id q h k =
    elim (Option-cases (find_by_slot s slot_id)) [
      | inl missing ↦ rw (complete_configuration, missing) k
      | inr (dev, there) ↦
          rw (complete_configuration, there)
            (set_phase-IsExclusive s port configured (sym q) _ (refl, refl) h k)
    ]

pub configure_endpoints-IsExclusive :
    (r : Readings) (s : Controller) (slot_id : ℕ)
    → is_addressing (s.phase (r.root_hub_port_num slot_id)) ≡ false
    → r.root_hub_port_num slot_id ≢ 0
    → IsExclusive s
    → IsExclusive (configure_endpoints r s slot_id).0
unfolding configure_endpoints
configure_endpoints-IsExclusive r s slot_id q h k =
    let port : ℕ = r.root_hub_port_num slot_id in
    let speed : ℕ = (r.ports port).speed in
    elim (Bool-cases (speed == 0 || ltb 5 speed)) [
      | inl fails ↦ rw fails k
      | inr works ↦
          rw works (set_phase-IsExclusive s port configuring_endpoints (sym q) _ (refl, refl) h k)
    ]
