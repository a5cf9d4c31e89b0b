-- ===== src/Usb/Xhci/Exclusive/Reach.antt =====
-- Every state that the events of the controller lead to.
use mikanos.Prelude.{
  ℕ, ◌≡◌, ◌≢◌, refl, sym, ◌∙◌, ap, subst, Bool, true, false, ◌&&◌, some, ◌==◌, if◌then◌else◌, arith,
  Bool-cases, Option-cases, inl, inr,
}
use mathlib.Core.Bool.{true≢false}
use mikanos.Error.{Error, is_error}
use mikanos.Usb.Xhci.{
  not_connected, resetting_port, enabling_slot, addressing_device, initializing_device,
  configuring_endpoints, phase_code, same_phase, Port, Controller, Device, find_by_slot, reset_port,
  enable_slot,
}
use mikanos.Usb.Xhci.Event.{
  Readings, on_port_status_change, on_transfer, reset_next, Issuer, by_enable_slot,
  by_address_device, by_configure_endpoint, by_other, on_addressed, on_command_completion, Event,
  port_status_change, transfer, command_completion, other, process_event, configure_port, start,
}
use mikanos.Usb.Xhci.Exclusive.{
  IsExclusive, same-IsExclusive, reset_port-IsExclusive, enable_slot-IsExclusive,
  address_device-IsExclusive, configure_endpoints-IsExclusive, complete_configuration-IsExclusive,
}
use mikanos.Usb.Xhci.Exclusive.Released.{
  freed-IsReleased, reset_next-IsReleased, initialized-IsExclusive, on_addressed-next,
}

-- The ports of the hub are numbered from 1.
abbrev pub IsPossible : Event → Type 0
IsPossible (port_status_change port_id) = port_id ≢ 0
IsPossible _ = Unit

-- A port with another phase than port 0.
port_positive :
    (s : Controller) (port : ℕ) → IsExclusive s → phase_code (s.phase port) ≢ 0 → port ≢ 0
port_positive s port k h e = h (ap (λ x. phase_code (s.phase x)) e ∙ k.no_port)

-- `OnEvent` with its tests decided.
status_test :
    (r : Readings) (s : Controller) (port_id : ℕ) (a b : Bool)
    → same_phase (s.phase port_id) not_connected ≡ a
    → same_phase (s.phase port_id) resetting_port ≡ b
    → on_port_status_change r s port_id ≡ (
        if a
        then reset_port r.ports s port_id
        else if b
        then enable_slot r.ports s port_id
        else (s, Error.invalid_phase))
unfolding on_port_status_change
status_test r s port_id a b e f =
    ap
      (λ x.
        if x
        then reset_port r.ports s port_id
        else if same_phase (s.phase port_id) resetting_port
        then enable_slot r.ports s port_id
        else (s, Error.invalid_phase))
      e
    ∙ ap
        (λ x.
          if a
          then reset_port r.ports s port_id
          else if x
          then enable_slot r.ports s port_id
          else (s, Error.invalid_phase))
        f

on_port_status_change-IsExclusive :
    (r : Readings) (s : Controller) (port_id : ℕ)
    → port_id ≢ 0
    → IsExclusive s
    → IsExclusive (on_port_status_change r s port_id).0
on_port_status_change-IsExclusive r s port_id h k =
    elim (Bool-cases (same_phase (s.phase port_id) not_connected)) [
      | inl fresh ↦
          subst (λ x. IsExclusive x.0)
            (sym (
              status_test r s port_id true (same_phase (s.phase port_id) resetting_port) fresh
                refl))
            (reset_port-IsExclusive r.ports s port_id h (ground arith) k)
      | inr started ↦ elim (Bool-cases (same_phase (s.phase port_id) resetting_port)) [
        | inl resets ↦
            subst (λ x. IsExclusive x.0) (sym (status_test r s port_id false true started resets))
              (enable_slot-IsExclusive r.ports s port_id (ground arith) k)
        | inr moved ↦
            subst (λ x. IsExclusive x.0) (sym (status_test r s port_id false false started moved)) k
      ]
    ]

on_transfer-IsExclusive :
    (r : Readings) (s : Controller) (slot_id : ℕ) (err : Error) (is_initialized : Bool)
    → IsExclusive s
    → IsExclusive (on_transfer r s slot_id err is_initialized).0
unfolding on_transfer
on_transfer-IsExclusive r s slot_id err is_initialized k =
    let port : ℕ = r.root_hub_port_num slot_id in
    elim (Option-cases (find_by_slot s slot_id)) [
      | inl missing ↦ rw (on_transfer, missing) k
      | inr (dev, there) ↦ elim (Bool-cases (is_error err)) [
        | inl fails ↦ rw (on_transfer, there, fails) k
        | inr works ↦
            elim (Bool-cases (is_initialized && same_phase (s.phase port) initializing_device)) [
              | inl ready ↦
                  rw (on_transfer, there, works, ready)
                    (configure_endpoints-IsExclusive r s slot_id (ground arith)
                      (port_positive s port k (ground arith)) k)
              | inr early ↦ rw (on_transfer, there, works, early) k
            ]
      ]
    ]

on_addressed-IsExclusive :
    (r : Readings) (s : Controller) (slot_id : ℕ) (dev : Device)
    → find_by_slot s slot_id ≡ some dev
    → IsExclusive s
    → IsExclusive (on_addressed r s slot_id).0
unfolding on_addressed
on_addressed-IsExclusive r s slot_id dev there k =
    let port : ℕ = r.root_hub_port_num slot_id in
    elim (Bool-cases (port == s.addressing_port)) [
      | inr other_port ↦ rw other_port k
      | inl same ↦ elim (Bool-cases (same_phase (s.phase port) addressing_device)) [
        | inr early ↦ rw (same, early) k
        | inl addressed ↦
            let here : port ≡ s.addressing_port = ground arith in
            let phase : same_phase (s.phase s.addressing_port) addressing_device ≡ true =
              ap (λ p. same_phase (s.phase p) addressing_device) (sym here) ∙ addressed in
            let free : Controller = record s { addressing_port = 0 } in
            subst (λ x. IsExclusive x.0) (sym (on_addressed-next r s slot_id dev there here phase))
              (same-IsExclusive _ _ (refl, refl)
                (initialized-IsExclusive (reset_next r 256 free 0).0 s.addressing_port (
                  reset_next-IsReleased r s.addressing_port 256 free 0
                    (freed-IsReleased s s.addressing_port refl (ground arith) k))))
      ]
    ]

on_command_completion-IsExclusive :
    (r : Readings) (s : Controller) (issuer : Issuer) (slot_id : ℕ)
    → IsExclusive s
    → IsExclusive (on_command_completion r s issuer slot_id).0
unfolding on_command_completion
on_command_completion-IsExclusive r s by_enable_slot slot_id k =
    elim (Bool-cases (same_phase (s.phase s.addressing_port) enabling_slot)) [
      | inl enabling ↦ rw enabling (address_device-IsExclusive r.ports s slot_id (ground arith) k)
      | inr not_enabling ↦ rw not_enabling k
    ]
on_command_completion-IsExclusive r s by_address_device slot_id k =
    elim (Option-cases (find_by_slot s slot_id)) [
      | inl missing ↦ rw (on_command_completion, missing) k
      | inr (dev, there) ↦
          rw (on_command_completion, there) (on_addressed-IsExclusive r s slot_id dev there k)
    ]
on_command_completion-IsExclusive r s by_configure_endpoint slot_id k =
    let port : ℕ = r.root_hub_port_num slot_id in
    elim (Option-cases (find_by_slot s slot_id)) [
      | inl missing ↦ rw (on_command_completion, missing) k
      | inr (dev, there) ↦ elim (Bool-cases (same_phase (s.phase port) configuring_endpoints)) [
        | inl ready ↦
            rw (on_command_completion, there, ready)
              (complete_configuration-IsExclusive s port slot_id (ground arith)
                (port_positive s port k (ground arith)) k)
        | inr early ↦ rw (on_command_completion, there, early) k
      ]
    ]
on_command_completion-IsExclusive r s by_other slot_id k = k

pub process_event-IsExclusive :
    (r : Readings) (s : Controller) (e : Event)
    → IsPossible e
    → IsExclusive s
    → IsExclusive (process_event r s e).0
unfolding process_event
process_event-IsExclusive r s (port_status_change port_id) h k =
    on_port_status_change-IsExclusive r s port_id h k
process_event-IsExclusive r s (transfer slot_id err is_initialized) h k =
    on_transfer-IsExclusive r s slot_id err is_initialized k
process_event-IsExclusive r s (command_completion issuer slot_id) h k =
    on_command_completion-IsExclusive r s issuer slot_id k
process_event-IsExclusive r s other h k = k

configure_port-IsExclusive :
    (ports : ℕ → Port) (s : Controller) (port : ℕ)
    → port ≢ 0
    → IsExclusive s
    → IsExclusive (configure_port ports s port).0
unfolding configure_port
configure_port-IsExclusive ports s port h k =
    elim (Bool-cases (same_phase (s.phase port) not_connected)) [
      | inl fresh ↦
          subst (λ b. IsExclusive (if b then reset_port ports s port else (s, Error.success)).0)
            (sym fresh) (reset_port-IsExclusive ports s port h (ground arith) k)
      | inr started ↦
          subst (λ b. IsExclusive (if b then reset_port ports s port else (s, Error.success)).0)
            (sym started) k
    ]

start-IsExclusive : (max_slots : ℕ) → IsExclusive (start max_slots)
start-IsExclusive max_slots = record {
  only = λ p h. absurd (true≢false (sym h));
  under_way = λ h. absurd (h refl);
  no_port = refl;
}

-- The states that the start and the events lead to, whatever the registers hold.
pub data Reach (max_slots : ℕ) : Controller → Type 0 where
  begin : Reach max_slots (start max_slots)
  configured_port :
      {s : Controller} (ports : ℕ → Port) (port : ℕ)
      → port ≢ 0
      → Reach max_slots s
      → Reach max_slots (configure_port ports s port).0
  event :
      {s : Controller} (r : Readings) (e : Event)
      → IsPossible e
      → Reach max_slots s
      → Reach max_slots (process_event r s e).0

-- In every state that the start and the events of the controller lead to, whatever the registers hold, a
-- port between its reset and its address is the one that is noted as such, and if one is noted it is
-- there.
pub Reach-IsExclusive : {max_slots : ℕ} {s : Controller} → Reach max_slots s → IsExclusive s
Reach-IsExclusive {max_slots} begin = start-IsExclusive max_slots
Reach-IsExclusive (configured_port ports port h k) =
    configure_port-IsExclusive ports _ port h (Reach-IsExclusive k)
Reach-IsExclusive (event r e h k) = process_event-IsExclusive r _ e h (Reach-IsExclusive k)
