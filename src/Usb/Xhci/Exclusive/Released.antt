-- ===== src/Usb/Xhci/Exclusive/Released.antt =====
-- When a port has its address, the next one that waits is reset.
use mikanos.Prelude.{
  ℕ, zero, suc, ◌+◌, ◌≡◌, ◌≢◌, refl, sym, ◌∙◌, ap, subst, Bool, true, false, not, some, ◌==◌,
  if◌then◌else◌, arith, Bool-cases, inl, inr,
}
use mathlib.Core.Bool.{true≢false}
use mikanos.Error.{Error, is_error}
use mikanos.Usb.Xhci.{
  waiting_addressed, addressing_device, initializing_device, phase_code, same_phase, Port,
  Controller, Device, start_initialize, set_phase, request, find_by_slot, reset_port,
  initialize_device,
}
use mikanos.Usb.Xhci.Event.{Readings, reset_next, on_addressed}
use mikanos.Usb.Xhci.Exclusive.{is_addressing, IsExclusive}

-- While the next port is looked for, the port that has its address is still in the old phase.
pub record IsReleased (port : ℕ) (s : Controller) : Type 0 where
  pub only : (p : ℕ) → is_addressing (s.phase p) ≡ true → p ≢ port → p ≡ s.addressing_port
  pub under_way : s.addressing_port ≢ 0 → is_addressing (s.phase s.addressing_port) ≡ true
  pub released : phase_code (s.phase port) ≡ 4
  pub another : s.addressing_port ≢ port
  pub no_port : phase_code (s.phase 0) ≡ 0

pub freed-IsReleased :
    (s : Controller) (port : ℕ)
    → port ≡ s.addressing_port
    → phase_code (s.phase port) ≡ 4
    → IsExclusive s
    → IsReleased port (record s { addressing_port = 0 })
freed-IsReleased s port e h k = record {
  only = λ p q d. absurd (d (k.only p q ∙ sym e));
  under_way = λ d. absurd (d refl);
  released = h;
  another = λ z. ground (arith, k.no_port, ap (λ x. phase_code (s.phase x)) z);
  no_port = k.no_port;
}

waiting-IsReleased :
    (ports : ℕ → Port) (s : Controller) (port i : ℕ)
    → phase_code (s.phase i) ≡ 1
    → IsReleased port s
    → IsReleased port (reset_port ports s i).0
unfolding reset_port
waiting-IsReleased ports s port i h k =
    ground (arith, k.only, k.under_way, k.released, k.another, k.no_port)

-- A round of the loop, with its test decided.
pub reset_next-test :
    (r : Readings) (rounds : ℕ) (s : Controller) (i : ℕ) (b : Bool)
    → same_phase (s.phase i) waiting_addressed ≡ b
    → reset_next r (suc rounds) s i
      ≡ (if b then reset_port r.ports s i else reset_next r rounds s (i + 1))
unfolding reset_next
reset_next-test r rounds s i b e =
    ap (λ x. if x then reset_port r.ports s i else reset_next r rounds s (i + 1)) e

pub reset_next-IsReleased :
    (r : Readings) (port rounds : ℕ) (s : Controller) (i : ℕ)
    → IsReleased port s
    → IsReleased port (reset_next r rounds s i).0
unfolding reset_next
reset_next-IsReleased r port zero s i k = k
reset_next-IsReleased r port (suc rounds) s i k =
    elim (Bool-cases (same_phase (s.phase i) waiting_addressed)) [
      | inl waits ↦
          subst (λ x. IsReleased port x.0) (sym (reset_next-test r rounds s i true waits))
            (waiting-IsReleased r.ports s port i (ground arith) k)
      | inr not_waiting ↦
          subst (λ x. IsReleased port x.0) (sym (reset_next-test r rounds s i false not_waiting))
            (reset_next-IsReleased r port rounds s (i + 1) k)
    ]

-- The port that has its address goes on to its initialization.
pub initialized-IsExclusive :
    (s : Controller) (port : ℕ)
    → IsReleased port s
    → IsExclusive (set_phase s port initializing_device)
initialized-IsExclusive s port k = record {
  only = λ p e. elim (Bool-cases (p == port)) [
    | inl here ↦ absurd (true≢false (sym e ∙ rw here refl))
    | inr there ↦ k.only p (sym (rw there refl) ∙ e) (ground arith)
  ];
  under_way = λ d.
      let there : (s.addressing_port == port) ≡ false = ground (arith, k.another) in
      rw there (k.under_way d);
  no_port =
      let there : (0 == port) ≡ false = ground (arith, k.no_port, k.released) in rw there k.no_port;
}

-- A port that waits is never refused.
waiting-success :
    (ports : ℕ → Port) (s : Controller) (i : ℕ)
    → same_phase (s.phase i) waiting_addressed ≡ true
    → (reset_port ports s i).1 ≡ Error.success
unfolding reset_port
waiting-success ports s i h = ground arith

-- The loop finds no error, and does not touch the devices.
pub reset_next-success :
    (r : Readings) (rounds : ℕ) (s : Controller) (i : ℕ)
    → (reset_next r rounds s i).1 ≡ Error.success
unfolding reset_next
reset_next-success r zero s i = refl
reset_next-success r (suc rounds) s i =
    elim (Bool-cases (same_phase (s.phase i) waiting_addressed)) [
      | inl waits ↦
          ap (λ x. x.1) (reset_next-test r rounds s i true waits)
          ∙ waiting-success r.ports s i waits
      | inr not_waiting ↦
          ap (λ x. x.1) (reset_next-test r rounds s i false not_waiting)
          ∙ reset_next-success r rounds s (i + 1)
    ]

reset_port-devices :
    (ports : ℕ → Port) (s : Controller) (i slot_id : ℕ)
    → find_by_slot (reset_port ports s i).0 slot_id ≡ find_by_slot s slot_id
unfolding reset_port find_by_slot
reset_port-devices ports s i slot_id = ground arith

pub reset_next-devices :
    (r : Readings) (rounds : ℕ) (s : Controller) (i slot_id : ℕ)
    → find_by_slot (reset_next r rounds s i).0 slot_id ≡ find_by_slot s slot_id
unfolding reset_next
reset_next-devices r zero s i slot_id = refl
reset_next-devices r (suc rounds) s i slot_id =
    elim (Bool-cases (same_phase (s.phase i) waiting_addressed)) [
      | inl waits ↦
          ap (λ x. find_by_slot x.0 slot_id) (reset_next-test r rounds s i true waits)
          ∙ reset_port-devices r.ports s i slot_id
      | inr not_waiting ↦
          ap (λ x. find_by_slot x.0 slot_id) (reset_next-test r rounds s i false not_waiting)
          ∙ reset_next-devices r rounds s (i + 1) slot_id
    ]

-- What `OnEvent` does with the result of the loop.
abbrev go_on : Controller × Error → ℕ → ℕ → Controller × Error
unfolding initialize_device
go_on next port_id slot_id =
    if is_error next.1 then next else initialize_device next.0 port_id slot_id

initialize_device-there :
    (s : Controller) (port_id slot_id : ℕ) (dev : Device)
    → find_by_slot s slot_id ≡ some dev
    → initialize_device s port_id slot_id ≡ (
      request (set_phase s port_id initializing_device) (start_initialize slot_id),
      Error.success,
    )
unfolding initialize_device
initialize_device-there s port_id slot_id dev there = rw (initialize_device, there) refl

go_on-success :
    (next : Controller × Error) (port_id slot_id : ℕ) (dev : Device)
    → next.1 ≡ Error.success
    → find_by_slot next.0 slot_id ≡ some dev
    → go_on next port_id slot_id ≡ (
      request (set_phase next.0 port_id initializing_device) (start_initialize slot_id),
      Error.success,
    )
unfolding go_on
go_on-success next port_id slot_id dev e there =
    ap (λ x. if is_error x then next else initialize_device next.0 port_id slot_id) e
    ∙ initialize_device-there next.0 port_id slot_id dev there

-- Where the address of a device of a port is complete, the next port is looked for, and then the device
-- is initialized.
pub on_addressed-next :
    (r : Readings) (s : Controller) (slot_id : ℕ) (dev : Device)
    → find_by_slot s slot_id ≡ some dev
    → r.root_hub_port_num slot_id ≡ s.addressing_port
    → same_phase (s.phase s.addressing_port) addressing_device ≡ true
    → on_addressed r s slot_id ≡ (
      request
          (set_phase
            (reset_next r 256 (record s { addressing_port = 0 }) 0).0
            s.addressing_port
            initializing_device)
          (start_initialize slot_id),
      Error.success,
    )
unfolding on_addressed go_on find_by_slot
on_addressed-next r s slot_id dev there port phase =
    let s' : Controller = record s { addressing_port = 0 } in
    let here : (r.root_hub_port_num slot_id == s.addressing_port) ≡ true = ground arith in
    ap
      (λ b.
        if not b
        then (s, Error.invalid_phase)
        else if not (same_phase (s.phase (r.root_hub_port_num slot_id)) addressing_device)
        then (s, Error.invalid_phase)
        else go_on (reset_next r 256 s' 0) (r.root_hub_port_num slot_id) slot_id)
      here
    ∙ ap
        (λ p.
          if not (same_phase (s.phase p) addressing_device)
          then (s, Error.invalid_phase)
          else go_on (reset_next r 256 s' 0) p slot_id)
        port
    ∙ ap
        (λ b.
          if not b
          then (s, Error.invalid_phase)
          else go_on (reset_next r 256 s' 0) s.addressing_port slot_id)
        phase
    ∙ go_on-success (reset_next r 256 s' 0) s.addressing_port slot_id dev
        (reset_next-success r 256 s' 0) (reset_next-devices r 256 s' 0 slot_id ∙ there)
