-- ===== src/Usb/Xhci/Turn.antt =====
-- Whose turn it is when a port has its address.
use mikanos.Prelude.{
  ℕ, zero, suc, ◌+◌, ◌<◌, ◌≤◌, ◌≡◌, ◌≢◌, refl, sym, ◌∙◌, ap, subst, true, false, some, [], ◌∷◌,
  ◌++◌, ◌==◌, if◌then◌else◌, arith, Bool-cases, inl, inr,
}
use mathlib.Core.List.{append_assoc}
use mikanos.Usb.Xhci.{
  ConfigPhase, not_connected, waiting_addressed, resetting_port, enabling_slot, addressing_device,
  initializing_device, configuring_endpoints, configured, phase_code, same_phase, Port, reset,
  start_initialize, Controller, Device, set_phase, request, find_by_slot, reset_port,
}
use mikanos.Usb.Xhci.Event.{
  Readings, reset_next, by_address_device, on_addressed, on_command_completion,
}
use mikanos.Usb.Xhci.Exclusive.Released.{reset_next-test, on_addressed-next}

-- The first port that waits.
pub record IsNext (s : Controller) (q : ℕ) : Type 0 where
  pub in_range : q < 256
  pub waits : s.phase q ≡ waiting_addressed
  pub none_before : (j : ℕ) → j < q → s.phase j ≢ waiting_addressed

-- The port `p` has its address. The next port `q` is reset, if it is still connected; if not, no port is.
pub record IsPassedOn (r : Readings) (s : Controller) (slot_id p q : ℕ) (t : Controller)
    : Type 0 where
  pub noted : t.addressing_port ≡ (if (r.ports q).is_connected then q else 0)
  pub initializing : t.phase p ≡ initializing_device
  pub next : t.phase q ≡ (if (r.ports q).is_connected then resetting_port else waiting_addressed)
  pub others : (j : ℕ) → j ≢ p → j ≢ q → t.phase j ≡ s.phase j
  pub requested :
      t.requests
      ≡ s.requests
        ++ (if (r.ports q).is_connected
            then reset q ∷ start_initialize slot_id ∷ []
            else start_initialize slot_id ∷ [])

same_phase_iff : (p q : ConfigPhase) → p ≡ q → same_phase p q ≡ true
same_phase_iff p q e = ap (λ x. phase_code p == phase_code x) (sym e) ∙ ground arith

waiting_code : (p : ConfigPhase) → phase_code p ≡ 1 → p ≡ waiting_addressed
waiting_code waiting_addressed e = refl
waiting_code not_connected e = absurd (omega arith)
waiting_code resetting_port e = absurd (omega arith)
waiting_code enabling_slot e = absurd (omega arith)
waiting_code addressing_device e = absurd (omega arith)
waiting_code initializing_device e = absurd (omega arith)
waiting_code configuring_endpoints e = absurd (omega arith)
waiting_code configured e = absurd (omega arith)

not_waiting : (p : ConfigPhase) → p ≢ waiting_addressed → same_phase p waiting_addressed ≡ false
not_waiting p h = elim (Bool-cases (same_phase p waiting_addressed)) [
  | inl e ↦ absurd (h (waiting_code p (ground arith)))
  | inr e ↦ e
]

-- The loop comes to the first port that waits.
reset_next-first :
    (r : Readings) (rounds : ℕ) (s : Controller) (i q : ℕ)
    → i ≤ q
    → q < i + rounds
    → s.phase q ≡ waiting_addressed
    → ((j : ℕ) → j < q → s.phase j ≢ waiting_addressed)
    → reset_next r rounds s i ≡ reset_port r.ports s q
reset_next-first r zero s i q h l w k = absurd (omega arith)
reset_next-first r (suc rounds) s i q h l w k = elim (Bool-cases (i == q)) [
  | inl here ↦
      let e : i ≡ q = ground arith in
      reset_next-test r rounds s i true
        (same_phase_iff (s.phase i) waiting_addressed (ap s.phase e ∙ w))
      ∙ ap (reset_port r.ports s) e
  | inr later ↦
      reset_next-test r rounds s i false (not_waiting (s.phase i) (k i (ground arith)))
      ∙ reset_next-first r rounds s (i + 1) q (ground arith) (omega arith) w k
]

-- `ResetPort` of a port that waits, while none is being addressed.
reset_waiting :
    (ports : ℕ → Port) (s : Controller) (q : ℕ)
    → s.addressing_port ≡ 0
    → s.phase q ≡ waiting_addressed
    → (reset_port ports s q).0 ≡ (
        if (ports q).is_connected
        then request (set_phase (record s { addressing_port = q }) q resetting_port) (reset q)
        else s)
unfolding reset_port
reset_waiting ports s q free w = elim (Bool-cases (ports q).is_connected) [
  | inl c ↦ rw (c, free, w) refl
  | inr c ↦ rw c refl
]

-- The state after the search for the port `q`.
abbrev searched : Readings → Controller → ℕ → Controller
searched r s q =
    if (r.ports q).is_connected
    then request (set_phase (record s { addressing_port = q }) q resetting_port) (reset q)
    else record s { addressing_port = 0 }

searched_lem :
    (r : Readings) (s : Controller) (q : ℕ)
    → IsNext s q
    → (reset_next r 256 (record s { addressing_port = 0 }) 0).0 ≡ searched r s q
searched_lem r s q k =
    let s₀ : Controller = record s { addressing_port = 0 } in
    ap (λ x. x.0)
      (reset_next-first r 256 s₀ 0 q (omega arith) (ground (arith, k.in_range)) k.waits
        k.none_before)
    ∙ reset_waiting r.ports s₀ q refl k.waits

module _ (r : Readings) (s : Controller) (slot_id q : ℕ) where
  abbrev passed : ℕ → Controller
  passed p = request (set_phase (searched r s q) p initializing_device) (start_initialize slot_id)

  passed-IsPassedOn :
      (p : ℕ) → p ≢ q → s.phase q ≡ waiting_addressed → IsPassedOn r s slot_id p q (passed p)
  passed-IsPassedOn p d w =
      let there : (q == p) ≡ false = ground arith in
      let here : (q == q) ≡ true = ground arith in
      let same : (p == p) ≡ true = ground arith in
      elim (Bool-cases (r.ports q).is_connected) [
        | inl c ↦ record {
          noted = rw c refl;
          initializing = rw same refl;
          next = rw (c, there, here) refl;
          others = λ j e f.
              let e' : (j == p) ≡ false = ground arith in
              let f' : (j == q) ≡ false = ground arith in rw (c, e', f') refl;
          requested = rw c (append_assoc s.requests (reset q ∷ []) (start_initialize slot_id ∷ []));
        }
        | inr c ↦ record {
          noted = rw c refl;
          initializing = rw same refl;
          next = rw (c, there, w) refl;
          others = λ j e f. let e' : (j == p) ≡ false = ground arith in rw (c, e') refl;
          requested = rw c refl;
        }
      ]

-- When the command to address the device of the noted port, which is in that phase, completes for a
-- slot with a device, and some port waits, the device is initialized, and the first port that
-- waits, still connected, is noted and reset; if that port is not connected any more, no port is
-- noted, and none is reset.
pub next_port_lem :
    (r : Readings) (s : Controller) (slot_id q : ℕ) (dev : Device)
    → find_by_slot s slot_id ≡ some dev
    → r.root_hub_port_num slot_id ≡ s.addressing_port
    → s.phase s.addressing_port ≡ addressing_device
    → IsNext s q
    → IsPassedOn r s slot_id s.addressing_port q
        (on_command_completion r s by_address_device slot_id).0
unfolding on_command_completion
next_port_lem r s slot_id q dev there port phase k =
    let apart : s.addressing_port ≢ q =
      λ e. ground (arith, ap phase_code (sym phase ∙ ap s.phase e ∙ k.waits)) in
    let step : (on_addressed r s slot_id).0 ≡ passed r s slot_id q s.addressing_port =
      ap (λ x. x.0)
        (on_addressed-next r s slot_id dev there port
          (same_phase_iff (s.phase s.addressing_port) addressing_device phase))
      ∙ ap
          (λ u.
            request (set_phase u s.addressing_port initializing_device) (start_initialize slot_id))
          (searched_lem r s q k) in
    rw (on_command_completion, there)
      (subst (IsPassedOn r s slot_id s.addressing_port q) (sym step)
        (passed-IsPassedOn r s slot_id q s.addressing_port apart k.waits))
