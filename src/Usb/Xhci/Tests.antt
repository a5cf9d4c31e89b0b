-- ===== src/Usb/Xhci/Tests.antt =====
-- A hub with two devices, whose first one has its address while the second one waits.
use mikanos.Prelude.{ℕ, ◌≡◌, refl, ap, true, none, some, ◌==◌, if◌then◌else◌, arith}
use mikanos.Usb.Xhci.{
  waiting_addressed, addressing_device, not_connected, phase_code, Port, Device, Controller,
  find_by_slot, reset_port, enable_slot,
}
use mikanos.Usb.Xhci.Event.{
  Readings, on_port_status_change, on_command_completion, by_address_device, port_status_change,
  process_event, configure_port, start,
}
use mikanos.Usb.Xhci.Exclusive.{IsExclusive}
use mikanos.Usb.Xhci.Exclusive.Reach.{Reach, begin, configured_port, event, Reach-IsExclusive}
use mikanos.Usb.Xhci.Turn.{IsNext, IsPassedOn, next_port_lem}

abbrev two_ports : ℕ → Port
two_ports i = record {
  is_connected = true;
  is_enabled = true;
  is_port_reset_changed = true;
  speed = 3;
}

abbrev one_hub : Readings
one_hub = record { ports = two_ports; root_hub_port_num = λ i. i }

abbrev configured_both : Controller
unfolding configure_port reset_port
configured_both = (configure_port two_ports (configure_port two_ports (start 8) 1).0 2).0

abbrev slot_enabled : Controller
unfolding process_event on_port_status_change enable_slot reset_port configure_port
slot_enabled = (process_event one_hub configured_both (port_status_change 1)).0

reach_both : Reach 8 configured_both
unfolding configure_port configured_both
reach_both =
    configured_port two_ports 2 (omega arith) (configured_port two_ports 1 (omega arith) begin)

reach_slot : Reach 8 slot_enabled
unfolding process_event on_port_status_change enable_slot reset_port configure_port
reach_slot = event one_hub (port_status_change 1) (omega arith) reach_both

-- Port 1 has a slot, and port 2 waits.
slot_enabled-phases :
    (phase_code (slot_enabled.phase 1) ≡ 3) × (phase_code (slot_enabled.phase 2) ≡ 1)
unfolding process_event on_port_status_change enable_slot reset_port configure_port
slot_enabled-phases = (refl, refl)

Reach-IsExclusive_example : IsExclusive slot_enabled
Reach-IsExclusive_example = Reach-IsExclusive reach_slot

abbrev one_device : Device
one_device = record { root_hub_port_num = 1; speed = 3; max_packet_size = 64 }

-- The device of port 1, in slot 1, is being addressed, and port 2 waits.
abbrev addressed_one : Controller
addressed_one = record (start 8) {
  phase = λ i.
      if i == 1 then addressing_device else if i == 2 then waiting_addressed else not_connected;
  addressing_port = 1;
  devices = λ i. if i == 1 then some one_device else none;
}

two-IsNext : IsNext addressed_one 2
two-IsNext = record {
  in_range = omega arith;
  waits = refl;
  none_before = λ j l e. ground (arith, ap phase_code e);
}

one_there : find_by_slot addressed_one 1 ≡ some one_device
unfolding find_by_slot
one_there = refl

next_port_example :
    IsPassedOn one_hub addressed_one 1 1 2
      (on_command_completion one_hub addressed_one by_address_device 1).0
next_port_example =
    next_port_lem one_hub addressed_one 1 2 one_device one_there refl refl two-IsNext
