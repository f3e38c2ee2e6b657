-- ===== src/Tests/Interrupts.antt =====
-- The calls and the interrupts of the TinyUSB port at concrete inputs.
use no2usb.Base.{
  ℕ, ◌<◌, ◌≤◌, ◌≡◌, ◌==◌, ◌⊎◌, refl, true, false, if◌then◌else◌, List, [], ◌∷◌, some, Run, ok,
}
use no2usb.Hw.{ep_type_bulk, bd_state, bd_len, bd_rdy_data}
use no2usb.Dcd.State.{TinyUsb, dir_out, DcdEp, no_ep, Dcd, Config, Event, xfer_complete}
use no2usb.Dcd.Memory.{ram_load}
use no2usb.Dcd.Device.{dcd_int_handler, dcd_init}
use no2usb.Dcd.Endpoint.{EndpointDesc, xfer_bulk, open_typed}
use no2usb.Dcd.Calls.{Reached}
use no2usb.Tests.Fixture.{hw_with}
use no2usb.Tests.Ports.{log_stack}

-- A transfer of 10 bytes from the host to the address 0x100.
abbrev receiving : DcdEp
receiving = record (no_ep) { mps = 8; busy = true; dual = true; buf = some 0x100; len = 10 }

-- Endpoint 1 has received a packet of 8 bytes and one of 2 bytes, with an event for each.
abbrev received : Dcd (List Event)
received = record {
  mem_out = 96;
  mem_in = 64;
  ep0_stall = false;
  ep = λ n. record { out = if n == 1 then receiving else no_ep; inp = no_ep };
  hw = record (hw_with 0x4008 0 0 0 0) {
    evts = 0x8011 ∷ 0x8011 ∷ [];
    ep = λ n.
        if n == 1
        then record {
          out = record {
            status = 0x14;
            mps = 0;
            bd0 = record { csr = 0x800a; ptr = 72 };
            bd1 = record { csr = 0x8004; ptr = 80 };
          };
          inp = ((hw_with 0 0 0 0 0).ep 0).inp;
        }
        else (hw_with 0x4008 0 0 0 0).ep n;
  };
  ir = 0x14;
  ram = λ a. 0;
  app = [];
}

abbrev by_events : Config
by_events = record { with_sof = true; with_event_fifo = true }

-- What the stack is told, and the bytes from 0xff on.
abbrev outcome : Run (Dcd (List Event)) → List Event × List ℕ
outcome (ok s) = (s.app, ram_load s.ram 0xff 12)
outcome r = ([], [])

received-outcome :
    outcome (dcd_int_handler log_stack by_events received)
    ≡ (xfer_complete 1 10 ∷ [], 0 ∷ 1 ∷ 2 ∷ 3 ∷ 4 ∷ 1 ∷ 2 ∷ 3 ∷ 4 ∷ 1 ∷ 2 ∷ 0 ∷ [])
unfolding dcd_int_handler ram_load bd_state bd_len bd_rdy_data
received-outcome = refl

-- The bytes outside the transfer's.
abbrev Elsewhere : ℕ → Type 0
Elsewhere k = (k < 0x100) ⊎ (0x10a ≤ k)

-- The stack with an address that stands for an endpoint's OUT direction.
abbrev out_stack : TinyUsb (List Event)
out_stack = record (log_stack) { edpt_dir = λ addr. dir_out }

abbrev bulk_out : EndpointDesc
bulk_out = record { endpoint_address = 0x01; xfer = xfer_bulk; max_packet_size = 8 }

-- The endpoint is opened, and the core receives the packets before a transfer waits for them.
abbrev opened : Dcd (List Event)
opened = open_typed 1 dir_out ep_type_bulk 8 (dcd_init received)
