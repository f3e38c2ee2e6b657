-- ===== src/Tests/Receives.antt =====
-- Opening an endpoint of the TinyUSB port, and transfers from the host.
use no2usb.Base.{
  ◌+◌, ◌%◌, ◌≡◌, ◌==◌, refl, Bool, true, false, ◌&&◌, ◌++◌, if◌then◌else◌, List, [], ◌∷◌, some, ok,
  arith,
}
use no2usb.Hw.{bd_state, bd_len, bd_rdy_data}
use no2usb.Dcd.State.{
  no_ep, dir_in, ep_state, Dcd, Config, Event, xfer_complete, setup_received, bus_reset, set_csr,
}
use no2usb.Hw.Data.{data_read}
use no2usb.Ep0.Regs.{in_csr, out_csr, setup_csr}
use no2usb.Dcd.Device.{dcd_int_handler, dcd_bus_reset}
use no2usb.Dcd.Setup.{IsIdle, dcd_int_handler-setup}
use no2usb.Dcd.Reset.{dcd_bus_reset-fresh}
use no2usb.Dcd.Memory.{ram_load}
use no2usb.Dcd.Transfer.{View, view, fill_state, advance_in, advance_out, out_packet}
use no2usb.Dcd.Endpoint.{EndpointDesc, xfer_bulk, open_typed, dcd_edpt_open, dcd_edpt_xfer}
use no2usb.Dcd.Stream.Turn.{IsTurn}
use no2usb.Dcd.Open.{HasRoom, line_of, open_typed-ready, dcd_edpt_open-IsTurn}
use no2usb.Dcd.Receive.Packet.{SameOutside, out_packet-stores}
use no2usb.Dcd.Receive.Retry.{advance_out-second_error}
use no2usb.Dcd.Packets.{packets_of}
use no2usb.Dcd.Stream.{stream, queued, moved}
use no2usb.Dcd.Stream.Delivery.{begin}
use no2usb.Dcd.Submit.{dcd_edpt_xfer-queues}
use no2usb.Tests.Fixture.{hw_with}
use no2usb.Tests.Ports.{log_stack}

-- The port behind a reset, with endpoint 0 in its memory.
abbrev port : Dcd (List Event)
port = record {
  mem_out = 72;
  mem_in = 64;
  ep0_stall = false;
  ep = λ n. record { out = no_ep; inp = no_ep };
  hw = hw_with 0x4008 0 0 0 0;
  ir = 0;
  ram = λ a. a % 256;
  app = [];
}

port-HasRoom : HasRoom 64 port
port-HasRoom = record {
  mps_pos = omega arith;
  mps_max = omega arith;
  whole = omega arith;
  aligned = omega arith;
  room = omega arith;
  bytes = λ k. omega arith;
}

abbrev bulk_in : EndpointDesc
bulk_in = record { endpoint_address = 0x81; xfer = xfer_bulk; max_packet_size = 64 }

dcd_edpt_open-IsTurn_example :
    (t : Dcd (List Event)) × (dcd_edpt_open log_stack bulk_in port ≡ ok (true, t))
    × IsTurn (line_of 1 t)
    × (t.mem_in % 4 ≡ 0)
dcd_edpt_open-IsTurn_example =
    dcd_edpt_open-IsTurn log_stack bulk_in port 4 refl (omega arith) refl port-HasRoom

-- A bulk endpoint that waits for 20 bytes, with a packet of 8 bytes in its first buffer, and an
-- error in its second one.
abbrev waiting : Bool → View (List Event)
waiting second = record {
  regs = record {
    status = 0x14;
    mps = 0;
    bd0 = record { csr = 0x800a; ptr = 72 };
    bd1 = record { csr = 0xa000; ptr = 80 };
  };
  eps = record {
    mps = 8;
    busy = true;
    dual = true;
    bdi_fill = false;
    bdi_retire = second;
    buf = some 0x100;
    len = 20;
    ofs = 0;
    plen = 0;
  };
  tx = λ i. 0;
  rx = λ i. 0x04030201;
  ram = λ a. 0;
  app = [];
}

-- The packet has 8 bytes, and its descriptor says 10.
out_packet-stores_example :
    (w : View (List Event)) × (out_packet log_stack 1 (waiting false) ≡ ok w)
    × (ram_load w.ram 0x100 8 ≡ 1 ∷ 2 ∷ 3 ∷ 4 ∷ 1 ∷ 2 ∷ 3 ∷ 4 ∷ [])
    × SameOutside 0x100 8 (waiting false).ram w.ram
    × (w.regs ≡ set_csr false 0 (waiting false).regs)
    × (w.eps.busy ≡ true)
    × (w.app ≡ (if w.eps.busy then [] else xfer_complete 1 8 ∷ []))
unfolding bd_len data_read
out_packet-stores_example =
    out_packet-stores log_stack 1 0x100 8 (waiting false) refl refl (omega arith) (omega arith) refl
      (omega arith)

advance_out-second_error_example :
    (w : View (List Event)) × (advance_out log_stack 1 (waiting true) ≡ ok w)
    × (w.regs.bd1 ≡ (waiting true).regs.bd1)
    × (w.regs.bd0.csr ≡ bd_rdy_data 8)
    × (w.eps.bdi_retire ≡ false)
    × (w.ram ≡ (waiting true).ram)
    × (w.app ≡ [])
unfolding bd_state
advance_out-second_error_example =
    advance_out-second_error log_stack 1 (waiting true) refl refl (omega arith) refl

-- A transfer of 100 bytes on an endpoint that was opened.
abbrev ready_port : Dcd (List Event)
ready_port = open_typed 1 dir_in 4 64 port

abbrev polled : Config
polled = record { with_sof = false; with_event_fifo = false }

dcd_edpt_xfer-queues_example :
    (t : Dcd (List Event)) × (dcd_edpt_xfer log_stack polled 0x81 (some 0x100) 100 ready_port
      ≡ ok t)
    × (advance_in log_stack 1 (begin (some 0x100) 100 (line_of 1 ready_port)).view
        ≡ ok (view 1 dir_in t))
    × (((ep_state 1 dir_in t).busy && fill_state (view 1 dir_in t) == 0) ≡ false)
    × (stream (moved (view 1 dir_in t) (begin (some 0x100) 100 (line_of 1 ready_port)))
        ≡ queued (line_of 1 ready_port) ++ packets_of 64 ready_port.ram 0x100 100)
    × (t.ir ≡ 0x14)
unfolding open_typed
dcd_edpt_xfer-queues_example =
    dcd_edpt_xfer-queues log_stack polled 0x81 100 (some 0x100) ready_port (line_of 1 ready_port)
      (omega arith) refl refl (open_typed-ready 1 4 64 port port-HasRoom).0 (omega arith)
      (λ e. ground arith)

-- A SETUP packet that has come in, with its event.
abbrev with_setup : Dcd (List Event)
with_setup = record port {
  hw = record (hw_with 0x9008 0 0 0 0) {
    evts = 0x8004 ∷ [];
    rx = λ i. if i == 0 then 0x01000680 else 0x00120000;
  };
}

with_setup-IsIdle : IsIdle with_setup
with_setup-IsIdle = record { out = λ n. refl; inp = λ n. refl }

dcd_int_handler-setup_example :
    (t : Dcd (List Event)) × (dcd_int_handler log_stack polled with_setup ≡ ok t)
    × (t.app ≡ setup_received (0x80 ∷ 6 ∷ 0 ∷ 1 ∷ 0 ∷ 0 ∷ 0x12 ∷ 0 ∷ []) ∷ [])
    × (t.hw.evts ≡ [])
    × (t.ep0_stall ≡ false)
    × (in_csr t.hw ≡ 0)
    × (out_csr t.hw ≡ 0)
    × (setup_csr t.hw ≡ bd_rdy_data 8)
    × ((t.hw.ep 0).inp.status ≡ 0x86)
    × (t.hw.cel_active ≡ false)
unfolding bd_state data_read
dcd_int_handler-setup_example =
    dcd_int_handler-setup log_stack polled with_setup 0x8004 [] refl refl refl refl
      with_setup-IsIdle refl

dcd_bus_reset-fresh_example :
    IsTurn (line_of 0 (dcd_bus_reset log_stack with_setup))
    × IsIdle (dcd_bus_reset log_stack with_setup)
    × ((dcd_bus_reset log_stack with_setup).hw.ctl.addr ≡ 0)
    × (setup_csr (dcd_bus_reset log_stack with_setup).hw ≡ bd_rdy_data 8)
    × (((dcd_bus_reset log_stack with_setup).hw.ep 0).out.bd0.ptr + 64
        ≡ ((dcd_bus_reset log_stack with_setup).hw.ep 0).out.bd1.ptr)
    × ((dcd_bus_reset log_stack with_setup).mem_out
        ≡ ((dcd_bus_reset log_stack with_setup).hw.ep 0).out.bd1.ptr + 8)
    × ((dcd_bus_reset log_stack with_setup).ep0_stall ≡ false)
    × ((dcd_bus_reset log_stack with_setup).hw.bus_rst_pending ≡ false)
    × ((dcd_bus_reset log_stack with_setup).app ≡ bus_reset ∷ [])
dcd_bus_reset-fresh_example =
    dcd_bus_reset-fresh log_stack with_setup (omega arith) (omega arith) (λ k. omega arith)
