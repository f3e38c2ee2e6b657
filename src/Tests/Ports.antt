-- ===== src/Tests/Ports.antt =====
-- Transfers of the TinyUSB port, on an endpoint with two buffers.
use no2usb.Base.{
  ◌%◌, ◌≤◌, ◌≡◌, refl, Bool, true, false, List, [], ◌∷◌, ◌++◌, concat, some, Run, ok, fault, spin,
  inr, arith,
}
use no2usb.Hw.{bd_state, bd_len, bd_rdy_data, bd_state_done_ok}
use no2usb.Dcd.State.{dir_in, no_ep, Event, xfer_complete, TinyUsb, bd_at}
use no2usb.Dcd.Memory.{ram_load}
use no2usb.Dcd.Transfer.{
  View, in_retire, in_load, in_submit, in_finish, in_packet, in_fill, advance_in,
}
use no2usb.Dcd.Slots.{ready}
use no2usb.Dcd.Packets.{packets_of}
use no2usb.Dcd.Stream.{
  Line, IsLine, queued, stream, moved, send, Reach, here, next, sends, advances,
}
use no2usb.Dcd.Stream.Turn.{IsTurn}
use no2usb.Dcd.Stream.Delivery.{begin, Reach-delivers}
use no2usb.Dcd.Stream.Progress.{rounds, rounds-deliver}

-- A stack that keeps the events.
abbrev pub log_stack : TinyUsb (List Event)
log_stack = record {
  notify = λ e log. log ++ e ∷ [];
  edpt_number = λ a. a % 16;
  edpt_dir = λ a. dir_in;
  endpoint0_size = 64;
}

-- A bulk endpoint with packets of 8 bytes.
abbrev line : Line (List Event)
line = record {
  view = record {
    regs = record {
      status = 0x14;
      mps = 0;
      bd0 = record { csr = 0; ptr = 64 };
      bd1 = record { csr = 0; ptr = 72 };
    };
    eps = record no_ep { mps = 8; dual = true };
    tx = λ i. 0;
    rx = λ i. 0;
    ram = λ a. a % 256;
    app = [];
  };
  bdi = false;
  sent = [];
}

line-IsLine : IsLine line
unfolding bd_state
line-IsLine = record {
  mps_pos = omega arith;
  mps_max = omega arith;
  bytes = λ k. omega arith;
  sync = refl;
  fits = λ i r. fits_at i r;
  apart = λ d. inr (omega arith);
  ofs = omega arith;
  len = omega arith;
  null = λ e. (refl, refl);
}
  where
    fits_at : (i : Bool) → ready line.view.regs i ≡ true → bd_len (bd_at i line.view.regs).csr ≤ 8
    fits_at false r = ground arith
    fits_at true r = ground arith

line-IsTurn : IsTurn line
unfolding bd_state
line-IsTurn = record { line = line-IsLine; turn = refl; states = (refl, refl) }

-- The port's first call for a transfer of 20 bytes: two packets are queued.
abbrev started : Line (List Event)
started = begin (some 0x100) 20 line

abbrev value : Run (View (List Event)) → View (List Event)
value (ok v) = v
value fault = started.view
value spin = started.view

-- The state behind it, and when the host has taken a packet.
abbrev called : Line (List Event)
called = moved (value (advance_in log_stack 1 started.view)) started

abbrev served : Line (List Event)
served = send bd_state_done_ok called

first_packet : Reach log_stack 1 started served
unfolding advance_in in_retire in_fill in_packet in_load in_submit in_finish bd_state bd_rdy_data
    bd_len
first_packet = next (next here (advances refl)) (sends bd_state_done_ok refl refl)

Reach-delivers_example :
    (stream served ≡ [] ++ (queued line ++ packets_of 8 line.view.ram 0x100 20))
    × (served.view.eps.busy ≡ true → served.view.app ≡ [])
    × (served.view.eps.busy ≡ false → served.view.app ≡ xfer_complete 0x81 20 ∷ [])
    × (concat (packets_of 8 line.view.ram 0x100 20) ≡ ram_load line.view.ram 0x100 20)
Reach-delivers_example =
    Reach-delivers log_stack 1 line served (some 0x100) 20 line-IsLine (omega arith)
      (λ e. ground arith) first_packet

rounds-deliver_example :
    (m : Line (List Event)) × (rounds log_stack 1 4 (begin (some 0x100) 20 line) ≡ ok m)
    × (m.sent ≡ [] ++ (queued line ++ packets_of 8 line.view.ram 0x100 20))
    × (m.view.eps.busy ≡ false)
    × (m.view.app ≡ xfer_complete 0x81 20 ∷ [])
unfolding packets_of
rounds-deliver_example =
    rounds-deliver log_stack 1 line (some 0x100) 20 line-IsTurn (omega arith) (λ e. ground arith)
