-- ===== src/Tests/Updates.antt =====
-- Firmware updates, with a flash that keeps a log of what is programmed.
use no2usb.Base.{
  ℕ, ◌+◌, ◌-◌, ◌≤◌, ◌≡◌, refl, false, bit_and, List, [], ◌∷◌, take, drop, replicate, ◌==◌,
  if◌then◌else◌, Returns, ok, arith,
}
use no2usb.Stack.{Usb, Req, Services}
use no2usb.Dfu.State.{
  DfuState, dfu_idle, dnload_sync, FlashOp, fl_idle, fl_program, Dfu, Flash, dfu_buf,
}
use no2usb.Dfu.Tick.{add32, dfu_tick}
use no2usb.Dfu.Request.{dfu_ctrl_req}
use no2usb.Dfu.Checks.{dfu_tick-programs}
use no2usb.Hw.{Hw}
use no2usb.Dfu.Finish.{IsProgramming, IsProgrammed, ticks, ticks-IsProgrammed}
use no2usb.Tests.Fixture.{device_with, hw_with}

abbrev Log : Type 0
Log = List (ℕ × List ℕ)

abbrev log_flash : Flash Log
log_flash = record {
  busy = λ f. false;
  erase = λ addr size f. f;
  program = λ bs addr f. (addr, bs) ∷ f;
  read = λ addr size f. replicate size 255;
  raw = λ bs f. (bs, f);
  reboot = λ f. f;
}

abbrev dfu : DfuState → FlashOp → Dfu Log
dfu state op = record {
  zones = record { start = 65536; end = 131072 } ∷ [];
  state = state;
  status = 0;
  intf = 0;
  alt = 0;
  armed = false;
  addr_read = 65536;
  addr_prog = 65536;
  addr_erase = 65536;
  addr_end = 131072;
  op_ofs = 10;
  op_len = 64;
  op = op;
  flash = [];
}

abbrev updating : DfuState → FlashOp → Usb (Dfu Log)
updating state op = record (device_with (dfu state op) (hw_with 0x4000 0 0 0 0)) {
  buffers = λ b. if b == 1 then replicate 128 7 else replicate 64 0;
}

abbrev dnload_of : ℕ → Req
dnload_of n = record {
  bm_request_type = 0x21;
  b_request = 1;
  w_value = 0;
  w_index = 0;
  w_length = n;
}

-- The SETUP packet of a DNLOAD of 192 bytes, for a buffer of 128.
abbrev asked : Usb (Dfu Log)
asked = record (updating dfu_idle fl_idle) { hw = hw_with 0x8008 0 0 0x121 0xc00000 }

abbrev full_packet : Hw
full_packet = hw_with 0x4008 0x8042 0 0 0

abbrev only_dfu : Services (Dfu Log)
only_dfu = record { ctrl_req = dfu_ctrl_req log_flash; callback = λ c s. ok s }

dfu_tick-programs_example :
    Returns
      (λ t.
        (n : ℕ) × (10 + n ≤ 64)
        × (n ≤ 256 - bit_and (add32 65536 10) 0xff)
        × (t.app.op_ofs ≡ 10 + n)
        × (t.app.flash
            ≡ (add32 65536 10, take n (drop 10 ((updating dnload_sync fl_program).buffers dfu_buf)))
              ∷ []))
      (dfu_tick log_flash (updating dnload_sync fl_program))
dfu_tick-programs_example =
    dfu_tick-programs log_flash (updating dnload_sync fl_program) refl refl refl (omega arith)
      (omega arith) (omega arith)

updating-IsProgramming : IsProgramming (updating dnload_sync fl_program)
updating-IsProgramming = record {
  op = refl;
  state = refl;
  ofs = omega arith;
  room = omega arith;
  small = omega arith;
}

ticks-IsProgrammed_example :
    (n : ℕ) × (t : Usb (Dfu Log)) × (n ≤ 55)
    × (ticks log_flash n (updating dnload_sync fl_program) ≡ ok t)
    × IsProgrammed log_flash (updating dnload_sync fl_program) t
ticks-IsProgrammed_example =
    ticks-IsProgrammed log_flash (λ f. refl) (updating dnload_sync fl_program)
      updating-IsProgramming
