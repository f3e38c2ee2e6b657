-- ===== src/Dcd/Reset.antt =====
-- The port behind a bus reset.
use no2usb.Base.{ℕ, ◌+◌, ◌<◌, ◌≤◌, ◌≡◌, refl, Bool, true, false, arith}
use no2usb.Hw.{bd_len, bd_rdy_data, set_ep, ar_write}
use no2usb.Hw.Words.{bd_state-zero}
use no2usb.Device.{hw_reset}
use no2usb.Ep0.Regs.{setup_csr}
use no2usb.Dcd.State.{dir_in, Dcd, TinyUsb, bus_reset, bd_at}
use no2usb.Dcd.Transfer.{view}
use no2usb.Dcd.Device.{hw_buf_alloc, clear_state, ep0_configure, dcd_bus_reset}
use no2usb.Dcd.Slots.{ready}
use no2usb.Dcd.Stream.Turn.{IsTurn}
use no2usb.Dcd.Open.{line_of}
use no2usb.Dcd.Setup.{IsIdle}

module _ {A : Type 0} (tu : TinyUsb A) (s : Dcd A) (pos : 0 < tu.endpoint0_size)
    (max : tu.endpoint0_size < 1024) (bytes : (k : ℕ) → s.ram k < 256) where
  abbrev fresh : Dcd A
  fresh = dcd_bus_reset tu s

  fresh-Fits :
      (i : Bool)
      → ready (view 0 dir_in fresh).regs i ≡ true
      → bd_len (bd_at i (view 0 dir_in fresh).regs).csr ≤ (view 0 dir_in fresh).eps.mps
  unfolding dcd_bus_reset hw_reset clear_state ep0_configure hw_buf_alloc set_ep ar_write
  fresh-Fits false r = ground (arith, bd_state-zero, r)
  fresh-Fits true r = ground (arith, bd_state-zero, r)

  fresh-IsTurn : IsTurn (line_of 0 fresh)
  unfolding dcd_bus_reset hw_reset clear_state ep0_configure hw_buf_alloc set_ep ar_write
  fresh-IsTurn = record {
    line = record {
      mps_pos = pos;
      mps_max = max;
      bytes = bytes;
      sync = (refl, refl);
      fits = fresh-Fits;
      apart = λ d. ground (arith, d);
      ofs = omega arith;
      len = omega arith;
      null = λ e. (refl, refl);
    };
    turn = (refl, refl);
    states = (ground (arith, bd_state-zero), ground (arith, bd_state-zero));
  }

  -- A bus reset, with packets of up to 1023 bytes at endpoint 0. Whatever the port did before: no
  -- transfer is going on at any endpoint, the IN side of endpoint 0 is set up for transfers to the
  -- host, the device is at address 0, a SETUP packet has its descriptor, with a buffer behind the one
  -- for data, the stall is over, no reset is pending unless the bus is still in it, and the stack is
  -- told of the reset and of nothing else.
  pub dcd_bus_reset-fresh :
      IsTurn (line_of 0 fresh)
      × IsIdle fresh
      × (fresh.hw.ctl.addr ≡ 0)
      × (setup_csr fresh.hw ≡ bd_rdy_data 8)
      × ((fresh.hw.ep 0).out.bd0.ptr + tu.endpoint0_size ≡ (fresh.hw.ep 0).out.bd1.ptr)
      × (fresh.mem_out ≡ (fresh.hw.ep 0).out.bd1.ptr + 8)
      × (fresh.ep0_stall ≡ false)
      × (fresh.hw.bus_rst_pending ≡ s.hw.bus_rst)
      × (fresh.app ≡ tu.notify bus_reset s.app)
  unfolding dcd_bus_reset hw_reset clear_state ep0_configure hw_buf_alloc set_ep ar_write
  dcd_bus_reset-fresh = (
    fresh-IsTurn,
    record { out = λ n. ground arith; inp = λ n. ground arith },
    refl,
    refl,
    ground (arith, max),
    ground (arith, max),
    refl,
    ground arith,
    refl,
  )
