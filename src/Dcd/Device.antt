-- ===== src/Dcd/Device.antt =====
-- Reset, interrupts and the address of the port: fw/tinyusb/dcd_no2usb.c.
use no2usb.Base.{
  ℕ, zero, suc, ◌+◌, ◌/◌, ◌==◌, bit_and, bit_or, Bool, true, false, not, ◌&&◌, if◌then◌else◌, List,
  [], ◌∷◌, Run, ok, spin, ◌>>=◌,
}
use no2usb.Hw.{
  Hw, EpPair, set_ep, ar_write, csr_addr, evt_pending, evt_pop, ep_type_ctrl, ep_bd_ctrl, ep_dt_bit,
  bd_state, bd_rdy_data, bd_state_rdy_stall, bd_state_done_ok, bd_state_done_err,
}
use no2usb.Hw.Data.{data_read}
use no2usb.Ep0.Regs.{in_csr, setup_csr, set_in_csr, set_out_csr, set_setup_csr, set_in_dt}
use no2usb.Device.{hw_reset}
use no2usb.Dcd.State.{
  Dir, dir_out, dir_in, DcdPair, no_ep, Dcd, Event, setup_received, bus_reset, sof, TinyUsb, Config,
  ep_state, map_regs,
}
use no2usb.Dcd.Transfer.{add16, ep_advance_xfer_in, ep_advance_xfer_out}

abbrev pub set_mps : ℕ → DcdPair → DcdPair
set_mps mps p = record { out = record (p.out) { mps = mps }; inp = record (p.inp) { mps = mps } }

-- `NO2USB_IR_*`
abbrev pub ir_mask : Config → ℕ
ir_mask c = (if c.with_sof then 0x20 else 0) + 0x10 + 0x04

-- `NO2USB_EVT_*`
abbrev pub evt_overflow : ℕ → Bool
evt_overflow evt = not (bit_and evt 0x4000 == 0)

abbrev pub evt_ep : ℕ → ℕ
evt_ep evt = bit_and (evt / 16) 0xf

abbrev pub evt_dir_in : ℕ → Bool
evt_dir_in evt = not (bit_and evt 0x08 == 0)

abbrev pub evt_is_setup : ℕ → Bool
evt_is_setup evt = not (bit_and evt 0x04 == 0)

module _ {A : Type 0} where
  -- `_usb_hw_buf_alloc`
  unfoldable pub hw_buf_alloc : Dir → ℕ → Dcd A → ℕ × Dcd A
  hw_buf_alloc dir_out mps s = (s.mem_out, record s { mem_out = add16 s.mem_out mps })
  hw_buf_alloc dir_in mps s = (s.mem_in, record s { mem_in = add16 s.mem_in mps })

  -- `_usb_ep0_configure`, for endpoint 0 packets of `mps` bytes.
  unfoldable pub ep0_configure : ℕ → Dcd A → Dcd A
  unfolding hw_buf_alloc set_ep
  ep0_configure mps s =
      let (in0, t) = hw_buf_alloc dir_in mps s in
      let (out0, u) = hw_buf_alloc dir_out mps t in
      let (out1, v) = hw_buf_alloc dir_out 8 u in
      let p = s.hw.ep 0 in
      let q : EpPair = record {
        out = record (p.out) {
          status = bit_or ep_type_ctrl ep_bd_ctrl;
          bd0 = record { csr = 0; ptr = out0 };
          bd1 = record { csr = bd_rdy_data 8; ptr = out1 };
        };
        inp = record (p.inp) {
          status = bit_or ep_type_ctrl ep_dt_bit;
          bd0 = record { csr = 0; ptr = in0 };
        };
      } in
      record v { hw = set_ep 0 q v.hw; ep = λ k. if k == 0 then set_mps mps (v.ep 0) else v.ep k }

  -- `memset(&g_usb, 0x00, sizeof(g_usb));`
  unfoldable pub clear_state : Dcd A → Dcd A
  clear_state s = record s {
    mem_out = 0;
    mem_in = 0;
    ep0_stall = false;
    ep = λ _. record { out = no_ep; inp = no_ep };
  }

  -- `dcd_init`. `_usb_hw_reset` is the same function as that of fw/v0/src/usb.c.
  unfoldable pub dcd_init : Dcd A → Dcd A
  unfolding clear_state hw_reset
  dcd_init s = map_regs (hw_reset true) (clear_state s)

  -- `dcd_int_enable` and `dcd_int_disable`
  unfoldable pub dcd_int_enable : Config → Dcd A → Dcd A
  dcd_int_enable c s = record s { ir = ir_mask c }

  unfoldable pub dcd_int_disable : Dcd A → Dcd A
  dcd_int_disable s = record s { ir = 0 }

  -- A stalled endpoint 0: both descriptors are queued to stall.
  unfoldable pub stall_ep0 : Dcd A → Dcd A
  unfolding set_in_csr set_out_csr
  stall_ep0 = map_regs (λ hw. set_in_csr bd_state_rdy_stall (set_out_csr bd_state_rdy_stall hw))

  -- `while (...);` in `dcd_set_address`: each item is what the core does before a look.
  unfoldable pub wait_done : List (Hw → Hw) → Dcd A → Run (Dcd A)
  wait_done [] s = spin
  wait_done (e ∷ es) s =
      let next = wait_done es (map_regs e s) in
      if bd_state (in_csr (e s.hw)) == bd_state_done_ok then ok (map_regs e s) else next

  -- `dcd_set_address`
  unfoldable pub dcd_set_address : Config → List (Hw → Hw) → ℕ → Dcd A → Run (Dcd A)
  unfolding set_in_csr dcd_int_disable dcd_int_enable wait_done
  dcd_set_address c es dev_addr s = do
    t ← wait_done es (map_regs (set_in_csr (bd_rdy_data 0)) (dcd_int_disable s))
    let u = dcd_int_enable c (map_regs (set_in_csr 0) t)
    ok (
        map_regs
          (λ hw. record hw {
            ctl = record {
              pu_ena = true;
              cel_ena = true;
              addr_match = true;
              addr = csr_addr dev_addr;
            };
          })
          u)

  module _ (tu : TinyUsb A) where
    abbrev pub tell : Event → Dcd A → Dcd A
    tell e s = record s { app = tu.notify e s.app }

    -- `_usb_bus_reset`
    unfoldable pub dcd_bus_reset : Dcd A → Dcd A
    unfolding hw_reset clear_state ep0_configure
    dcd_bus_reset s =
        tell bus_reset (ep0_configure tu.endpoint0_size (clear_state (map_regs (hw_reset true) s)))

    -- `if (busy) advance(ep);`
    unfoldable pub advance_busy : Dir → ℕ → Dcd A → Run (Dcd A)
    unfolding ep_advance_xfer_in ep_advance_xfer_out
    advance_busy dir_in n s = if (ep_state n dir_in s).busy then ep_advance_xfer_in tu n s else ok s
    advance_busy dir_out n s =
        if (ep_state n dir_out s).busy then ep_advance_xfer_out tu n s else ok s

    -- What a SETUP packet does behind the transfers that were pending.
    unfoldable pub take_setup : Dcd A → Dcd A
    unfolding set_in_csr set_out_csr set_setup_csr set_in_dt ar_write
    take_setup s =
        let setup_pkt = data_read s.hw.rx (s.hw.ep 0).out.bd1.ptr 8 in
        let clear : Hw → Hw = λ hw.
          ar_write true false false
            (set_setup_csr (bd_rdy_data 8) (set_in_dt (set_out_csr 0 (set_in_csr 0 hw)))) in
        tell (setup_received setup_pkt) (record (map_regs clear s) { ep0_stall = false })

    -- `_usb_ep0_handle_setup`
    unfoldable pub ep0_handle_setup : Dcd A → Run (Dcd A)
    unfolding advance_busy take_setup set_setup_csr
    ep0_handle_setup s =
        let pending = (advance_busy dir_in 0 s >>= advance_busy dir_out 0) in
        let state = bd_state (setup_csr s.hw) in
        if state == bd_state_done_ok
        then (pending >>= λ t. ok (take_setup t))
        else if state == bd_state_done_err
        then ok (map_regs (set_setup_csr (bd_rdy_data 8)) s)
        else ok s

    -- An event of the FIFO, when no full poll is due. Whether one is due then, and the state.
    unfoldable pub handle_evt : ℕ → Dcd A → Run (Bool × Dcd A)
    unfolding ep0_handle_setup stall_ep0 ep_advance_xfer_in ep_advance_xfer_out
    handle_evt evt s =
        let step =
          (if evt_is_setup evt
            then ep0_handle_setup s
            else if evt_ep evt == 0 && s.ep0_stall
            then ok (stall_ep0 s)
            else if evt_dir_in evt
            then ep_advance_xfer_in tu (evt_ep evt) s
            else ep_advance_xfer_out tu (evt_ep evt) s) in
        if evt_overflow evt then ok (true, s) else (step >>= λ t. ok (false, t))

    -- The event loop, over the events that are in the queue.
    unfoldable pub drain_evts : Config → Bool → List ℕ → Dcd A → Run (Bool × Dcd A)
    unfolding handle_evt evt_pop
    drain_evts c do_ep_poll [] s = ok (do_ep_poll, s)
    drain_evts c do_ep_poll (evt ∷ evts) s =
        let t = map_regs evt_pop s in
        (if not c.with_event_fifo
          then ok (true, t)
          else if do_ep_poll
          then ok (true, t)
          else handle_evt evt t)
        >>= λ r. drain_evts c r.0 evts r.1

    -- The loop over the endpoints, from `n` on.
    unfoldable pub poll_eps : (rounds n : ℕ) → Dcd A → Run (Dcd A)
    unfolding advance_busy
    poll_eps zero n s = ok s
    poll_eps (suc k) n s =
        advance_busy dir_in n s >>= λ t. advance_busy dir_out n t >>= poll_eps k (n + 1)

    -- The poll of all endpoints.
    unfoldable pub full_poll : Dcd A → Run (Dcd A)
    unfolding stall_ep0 poll_eps ep0_handle_setup
    full_poll s = poll_eps 16 0 (if s.ep0_stall then stall_ep0 s else s) >>= ep0_handle_setup

    unfoldable pub handle_sof : Config → Hw → Dcd A → Dcd A
    unfolding ar_write
    handle_sof c csr s =
        if c.with_sof && csr.sof_pending
        then tell sof (map_regs (ar_write false false true) s)
        else s

    -- `dcd_int_handler` behind the handling of a reset. `csr` is the control word as it was read.
    unfoldable pub handle_events : Config → Hw → Dcd A → Run (Dcd A)
    unfolding handle_sof drain_evts full_poll evt_pending
    handle_events c csr s =
        let t = handle_sof c csr s in
        let events =
          (drain_evts c false t.hw.evts t >>= λ r.
          let polled = full_poll r.1 in if r.0 then polled else ok r.1) in
        if evt_pending csr then events else ok t

    -- `dcd_int_handler`
    unfoldable pub dcd_int_handler : Config → Dcd A → Run (Dcd A)
    unfolding dcd_bus_reset handle_events
    dcd_int_handler c s =
        if s.hw.bus_rst_pending
        then (if s.hw.bus_rst then ok s else handle_events c s.hw (dcd_bus_reset s))
        else handle_events c s.hw s
