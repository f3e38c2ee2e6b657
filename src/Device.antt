-- ===== src/Device.antt =====
-- The device as a whole: the state changes, the bus reset, the start and the poll of the stack, of
-- fw/v0/src/usb.c. `drv` is the table of the drivers' callbacks.
pub mod State
pub mod Reset
use no2usb.Base.{
  ℕ, zero, suc, ◌+◌, ◌%◌, ◌^◌, bit_and, bit_or, Bool, true, false, not, ◌&&◌, ◌==◌, ltb, leb,
  if◌then◌else◌, List, [], ◌∷◌, Option, none, some, replicate, length, Run, ok, ◌>>=◌,
}
use no2usb.Hw.{Hw, Ctl, Ep, EpPair, Bd, ar_write, csr_addr, evt_pending, evt_pop}
use no2usb.Stack.{
  Usb, Services, Xfer, Req, StackDesc, null, no_callback, idle, ctrl_std, DrvId, ds_disconnected,
  ds_connected, ds_default, ds_suspended, ds_resume,
}
use no2usb.Ep0.Transfer.{map_hw, ep0_reset}
use no2usb.Ep0.Poll.{ep0_poll}
use no2usb.Driver.{
  Drv, register_function_driver, dispatch_sof, dispatch_bus_reset, dispatch_state_chg,
}

-- `state & USB_DS_SUSPENDED`
unfoldable pub is_suspended : ℕ → Bool
is_suspended state = not (bit_and state ds_suspended == 0)

-- `usb_get_state`
unfoldable pub get_state : {A : Type 0} → Usb A → ℕ
unfolding is_suspended
get_state s = if is_suspended s.state then ds_suspended else s.state

-- The two markers stand for a change of the suspend bit. `~USB_DS_SUSPENDED` is `0xffffff7f`.
unfoldable pub new_state : ℕ → ℕ → ℕ
new_state old new =
    if new == ds_resume
    then bit_and old 0xffffff7f
    else if new == ds_suspended
    then bit_or old ds_suspended
    else new

-- `_usb_hw_reset_ep`
abbrev pub hw_reset_ep : Ep → Ep
hw_reset_ep ep = record ep {
  status = 0;
  bd0 = record { csr = 0; ptr = 0 };
  bd1 = record { csr = 0; ptr = 0 };
}

-- `_usb_hw_reset`: the 16 endpoints are cleared, and the control and action registers written.
unfoldable pub hw_reset : Bool → Hw → Hw
unfolding ar_write
hw_reset pu hw =
    let cleared : ℕ → EpPair = λ n.
      if ltb n 16
      then record { out = hw_reset_ep (hw.ep n).out; inp = hw_reset_ep (hw.ep n).inp }
      else hw.ep n in
    ar_write true true true (record hw {
      ep = cleared;
      ctl = record { pu_ena = pu; cel_ena = true; addr_match = true; addr = csr_addr 0 };
    })

-- `usb_set_address`
unfoldable pub set_address : {A : Type 0} → ℕ → Usb A → Usb A
set_address addr = map_hw (λ hw. record hw {
  ctl = record { pu_ena = true; cel_ena = true; addr_match = true; addr = csr_addr addr };
})

-- `usb_init`, on memory and registers as they are.
unfoldable pub init : {A : Type 0} → StackDesc → Usb A → Usb A
unfolding hw_reset register_function_driver
init stack_desc s = map_hw (hw_reset false) (
    register_function_driver ctrl_std (record s {
      stack_desc = stack_desc;
      state = ds_disconnected;
      conf = none;
      intf_alt = 0;
      tick = 0;
      mem_out = 0;
      mem_in = 0;
      ctrl_state = idle;
      xfer = record { bytes = null; ofs = 0; len = 0; cb_done = no_callback };
      req = record { bm_request_type = 0; b_request = 0; w_value = 0; w_index = 0; w_length = 0 };
      fnd = [];
      buffers = λ b. if b == 0 then replicate 64 0 else s.buffers b;
    }))

-- A read of the event register, and more as long as there is one more event. The queue is taken
-- not to grow meanwhile.
unfoldable pub drain_loop : ℕ → Hw → Hw
unfolding evt_pop evt_pending
drain_loop zero hw = evt_pop hw
drain_loop (suc n) hw =
    let rest = drain_loop n (evt_pop hw) in if evt_pending (evt_pop hw) then rest else evt_pop hw

module _ {A : Type 0} (drv : DrvId → Drv A) where
  -- `usb_set_state`
  unfoldable pub set_state : ℕ → Usb A → Run (Usb A)
  unfolding new_state get_state dispatch_state_chg
  set_state new s =
      let t = record s { state = new_state s.state new } in
      if s.state == new_state s.state new
      then ok s
      else dispatch_state_chg drv (get_state t) t.fnd t

  -- `usb_bus_reset`
  unfoldable pub bus_reset : Usb A → Run (Usb A)
  unfolding hw_reset ep0_reset dispatch_bus_reset set_state
  bus_reset s = do
    let t = ep0_reset (record (map_hw (hw_reset true) s) { mem_out = 0x80; mem_in = 0x40 })
    u ← dispatch_bus_reset drv t.fnd t
    set_state ds_default u

  -- `usb_connect`
  unfoldable pub connect : Usb A → Run (Usb A)
  unfolding set_state
  connect s =
      if s.state == ds_disconnected
      then set_state ds_connected
          (map_hw (λ hw. record hw { ctl = record (hw.ctl) { pu_ena = true } }) s)
      else ok s

  -- `usb_disconnect`
  unfoldable pub disconnect : Usb A → Run (Usb A)
  unfolding set_state
  disconnect s =
      if ltb s.state ds_connected
      then ok s
      else set_state ds_disconnected
          (map_hw (λ hw. record hw { ctl = record (hw.ctl) { pu_ena = false } }) s)

  -- The end of `usb_poll`: the events, and the control endpoint. `rounds` is what the hardware does
  -- before each round of the control endpoint's loop.
  unfoldable pub poll_events : Services A → List (Hw → Hw) → Hw → Usb A → Run (Usb A)
  unfolding drain_loop evt_pending ep0_poll
  poll_events sv rounds csr s =
      if evt_pending csr
      then ep0_poll sv rounds (map_hw (λ hw. drain_loop (length hw.evts) hw) s)
      else ok s

  -- The suspend part of `usb_poll`, and whether the poll goes on behind it.
  unfoldable pub poll_suspend : Hw → Usb A → Run (Bool × Usb A)
  unfolding set_state is_suspended
  poll_suspend csr s =
      if csr.bus_suspend
      then (if is_suspended s.state
          then ok (false, s)
          else (set_state ds_suspended s >>= λ t. ok (false, t)))
      else if is_suspended s.state
      then (set_state ds_resume s >>= λ t. ok (true, t))
      else ok (true, s)

  unfoldable pub poll_sof : Hw → Usb A → Run (Usb A)
  unfolding ar_write dispatch_sof
  poll_sof csr s =
      let t = map_hw (ar_write false false true) (record s { tick = (s.tick + 1) % 2 ^ 32 }) in
      if csr.sof_pending then dispatch_sof drv t.fnd t else ok s

  -- `usb_poll` behind the handling of a bus reset.
  unfoldable pub poll_default : Services A → List (Hw → Hw) → Hw → Usb A → Run (Usb A)
  unfolding poll_suspend poll_sof poll_events
  poll_default sv rounds csr s =
      if ltb s.state ds_default
      then ok s
      else (poll_suspend csr s >>= λ r.
          if r.0 then (poll_sof csr r.1 >>= poll_events sv rounds csr) else ok r.1)

  -- `usb_poll`. The control register is read once, before all else.
  unfoldable pub poll : Services A → List (Hw → Hw) → Usb A → Run (Usb A)
  unfolding bus_reset poll_default
  poll sv rounds s =
      if ltb s.state ds_connected
      then ok s
      else if s.hw.bus_rst_pending
      then (if s.hw.bus_rst then ok s else (bus_reset s >>= poll_default sv rounds s.hw))
      else poll_default sv rounds s.hw s
