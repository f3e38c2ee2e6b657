-- ===== src/DfuRt.antt =====
-- The run-time part of firmware updates: fw/v0/src/usb_dfu_rt.c. It lets the host ask the device to
-- reboot into the update firmware; what a reboot does is the application's.
pub mod Detach
use no2usb.Base.{
  ℕ, ◌+◌, ◌==◌, Bool, true, false, not, ◌&&◌, if◌then◌else◌, List, [], ◌∷◌, Option, none, some, Run,
  ok, fault, ◌>>=◌,
}
use no2usb.Stack.{Usb, Req, Resp, continue, success, error, driver_callback, fn, request_and_type}
use no2usb.Stack.Memory.{store}
use no2usb.Desc.{byte_at}
use no2usb.Driver.{Drv, no_drv, register_function_driver}
use no2usb.Dfu.State.{app_idle, state_code, status_ok}
use no2usb.Dfu.Request.{type_and_rcpt}

-- `g_dfu_rt_intf`, -1 when no interface is selected, and what the application keeps.
pub record DfuRt (F : Type 0) : Type 0 where
  pub intf : Option ℕ
  pub host : F

abbrev pub is_intf : Option ℕ → ℕ → Bool
is_intf none n = false
is_intf (some m) n = n == m

-- The interface's class, subclass and protocol are those of the run-time part.
unfoldable pub is_rt_intf : List ℕ → ℕ → Run Bool
unfolding byte_at
is_rt_intf conf p = do
  c ← byte_at conf (p + 5)
  sub ← byte_at conf (p + 6)
  proto ← byte_at conf (p + 7)
  ok (c == 0xfe && (sub == 0x01 && proto == 0x01))

-- What GETSTATUS answers: the status, a poll time of 250 ms, the state, and no string.
abbrev pub rt_status : List ℕ
rt_status = status_ok ∷ 250 ∷ 0 ∷ 0 ∷ state_code app_idle ∷ 0 ∷ []

-- The base interface's number is kept.
abbrev base_number : Option ℕ → List ℕ → Run ℕ
base_number none conf = fault
base_number (some base) conf = byte_at conf (base + 2)

module _ {F : Type 0} where
  -- The switch of `_dfu_ctrl_req`.
  unfoldable pub rt_handle : ℕ → Usb (DfuRt F) → Run (Resp × Usb (DfuRt F))
  unfolding store
  rt_handle request s =
      let status = (store s.xfer.bytes 0 rt_status s >>= λ t. ok (success, t)) in
      let state = (store s.xfer.bytes 0 (state_code app_idle ∷ []) s >>= λ t. ok (success, t)) in
      if request == 0x0021
      then ok (success, record s { xfer = record (s.xfer) { cb_done = driver_callback 0 } })
      else if request == 0x03a1
      then status
      else if request == 0x05a1
      then state
      else ok (error, s)

  -- `_dfu_ctrl_req`
  unfoldable pub rt_ctrl_req : Req → Usb (DfuRt F) → Run (Resp × Usb (DfuRt F))
  unfolding rt_handle type_and_rcpt
  rt_ctrl_req req s =
      if not (type_and_rcpt req == 0x21)
      then ok (continue, s)
      else if not (is_intf s.app.intf req.w_index)
      then ok (continue, s)
      else rt_handle (request_and_type req) s

  -- `_dfu_set_intf`, for an interface of the selected configuration.
  unfoldable pub rt_set_intf : Option ℕ → ℕ → Usb (DfuRt F) → Run (Resp × Usb (DfuRt F))
  unfolding is_rt_intf byte_at
  rt_set_intf base sel s = elim (s.conf) [
    | none ↦ fault
    | some conf ↦ do
      mine ← is_rt_intf conf sel
      let selected =
          (base_number base conf >>= λ n.
          ok (success, record s { app = record (s.app) { intf = some n } }))
      if mine then selected else ok (continue, s)
  ]

  -- The completion callback, `_dfu_detach_done_cb`.
  unfoldable pub rt_done : (F → F) → ℕ → Usb (DfuRt F) → Run (Usb (DfuRt F))
  rt_done reboot n s =
      ok (if n == 0 then record s { app = record (s.app) { host = reboot s.app.host } } else s)

  -- `_dfu_rt_drv`
  abbrev pub rt_drv : Drv (DfuRt F)
  rt_drv = record no_drv { ctrl_req = some rt_ctrl_req; set_intf = some rt_set_intf }

  -- `usb_dfu_rt_init`, with the driver's number in the chain.
  unfoldable pub rt_init : ℕ → Usb (DfuRt F) → Usb (DfuRt F)
  unfolding register_function_driver
  rt_init n s =
      let t = register_function_driver (fn n) s in record t { app = record (t.app) { intf = none } }
