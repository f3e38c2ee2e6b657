-- ===== src/Std/Handle.antt =====
-- The standard driver, and how the drivers serve the control endpoint: `usb_ctrl_std_handle` of
-- fw/v0/src/usb_ctrl_std.c. `fns` are the function drivers and `done` their completion callbacks.
use no2usb.Base.{ℕ, ◌==◌, if◌then◌else◌, Bool, true, false, some, Run, ok, ◌>>=◌}
use no2usb.Stack.{
  Usb, Req, request_and_type, Resp, continue, success, error, Callback, no_callback, set_addr_done,
  driver_callback, DrvId, ctrl_std, fn, Services,
}
use no2usb.Driver.{Drv, no_drv, dispatch_ctrl_req}
use no2usb.Device.{set_address}
use no2usb.Std.Status.{
  get_status_dev, get_status_intf, get_status_ep, no_feature, clear_feature_ep, set_feature_ep,
  set_address_req,
}
use no2usb.Std.Config.{
  get_descriptor, get_configuration, set_configuration, get_interface, set_interface,
}

-- `rv ? USB_FND_SUCCESS : USB_FND_ERROR`
abbrev pub to_resp : Bool → Resp
to_resp true = success
to_resp false = error

module _ {A : Type 0} where
  -- The answer of the handler of a request that it knows.
  abbrev pub known : Run (Bool × Usb A) → Run (Resp × Usb A)
  known r = r >>= λ b. ok (to_resp b.0, b.1)

  -- `usb_ctrl_std_handle`
  unfoldable pub ctrl_std_handle : (DrvId → Drv A) → Req → Usb A → Run (Resp × Usb A)
  unfolding get_status_dev get_status_intf get_status_ep clear_feature_ep set_feature_ep
      set_address_req get_descriptor get_configuration set_configuration get_interface set_interface
  ctrl_std_handle drv req s =
      let rt = request_and_type req in
      if rt == 0x0080
      then known (get_status_dev req s)
      else if rt == 0x0081
      then known (get_status_intf req s)
      else if rt == 0x0082
      then known (get_status_ep req s)
      else if rt == 0x0100
      then known (no_feature req s)
      else if rt == 0x0101
      then known (no_feature req s)
      else if rt == 0x0102
      then known (clear_feature_ep req s)
      else if rt == 0x0300
      then known (no_feature req s)
      else if rt == 0x0301
      then known (no_feature req s)
      else if rt == 0x0302
      then known (set_feature_ep req s)
      else if rt == 0x0500
      then known (set_address_req req s)
      else if rt == 0x0680
      then known (get_descriptor req s)
      else if rt == 0x0880
      then known (get_configuration req s)
      else if rt == 0x0900
      then known (set_configuration drv req s)
      else if rt == 0x0a81
      then known (get_interface drv req s)
      else if rt == 0x0b01
      then known (set_interface drv req s)
      else ok (continue, s)

  -- The table that the standard driver's own calls go through: it has no callback but `ctrl_req`.
  abbrev pub told_drivers : (ℕ → Drv A) → DrvId → Drv A
  told_drivers fns ctrl_std = no_drv
  told_drivers fns (fn n) = fns n

  -- `usb_ctrl_std_drv`, and the table of all drivers.
  abbrev pub ctrl_std_drv : (ℕ → Drv A) → Drv A
  ctrl_std_drv fns = record no_drv { ctrl_req = some (ctrl_std_handle (told_drivers fns)) }

  abbrev pub all_drivers : (ℕ → Drv A) → DrvId → Drv A
  all_drivers fns ctrl_std = ctrl_std_drv fns
  all_drivers fns (fn n) = fns n

  -- A completion callback: `_set_addr_done`, or a driver's.
  unfoldable pub run_callback : (ℕ → Usb A → Run (Usb A)) → Callback → Usb A → Run (Usb A)
  unfolding set_address
  run_callback done no_callback s = ok s
  run_callback done set_addr_done s = ok (set_address s.req.w_value s)
  run_callback done (driver_callback n) s = done n s

  -- What the control endpoint calls: the chain for a request, and the completion callbacks.
  abbrev pub services : (ℕ → Drv A) → (ℕ → Usb A → Run (Usb A)) → Services A
  services fns done = record {
    ctrl_req = λ req s. dispatch_ctrl_req (all_drivers fns) req s.fnd s;
    callback = run_callback done;
  }
