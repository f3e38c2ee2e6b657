-- ===== src/DfuRt/Detach.antt =====
-- DETACH from its SETUP packet to the reboot.
use no2usb.Base.{ℕ, ◌≡◌, refl, ap, ◌∙◌, true, List, [], ◌∷◌, ◌++◌, some, ok, Returns, arith}
use no2usb.Stack.{Usb, Req, success, idle, status_done_in, driver_callback, DrvId, fn, is_read}
use no2usb.Hw.{ar_write}
use no2usb.Ep0.Transfer.{default_xfer}
use no2usb.Ep0.Poll.{setup_begin, setup_end, handle_setup, run_done, ep0_poll}
use no2usb.Ep0.Host.{quiet, ack_in}
use no2usb.Ep0.Termination.{SameEp0}
use no2usb.Ep0.NoData.{IsNoData, waiting, completed, handle_setup-waiting, ep0_poll-completed}
use no2usb.Driver.{Drv, ctrl_req_of, dispatch_ctrl_req}
use no2usb.Driver.Dispatch.{Pass, dispatch_ctrl_req-first}
use no2usb.Std.Handle.{all_drivers, services, run_callback}
use no2usb.Std.Address.{asked, out_csr-asked}
use no2usb.Dfu.Request.{type_and_rcpt}
use no2usb.DfuRt.{DfuRt, is_intf, rt_drv, rt_ctrl_req, rt_handle, rt_done}

-- A request to detach, to the interface `intf`.
pub record IsDetach (intf : ℕ) (req : Req) : Type 0 where
  pub kind : req.bm_request_type ≡ 0x21
  pub request : req.b_request ≡ 0
  pub index : req.w_index ≡ intf
  pub no_bytes : req.w_length ≡ 0

module _ {F : Type 0} (fns : ℕ → Drv (DfuRt F)) (reboot : F → F) (num intf : ℕ) (s : Usb (DfuRt F))
    (h : IsDetach intf (setup_begin s).req) (mine : (asked s).app.intf ≡ some intf) where
  -- The driver's answer.
  abbrev accepted : Usb (DfuRt F)
  accepted = record (asked s) { xfer = record default_xfer { cb_done = driver_callback 0 } }

  for_us : is_intf (asked s).app.intf (setup_begin s).req.w_index ≡ true
  for_us = ground (arith, mine, h.index)

  ctrl_req-accepted : rt_ctrl_req (setup_begin s).req (asked s) ≡ ok (success, accepted)
  unfolding rt_ctrl_req rt_handle type_and_rcpt
  ctrl_req-accepted = rw (for_us, h.kind, h.request) refl

  accepted-IsNoData : IsNoData accepted
  unfolding is_read
  accepted-IsNoData = record {
    write = rw (h.kind) refl;
    no_bytes = h.no_bytes;
    start = refl;
    out = out_csr-asked s;
  }

  app-waiting : (waiting accepted).app ≡ s.app
  unfolding setup_begin setup_end ar_write
  app-waiting = refl

  -- The state behind the reboot.
  abbrev detached : Usb (DfuRt F)
  detached =
      let c = completed accepted in record c { app = record (c.app) { host = reboot c.app.host } }

  detached-SameEp0 : SameEp0 (completed accepted) detached
  detached-SameEp0 = record { state = refl; setup = refl; out = refl; inp = refl }

  host-detached : detached.app.host ≡ reboot s.app.host
  unfolding setup_begin setup_end ar_write
  host-detached = refl

  -- DETACH, for the interface that this driver was selected for, when the drivers before it pass: the
  -- SETUP packet leaves the device as it was, waiting for the status stage. The application reboots
  -- when the host has taken the empty packet of that stage, and the control endpoint is idle then.
  pub detach-after_status :
      (ds behind : List DrvId)
      → fns num ≡ rt_drv
      → (setup_begin s).fnd ≡ ds ++ fn num ∷ behind
      → Pass
          (all_drivers fns)
          (λ p. ctrl_req_of (all_drivers fns p) (setup_begin s).req)
          ds
          (asked s)
          (asked s)
      → Returns
          (λ t.
            (t.app ≡ s.app)
            × (t.ctrl_state ≡ status_done_in)
            × Returns
                (λ u. (u.ctrl_state ≡ idle) × (u.app.host ≡ reboot s.app.host))
                (ep0_poll (services fns (rt_done reboot)) (ack_in ∷ quiet ∷ []) t))
          (handle_setup (services fns (rt_done reboot)) s)
  unfolding rt_done setup_end run_done run_callback
  detach-after_status ds behind drv chain pass =
      let answers : ctrl_req_of (all_drivers fns (fn num)) (setup_begin s).req (asked s)
          ≡ ok (success, accepted) =
        ap (λ d. ctrl_req_of d (setup_begin s).req (asked s)) drv ∙ ctrl_req-accepted in
      let first =
        dispatch_ctrl_req-first (all_drivers fns) (setup_begin s).req ds (fn num) behind (asked s)
          (asked s) accepted success pass answers (λ e. ground arith) in
      let answer =
        ap (λ c. dispatch_ctrl_req (all_drivers fns) (setup_begin s).req c (asked s)) chain
        ∙ first in
      let sv = services fns (rt_done reboot) in
      rw (handle_setup-waiting sv accepted accepted-IsNoData s answer) (
        app-waiting,
        refl,
        rw (ep0_poll-completed sv accepted accepted-IsNoData detached refl detached-SameEp0)
            (refl, host-detached),
      )
