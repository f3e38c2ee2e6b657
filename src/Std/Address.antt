-- ===== src/Std/Address.antt =====
-- SET_ADDRESS from its SETUP packet to the end of its status stage.
use no2usb.Base.{
  ℕ, ◌<◌, ◌≡◌, refl, ap, ◌∙◌, true, ◌==◌, List, [], ◌∷◌, ◌++◌, Run, ok, Returns, arith,
}
use no2usb.Base.Bits.{passes_below, from_table}
use no2usb.Hw.{csr_addr, ar_write}
use no2usb.Stack.{
  Usb, Req, idle, status_done_in, success, set_addr_done, ram, DrvId, ctrl_std, is_read,
}
use no2usb.Ep0.Regs.{out_csr, in_queue_data}
use no2usb.Ep0.Transfer.{default_xfer}
use no2usb.Ep0.Poll.{setup_begin, setup_end, handle_setup, run_done, ep0_poll}
use no2usb.Ep0.Host.{quiet, ack_in}
use no2usb.Ep0.Termination.{SameEp0}
use no2usb.Ep0.NoData.{IsNoData, waiting, completed, handle_setup-waiting, ep0_poll-completed}
use no2usb.Driver.{Drv, ctrl_req_of, dispatch_ctrl_req}
use no2usb.Driver.Dispatch.{Pass, dispatch_ctrl_req-first}
use no2usb.Device.{set_address}
use no2usb.Std.Status.{set_address_req}
use no2usb.Std.Handle.{ctrl_std_handle, all_drivers, services, run_callback}

addr_table : passes_below (λ v. csr_addr v == v) 128 ≡ true
unfolding passes_below
addr_table = refl

csr_addr-small : (v : ℕ) → v < 128 → csr_addr v ≡ v
csr_addr-small v small = ground (arith, from_table (λ v. csr_addr v == v) v small addr_table)

-- What the drivers are asked with.
abbrev pub asked : {A : Type 0} → Usb A → Usb A
asked s = record (setup_begin s) { xfer = default_xfer }

pub out_csr-asked : {A : Type 0} (s : Usb A) → out_csr (asked s).hw ≡ 0
unfolding setup_begin
out_csr-asked s = refl

-- A request for an address, of 7 bits.
pub record IsSetAddress (req : Req) : Type 0 where
  pub kind : req.bm_request_type ≡ 0
  pub request : req.b_request ≡ 5
  pub no_bytes : req.w_length ≡ 0
  pub fits : req.w_value < 128

-- The standard driver's answer.
abbrev answered : {A : Type 0} → Usb A → Usb A
answered s = record (asked s) {
  xfer = record { bytes = ram 0; ofs = 0; len = 0; cb_done = set_addr_done };
}

module _ {A : Type 0} (fns : ℕ → Drv A) (s : Usb A) (h : IsSetAddress (setup_begin s).req) where
  ctrl_std_handle-address :
      ctrl_req_of (all_drivers fns ctrl_std) (setup_begin s).req (asked s)
      ≡ ok (success, answered s)
  unfolding ctrl_std_handle set_address_req
  ctrl_std_handle-address = rw (h.kind, h.request)

  -- The chain answers as the standard driver does when all drivers before it pass.
  services-address :
      (done : ℕ → Usb A → Run (Usb A)) (ds behind : List DrvId)
      → (setup_begin s).fnd ≡ ds ++ ctrl_std ∷ behind
      → Pass
          (all_drivers fns)
          (λ p. ctrl_req_of (all_drivers fns p) (setup_begin s).req)
          ds
          (asked s)
          (asked s)
      → (services fns done).ctrl_req (setup_begin s).req (asked s) ≡ ok (success, answered s)
  services-address done ds behind chain pass =
      let first =
        dispatch_ctrl_req-first (all_drivers fns) (setup_begin s).req ds ctrl_std behind (asked s)
          (asked s) (answered s) success pass ctrl_std_handle-address (λ e. ground arith) in
      ap (λ c. dispatch_ctrl_req (all_drivers fns) (setup_begin s).req c (asked s)) chain ∙ first

  answered-IsNoData : IsNoData (answered s)
  unfolding is_read
  answered-IsNoData = record {
    write = rw (h.kind) refl;
    no_bytes = h.no_bytes;
    start = refl;
    out = out_csr-asked s;
  }

  ctl-waiting : (waiting (answered s)).hw.ctl ≡ s.hw.ctl
  unfolding setup_end ar_write setup_begin in_queue_data
  ctl-waiting = refl

  -- The state when the callback has set the address.
  abbrev addressed : Usb A
  addressed = set_address (setup_begin s).req.w_value (completed (answered s))

  addressed-SameEp0 : SameEp0 (completed (answered s)) addressed
  unfolding set_address
  addressed-SameEp0 = record { state = refl; setup = refl; out = refl; inp = refl }

  addr-addressed : addressed.hw.ctl.addr ≡ (setup_begin s).req.w_value
  unfolding set_address
  addr-addressed = csr_addr-small (setup_begin s).req.w_value h.fits

  -- SET_ADDRESS: when the drivers before the standard driver pass, the SETUP packet leaves the
  -- device at its old address, waiting for the status stage. When the host has taken the empty
  -- packet of that stage, the device is at the new address, and the control endpoint is idle.
  pub set_address-after_status :
      (done : ℕ → Usb A → Run (Usb A)) (ds behind : List DrvId)
      → (setup_begin s).fnd ≡ ds ++ ctrl_std ∷ behind
      → Pass
          (all_drivers fns)
          (λ p. ctrl_req_of (all_drivers fns p) (setup_begin s).req)
          ds
          (asked s)
          (asked s)
      → Returns
          (λ t.
            (t.hw.ctl ≡ s.hw.ctl)
            × (t.ctrl_state ≡ status_done_in)
            × Returns
                (λ u. (u.ctrl_state ≡ idle) × (u.hw.ctl.addr ≡ (setup_begin s).req.w_value))
                (ep0_poll (services fns done) (ack_in ∷ quiet ∷ []) t))
          (handle_setup (services fns done) s)
  unfolding run_done run_callback setup_end
  set_address-after_status done ds behind chain pass =
      let sv = services fns done in
      let answer = services-address done ds behind chain pass in
      rw (handle_setup-waiting sv (answered s) answered-IsNoData s answer) (
        ctl-waiting,
        refl,
        rw (ep0_poll-completed sv (answered s) answered-IsNoData addressed refl addressed-SameEp0)
            (refl, addr-addressed),
      )
