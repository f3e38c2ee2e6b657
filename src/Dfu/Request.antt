-- ===== src/Dfu/Request.antt =====
-- The requests to the update driver: fw/v0/src/usb_dfu.c, with the vendor
-- requests of fw/v0/src/usb_dfu_vendor.c.
use no2usb.Base.{
  ℕ, ◌+◌, ◌-◌, ◌%◌, ◌^◌, ◌==◌, ltb, bit_and, bit_or, not, if◌then◌else◌, [], ◌∷◌, Run, ok, ◌>>=◌,
}
use no2usb.Stack.{Usb, Req, request_and_type, Resp, continue, success, error, ram, driver_callback}
use no2usb.Stack.Memory.{store}
use no2usb.Std.Status.{set_len}
use no2usb.Std.Config.{shift}
use no2usb.Dfu.State.{
  DfuState, app_idle, app_detach, dfu_idle, dnload_sync, dnbusy, dnload_idle, manifest_sync,
  manifest, manifest_wait_reset, upload_idle, dfu_error, state_code, status_ok, err_unknown,
  FlashOp, fl_erase, Dfu, Flash, buf_len, dfu_buf, map_dfu,
}
use no2usb.Dfu.Tick.{add32, is_idle}

-- `dfu_valid_req`: bit `n` for request `n`.
abbrev pub valid_req : DfuState → ℕ
valid_req app_idle = 0x29
valid_req app_detach = 0x28
valid_req dfu_idle = 0x6f
valid_req dnload_sync = 0x6a
valid_req dnbusy = 0
valid_req dnload_idle = 0x6a
valid_req manifest_sync = 0x68
valid_req manifest = 0
valid_req manifest_wait_reset = 0
valid_req upload_idle = 0x6c
valid_req dfu_error = 0x38

-- `USB_REQ_TYPE(req) | USB_REQ_RCPT(req)`
unfoldable pub type_and_rcpt : Req → ℕ
type_and_rcpt req = bit_or (bit_and req.bm_request_type 0x60) (bit_and req.bm_request_type 0x1f)

-- The state that GETSTATUS reports, and the one that it leaves.
abbrev pub reported : DfuState → FlashOp → DfuState × DfuState
reported dnload_sync op = if is_idle op then (dnload_idle, dnload_idle) else (dnbusy, dnload_sync)
reported manifest_sync op = (dfu_idle, dfu_idle)
reported st op = (st, st)

module _ {F : Type 0} where
  abbrev pub set_data : Usb (Dfu F) → Usb (Dfu F)
  set_data s = record s { xfer = record (s.xfer) { bytes = ram dfu_buf } }

  abbrev pub set_done : ℕ → Usb (Dfu F) → Usb (Dfu F)
  set_done n s = record s { xfer = record (s.xfer) { cb_done = driver_callback n } }

  abbrev pub set_dfu_state : DfuState → Usb (Dfu F) → Usb (Dfu F)
  set_dfu_state st = map_dfu (λ d. record d { state = st })

  -- The error path of `_dfu_ctrl_req`.
  unfoldable pub refuse : Usb (Dfu F) → Resp × Usb (Dfu F)
  refuse s = (error, map_dfu (λ d. record d { state = dfu_error; status = err_unknown }) s)

  -- `USB_RT_DFU_DNLOAD`
  unfoldable pub dnload : Req → Usb (Dfu F) → Resp × Usb (Dfu F)
  unfolding refuse
  dnload req s =
      if req.w_length == 0
      then (success, set_dfu_state dfu_idle s)
      else if ltb s.app.addr_end (add32 s.app.addr_erase req.w_length)
      then refuse s
      else (
        success,
        map_dfu (λ d. record d { op_ofs = 0; op_len = req.w_length; op = fl_erase })
            (set_done 1 (set_data (set_len req.w_length s))),
      )

  -- How many bytes an upload gets.
  unfoldable pub upload_len : Req → Dfu F → ℕ
  upload_len req d =
      if ltb d.addr_end (add32 d.addr_read req.w_length)
      then (d.addr_end + 2 ^ 32 - d.addr_read) % 2 ^ 32
      else req.w_length

  -- `USB_RT_DFU_GETSTATUS`, with a poll time of 10 ms.
  unfoldable pub getstatus : Usb (Dfu F) → Run (Resp × Usb (Dfu F))
  unfolding store
  getstatus s =
      let (state, next) = reported s.app.state s.app.op in
      store s.xfer.bytes 0 (s.app.status ∷ 10 ∷ 0 ∷ 0 ∷ state_code state ∷ 0 ∷ []) s >>= λ t.
      ok (success, set_dfu_state next t)

  -- `dfu_vendor_ctrl_req`
  unfoldable pub vendor_ctrl_req : Req → Usb (Dfu F) → Run (Resp × Usb (Dfu F))
  unfolding store
  vendor_ctrl_req req s =
      let version = (store s.xfer.bytes 0 (1 ∷ 0 ∷ []) (set_len 2 s) >>= λ t. ok (success, t)) in
      if request_and_type req == 0x00c1
      then version
      else if request_and_type req == 0x0141
      then ok (success, set_done 2 s)
      else if request_and_type req == 0x02c1
      then ok (success, s)
      else ok (error, s)

  module _ (fl : Flash F) where
    -- `USB_RT_DFU_UPLOAD`
    unfoldable pub upload : Req → Usb (Dfu F) → Run (Resp × Usb (Dfu F))
    unfolding store upload_len
    upload req s =
        let n = upload_len req s.app in
        let t = set_data (set_len n s) in
        let read =
          (store (ram dfu_buf) 0 (fl.read s.app.addr_read n s.app.flash) t >>= λ u.
          ok (success, map_dfu (λ d. record d { addr_read = add32 d.addr_read n }) u)) in
        if n == 0 then ok (success, t) else read

    -- The `switch` of `_dfu_ctrl_req`.
    unfoldable pub dfu_handle : Req → Usb (Dfu F) → Run (Resp × Usb (Dfu F))
    unfolding dnload upload getstatus refuse store
    dfu_handle req s =
        let rt = request_and_type req in
        let getstate =
          (store s.xfer.bytes 0 (state_code s.app.state ∷ []) s >>= λ t. ok (success, t)) in
        if rt == 0x0021
        then ok (success, set_done 0 s)
        else if rt == 0x0121
        then ok (dnload req s)
        else if rt == 0x02a1
        then upload req s
        else if rt == 0x03a1
        then getstatus s
        else if rt == 0x0421
        then ok (success, map_dfu (λ d. record d { state = dfu_idle; status = status_ok }) s)
        else if rt == 0x05a1
        then getstate
        else if rt == 0x0621
        then ok (success, set_dfu_state dfu_idle s)
        else ok (refuse s)

    -- The check against `dfu_valid_req`, in front of the `switch`.
    unfoldable pub dfu_checked : Req → Usb (Dfu F) → Run (Resp × Usb (Dfu F))
    unfolding dfu_handle refuse
    dfu_checked req s = shift req.b_request >>= λ bit.
        if bit_and (valid_req s.app.state) bit == 0 then ok (refuse s) else dfu_handle req s

    -- `_dfu_ctrl_req`
    unfoldable pub dfu_ctrl_req : Req → Usb (Dfu F) → Run (Resp × Usb (Dfu F))
    unfolding dfu_checked vendor_ctrl_req type_and_rcpt
    dfu_ctrl_req req s =
        if not (req.w_index == s.app.intf)
        then ok (continue, s)
        else if type_and_rcpt req == 0x41
        then vendor_ctrl_req req (set_len buf_len (set_data s))
        else if not (type_and_rcpt req == 0x21)
        then ok (continue, s)
        else dfu_checked req s
