-- ===== src/Ep0/Poll.antt =====
-- The poll of the control endpoint: `usb_ep0_poll` of fw/v0/src/usb_ctrl_ep0.c. A run is a list of
-- rounds of its loop, and before each round the hardware may have changed its registers. Within a
-- round the registers are taken to stand still.
use no2usb.Base.{
  ℕ, ◌+◌, ◌*◌, ◌==◌, if◌then◌else◌, Bool, true, false, not, ◌||◌, List, [], ◌∷◌, Run, ok, spin,
  ◌>>=◌,
}
use no2usb.Hw.{Hw, bd_state, bd_state_rdy_stall, bd_state_done_ok, bd_state_done_err, ar_write}
use no2usb.Hw.Data.{data_read}
use no2usb.Stack.{
  Usb, Req, CtrlState, idle, data_in, data_out, status_done_out, status_done_in, stall, no_callback,
  Services,
}
use no2usb.Ep0.Regs.{
  ep0_pkt_len, in_csr, out_csr, setup_csr, in_clear, in_queue_stall, out_clear, out_queue_data,
  out_queue_stall, setup_queue_data, set_in_dt,
}
use no2usb.Ep0.Transfer.{map_hw, set_ctrl, handle_control_data, handle_control_request}

-- The eight bytes of a SETUP packet, by the layout of `struct usb_ctrl_req`.
unfoldable pub parse_req : List ℕ → Req
parse_req (t ∷ r ∷ v0 ∷ v1 ∷ i0 ∷ i1 ∷ l0 ∷ l1 ∷ _) = record {
  bm_request_type = t;
  b_request = r;
  w_value = v0 + 256 * v1;
  w_index = i0 + 256 * i1;
  w_length = l0 + 256 * l1;
}
parse_req _ = record { bm_request_type = 0; b_request = 0; w_value = 0; w_index = 0; w_length = 0 }

module _ {A : Type 0} where
  -- `if (xfer.cb_done) xfer.cb_done(&xfer);`
  unfoldable pub run_done : Services A → Usb A → Run (Usb A)
  run_done sv s = elim (s.xfer.cb_done) [ no_callback ↦ ok s | c ↦ sv.callback c s ]

  -- The end of the status stage of a write request.
  unfoldable pub status_in_stage : Services A → ℕ → Usb A → Run (Bool × Usb A)
  unfolding in_clear
  status_in_stage sv bds_in s =
      if bd_state bds_in == bd_state_done_ok
      then (run_done sv (map_hw in_clear (set_ctrl idle s)) >>= λ t. ok (true, t))
      else ok (false, s)

  -- The end of the status stage of a read request: the last data packet, and the host's answer.
  unfoldable pub status_out_stage : Services A → (bds_out bds_in : ℕ) → Usb A → Run (Bool × Usb A)
  unfolding in_clear out_clear
  status_out_stage sv bds_out bds_in s =
      let sent = bd_state bds_in == bd_state_done_ok in
      let t = if sent then map_hw in_clear s else s in
      if bd_state bds_out == bd_state_done_ok
      then (run_done sv (map_hw out_clear (set_ctrl idle t)) >>= λ u. ok (true, u))
      else ok (sent, t)

  -- A stalled descriptor that the core has used is stalled again.
  unfoldable pub stall_stage : (bds_out bds_in : ℕ) → Usb A → Bool × Usb A
  unfolding in_queue_stall out_queue_stall
  stall_stage bds_out bds_in s =
      let inp = not (bd_state bds_in == bd_state_rdy_stall) in
      let out = not (bd_state bds_out == bd_state_rdy_stall) in
      let t = if inp then map_hw in_queue_stall s else s in
      (inp || out, if out then map_hw out_queue_stall t else t)

  unfoldable pub state_stage :
      CtrlState → Services A → (bds_out bds_in : ℕ) → Usb A → Run (Bool × Usb A)
  state_stage status_done_in sv bds_out bds_in s = status_in_stage sv bds_in s
  state_stage status_done_out sv bds_out bds_in s = status_out_stage sv bds_out bds_in s
  state_stage stall sv bds_out bds_in s = ok (stall_stage bds_out bds_in s)
  state_stage _ sv bds_out bds_in s = ok (false, s)

  -- A SETUP packet came in. What stands before the request's handling, and what stands behind it.
  unfoldable pub setup_begin : Usb A → Usb A
  unfolding in_clear out_clear set_in_dt parse_req
  setup_begin s =
      let t = map_hw (λ hw. set_in_dt (in_clear (out_clear hw))) s in
      record t { req = parse_req (data_read t.hw.rx ep0_pkt_len 8) }

  unfoldable pub setup_end : Usb A → Usb A
  unfolding setup_queue_data
  setup_end = map_hw (λ hw. setup_queue_data (ar_write true false false hw))

  unfoldable pub handle_setup : Services A → Usb A → Run (Usb A)
  handle_setup sv s = handle_control_request sv (setup_begin s) >>= λ t. ok (setup_end t)

  unfoldable pub data_event : CtrlState → CtrlState → (Hw → Hw) → Usb A → Run (Usb A)
  data_event data_out data_out drop s = handle_control_data s
  data_event data_in data_in drop s = handle_control_data s
  data_event wanted _ drop s = ok (map_hw drop s)

  -- What is left of a round when no stage has acted: errors, SETUP, and data.
  unfoldable pub event_stage :
      Services A → (bds_setup bds_out bds_in : ℕ) → Usb A → Run (Bool × Usb A)
  unfolding setup_queue_data out_queue_data in_clear out_clear
  event_stage sv bds_setup bds_out bds_in s =
      if bd_state bds_setup == bd_state_done_err
      then ok (true, map_hw setup_queue_data s)
      else if bd_state bds_out == bd_state_done_err
      then ok (true, map_hw out_queue_data s)
      else if bd_state bds_setup == bd_state_done_ok
      then (handle_setup sv s >>= λ t. ok (false, t))
      else if bd_state bds_out == bd_state_done_ok
      then (data_event data_out s.ctrl_state out_clear s >>= λ t. ok (true, t))
      else if bd_state bds_in == bd_state_done_ok
      then (data_event data_in s.ctrl_state in_clear s >>= λ t. ok (true, t))
      else ok (false, s)

  -- One round of the loop of `usb_ep0_poll`: whether there is another, and the state behind it.
  unfoldable pub ep0_round : Services A → Usb A → Run (Bool × Usb A)
  ep0_round sv s = do
    (acted, t) ← state_stage s.ctrl_state sv (out_csr s.hw) (in_csr s.hw) s
    if acted then ok (true, t) else event_stage sv (setup_csr s.hw) (out_csr s.hw) (in_csr s.hw) t

  -- `usb_ep0_poll`. Each item of the list is what the hardware does before a round.
  unfoldable pub ep0_poll : Services A → List (Hw → Hw) → Usb A → Run (Usb A)
  ep0_poll sv [] s = spin
  ep0_poll sv (e ∷ es) s = do
    (again, t) ← ep0_round sv (map_hw e s)
    elim again [ true ↦ ep0_poll sv es t | false ↦ ok t ]
