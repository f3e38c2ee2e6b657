-- ===== src/Ep0/Transfer.antt =====
-- Control transfers: `usb_handle_control_data`, `usb_handle_control_request` and `usb_ep0_reset` of
-- fw/v0/src/usb_ctrl_ep0.c.
use no2usb.Base.{ℕ, ◌+◌, ◌-◌, ltb, ◌==◌, if◌then◌else◌, not, Run, ok, fault, ◌>>=◌, bit_or}
use no2usb.Hw.{
  Hw, EpPair, set_ep, bd_state, bd_len, bd_state_rdy_data, bd_state_done_ok, ep_type_ctrl,
  ep_bd_ctrl, ep_dt_bit,
}
use no2usb.Hw.Data.{data_write, data_read}
use no2usb.Stack.{
  Usb, Xfer, CtrlState, idle, data_in, data_out, status_done_out, status_done_in, stall, Resp,
  success, ram, no_callback, is_read, Services,
}
use no2usb.Stack.Memory.{load, store}
use no2usb.Ep0.Regs.{
  ep0_pkt_len, out_csr, in_clear, in_queue_data, in_queue_stall, out_clear, out_queue_data,
  out_queue_stall, setup_queue_data,
}

-- The buffer, length and callbacks that a handler finds.
abbrev pub default_xfer : Xfer
default_xfer = record { bytes = ram 0; ofs = 0; len = 64; cb_done = no_callback }

-- The size of a packet when `left` bytes are to go.
unfoldable pub packet_len : ℕ → ℕ
packet_len left = if ltb ep0_pkt_len left then ep0_pkt_len else left

module _ {A : Type 0} where
  abbrev pub map_hw : (Hw → Hw) → Usb A → Usb A
  map_hw f s = record s { hw = f s.hw }

  abbrev pub set_ctrl : CtrlState → Usb A → Usb A
  set_ctrl c s = record s { ctrl_state = c }

  -- `g_usb.ctrl.xfer.ofs += n;`
  abbrev pub advance : ℕ → Usb A → Usb A
  advance n s = record s { xfer = record (s.xfer) { ofs = s.xfer.ofs + n } }

  -- The bytes of the next packet go to packet memory, if there are any.
  unfoldable pub fill_packet : ℕ → Usb A → Run (Usb A)
  fill_packet xflen s =
      if xflen == 0
      then ok s
      else (load s.xfer.bytes s.xfer.ofs xflen s >>= λ bs.
          ok (map_hw (λ hw. record hw { tx = data_write hw.tx 0 bs }) s))

  -- The packet is queued, and behind a short one the status stage.
  unfoldable pub queue_packet : ℕ → Usb A → Usb A
  unfolding in_queue_data out_queue_data
  queue_packet xflen s =
      let sent = advance xflen (map_hw (in_queue_data xflen) s) in
      if ltb xflen ep0_pkt_len then set_ctrl status_done_out (map_hw out_queue_data sent) else sent

  -- `usb_handle_control_data` in state `DATA_IN`. An offset past the length would be a negative
  -- count of bytes.
  unfoldable pub handle_data_in : Usb A → Run (Usb A)
  handle_data_in s =
      let xflen = packet_len (s.xfer.len - s.xfer.ofs) in
      if ltb s.xfer.len s.xfer.ofs
      then fault
      else (fill_packet xflen s >>= λ t. ok (queue_packet xflen t))

  -- The packet's bytes go to the transfer's buffer, if there are any.
  unfoldable pub store_packet : ℕ → Usb A → Run (Usb A)
  store_packet xflen s =
      if xflen == 0 then ok s else store s.xfer.bytes s.xfer.ofs (data_read s.hw.rx 0 xflen) s

  -- `usb_handle_control_data` in state `DATA_OUT`, its first part: the bytes that came in. The core
  -- counts the two bytes of the checksum; a shorter count would be a negative length.
  unfoldable pub take_packet : ℕ → Usb A → Run (Usb A)
  unfolding out_clear
  take_packet bds_out s =
      let xflen = bd_len bds_out - 2 in
      if ltb (bd_len bds_out) 2
      then fault
      else (store_packet xflen s >>= λ t. ok (map_hw out_clear (advance xflen t)))

  -- Its second part: the status stage when the length is reached, or room for the next packet.
  unfoldable pub next_packet : ℕ → Usb A → Usb A
  unfolding in_queue_data out_queue_data
  next_packet bds_out s =
      if s.xfer.ofs == s.xfer.len
      then set_ctrl status_done_in (map_hw (in_queue_data 0) s)
      else if not (bd_state bds_out == bd_state_rdy_data)
      then map_hw out_queue_data s
      else s

  unfoldable pub handle_data_out : Usb A → Run (Usb A)
  handle_data_out s =
      let bds_out = out_csr s.hw in
      let taken = if bd_state bds_out == bd_state_done_ok then take_packet bds_out s else ok s in
      taken >>= λ t. ok (next_packet bds_out t)

  unfoldable pub when_data_in : CtrlState → Usb A → Run (Usb A)
  when_data_in data_in s = handle_data_in s
  when_data_in _ s = ok s

  unfoldable pub when_data_out : CtrlState → Usb A → Run (Usb A)
  when_data_out data_out s = handle_data_out s
  when_data_out _ s = ok s

  unfoldable pub handle_control_data : Usb A → Run (Usb A)
  handle_control_data s = do t ← when_data_in s.ctrl_state s; when_data_out t.ctrl_state t

  -- The error path of `usb_handle_control_request`.
  unfoldable pub stall_both : Usb A → Usb A
  unfolding in_queue_stall out_queue_stall
  stall_both s = set_ctrl stall (map_hw (λ hw. out_queue_stall (in_queue_stall hw)) s)

  unfoldable pub start_data : Usb A → Run (Usb A)
  start_data s = handle_control_data (set_ctrl (if is_read s.req then data_in else data_out) s)

  -- The checks behind the handlers' answer.
  unfoldable pub answer_request : Resp → Usb A → Run (Usb A)
  answer_request success s =
      if ltb s.xfer.len s.req.w_length
      then (if is_read s.req then start_data s else ok (stall_both s))
      else start_data (record s { xfer = record (s.xfer) { len = s.req.w_length } })
  answer_request _ s = ok (stall_both s)

  unfoldable pub handle_control_request : Services A → Usb A → Run (Usb A)
  handle_control_request sv s = do
    (rv, t) ← sv.ctrl_req s.req (record s { xfer = default_xfer })
    answer_request rv t

  unfoldable pub ep0_reset : Usb A → Usb A
  unfolding in_clear out_clear setup_queue_data set_ep
  ep0_reset s =
      let status : EpPair → EpPair = λ p. record {
        out = record (p.out) {
          status = bit_or ep_type_ctrl ep_bd_ctrl;
          bd0 = record (p.out.bd0) { ptr = 0 };
          bd1 = record (p.out.bd1) { ptr = ep0_pkt_len };
        };
        inp = record (p.inp) {
          status = bit_or ep_type_ctrl ep_dt_bit;
          bd0 = record (p.inp.bd0) { ptr = 0 };
        };
      } in
      let hw = set_ep 0 (status (s.hw.ep 0)) s.hw in
      record s { ctrl_state = idle; hw = setup_queue_data (out_clear (in_clear hw)) }
