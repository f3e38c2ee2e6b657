-- ===== src/Ep0/NoData.antt =====
-- A request without data, from its SETUP packet to the end of its status stage.
use no2usb.Base.{◌≡◌, refl, true, false, [], ◌∷◌, ok, arith}
use no2usb.Hw.{bd_state, ar_write}
use no2usb.Hw.Words.{bd_state-bd_rdy_data, bd_state-zero}
use no2usb.Stack.{Usb, idle, status_done_in, success, is_read, Services}
use no2usb.Ep0.Regs.{out_csr, in_queue_data, in_clear, setup_queue_data}
use no2usb.Ep0.Transfer.{
  map_hw, set_ctrl, default_xfer, start_data, answer_request, handle_control_request,
  handle_control_data, when_data_in, when_data_out, handle_data_out, next_packet,
}
use no2usb.Ep0.Poll.{
  setup_begin, setup_end, handle_setup, run_done, status_in_stage, state_stage, event_stage,
  ep0_round, ep0_poll,
}
use no2usb.Ep0.Host.{quiet, ack_in}
use no2usb.Ep0.Termination.{SameEp0}

-- The handlers took a request that has no data stage.
pub record IsNoData {A : Type 0} (a : Usb A) : Type 0 where
  pub write : is_read a.req ≡ false
  pub no_bytes : a.req.w_length ≡ 0
  pub start : a.xfer.ofs ≡ 0
  pub out : out_csr a.hw ≡ 0

-- The device then waits for the end of the status stage, behind an empty packet.
abbrev pub waiting : {A : Type 0} → Usb A → Usb A
waiting a = setup_end (
    set_ctrl status_done_in
      (map_hw (in_queue_data 0) (record a { xfer = record (a.xfer) { len = 0 } })))

-- The state that the completion callback meets.
abbrev pub completed : {A : Type 0} → Usb A → Usb A
completed a = map_hw in_clear (set_ctrl idle (map_hw ack_in (waiting a)))

module _ {A : Type 0} (sv : Services A) (a : Usb A) (h : IsNoData a) where
  answer_request-waiting :
      answer_request success a
      ≡ ok (
          set_ctrl status_done_in
            (map_hw (in_queue_data 0) (record a { xfer = record (a.xfer) { len = 0 } })))
  unfolding answer_request start_data handle_control_data when_data_in when_data_out handle_data_out
      next_packet
  answer_request-waiting = ground (arith, h.write, h.no_bytes, h.start, h.out, bd_state-zero)

  -- When the handlers answer so, the SETUP packet leaves the device waiting for the status stage.
  pub handle_setup-waiting :
      (s : Usb A)
      → sv.ctrl_req (setup_begin s).req (record (setup_begin s) { xfer = default_xfer })
        ≡ ok (success, a)
      → handle_setup sv s ≡ ok (waiting a)
  unfolding handle_setup handle_control_request
  handle_setup-waiting s answer = rw (answer, answer_request-waiting) refl

  module _ (u : Usb A) (done : run_done sv (completed a) ≡ ok u)
      (same : SameEp0 (completed a) u) where
    status_round : ep0_round sv (map_hw ack_in (waiting a)) ≡ ok (true, u)
    unfolding ep0_round state_stage status_in_stage setup_end ack_in bd_state in_queue_data
    status_round = rw done refl

    idle_round : ep0_round sv u ≡ ok (false, u)
    unfolding ep0_round state_stage event_stage setup_end ack_in in_queue_data in_clear
        setup_queue_data ar_write
    idle_round = ground (
      arith,
      same.state,
      same.setup,
      same.out,
      same.inp,
      h.out,
      bd_state-zero,
      bd_state-bd_rdy_data 64 (omega arith),
    )

    -- When the host has taken the empty packet, the callback runs, and nothing is left to do.
    pub ep0_poll-completed : ep0_poll sv (ack_in ∷ quiet ∷ []) (waiting a) ≡ ok u
    unfolding ep0_poll
    ep0_poll-completed = rw (status_round, idle_round) refl
