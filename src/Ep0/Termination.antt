-- ===== src/Ep0/Termination.antt =====
-- The loop of `usb_ep0_poll` ends: each round that calls for another uses up a descriptor.
use no2usb.Base.{
  ℕ, ◌+◌, ◌-◌, ◌<◌, ◌≡◌, ◌≢◌, refl, Bool, ◌⊎◌, inl, inr, true, false, ◌==◌, ◌||◌, if◌then◌else◌,
  Run-cases, Run, ok, fault, spin, arith,
}
use no2usb.Hw.{bd_state}
use no2usb.Hw.Words.{bd_state-bd_rdy_data, bd_state-zero, bd_state-rdy_stall}
use no2usb.Stack.{
  Usb, Req, Callback, Services, CtrlState, idle, data_in, data_out, status_done_out, status_done_in,
  stall, no_callback,
}
use no2usb.Stack.Memory.{store}
use no2usb.Ep0.Regs.{in_clear, out_clear, in_csr, out_csr, setup_csr}
use no2usb.Ep0.Transfer.{
  map_hw, set_ctrl, packet_len, fill_packet, queue_packet, handle_data_in, take_packet,
  store_packet, next_packet, handle_data_out, when_data_in, when_data_out, handle_control_data,
}
use no2usb.Ep0.Poll.{
  run_done, status_in_stage, status_out_stage, stall_stage, state_stage, data_event, event_stage,
  ep0_round,
}
use no2usb.Ep0.Packet.{packet_len_bounds}

-- 1 for a descriptor that the core has used, 0 for another.
abbrev pub used : ℕ → ℕ
used csr = if bd_state csr == 0x8000 || bd_state csr == 0xa000 then 1 else 0

abbrev pub unstalled : ℕ → ℕ
unstalled csr = if bd_state csr == 0x6000 then 0 else 1

abbrev pub to_stall : CtrlState → ℕ → ℕ → ℕ
to_stall stall out inp = unstalled out + unstalled inp
to_stall _ out inp = 0

-- What is left to do at the endpoint.
abbrev pub work : {A : Type 0} → Usb A → ℕ
work s =
    used (setup_csr s.hw)
    + used (out_csr s.hw)
    + used (in_csr s.hw)
    + to_stall s.ctrl_state (out_csr s.hw) (in_csr s.hw)

-- `t` has the endpoint 0 of `s`.
pub record SameEp0 {A : Type 0} (s t : Usb A) : Type 0 where
  pub state : t.ctrl_state ≡ s.ctrl_state
  pub setup : setup_csr t.hw ≡ setup_csr s.hw
  pub out : out_csr t.hw ≡ out_csr s.hw
  pub inp : in_csr t.hw ≡ in_csr s.hw

-- Callbacks leave endpoint 0 alone, and what the drivers do comes to an end.
pub record IsPolite {A : Type 0} (sv : Services A) : Type 0 where
  pub callback_keeps : (c : Callback) (s t : Usb A) → sv.callback c s ≡ ok t → SameEp0 s t
  pub callback_ends : (c : Callback) (s : Usb A) → sv.callback c s ≢ spin
  pub ctrl_req_ends : (r : Req) (s : Usb A) → sv.ctrl_req r s ≢ spin

module _ {A : Type 0} where
  data_in_frame :
      (s t : Usb A)
      → handle_data_in s ≡ ok t
      → (setup_csr t.hw ≡ setup_csr s.hw)
        × (bd_state (in_csr t.hw) ≡ 0x4000)
        × ((out_csr t.hw ≡ out_csr s.hw) ⊎ (bd_state (out_csr t.hw) ≡ 0x4000))
        × ((t.ctrl_state ≡ s.ctrl_state) ⊎ (t.ctrl_state ≡ status_done_out))
  unfolding handle_data_in fill_packet queue_packet
  data_in_frame s t e = ground (
    arith,
    bd_state-bd_rdy_data (packet_len (s.xfer.len - s.xfer.ofs))
        (omega (arith, packet_len_bounds (s.xfer.len - s.xfer.ofs))),
    bd_state-bd_rdy_data 64 (omega arith),
  )

  data_out_frame :
      (s t : Usb A)
      → handle_data_out s ≡ ok t
      → bd_state (out_csr s.hw) ≡ 0x8000
      → s.ctrl_state ≡ data_out
      → (setup_csr t.hw ≡ setup_csr s.hw)
        × (used (out_csr t.hw) ≡ 0)
        × ((in_csr t.hw ≡ in_csr s.hw) ⊎ (bd_state (in_csr t.hw) ≡ 0x4000))
        × ((t.ctrl_state ≡ data_out) ⊎ (t.ctrl_state ≡ status_done_in))
  unfolding handle_data_out take_packet store_packet next_packet store
  data_out_frame s t e o d = ground (
    arith,
    bd_state-bd_rdy_data 64 (omega arith),
    bd_state-bd_rdy_data 0 (omega arith),
    bd_state-zero,
  )

  control_data_in :
      (s t : Usb A)
      → handle_control_data s ≡ ok t
      → s.ctrl_state ≡ data_in
      → bd_state (in_csr s.hw) ≡ 0x8000
      → work t < work s
  unfolding handle_control_data when_data_in when_data_out
  control_data_in s t e d i = elim (Run-cases (handle_data_in s)) [
    | inl (t', done) ↦ ground (arith, data_in_frame s t' done)
    | inr (inl bad) ↦ ground arith
    | inr (inr bad) ↦ ground arith
  ]

  control_data_out :
      (s t : Usb A)
      → handle_control_data s ≡ ok t
      → s.ctrl_state ≡ data_out
      → bd_state (out_csr s.hw) ≡ 0x8000
      → work t < work s
  unfolding handle_control_data when_data_in when_data_out
  control_data_out s t e d o = elim (Run-cases (handle_data_out s)) [
    | inl (t', done) ↦ ground (arith, data_out_frame s t' done)
    | inr (inl bad) ↦ ground arith
    | inr (inr bad) ↦ ground arith
  ]

  module _ (sv : Services A) (polite : IsPolite sv) where
    run_done-SameEp0 : (s t : Usb A) → run_done sv s ≡ ok t → SameEp0 s t
    unfolding run_done
    run_done-SameEp0 s t = called s.xfer.cb_done
      where
        called :
            (c : Callback)
            → elim c [ no_callback ↦ ok s | d ↦ sv.callback d s ] ≡ ok t
            → SameEp0 s t
        called no_callback e = ground arith
        called c e = polite.callback_keeps c s t e

    status_in_acted :
        (s t : Usb A)
        → s.ctrl_state ≡ status_done_in
        → status_in_stage sv (in_csr s.hw) s ≡ ok (true, t)
        → work t < work s
    unfolding status_in_stage
    status_in_acted s t d e =
        let s' = map_hw in_clear (set_ctrl idle s) in
        elim (Run-cases (run_done sv s')) [
          | inl (t', done) ↦ ground (arith, bd_state-zero, run_done-SameEp0 s' t' done)
          | inr (inl bad) ↦ ground arith
          | inr (inr bad) ↦ ground arith
        ]

    status_out_acted :
        (s t : Usb A)
        → s.ctrl_state ≡ status_done_out
        → status_out_stage sv (out_csr s.hw) (in_csr s.hw) s ≡ ok (true, t)
        → work t < work s
    unfolding status_out_stage
    status_out_acted s t d e =
        let sent = if bd_state (in_csr s.hw) == 0x8000 then map_hw in_clear s else s in
        let s' = map_hw out_clear (set_ctrl idle sent) in
        elim (Run-cases (run_done sv s')) [
          | inl (t', done) ↦ ground (arith, bd_state-zero, run_done-SameEp0 s' t' done)
          | inr (inl bad) ↦ ground (arith, bd_state-zero)
          | inr (inr bad) ↦ ground (arith, bd_state-zero)
        ]

    stall_acted :
        (s t : Usb A)
        → s.ctrl_state ≡ stall
        → stall_stage (out_csr s.hw) (in_csr s.hw) s ≡ (true, t)
        → work t < work s
    unfolding stall_stage
    stall_acted s t d e = ground (arith, bd_state-rdy_stall)

    state_stage-acted :
        (s t : Usb A)
        → state_stage s.ctrl_state sv (out_csr s.hw) (in_csr s.hw) s ≡ ok (true, t)
        → work t < work s
    unfolding state_stage
    state_stage-acted s t e =
        ground (arith, status_in_acted s t, status_out_acted s t, stall_acted s t)

    state_stage-rest :
        (s t : Usb A)
        → state_stage s.ctrl_state sv (out_csr s.hw) (in_csr s.hw) s ≡ ok (false, t)
        → t ≡ s
    unfolding state_stage status_in_stage status_out_stage stall_stage
    state_stage-rest s t e = ground arith

    event_stage-acted :
        (s t : Usb A)
        → event_stage sv (setup_csr s.hw) (out_csr s.hw) (in_csr s.hw) s ≡ ok (true, t)
        → work t < work s
    unfolding event_stage data_event
    event_stage-acted s t e = ground (
      arith,
      bd_state-zero,
      bd_state-bd_rdy_data 64 (omega arith),
      control_data_in s t,
      control_data_out s t,
    )

    pub round-acted : (s t : Usb A) → ep0_round sv s ≡ ok (true, t) → work t < work s
    unfolding ep0_round
    round-acted s t e = staged (state_stage s.ctrl_state sv (out_csr s.hw) (in_csr s.hw) s) refl
      where
        staged :
            (r : Run (Bool × Usb A))
            → state_stage s.ctrl_state sv (out_csr s.hw) (in_csr s.hw) s ≡ r
            → work t < work s
        staged (ok (true, u)) first = ground (arith, state_stage-acted s u first)
        staged (ok (false, u)) first =
            event_stage-acted s t (rw (state_stage-rest s u first) at (rw first at e))
        staged fault first = cc (rw first at e)
        staged spin first = cc (rw first at e)
