-- ===== src/Dcd/Setup.antt =====
-- A SETUP packet at the port, from the interrupt to the stack.
use no2usb.Base.{
  ℕ, zero, suc, ◌+◌, ◌≡◌, refl, ap, ◌∙◌, Bool, Bool-cases, true, false, if◌then◌else◌, List, [],
  ◌∷◌, ok, inl, inr, arith, bit_or,
}
use no2usb.Hw.{evt_pop, evt_pending, bd_state, bd_rdy_data, ep_type_ctrl, ep_dt_bit, ar_write}
use no2usb.Hw.Data.{data_read}
use no2usb.Ep0.Regs.{in_csr, out_csr, setup_csr, set_in_csr, set_out_csr, set_setup_csr, set_in_dt}
use no2usb.Dcd.State.{Dir, dir_out, dir_in, Dcd, TinyUsb, Config, setup_received, map_regs}
use no2usb.Dcd.Device.{
  stall_ep0, advance_busy, take_setup, ep0_handle_setup, drain_evts, poll_eps, full_poll,
  handle_sof, handle_events, dcd_int_handler,
}

abbrev with_evts : {A : Type 0} → List ℕ → Dcd A → Dcd A
with_evts es s = map_regs (λ hw. record hw { evts = es }) s

-- No transfer is going on.
pub record IsIdle {A : Type 0} (s : Dcd A) : Type 0 where
  pub out : (n : ℕ) → (s.ep n).out.busy ≡ false
  pub inp : (n : ℕ) → (s.ep n).inp.busy ≡ false

else_branch : {X : Type 0} (b : Bool) (x y : X) → b ≡ false → (if b then x else y) ≡ y
else_branch false x y e = refl
else_branch true x y e = ground (arith, e)

module _ {A : Type 0} (tu : TinyUsb A) where
  advance_busy-idle : (d : Dir) (n : ℕ) (s : Dcd A) → IsIdle s → advance_busy tu d n s ≡ ok s
  unfolding advance_busy
  advance_busy-idle dir_out n s h = rw (h.out n) refl
  advance_busy-idle dir_in n s h = rw (h.inp n) refl

  poll_eps-idle : (k n : ℕ) (s : Dcd A) → IsIdle s → poll_eps tu k n s ≡ ok s
  unfolding poll_eps
  poll_eps-idle zero n s h = refl
  poll_eps-idle (suc k) n s h =
      rw (advance_busy-idle dir_in n s h)
        (rw (advance_busy-idle dir_out n s h) (poll_eps-idle k (n + 1) s h))

  -- Without the event FIFO the queue is emptied, and a poll is due.
  drain_evts-all :
      (c : Config) (evts : List ℕ) (s : Dcd A)
      → c.with_event_fifo ≡ false
      → s.hw.evts ≡ evts
      → drain_evts tu c true evts s ≡ ok (true, with_evts [] s)
  unfolding drain_evts evt_pop
  drain_evts-all c [] s f h = ground (arith, h)
  drain_evts-all c (e ∷ es) s f h = rw f (drain_evts-all c es (map_regs evt_pop s) f (rw h refl))

  -- The state that the handling of a SETUP packet starts from.
  abbrev polled : Dcd A → Dcd A
  polled s = let t = with_evts [] s in if s.ep0_stall then stall_ep0 t else t

  polled-IsIdle : (s : Dcd A) → IsIdle s → IsIdle (polled s)
  unfolding stall_ep0
  polled-IsIdle s h = elim (Bool-cases s.ep0_stall) [
    | inl b ↦ rw b (record { out = h.out; inp = h.inp })
    | inr b ↦ rw b (record { out = h.out; inp = h.inp })
  ]

  polled-setup : (s : Dcd A) → setup_csr (polled s).hw ≡ setup_csr s.hw
  unfolding stall_ep0 set_in_csr set_out_csr
  polled-setup s = ground arith

  ep0_handle_setup-idle :
      (s : Dcd A)
      → IsIdle s
      → bd_state (setup_csr s.hw) ≡ 0x8000
      → ep0_handle_setup tu s ≡ ok (take_setup tu s)
  unfolding ep0_handle_setup
  ep0_handle_setup-idle s h d =
      rw d (rw (advance_busy-idle dir_in 0 s h) (rw (advance_busy-idle dir_out 0 s h) refl))

  full_poll-idle :
      (s : Dcd A)
      → IsIdle s
      → bd_state (setup_csr s.hw) ≡ 0x8000
      → full_poll tu (with_evts [] s) ≡ ok (take_setup tu (polled s))
  unfolding full_poll
  full_poll-idle s h d =
      rw (poll_eps-idle 16 0 (polled s) (polled-IsIdle s h))
        (ep0_handle_setup-idle (polled s) (polled-IsIdle s h) (ap bd_state (polled-setup s) ∙ d))

  module _ (c : Config) (s : Dcd A) (e : ℕ) (es : List ℕ) (fifo : c.with_event_fifo ≡ false)
      (evts : s.hw.evts ≡ e ∷ es) where
    drained : drain_evts tu c false s.hw.evts s ≡ ok (true, with_evts [] s)
    unfolding drain_evts evt_pop
    drained =
        ap (λ q. drain_evts tu c false q s) evts
        ∙ rw fifo (drain_evts-all c es (map_regs evt_pop s) fifo popped)
      where
        popped : (map_regs evt_pop s).hw.evts ≡ es
        popped = rw evts refl

    pending : evt_pending s.hw ≡ true
    unfolding evt_pending
    pending = rw evts refl

    no_sof : s.hw.sof_pending ≡ false → handle_sof tu c s.hw s ≡ s
    unfolding handle_sof
    no_sof sof = ground (arith, sof)

    handle_events-run :
        s.hw.sof_pending ≡ false
        → IsIdle s
        → bd_state (setup_csr s.hw) ≡ 0x8000
        → handle_events tu c s.hw s ≡ ok (take_setup tu (polled s))
    unfolding handle_events
    handle_events-run sof h d = rw (no_sof sof) (rw pending (rw drained (full_poll-idle s h d)))

    handler-run :
        s.hw.bus_rst_pending ≡ false
        → s.hw.sof_pending ≡ false
        → IsIdle s
        → bd_state (setup_csr s.hw) ≡ 0x8000
        → dcd_int_handler tu c s ≡ ok (take_setup tu (polled s))
    unfolding dcd_int_handler
    handler-run rst sof h d = else_branch s.hw.bus_rst_pending _ _ rst ∙ handle_events-run sof h d

    -- An interrupt without the event FIFO, with no reset and no start of frame, when no transfer is
    -- going on and a SETUP packet has been received: the handler returns, the stack is told the eight
    -- bytes of the packet and nothing else, no event is left, and endpoint 0 is as it has to be for
    -- the next stage: its two data descriptors are free, also when it was stalled before, the IN side
    -- goes on with DATA1, the next SETUP packet has its buffer, and the lockout is released.
    pub dcd_int_handler-setup :
        s.hw.bus_rst_pending ≡ false
        → s.hw.sof_pending ≡ false
        → IsIdle s
        → bd_state (setup_csr s.hw) ≡ 0x8000
        → (t : Dcd A) × (dcd_int_handler tu c s ≡ ok t)
          × (t.app ≡ tu.notify (setup_received (data_read s.hw.rx (s.hw.ep 0).out.bd1.ptr 8)) s.app)
          × (t.hw.evts ≡ [])
          × (t.ep0_stall ≡ false)
          × (in_csr t.hw ≡ 0)
          × (out_csr t.hw ≡ 0)
          × (setup_csr t.hw ≡ bd_rdy_data 8)
          × ((t.hw.ep 0).inp.status ≡ bit_or ep_type_ctrl ep_dt_bit)
          × (t.hw.cel_active ≡ false)
    unfolding take_setup stall_ep0 set_in_csr set_out_csr set_setup_csr set_in_dt ar_write
    dcd_int_handler-setup rst sof h d = elim (Bool-cases s.ep0_stall) [
      | inl b ↦ (
        take_setup tu (polled s),
        handler-run rst sof h d,
        ground (arith, b),
        ground (arith, b),
        refl,
        refl,
        refl,
        refl,
        refl,
        ground (arith, b),
      )
      | inr b ↦ (
        take_setup tu (polled s),
        handler-run rst sof h d,
        ground (arith, b),
        ground (arith, b),
        refl,
        refl,
        refl,
        refl,
        refl,
        ground (arith, b),
      )
    ]
