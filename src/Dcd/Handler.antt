-- ===== src/Dcd/Handler.antt =====
-- The interrupt handler of the port, `dcd_int_handler` of fw/tinyusb/dcd_no2usb.c: its events, its
-- reset and its polls.
use no2usb.Base.{
  ℕ, ◌<◌, ◌==◌, refl, ◌&&◌, Bool, false, not, Bool-cases, inl, inr, List, [], ◌∷◌, Returns,
  Returns-if, Returns-bind, arith,
}
use no2usb.Hw.{Hw, evt_pop, evt_pending}
use no2usb.Dcd.State.{Dcd, TinyUsb, Config, map_regs}
use no2usb.Dcd.Device.{
  stall_ep0, dcd_bus_reset, clear_state, ep0_configure, hw_buf_alloc, handle_evt, drain_evts,
  handle_sof, handle_events, dcd_int_handler, evt_overflow, evt_is_setup, evt_ep, evt_dir_in,
}
use no2usb.Dcd.Safe.{
  IsSafe, same-IsSafe, in-IsSafe, out-IsSafe, ep0_handle_setup-IsSafe, full_poll-IsSafe,
}

module _ {A : Type 0} (tu : TinyUsb A) (keep : ℕ → Type 0) (ram : ℕ → ℕ) where
  -- What the loop over the events hands on: whether a poll is due, and the state.
  abbrev Polls : Bool × Dcd A → Type 0
  Polls r = IsSafe keep ram r.1

  handle_evt-IsSafe :
      (evt : ℕ) (s : Dcd A) → IsSafe keep ram s → Returns Polls (handle_evt tu evt s)
  unfolding handle_evt stall_ep0
  handle_evt-IsSafe evt s h =
      let P = IsSafe keep ram in
      Returns-if Polls (evt_overflow evt) _ _ (λ lost. h)
        (λ kept.
          Returns-bind P Polls _ _
            (Returns-if P (evt_is_setup evt) _ _ (λ setup. ep0_handle_setup-IsSafe tu keep ram s h)
              (λ transfer.
                Returns-if P (evt_ep evt == 0 && s.ep0_stall) _ _
                  (λ stalled. same-IsSafe tu keep ram s (stall_ep0 s) refl refl h)
                  (λ runs.
                    Returns-if P (evt_dir_in evt) _ _
                      (λ sent. in-IsSafe tu keep ram (evt_ep evt) s h)
                      (λ received. out-IsSafe tu keep ram (evt_ep evt) s h))))
            (λ t h'. h'))

  drain_evts-IsSafe :
      (c : Config) (due : Bool) (evts : List ℕ) (s : Dcd A)
      → IsSafe keep ram s
      → Returns Polls (drain_evts tu c due evts s)
  unfolding drain_evts evt_pop
  drain_evts-IsSafe c due [] s h = h
  drain_evts-IsSafe c due (evt ∷ evts) s h =
      let t = map_regs evt_pop s in
      let safe = same-IsSafe tu keep ram s t refl refl h in
      Returns-bind Polls Polls _ _
        (Returns-if Polls (not c.with_event_fifo) _ _ (λ no_fifo. safe)
          (λ fifo.
            Returns-if Polls due _ _ (λ yes_due. safe) (λ not_due. handle_evt-IsSafe evt t safe)))
        (λ r. drain_evts-IsSafe c r.0 evts r.1)

  handle_sof-IsSafe :
      (c : Config) (csr : Hw) (s : Dcd A)
      → IsSafe keep ram s
      → IsSafe keep ram (handle_sof tu c csr s)
  unfolding handle_sof
  handle_sof-IsSafe c csr s h = elim (Bool-cases (c.with_sof && csr.sof_pending)) [
    | inl yes_sof ↦ rw yes_sof (record { out = h.out; kept = h.kept })
    | inr no_sof ↦ rw no_sof h
  ]

  handle_events-IsSafe :
      (c : Config) (csr : Hw) (s : Dcd A)
      → IsSafe keep ram s
      → Returns (IsSafe keep ram) (handle_events tu c csr s)
  unfolding handle_events
  handle_events-IsSafe c csr s h =
      let P = IsSafe keep ram in
      let t = handle_sof tu c csr s in
      let safe = handle_sof-IsSafe c csr s h in
      Returns-if P (evt_pending csr) _ _
        (λ events.
          Returns-bind Polls P _ _ (drain_evts-IsSafe c false t.hw.evts t safe) (λ r h'.
            Returns-if P r.0 _ _ (λ due. full_poll-IsSafe tu keep ram r.1 h') (λ done. h')))
        (λ none_left. safe)

  -- Behind a reset no endpoint has a transfer.
  dcd_bus_reset-IsSafe :
      (s : Dcd A)
      → tu.endpoint0_size < 1024
      → IsSafe keep ram s
      → IsSafe keep ram (dcd_bus_reset tu s)
  unfolding dcd_bus_reset clear_state ep0_configure hw_buf_alloc
  dcd_bus_reset-IsSafe s max h = record {
    out = λ n. elim (Bool-cases (n == 0)) [
      | inl first ↦ rw first (record {
        target = λ b. cc b;
        ofs = omega arith;
        len_max = omega arith;
        mps_max = max;
        order = λ d. refl;
      })
      | inr other ↦ rw other (record {
        target = λ b. cc b;
        ofs = omega arith;
        len_max = omega arith;
        mps_max = omega arith;
        order = λ d. refl;
      })
    ];
    kept = h.kept;
  }

-- The interrupt handler, with or without the event FIFO and the start of frame, for any registers,
-- any events in the queue and any transfers: when endpoint 0 has packets of less than 1024 bytes,
-- and each OUT endpoint with a transfer has a buffer that holds none of the bytes to keep, or no
-- bytes to receive, then the handler ends without a bad access, the bytes to keep are as they were,
-- and the endpoints are again in such a state.
pub dcd_int_handler-IsSafe :
    {A : Type 0} (tu : TinyUsb A) (keep : ℕ → Type 0) (ram : ℕ → ℕ) (c : Config) (s : Dcd A)
    → tu.endpoint0_size < 1024
    → IsSafe keep ram s
    → Returns (IsSafe keep ram) (dcd_int_handler tu c s)
unfolding dcd_int_handler
dcd_int_handler-IsSafe tu keep ram c s max h =
    let P = IsSafe keep ram in
    Returns-if P s.hw.bus_rst_pending _ _
      (λ pending.
        Returns-if P s.hw.bus_rst _ _ (λ still. h)
          (λ over.
            handle_events-IsSafe tu keep ram c s.hw (dcd_bus_reset tu s)
              (dcd_bus_reset-IsSafe tu keep ram s max h)))
      (λ running. handle_events-IsSafe tu keep ram c s.hw s h)
