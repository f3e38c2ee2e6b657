-- ===== src/Device/State.antt =====
-- How the device's state follows the bus, fw/v0/src/usb.c.
use no2usb.Base.{
  ℕ, ◌≤◌, ◌<◌, ◌≡◌, refl, ◌⊎◌, Bool, true, false, not, ◌&&◌, ◌==◌, ltb, bit_and, bit_or, List, ok,
  arith,
}
use no2usb.Base.Bits.{passes_below, from_table}
use no2usb.Hw.{Hw, evt_pending}
use no2usb.Stack.{Usb, Services, DrvId, ds_disconnected, ds_connected, ds_default, ds_suspended}
use no2usb.Driver.{Drv, dispatch_state_chg}
use no2usb.Device.{
  is_suspended, get_state, new_state, set_state, connect, disconnect, poll_suspend, poll_sof,
  poll_events, poll_default, poll,
}

-- The states without the suspend bit, checked one by one.
abbrev suspends : ℕ → Bool
suspends st =
    let u = bit_or st 0x80 in
    not (st == u)
    && not (u == st)
    && (bit_and u 0xffffff7f == st)
    && not (bit_and u 0x80 == 0)
    && (bit_and st 0x80 == 0)
    && not (ltb u st)

suspends_table : passes_below suspends 128 ≡ true
unfolding passes_below
suspends_table = refl

record Suspends (st : ℕ) : Type 0 where
  fresh : (st == bit_or st 0x80) ≡ false
  back : bit_and (bit_or st 0x80) 0xffffff7f ≡ st
  down : (bit_or st 0x80 == st) ≡ false
  up : is_suspended (bit_or st 0x80) ≡ true
  plain : is_suspended st ≡ false
  more : st ≤ bit_or st 0x80

suspends_lem : (st : ℕ) → st < 128 → Suspends st
unfolding is_suspended
suspends_lem st small =
    let table = from_table suspends st small suspends_table in
    record {
      fresh = ground (arith, table);
      back = ground (arith, table);
      down = ground (arith, table);
      up = ground (arith, table);
      plain = ground (arith, table);
      more = ground (arith, table);
    }

module _ {A : Type 0} where
  -- The device with the suspend bit, and with other registers.
  abbrev pub suspended_with : Usb A → Hw → Usb A
  suspended_with s hw = record s { state = bit_or s.state 0x80; hw = hw }

  abbrev pub with_hw : Usb A → Hw → Usb A
  with_hw s hw = record s { hw = hw }

  -- The device with another state and with the pull-up turned on or off.
  abbrev pub pulled : Usb A → Bool → ℕ → Usb A
  pulled s on state = record s {
    state = state;
    hw = record (s.hw) { ctl = record (s.hw.ctl) { pu_ena = on } };
  }

module _ {A : Type 0} (drv : DrvId → Drv A) where
  -- The chain does nothing when it is told of a state.
  abbrev pub IsSilent : List DrvId → Type 0
  IsSilent chain = (state : ℕ) (t : Usb A) → dispatch_state_chg drv state chain t ≡ ok t

  -- Until the first bus reset is over, a poll does nothing: neither is the control endpoint looked
  -- at, nor does the state change, nor is a driver called.
  pub poll-before_reset :
      (sv : Services A) (rounds : List (Hw → Hw)) (s : Usb A)
      → s.state < ds_default
      → (s.hw.bus_rst_pending ≡ false) ⊎ (s.hw.bus_rst ≡ true)
      → poll drv sv rounds s ≡ ok s
  unfolding poll poll_default
  poll-before_reset sv rounds s early no_reset = ground arith

  module _ (s : Usb A) (silent : IsSilent s.fnd) where
    -- A poll that finds the bus suspended marks the device as suspended and does nothing else. When
    -- the bus is active again, without a reset, a start of frame or an event, the next poll gives the
    -- device the state that it had before. The drivers are taken to do nothing when they are told.
    pub poll-suspend_resume :
        (sv : Services A) (rounds : List (Hw → Hw)) (hw : Hw)
        → ds_default ≤ s.state
        → s.state < 128
        → s.hw.bus_rst_pending ≡ false
        → s.hw.bus_suspend ≡ true
        → hw.bus_rst_pending ≡ false
        → hw.bus_suspend ≡ false
        → hw.sof_pending ≡ false
        → evt_pending hw ≡ false
        → (poll drv sv rounds s ≡ ok (suspended_with s s.hw))
          × (get_state (suspended_with s s.hw) ≡ ds_suspended)
          × (poll drv sv rounds (suspended_with s hw) ≡ ok (with_hw s hw))
    unfolding poll poll_default poll_suspend poll_sof poll_events get_state set_state new_state
    poll-suspend_resume sv rounds hw running small no_reset suspend no_reset' active no_sof no_evt =
        let lem = suspends_lem s.state small in
        let at_least : ltb s.state ds_connected ≡ false = ground arith in
        let at_least' : ltb s.state ds_default ≡ false = ground arith in
        let more : ltb (bit_or s.state 0x80) ds_connected ≡ false = ground (arith, lem.more) in
        let more' : ltb (bit_or s.state 0x80) ds_default ≡ false = ground (arith, lem.more) in
        (
          rw (at_least, at_least', no_reset, suspend, lem.plain, lem.fresh, silent _ _),
          rw (lem.up),
          rw (
            more,
            more',
            no_reset',
            active,
            lem.up,
            lem.back,
            lem.down,
            silent _ _,
            no_sof,
            no_evt,
          ),
        )

    -- A device that is disconnected can be connected, which turns its pull-up on, and disconnected
    -- again, which turns it off; nothing else changes. The drivers are taken to do nothing when they
    -- are told.
    pub disconnect-connect :
        s.state ≡ ds_disconnected
        → (connect drv s ≡ ok (pulled s true ds_connected))
          × (disconnect drv (pulled s true ds_connected) ≡ ok (pulled s false ds_disconnected))
    unfolding connect disconnect set_state new_state get_state
    disconnect-connect off = (rw off (silent _ _), silent _ _)
