-- ===== src/Device/Reset.antt =====
-- What a bus reset leaves behind, fw/v0/src/usb.c.
use no2usb.Base.{
  ℕ, ◌≤◌, ◌<◌, ◌≡◌, refl, true, false, ◌==◌, List, [], ◌∷◌, Run, Returns, Returns-ok, Bool-cases,
  inl, inr, arith,
}
use no2usb.Hw.{Ep, set_ep, ar_write, bd_rdy_data}
use no2usb.Stack.{Usb, DrvId, idle, ds_default}
use no2usb.Ep0.Regs.{in_csr, out_csr, setup_csr}
use no2usb.Ep0.Transfer.{map_hw, ep0_reset}
use no2usb.Driver.{Drv, call, call_with, dispatch_bus_reset, dispatch_state_chg}
use no2usb.Device.{get_state, new_state, set_state, hw_reset, bus_reset}

-- An endpoint that takes part in nothing.
abbrev pub IsCleared : Ep → Type 0
IsCleared e =
    (e.status ≡ 0) × (e.bd0 ≡ record { csr = 0; ptr = 0 }) × (e.bd1 ≡ record { csr = 0; ptr = 0 })

-- A device that waits for the first SETUP packet at address 0: the control endpoint is idle, with
-- only its SETUP descriptor queued, and every other endpoint is cleared.
pub record IsFresh {A : Type 0} (s : Usb A) : Type 0 where
  pub idle : s.ctrl_state ≡ idle
  pub setup : setup_csr s.hw ≡ bd_rdy_data 64
  pub inp : in_csr s.hw ≡ 0
  pub out : out_csr s.hw ≡ 0
  pub cleared : (n : ℕ) → 1 ≤ n → n < 16 → IsCleared (s.hw.ep n).out × IsCleared (s.hw.ep n).inp
  pub address : s.hw.ctl.addr ≡ 0
  pub pull_up : s.hw.ctl.pu_ena ≡ true
  pub pending : s.hw.bus_rst_pending ≡ s.hw.bus_rst
  pub released : s.hw.cel_active ≡ false
  pub memory : (s.mem_out ≡ 128) × (s.mem_in ≡ 64)

-- What the drivers are called with.
abbrev reset_device : {A : Type 0} → Usb A → Usb A
reset_device s = ep0_reset (record (map_hw (hw_reset true) s) { mem_out = 0x80; mem_in = 0x40 })

reset_device-IsFresh : {A : Type 0} (s : Usb A) → IsFresh (reset_device s)
unfolding ep0_reset hw_reset ar_write set_ep
reset_device-IsFresh s = record {
  idle = refl;
  setup = refl;
  inp = refl;
  out = refl;
  cleared = λ n low high. ground arith;
  address = ground arith;
  pull_up = refl;
  pending = ground arith;
  released = ground arith;
  memory = (refl, refl);
}

-- A callback that is called in a state with the property leaves one with it.
abbrev Keeps : {A : Type 0} → (Usb A → Type 0) → (Usb A → Run (Usb A)) → Type 0
Keeps P f = (u : _) → P u → Returns P (f u)

module _ {A : Type 0} (drv : DrvId → Drv A) (P : Usb A → Type 0) where
  dispatch_bus_reset-Keeps :
      (ds : List DrvId)
      → ((d : DrvId) → Keeps P (call (drv d).bus_reset))
      → Keeps P (dispatch_bus_reset drv ds)
  unfolding dispatch_bus_reset
  dispatch_bus_reset-Keeps [] keeps u p = p
  dispatch_bus_reset-Keeps (d ∷ ds) keeps u p =
      let (v, e, q) = Returns-ok (call (drv d).bus_reset u) (keeps d u p) in
      rw e (dispatch_bus_reset-Keeps ds keeps v q)

  dispatch_state_chg-Keeps :
      (state : ℕ) (ds : List DrvId)
      → ((d : DrvId) → Keeps P (call_with (drv d).state_chg state))
      → Keeps P (dispatch_state_chg drv state ds)
  unfolding dispatch_state_chg
  dispatch_state_chg-Keeps state [] keeps u p = p
  dispatch_state_chg-Keeps state (d ∷ ds) keeps u p =
      let (v, e, q) = Returns-ok (call_with (drv d).state_chg state u) (keeps d u p) in
      rw e (dispatch_state_chg-Keeps state ds keeps v q)

abbrev pub IsReset : {A : Type 0} → Usb A → Type 0
IsReset s = IsFresh s × (s.state ≡ ds_default)

default-IsFresh :
    {A : Type 0} (s : Usb A)
    → IsFresh s
    → IsFresh (record s { state = new_state s.state ds_default })
default-IsFresh s h = record {
  idle = h.idle;
  setup = h.setup;
  inp = h.inp;
  out = h.out;
  cleared = h.cleared;
  address = h.address;
  pull_up = h.pull_up;
  pending = h.pending;
  released = h.released;
  memory = h.memory;
}

set_state-IsReset :
    {A : Type 0} (drv : DrvId → Drv A) (s : Usb A)
    → ((d : DrvId) → Keeps IsReset (call_with (drv d).state_chg ds_default))
    → IsFresh s
    → Returns IsReset (set_state drv ds_default s)
unfolding set_state new_state get_state
set_state-IsReset drv s keeps fresh = elim (Bool-cases (s.state == ds_default)) [
  | inl same ↦ rw same (fresh, ground (arith, same))
  | inr new ↦ rw new (
      dispatch_state_chg-Keeps drv IsReset ds_default s.fnd keeps _ (default-IsFresh s fresh, refl))
]

-- A bus reset leaves the device in the default state and at address 0, with the control endpoint
-- waiting for a SETUP packet and all other endpoints cleared, whatever state it was in, provided
-- that no driver's callback undoes this.
pub bus_reset-IsReset :
    {A : Type 0} (drv : DrvId → Drv A) (s : Usb A)
    → ((d : DrvId) → Keeps IsFresh (call (drv d).bus_reset))
    → ((d : DrvId) → Keeps IsReset (call_with (drv d).state_chg ds_default))
    → Returns IsReset (bus_reset drv s)
unfolding bus_reset
bus_reset-IsReset drv s resets changes =
    let (t, e, fresh) = Returns-ok (dispatch_bus_reset drv (reset_device s).fnd (reset_device s)) (
      dispatch_bus_reset-Keeps drv IsFresh (reset_device s).fnd resets (reset_device s)
        (reset_device-IsFresh s)) in
    rw e (set_state-IsReset drv t changes fresh)
