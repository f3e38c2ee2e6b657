-- ===== src/Dcd/Receive/Rounds.antt =====
-- How many rounds the loops of `_usb_ep_advance_xfer_out` have.
use no2usb.Base.{ℕ, ◌<◌, ◌≡◌, ◌==◌, refl, Bool, true, false, ◌&&◌, ◌||◌, if◌then◌else◌, arith}
use no2usb.Hw.{Ep, bd_state}
use no2usb.Hw.Words.{bd_state-zero}
use no2usb.Dcd.State.{bd_at, set_csr, flip}
use no2usb.Dcd.Stream.Turn.{free}

-- The descriptor is to be retired.
abbrev pub used : ℕ → Bool
used csr = bd_state csr == 0x8000 || bd_state csr == 0xa000

-- How many more rounds the first loop has. After an error it is `bd[0]` that is queued.
abbrev pub to_do : (dual i : Bool) → Ep → ℕ
to_do dual false e = if used e.bd0.csr then (if dual && used e.bd1.csr then 2 else 1) else 0
to_do dual true e =
    if used e.bd1.csr
    then (if dual && used e.bd0.csr && bd_state e.bd1.csr == 0x8000 then 2 else 1)
    else 0

-- A round uses one of them up.
pub less_taken :
    (dual i : Bool) (e : Ep)
    → (dual ≡ false → i ≡ false)
    → bd_state (bd_at i e).csr ≡ 0x8000
    → to_do dual (flip i dual) (set_csr i 0 e) < to_do dual i e
less_taken false false e o d = ground (arith, bd_state-zero)
less_taken false true e o d = ground (arith, o refl)
less_taken true false e o d = ground (arith, bd_state-zero)
less_taken true true e o d = ground (arith, bd_state-zero)

pub less_retried :
    (dual i : Bool) (e : Ep) (csr : ℕ)
    → (dual ≡ false → i ≡ false)
    → bd_state (bd_at i e).csr ≡ 0xa000
    → bd_state csr ≡ 0x4000
    → to_do dual (flip i dual) (set_csr false csr e) < to_do dual i e
less_retried false false e csr o d c = ground arith
less_retried false true e csr o d c = ground (arith, o refl)
less_retried true false e csr o d c = ground arith
less_retried true true e csr o d c = ground arith

pub few_to_do : (dual i : Bool) (e : Ep) → to_do dual i e < 4
few_to_do false false e = ground arith
few_to_do false true e = ground arith
few_to_do true false e = ground arith
few_to_do true true e = ground arith

pub few_free : (e : Ep) → free e < 4
few_free e = ground arith

pub in_order-flip :
    (dual i : Bool) → (dual ≡ false → i ≡ false) → (dual ≡ false → flip i dual ≡ false)
in_order-flip false i o = o
in_order-flip true i o = λ e. ground (arith, e)
