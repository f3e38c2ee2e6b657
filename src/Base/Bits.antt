-- ===== src/Base/Bits.antt =====
-- Tables: a test that every number below a bound passes, tried one by one. They settle facts about
-- the bit masks of the register map.
use Prim.Native.Nat.{ℕ, zero, suc, ◌/◌, ◌≤◌, ◌<◌, min, bit_and, digits, bit_and-bitwise}
use mathlib.Core.Path.{◌≡◌}
use mathlib.Core.Bool.{Bool, true, false}
use native.Mathlib.Omega.{arith}
use no2usb.Base.Tests.{if◌then◌else◌}

unfoldable pub passes_below : (ℕ → Bool) → ℕ → Bool
passes_below test zero = true
passes_below test (suc bound) =
    let rest = passes_below test bound in if test bound then rest else false

-- What passes the table passes the test.
pub from_table :
    (test : ℕ → Bool) {bound : ℕ} (i : ℕ)
    → i < bound
    → passes_below test bound ≡ true
    → test i ≡ true
unfolding passes_below
from_table test {bound = zero} i low table = elim low [ ]
from_table test {bound = suc b} i low table = ground (arith, from_table test {bound = b} i)

-- Masking makes a number no greater than the mask.
digits-le : (n a b : ℕ) → digits (λ b. zero) min n a b ≤ b
digits-le zero a b = omega arith
digits-le (suc n) zero b = omega arith
digits-le (suc n) (suc a) b = omega (arith, digits-le n (suc a / 2) (b / 2))

pub bit_and-le : (a b : ℕ) → bit_and a b ≤ b
bit_and-le a b =
    let e : bit_and a b ≡ digits (λ b. zero) min a a b = bit_and-bitwise a b in
    rw e (digits-le a a b)
