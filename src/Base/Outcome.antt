-- ===== src/Base/Outcome.antt =====
-- The outcome of a run of C code: a value, undefined behaviour (a bad pointer, an access outside
-- an object), or a loop that was given too few rounds.
use mathlib.Core.Path.{◌≡◌, refl}
use mathlib.Core.Logic.{◌⊎◌, inl, inr, ◌≢◌}
use mathlib.Core.Bool.{Bool, true, false}
use native.Mathlib.Omega.{arith}
use no2usb.Base.Tests.{if◌then◌else◌}

pub data Run (A : Type 0) : Type 0 where
  ok : A → Run A
  fault : Run A
  spin : Run A

module _ {A B : Type 0} where
  infixl 5 ◌>>=◌
  abbrev pub ◌>>=◌ : Run A → (A → Run B) → Run B
  ok a >>= f = f a
  fault >>= f = fault
  spin >>= f = spin

module _ {A : Type 0} where
  -- The run ends well, with a value that has the property.
  abbrev pub Returns : (A → Type 0) → Run A → Type 0
  Returns P (ok a) = P a
  Returns P fault = ⊥
  Returns P spin = ⊥

  pub Returns-if :
      (P : A → Type 0) (b : Bool) (x y : Run A)
      → (b ≡ true → Returns P x)
      → (b ≡ false → Returns P y)
      → Returns P (if b then x else y)
  Returns-if P true x y yes_case no_case = yes_case refl
  Returns-if P false x y yes_case no_case = no_case refl

  pub Returns-ok : {P : A → Type 0} (r : Run A) → Returns P r → (a : A) × (r ≡ ok a) × P a
  Returns-ok (ok a) h = (a, refl, h)
  Returns-ok fault h = absurd h
  Returns-ok spin h = absurd h

  pub Run-cases : (r : Run A) → ((a : A) × (r ≡ ok a)) ⊎ ((r ≡ fault) ⊎ (r ≡ spin))
  Run-cases (ok a) = inl (a, refl)
  Run-cases fault = inr (inl refl)
  Run-cases spin = inr (inr refl)

module _ {A B : Type 0} where
  -- A run whose continuation never ends well does not end well.
  pub bind-never : (r : Run A) (f : A → Run B) (b : B) → ((a : A) → f a ≢ ok b) → (r >>= f) ≢ ok b
  bind-never (ok a) f b never e = never a e
  bind-never fault f b never e = ground arith
  bind-never spin f b never e = ground arith

  pub Returns-bind :
      (P : A → Type 0) (Q : B → Type 0) (r : Run A) (f : A → Run B)
      → Returns P r
      → ((a : A) → P a → Returns Q (f a))
      → Returns Q (r >>= f)
  Returns-bind P Q (ok a) f h step = step a h
  Returns-bind P Q fault f h step = absurd h
  Returns-bind P Q spin f h step = absurd h
