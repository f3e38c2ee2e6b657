-- ===== src/Dcd/Stream/Turn.antt =====
-- The buffers of an IN endpoint in the order in which the port retires and fills them.
use no2usb.Base.{ℕ, ◌+◌, ◌<◌, ◌≡◌, ◌==◌, refl, [], Bool, true, false, not, ◌||◌, arith}
use no2usb.Hw.{Ep, bd_state}
use no2usb.Hw.Words.{bd_state-zero}
use no2usb.Dcd.State.{bd_at, set_csr, flip}
use no2usb.Dcd.Slots.{ready, pending, InSync}
use no2usb.Dcd.Stream.{Line, IsLine}

-- The buffer is in use.
abbrev pub taken : Ep → Bool → Bool
taken e i = not (bd_state (bd_at i e).csr == 0)

-- What was queued is retired in turn: the used buffers start at `r` and end before `f`.
abbrev pub InTurn : (dual r f : Bool) → Ep → Type 0
InTurn false r f e = (r ≡ false) × (f ≡ false)
InTurn true false false e = taken e false ≡ taken e true
InTurn true true true e = taken e false ≡ taken e true
InTurn true false true e = (taken e false ≡ true) × (taken e true ≡ false)
InTurn true true false e = (taken e true ≡ true) × (taken e false ≡ false)

-- The states that the core and the port put a descriptor into.
abbrev pub settled : ℕ → Bool
settled csr = bd_state csr == 0 || bd_state csr == 0x4000 || bd_state csr == 0x8000

abbrev pub Settled : Ep → Type 0
Settled e = (settled e.bd0.csr ≡ true) × (settled e.bd1.csr ≡ true)

module _ (e : Ep) where
  pub Settled-set :
      (i : Bool) (csr : ℕ) → Settled e → settled csr ≡ true → Settled (set_csr i csr e)
  Settled-set false csr h k = (k, h.1)
  Settled-set true csr h k = (h.0, k)

  -- The core sends a packet, the oldest used buffer is retired, or a free one is filled.
  pub InTurn-sends :
      (dual r f b : Bool) (csr : ℕ)
      → InTurn dual r f e
      → ready e b ≡ true
      → bd_state csr ≡ 0x8000
      → InTurn dual r f (set_csr b csr e)
  InTurn-sends false r f b csr h t d = h
  InTurn-sends true false false false csr h t d = ground arith
  InTurn-sends true false false true csr h t d = ground arith
  InTurn-sends true false true false csr h t d = ground arith
  InTurn-sends true false true true csr h t d = ground arith
  InTurn-sends true true false false csr h t d = ground arith
  InTurn-sends true true false true csr h t d = ground arith
  InTurn-sends true true true false csr h t d = ground arith
  InTurn-sends true true true true csr h t d = ground arith

  pub InTurn-retires :
      (dual r f : Bool)
      → InTurn dual r f e
      → taken e r ≡ true
      → InTurn dual (flip r dual) f (set_csr r 0 e)
  InTurn-retires false r f h t = h
  InTurn-retires true false false h t = ground (arith, bd_state-zero)
  InTurn-retires true false true h t = ground (arith, bd_state-zero)
  InTurn-retires true true false h t = ground (arith, bd_state-zero)
  InTurn-retires true true true h t = ground (arith, bd_state-zero)

  pub InTurn-fills :
      (dual r f : Bool) (csr : ℕ)
      → InTurn dual r f e
      → taken e f ≡ false
      → bd_state csr ≡ 0x4000
      → InTurn dual r (flip f dual) (set_csr f csr e)
  InTurn-fills false r f csr h t c = h
  InTurn-fills true false false csr h t c = ground arith
  InTurn-fills true false true csr h t c = ground arith
  InTurn-fills true true false csr h t c = ground arith
  InTurn-fills true true true csr h t c = ground arith

  -- If the buffer that is retired next is free, then so is the one that is filled next.
  pub InTurn-free :
      (dual r f : Bool) → InTurn dual r f e → taken e r ≡ false → bd_state (bd_at f e).csr ≡ 0
  InTurn-free false r f h t = ground arith
  InTurn-free true false false h t = ground arith
  InTurn-free true false true h t = ground arith
  InTurn-free true true false h t = ground arith
  InTurn-free true true true h t = ground arith

-- How many descriptors are done, and how many are free.
abbrev pub one : Bool → ℕ
one true = 1
one false = 0

abbrev pub done : Ep → ℕ
done e = one (bd_state e.bd0.csr == 0x8000) + one (bd_state e.bd1.csr == 0x8000)

abbrev pub free : Ep → ℕ
free e = one (bd_state e.bd0.csr == 0) + one (bd_state e.bd1.csr == 0)

-- Nothing is left for the core to send.
abbrev pub NoneReady : Bool → Ep → Type 0
NoneReady dual e = (ready e false ≡ false) × (dual ≡ true → ready e true ≡ false)

pub drained-NoneReady :
    (dual b f : Bool) (e : Ep) (tx : ℕ → ℕ)
    → InSync dual b f e
    → pending dual e tx b ≡ []
    → NoneReady dual e
drained-NoneReady false b f e tx h p = (ground arith, ground arith)
drained-NoneReady true false false e tx h p = (ground arith, λ d. ground arith)
drained-NoneReady true false true e tx h p = (ground arith, λ d. ground arith)
drained-NoneReady true true false e tx h p = (ground arith, λ d. ground arith)
drained-NoneReady true true true e tx h p = (ground arith, λ d. ground arith)

pub NoneReady-retire : (i dual : Bool) (e : Ep) → NoneReady dual e → NoneReady dual (set_csr i 0 e)
NoneReady-retire false dual e h = (ground (arith, bd_state-zero), h.1)
NoneReady-retire true dual e h = (h.0, λ d. ground (arith, bd_state-zero))

pub fewer_done :
    (i : Bool) (e : Ep) → bd_state (bd_at i e).csr ≡ 0x8000 → done (set_csr i 0 e) < done e
fewer_done false e h = ground (arith, bd_state-zero)
fewer_done true e h = ground (arith, bd_state-zero)

pub not_err : (i : Bool) (e : Ep) → Settled e → (bd_state (bd_at i e).csr ≡ 0xa000 → ⊥)
not_err false e h d = ground (arith, h.0)
not_err true e h d = ground (arith, h.1)

pub fewer_free :
    (i : Bool) (csr : ℕ) (e : Ep)
    → bd_state (bd_at i e).csr ≡ 0
    → bd_state csr ≡ 0x4000
    → free (set_csr i csr e) < free e
fewer_free false csr e h c = ground arith
fewer_free true csr e h c = ground arith

-- A buffer that is neither ready nor done is free.
pub not_taken :
    (dual i f : Bool) (e : Ep)
    → Settled e
    → InTurn dual i f e
    → NoneReady dual e
    → (bd_state (bd_at i e).csr ≡ 0x8000 → ⊥)
    → taken e i ≡ false
not_taken false false f e k h n d = ground arith
not_taken false true f e k h n d = ground arith
not_taken true false f e k h n d = ground arith
not_taken true true f e k h n d = ground (arith, n.1 refl)

module _ {A : Type 0} where
  -- An endpoint whose buffers are in turn.
  pub record IsTurn (l : Line A) : Type 0 where
    pub line : IsLine l
    pub turn : InTurn l.view.eps.dual l.view.eps.bdi_retire l.view.eps.bdi_fill l.view.regs
    pub states : Settled l.view.regs
