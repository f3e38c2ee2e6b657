-- ===== src/Dcd/Slots.antt =====
-- The one or two buffers of an IN endpoint as a queue of packets. The core sends from the buffer
-- `b` and the port fills the buffer `f`; each goes on to the other buffer if the endpoint is dual.
use no2usb.Base.{
  ℕ, ◌≡◌, ◌==◌, refl, Bool, true, false, not, ◌&&◌, if◌then◌else◌, List, [], ◌∷◌, ◌++◌, arith,
}
use no2usb.Hw.{Ep, bd_state, bd_len}
use no2usb.Hw.Data.{data_read}
use no2usb.Hw.Words.{bd_state-zero}
use no2usb.Dcd.State.{bd_at, set_csr, flip}

-- The buffer holds a packet that the core is to send.
abbrev pub ready : Ep → Bool → Bool
ready e i = bd_state (bd_at i e).csr == 0x4000

-- The packet that the core sends from a buffer.
abbrev pub packet_at : Ep → (ℕ → ℕ) → Bool → List ℕ
packet_at e tx i = data_read tx (bd_at i e).ptr (bd_len (bd_at i e).csr)

abbrev when : Bool → List ℕ → List (List ℕ)
when true p = p ∷ []
when false p = []

-- The packets that wait to be sent, the oldest first.
abbrev pub pending : (dual : Bool) → Ep → (ℕ → ℕ) → (b : Bool) → List (List ℕ)
pending dual e tx b =
    if ready e b
    then packet_at e tx b ∷ when (dual && ready e (not b)) (packet_at e tx (not b))
    else []

-- The two sides agree: a buffer that is filled next is sent behind the others.
abbrev pub InSync : (dual b f : Bool) → Ep → Type 0
InSync false b f e = (b ≡ false) × (f ≡ false)
InSync true false false e = ready e false ≡ ready e true
InSync true true true e = ready e false ≡ ready e true
InSync true false true e = (ready e false ≡ true) × (ready e true ≡ false)
InSync true true false e = (ready e true ≡ true) × (ready e false ≡ false)

module _ (e : Ep) (tx : ℕ → ℕ) where
  -- A buffer that the core has sent, or that the port has retired, leaves the queue.
  pub InSync-sends :
      (dual b f : Bool) (csr : ℕ)
      → InSync dual b f e
      → ready e b ≡ true
      → bd_state csr ≡ 0x8000
      → InSync dual (flip b dual) f (set_csr b csr e)
        × (pending dual e tx b ≡ packet_at e tx b ∷ pending dual (set_csr b csr e) tx (flip b dual))
  InSync-sends false false false csr h r d = ground arith
  InSync-sends false true f csr h r d = ground arith
  InSync-sends false false true csr h r d = ground arith
  InSync-sends true false false csr h r d = ground arith
  InSync-sends true false true csr h r d = ground arith
  InSync-sends true true false csr h r d = ground arith
  InSync-sends true true true csr h r d = ground arith

  pub InSync-retires :
      (dual b f i : Bool)
      → InSync dual b f e
      → ready e i ≡ false
      → InSync dual b f (set_csr i 0 e) × (pending dual (set_csr i 0 e) tx b ≡ pending dual e tx b)
  InSync-retires false false f false h r = ground (arith, bd_state-zero)
  InSync-retires false false f true h r = ground (arith, bd_state-zero)
  InSync-retires false true f false h r = ground (arith, bd_state-zero)
  InSync-retires false true f true h r = ground (arith, bd_state-zero)
  InSync-retires true false false false h r = ground (arith, bd_state-zero)
  InSync-retires true false true false h r = ground (arith, bd_state-zero)
  InSync-retires true false false true h r = ground (arith, bd_state-zero)
  InSync-retires true false true true h r = ground (arith, bd_state-zero)
  InSync-retires true true false false h r = ground (arith, bd_state-zero)
  InSync-retires true true true false h r = ground (arith, bd_state-zero)
  InSync-retires true true false true h r = ground (arith, bd_state-zero)
  InSync-retires true true true true h r = ground (arith, bd_state-zero)

  -- What the buffer `f` is filled with goes to the end of the queue.
  pub InSync-fills :
      (dual b f : Bool) (csr : ℕ) (tx' : ℕ → ℕ) (p : List ℕ)
      → InSync dual b f e
      → ready e f ≡ false
      → bd_state csr ≡ 0x4000
      → packet_at (set_csr f csr e) tx' f ≡ p
      → (dual ≡ true → ready e (not f) ≡ true → packet_at e tx' (not f) ≡ packet_at e tx (not f))
      → InSync dual b (flip f dual) (set_csr f csr e)
        × (pending dual (set_csr f csr e) tx' b ≡ pending dual e tx b ++ p ∷ [])
  InSync-fills false false false csr tx' p h r c hp hq = ground (arith, hp)
  InSync-fills false false true csr tx' p h r c hp hq = ground (arith, hp)
  InSync-fills false true false csr tx' p h r c hp hq = ground (arith, hp)
  InSync-fills false true true csr tx' p h r c hp hq = ground (arith, hp)
  InSync-fills true false false csr tx' p h r c hp hq = ground (arith, hp, hq refl)
  InSync-fills true false true csr tx' p h r c hp hq = ground (arith, hp, hq refl)
  InSync-fills true true false csr tx' p h r c hp hq = ground (arith, hp, hq refl)
  InSync-fills true true true csr tx' p h r c hp hq = ground (arith, hp, hq refl)
