-- ===== src/Dcd/Packets.antt =====
-- How a block of memory is cut into packets: the order in which a host should receive the bytes of
-- a transfer of fw/tinyusb/dcd_no2usb.c.
use no2usb.Base.{
  ℕ, zero, suc, ◌+◌, ◌-◌, ◌<◌, ◌≤◌, ◌≡◌, refl, ap, ◌∙◌, inl, inr, ltb, if◌then◌else◌, List, [], ◌∷◌,
  ◌++◌, concat, length, Bool-cases, ltb→lt, arith,
}
use mathlib.Core.List.{append-nil}
use no2usb.Dcd.Memory.{ram_load}

-- Full packets as long as more than one packet is left, and then the rest, which may be empty.
packets : (fuel mps : ℕ) → (ℕ → ℕ) → (src len : ℕ) → List (List ℕ)
packets zero mps ram src len = []
packets (suc f) mps ram src len =
    let rest = packets f mps ram (src + mps) (len - mps) in
    if ltb mps len then ram_load ram src mps ∷ rest else ram_load ram src len ∷ []

-- Each packet but the last takes a byte or more.
unfoldable pub packets_of : (mps : ℕ) → (ℕ → ℕ) → (src len : ℕ) → List (List ℕ)
unfolding packets
packets_of mps ram src len = packets (suc len) mps ram src len

-- Enough rounds give the same packets.
packets-fuel :
    (f g mps : ℕ) (ram : ℕ → ℕ) (src len : ℕ)
    → 0 < mps
    → len < f
    → len < g
    → packets f mps ram src len ≡ packets g mps ram src len
unfolding packets
packets-fuel zero g mps ram src len m hf hg = absurd (omega arith)
packets-fuel (suc f) zero mps ram src len m hf hg = absurd (omega arith)
packets-fuel (suc f) (suc g) mps ram src len m hf hg = elim (Bool-cases (ltb mps len)) [
  | inl h ↦
      let below : len - mps < f = ground arith in
      let below' : len - mps < g = ground arith in
      ground (arith, h, packets-fuel f g mps ram (src + mps) (len - mps) m below below')
  | inr h ↦ ground (arith, h)
]

module _ (mps : ℕ) (ram : ℕ → ℕ) where
  -- A full packet, and the others.
  pub packets_of-more :
      (src len : ℕ)
      → 0 < mps
      → mps < len
      → packets_of mps ram src len
        ≡ ram_load ram src mps ∷ packets_of mps ram (src + mps) (len - mps)
  unfolding packets_of packets
  packets_of-more src len m h = ground (
    arith,
    packets-fuel len (suc (len - mps)) mps ram (src + mps) (len - mps) m (omega arith)
        (omega arith),
  )

  -- The last one.
  pub packets_of-last :
      (src len : ℕ) → len ≤ mps → packets_of mps ram src len ≡ ram_load ram src len ∷ []
  unfolding packets_of packets
  packets_of-last src len h = ground arith

  pub packets_of-some : (src len : ℕ) → 0 < length (packets_of mps ram src len)
  unfolding packets_of packets
  packets_of-some src len = ground arith

pub ram_load-add :
    (ram : ℕ → ℕ) (src n m : ℕ)
    → ram_load ram src n ++ ram_load ram (src + n) m ≡ ram_load ram src (n + m)
unfolding ram_load
ram_load-add ram src zero m = let e : src + 0 ≡ src = omega arith in ground (arith, e)
ram_load-add ram src (suc n) m =
    let e : src + suc n ≡ src + 1 + n = omega arith in
    let e' : suc n + m ≡ suc (n + m) = omega arith in
    rw e (rw e' (ap (λ t. ram src ∷ t) (ram_load-add ram (src + 1) n m)))

pub length-ram_load : (ram : ℕ → ℕ) (src n : ℕ) → length (ram_load ram src n) ≡ n
unfolding ram_load
length-ram_load ram src zero = refl
length-ram_load ram src (suc n) = ap suc (length-ram_load ram (src + 1) n)

concat-packets :
    (f mps : ℕ) (ram : ℕ → ℕ) (src len : ℕ)
    → 0 < mps
    → len < f
    → concat (packets f mps ram src len) ≡ ram_load ram src len
unfolding packets
concat-packets zero mps ram src len m h = absurd (omega arith)
concat-packets (suc f) mps ram src len m h = elim (Bool-cases (ltb mps len)) [
  | inl more ↦
      let less : mps < len = ltb→lt mps len more in
      let sum : mps + (len - mps) ≡ len = omega arith in
      let rest = concat-packets f mps ram (src + mps) (len - mps) m (omega arith) in
      let joined : ram_load ram src mps ++ ram_load ram (src + mps) (len - mps)
          ≡ ram_load ram src len =
        ram_load-add ram src mps (len - mps) ∙ ap (ram_load ram src) sum in
      rw more (ap (λ t. ram_load ram src mps ++ t) rest ∙ joined)
  | inr last ↦ rw last (append-nil (ram_load ram src len))
]

-- The packets carry the bytes of the block, in order.
pub concat-packets_of :
    (mps : ℕ) (ram : ℕ → ℕ) (src len : ℕ)
    → 0 < mps
    → concat (packets_of mps ram src len) ≡ ram_load ram src len
unfolding packets_of
concat-packets_of mps ram src len m = concat-packets (suc len) mps ram src len m (omega arith)
