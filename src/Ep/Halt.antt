-- ===== src/Ep/Halt.antt =====
-- Halting and resuming an endpoint, and the buffers that endpoints are given, fw/v0/src/usb.c.
use no2usb.Base.{
  ℕ, ◌<◌, ◌≡◌, refl, ap, ◌∙◌, ◌⊎◌, ◌≢◌, inl, inr, bit_and, bit_or, Bool, true, false, not, ◌&&◌,
  ◌||◌, ◌==◌, Bool-cases, arith,
}
use no2usb.Base.Bits.{passes_below, from_table}
use no2usb.Hw.{Hw, Ep, set_ep, ep_type_is_bci}
use no2usb.Ep.{
  ep_number, ep_is_in, get_ep_regs, put_ep_regs, ep_is_halted, ep_halt, ep_resume, resume_mask,
}

pub get_ep_regs-put_ep_regs : (ep : ℕ) (r : Ep) (hw : Hw) → get_ep_regs ep (put_ep_regs ep r hw) ≡ r
unfolding get_ep_regs put_ep_regs set_ep
get_ep_regs-put_ep_regs ep r hw = ground arith

pub get_ep_regs-other :
    (ep other : ℕ) (r : Ep) (hw : Hw)
    → (ep_number other ≢ ep_number ep) ⊎ (ep_is_in other ≢ ep_is_in ep)
    → get_ep_regs other (put_ep_regs ep r hw) ≡ get_ep_regs other hw
unfolding get_ep_regs put_ep_regs set_ep
get_ep_regs-other ep other r hw (inl far) = ground arith
get_ep_regs-other ep other r hw (inr far) = ground arith

-- The status words that can be halted, checked one by one.
abbrev halts : ℕ → Bool
halts s =
    let h = bit_or s 1 in
    let r = bit_and h resume_mask in
    bit_and s 6 == 0
    || (not (bit_and h 6 == 0)
        && not (bit_and h 1 == 0)
        && (bit_and r 1 == 0)
        && (bit_and r 0x80 == 0)
        && not (bit_and r 6 == 0))

halts_table : passes_below halts 256 ≡ true
unfolding passes_below
halts_table = refl

-- A status word that has been halted, and resumed again.
abbrev halted : ℕ → ℕ
halted s = bit_or s 1

abbrev resumed : ℕ → ℕ
resumed s = bit_and s resume_mask

halts_lem :
    (s : ℕ)
    → s < 256
    → ep_type_is_bci s ≡ true
    → (ep_type_is_bci (halted s) ≡ true)
      × ((bit_and (halted s) 1 == 0) ≡ false)
      × ((bit_and (resumed (halted s)) 1 == 0) ≡ true)
      × (bit_and (resumed (halted s)) 0x80 ≡ 0)
      × (ep_type_is_bci (resumed (halted s)) ≡ true)
unfolding ep_type_is_bci
halts_lem s small bci = let table = from_table halts s small halts_table in ground (arith, table)

module _ (ep : ℕ) (hw : Hw) where
  ep_halt_lem :
      ep_type_is_bci (get_ep_regs ep hw).status ≡ true
      → ep_halt ep hw ≡ (
        true,
        put_ep_regs ep
            (record (get_ep_regs ep hw) { status = halted (get_ep_regs ep hw).status })
            hw,
      )
  unfolding ep_halt
  ep_halt_lem bci = rw bci

  ep_resume_lem :
      ep_type_is_bci (get_ep_regs ep hw).status ≡ true
      → ep_resume ep hw ≡ (
        true,
        put_ep_regs ep
            (record (get_ep_regs ep hw) { status = resumed (get_ep_regs ep hw).status })
            hw,
      )
  unfolding ep_resume
  ep_resume_lem bci = rw bci

  ep_halt_no : ep_type_is_bci (get_ep_regs ep hw).status ≡ false → ep_halt ep hw ≡ (false, hw)
  unfolding ep_halt
  ep_halt_no not_bci = rw not_bci

  ep_resume_no : ep_type_is_bci (get_ep_regs ep hw).status ≡ false → ep_resume ep hw ≡ (false, hw)
  unfolding ep_resume
  ep_resume_no not_bci = rw not_bci

  ep_is_halted_lem :
      (b : Bool)
      → ep_type_is_bci (get_ep_regs ep hw).status ≡ true
      → (bit_and (get_ep_regs ep hw).status 1 == 0) ≡ not b
      → ep_is_halted ep hw ≡ b
  unfolding ep_is_halted
  ep_is_halted_lem true bci bit = rw (bci, bit)
  ep_is_halted_lem false bci bit = rw (bci, bit)

-- An endpoint that is halted or resumed, as its registers are then.
abbrev halt_regs : ℕ → Hw → Ep
halt_regs ep hw = record (get_ep_regs ep hw) { status = halted (get_ep_regs ep hw).status }

halt_and_resume :
    (ep : ℕ) (hw : Hw)
    → (get_ep_regs ep hw).status < 256
    → ep_type_is_bci (get_ep_regs ep hw).status ≡ true
    → ((ep_halt ep hw).0 ≡ true)
      × (ep_is_halted ep (ep_halt ep hw).1 ≡ true)
      × ((ep_resume ep (ep_halt ep hw).1).0 ≡ true)
      × (ep_is_halted ep (ep_resume ep (ep_halt ep hw).1).1 ≡ false)
      × (bit_and (get_ep_regs ep (ep_resume ep (ep_halt ep hw).1).1).status 0x80 ≡ 0)
      × (ep_type_is_bci (get_ep_regs ep (ep_resume ep (ep_halt ep hw).1).1).status ≡ true)
halt_and_resume ep hw small bci =
    let (h_bci, h_bit, r_bit, r_dt, r_bci) = halts_lem (get_ep_regs ep hw).status small bci in
    let hw1 = put_ep_regs ep (halt_regs ep hw) hw in
    let regs1 : get_ep_regs ep hw1 ≡ halt_regs ep hw =
      get_ep_regs-put_ep_regs ep (halt_regs ep hw) hw in
    let bci1 : ep_type_is_bci (get_ep_regs ep hw1).status ≡ true = rw regs1 h_bci in
    let bit1 : (bit_and (get_ep_regs ep hw1).status 1 == 0) ≡ false = rw regs1 h_bit in
    let r = record (get_ep_regs ep hw1) { status = resumed (get_ep_regs ep hw1).status } in
    let regs2 = get_ep_regs-put_ep_regs ep r hw1 in
    let status2 : (get_ep_regs ep (put_ep_regs ep r hw1)).status
        ≡ resumed (halted (get_ep_regs ep hw).status) =
      ap (λ e. e.status) regs2 ∙ ap (λ e. resumed e.status) regs1 in
    rw (ep_halt_lem ep hw bci, ep_resume_lem ep hw1 bci1)
      (
        refl,
        ep_is_halted_lem ep hw1 true bci1 bit1,
        refl,
        ep_is_halted_lem ep (put_ep_regs ep r hw1) false (rw status2 r_bci) (rw status2 r_bit),
        rw status2 r_dt,
        rw status2 r_bci,
      )

-- Halting or resuming an endpoint leaves the registers of all the others as they are, those of the
-- same number in the other direction included.
ep_halt-other :
    (ep other : ℕ) (hw : Hw)
    → (ep_number other ≢ ep_number ep) ⊎ (ep_is_in other ≢ ep_is_in ep)
    → (get_ep_regs other (ep_halt ep hw).1 ≡ get_ep_regs other hw)
      × (get_ep_regs other (ep_resume ep hw).1 ≡ get_ep_regs other hw)
ep_halt-other ep other hw apart = elim (Bool-cases (ep_type_is_bci (get_ep_regs ep hw).status)) [
  | inl bci ↦
      rw (ep_halt_lem ep hw bci, ep_resume_lem ep hw bci)
        (get_ep_regs-other ep other _ hw apart, get_ep_regs-other ep other _ hw apart)
  | inr not_bci ↦ rw (ep_halt_no ep hw not_bci, ep_resume_no ep hw not_bci) (refl, refl)
]

-- An endpoint whose type can be halted is halted by `usb_ep_halt`. `usb_ep_resume` then reports
-- success too, and leaves it not halted, with its data toggle cleared, and with a type that can be
-- halted again. The status word is one of eight bits. The registers of any other endpoint, of the
-- same number in the other direction too, are as they were behind both.
pub ep_halt-ep_resume :
    (ep other : ℕ) (hw : Hw)
    → (get_ep_regs ep hw).status < 256
    → ep_type_is_bci (get_ep_regs ep hw).status ≡ true
    → (ep_number other ≢ ep_number ep) ⊎ (ep_is_in other ≢ ep_is_in ep)
    → ((ep_halt ep hw).0 ≡ true)
      × (ep_is_halted ep (ep_halt ep hw).1 ≡ true)
      × ((ep_resume ep (ep_halt ep hw).1).0 ≡ true)
      × (ep_is_halted ep (ep_resume ep (ep_halt ep hw).1).1 ≡ false)
      × (bit_and (get_ep_regs ep (ep_resume ep (ep_halt ep hw).1).1).status 0x80 ≡ 0)
      × (ep_type_is_bci (get_ep_regs ep (ep_resume ep (ep_halt ep hw).1).1).status ≡ true)
      × (get_ep_regs other (ep_halt ep hw).1 ≡ get_ep_regs other hw)
      × (get_ep_regs other (ep_resume ep (ep_halt ep hw).1).1 ≡ get_ep_regs other hw)
ep_halt-ep_resume ep other hw small bci apart =
    let (a, b, c, d, e, f) = halt_and_resume ep hw small bci in
    let first = (ep_halt-other ep other hw apart).0 in
    let then_same = (ep_halt-other ep other (ep_halt ep hw).1 apart).1 in
    (a, b, c, d, e, f, first, then_same ∙ first)
