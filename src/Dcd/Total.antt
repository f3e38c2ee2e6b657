-- ===== src/Dcd/Total.antt =====
-- `_usb_ep_advance_xfer_in` of fw/tinyusb/dcd_no2usb.c ends on every state, and leaves memory alone.
use no2usb.Base.{
  ℕ, zero, suc, ◌+◌, ◌<◌, ◌≡◌, ◌==◌, refl, ◌∙◌, Bool, true, false, ◌&&◌, ◌||◌, Bool-cases, inl, inr,
  bit_and, bit_or, Option, none, some, ok, arith,
}
use no2usb.Base.Bits.{passes_below, from_table, bit_and-le}
use no2usb.Hw.{Ep, bd_state, bd_len, bd_rdy_data}
use no2usb.Hw.Words.{bd_state-zero}
use no2usb.Dcd.State.{TinyUsb, bd_at, set_csr}
use no2usb.Dcd.Stream.Turn.{free, fewer_free}
use no2usb.Dcd.Receive.Rounds.{used, few_free}
use no2usb.Dcd.Transfer.{
  View, retire_state, set_retire, retire_next, fill_next, in_retire, in_load, in_submit, in_finish,
  in_packet, in_fill, advance_in,
}

queued_table : passes_below (λ y. bd_state (bit_or 0x4000 y) == 0x4000) 1024 ≡ true
unfolding passes_below bd_state
queued_table = refl

-- A descriptor that is queued reads as ready, whatever its length.
queued-any : (l : ℕ) → bd_state (bd_rdy_data l) ≡ 0x4000
unfolding bd_rdy_data bd_len
queued-any l =
    let low : bit_and l 0x3ff < 1024 = omega (arith, bit_and-le l 0x3ff) in
    let e =
      from_table (λ y. bd_state (bit_or 0x4000 y) == 0x4000) (bit_and l 0x3ff) low queued_table in
    ground (arith, e)

one : Bool → ℕ
one true = 1
one false = 0

-- The descriptors that are to be retired.
spent : Ep → ℕ
unfolding one
spent e = one (used e.bd0.csr) + one (used e.bd1.csr)

few_spent : (e : Ep) → spent e < 4
unfolding spent
few_spent e = ground arith

fewer_spent : (i : Bool) (e : Ep) → used (bd_at i e).csr ≡ true → spent (set_csr i 0 e) < spent e
unfolding spent
fewer_spent false e h = ground (arith, bd_state-zero)
fewer_spent true e h = ground (arith, bd_state-zero)

module _ {A : Type 0} where
  in_retire-total :
      (f : ℕ) (v : View A)
      → spent v.regs < f
      → (w : View A) × (in_retire f v ≡ ok w) × (w.ram ≡ v.ram)
  unfolding in_retire
  in_retire-total zero v m = absurd (omega arith)
  in_retire-total (suc f) v m =
      elim (Bool-cases (retire_state v == 0x8000 || retire_state v == 0xa000)) [
        | inl more ↦
            let less = fewer_spent v.eps.bdi_retire v.regs more in
            let (w, e, same) =
              in_retire-total f (retire_next (set_retire 0 v)) (omega (arith, less, m)) in
            (w, rw more e, same)
        | inr over ↦ (v, rw over, refl)
      ]

  module _ (tu : TinyUsb A) (epnum : ℕ) where
    finish-same :
        (v : View A) → ((in_finish tu epnum v).regs ≡ v.regs) × ((in_finish tu epnum v).ram ≡ v.ram)
    unfolding in_finish
    finish-same v = elim (Bool-cases (v.eps.ofs == v.eps.len)) [
      | inl over ↦ rw over (refl, refl)
      | inr more ↦ rw more (refl, refl)
    ]

    packet-same :
        (buf : Option ℕ) (v : View A)
        → (n : ℕ) × ((in_finish tu epnum (in_submit (in_load buf v))).regs
            ≡ set_csr v.eps.bdi_fill (bd_rdy_data n) v.regs)
          × ((in_finish tu epnum (in_submit (in_load buf v))).ram ≡ v.ram)
    unfolding in_submit in_load
    packet-same none v = let (r, m) = finish-same (in_submit (in_load none v)) in (v.eps.plen, r, m)
    packet-same (some b) v =
        let (r, m) = finish-same (in_submit (in_load (some b) v)) in
        ((in_load (some b) v).eps.plen, r, m)

    in_fill-total :
        (f : ℕ) (v : View A)
        → free v.regs < f
        → (w : View A) × (in_fill tu epnum f v ≡ ok w) × (w.ram ≡ v.ram)
    unfolding in_fill in_packet
    in_fill-total zero v m = absurd (omega arith)
    in_fill-total (suc f) v m =
        elim (Bool-cases (v.eps.busy && bd_state (bd_at v.eps.bdi_fill v.regs).csr == 0)) [
          | inl more ↦
              let (n, regs, ram) = packet-same v.eps.buf v in
              let unused : bd_state (bd_at v.eps.bdi_fill v.regs).csr ≡ 0 = ground (arith, more) in
              let less = fewer_free v.eps.bdi_fill (bd_rdy_data n) v.regs unused (queued-any n) in
              let (w, e, same) =
                in_fill-total f (fill_next (in_packet tu epnum v))
                  (rw regs (omega (arith, less, m))) in
              (w, rw more e, same ∙ ram)
          | inr over ↦ (v, rw over, refl)
        ]

    -- A call for a transfer to the host comes to its end in every state, and leaves memory as it is.
    pub advance_in-total :
        (v : View A) → (w : View A) × (advance_in tu epnum v ≡ ok w) × (w.ram ≡ v.ram)
    unfolding advance_in
    advance_in-total v =
        let (u, e, same) = in_retire-total 4 v (few_spent v.regs) in
        let (w, e', same') = in_fill-total 4 u (few_free u.regs) in (w, rw e e', same' ∙ same)
