-- ===== src/Dcd/Submit.antt =====
-- `dcd_edpt_xfer` of fw/tinyusb/dcd_no2usb.c starts a transfer to the host.
use no2usb.Base.{
  ℕ, zero, suc, ◌<◌, ◌^◌, ◌≡◌, ◌==◌, lt→ltb, Bool-cases, refl, ap, sym, ◌∙◌, ◌&&◌, ◌||◌, ◌++◌,
  false, Option, none, Run-cases, ok, inl, inr, arith,
}
use no2usb.Hw.{bd_state_done_ok, bd_state_done_err, set_ep}
use no2usb.Dcd.State.{dir_in, Dcd, TinyUsb, Config, ep_state, put_state, put_regs}
use no2usb.Dcd.Transfer.{
  View, view, put_view, retire_state, fill_state, retire_next, set_retire, fill_next, in_retire,
  in_fill, in_packet, in_load, in_submit, in_finish, advance_in, ep_advance_xfer_in,
}
use no2usb.Dcd.Device.{ir_mask, dcd_int_enable, dcd_int_disable}
use no2usb.Dcd.Endpoint.{start_xfer, submit, dcd_edpt_xfer}
use no2usb.Dcd.Packets.{packets_of}
use no2usb.Dcd.Stream.{Line, base, queued, stream, moved}
use no2usb.Dcd.Stream.Turn.{IsTurn}
use no2usb.Dcd.Stream.Loops.{advance_in-returns}
use no2usb.Dcd.Stream.Delivery.{begin, begin-IsTurn, begin-IsStreaming, advance_in-IsStreaming}

module _ {A : Type 0} (tu : TinyUsb A) (n : ℕ) where
  -- The packet memory of the other direction stays as it is.
  in_retire-rx : (f : ℕ) (v w : View A) → in_retire f v ≡ ok w → w.rx ≡ v.rx
  unfolding in_retire
  in_retire-rx zero v w e = ground arith
  in_retire-rx (suc f) v w e =
      elim (Bool-cases
        (retire_state v == bd_state_done_ok || retire_state v == bd_state_done_err)) [
          | inl b ↦ in_retire-rx f (retire_next (set_retire 0 v)) w (ground (arith, b, e))
          | inr b ↦ ground (arith, b, e)
        ]

  in_packet-rx : (v : View A) → (in_packet tu n v).rx ≡ v.rx
  unfolding in_packet in_load in_submit in_finish
  in_packet-rx v = ground arith

  in_fill-rx : (f : ℕ) (v w : View A) → in_fill tu n f v ≡ ok w → w.rx ≡ v.rx
  unfolding in_fill
  in_fill-rx zero v w e = ground arith
  in_fill-rx (suc f) v w e = elim (Bool-cases (v.eps.busy && fill_state v == 0)) [
    | inl b ↦ in_fill-rx f (fill_next (in_packet tu n v)) w (ground (arith, b, e)) ∙ in_packet-rx v
    | inr b ↦ ground (arith, b, e)
  ]

  advance_in-rx : (v w : View A) → advance_in tu n v ≡ ok w → w.rx ≡ v.rx
  unfolding advance_in
  advance_in-rx v w e = elim (Run-cases (in_retire 4 v)) [
    | inl (u, eu) ↦ in_fill-rx 4 u w (ground (arith, eu, e)) ∙ in_retire-rx 4 v u eu
    | inr (inl bad) ↦ ground (arith, bad, e)
    | inr (inr bad) ↦ ground (arith, bad, e)
  ]

  -- When the port is done with a call, the transfer is all queued, or there is no free buffer.
  in_fill-full :
      (f : ℕ) (v w : View A) → in_fill tu n f v ≡ ok w → (w.eps.busy && fill_state w == 0) ≡ false
  unfolding in_fill
  in_fill-full zero v w e = ground arith
  in_fill-full (suc f) v w e = elim (Bool-cases (v.eps.busy && fill_state v == 0)) [
    | inl b ↦ in_fill-full f (fill_next (in_packet tu n v)) w (ground (arith, b, e))
    | inr b ↦
        let same : v ≡ w = ground (arith, b, e) in
        ap (λ (u : View A). u.eps.busy && fill_state u == 0) (sym same) ∙ b
  ]

  advance_in-full :
      (v w : View A) → advance_in tu n v ≡ ok w → (w.eps.busy && fill_state w == 0) ≡ false
  unfolding advance_in
  advance_in-full v w e = elim (Run-cases (in_retire 4 v)) [
    | inl (u, eu) ↦ in_fill-full 4 u w (ground (arith, eu, e))
    | inr (inl bad) ↦ ground (arith, bad, e)
    | inr (inr bad) ↦ ground (arith, bad, e)
  ]

module _ {A : Type 0} where
  view-put_view :
      (n : ℕ) (w : View A) (s : Dcd A) → w.rx ≡ s.hw.rx → view n dir_in (put_view n dir_in w s) ≡ w
  unfolding put_view put_regs put_state set_ep
  view-put_view n w s e = ground (arith, e)

  -- The state when the transfer is set up.
  abbrev started : Option ℕ → (len n : ℕ) → Dcd A → Dcd A
  started buf len n s =
      let i = dcd_int_disable s in put_state n dir_in (start_xfer buf len (ep_state n dir_in i)) i

  view-started :
      (buf : Option ℕ) (len n : ℕ) (s : Dcd A)
      → view n dir_in (started buf len n s)
        ≡ record (view n dir_in s) { eps = start_xfer buf len (ep_state n dir_in s) }
  unfolding put_state dcd_int_disable
  view-started buf len n s = ground arith

module _ {A : Type 0} (tu : TinyUsb A) (c : Config) where
  submit-in :
      (buf : Option ℕ) (len num : ℕ) (s : Dcd A) (w : View A)
      → advance_in tu num (view num dir_in (started buf len num s)) ≡ ok w
      → submit tu c buf len num dir_in s
        ≡ ok (dcd_int_enable c (put_view num dir_in w (started buf len num s)))
  unfolding submit ep_advance_xfer_in
  submit-in buf len num s w e = rw e refl

  -- A transfer to the host of `len` bytes from `buf` on, submitted to an endpoint that has none and is
  -- set up, with a number below 16, for less than 2^16 bytes and without a buffer only for none:
  -- `dcd_edpt_xfer` returns, with the interrupts enabled again, and what it has done to the
  -- endpoint is the start of the transfer and one call of the port for it. Then the transfer is all
  -- queued, or the buffer that comes next is in use; and what the host has received, what waits in
  -- the buffers and what is still to be queued are, in this order, the packets that were there before
  -- and those of the block.
  pub dcd_edpt_xfer-queues :
      (ep_addr len : ℕ) (buf : Option ℕ) (s : Dcd A) (l : Line A)
      → tu.edpt_number ep_addr < 16
      → tu.edpt_dir ep_addr ≡ dir_in
      → l.view ≡ view (tu.edpt_number ep_addr) dir_in s
      → IsTurn l
      → len < 2 ^ 16
      → (buf ≡ none → len ≡ 0)
      → (t : Dcd A) × (dcd_edpt_xfer tu c ep_addr buf len s ≡ ok t)
        × (advance_in tu (tu.edpt_number ep_addr) (begin buf len l).view
            ≡ ok (view (tu.edpt_number ep_addr) dir_in t))
        × (((ep_state (tu.edpt_number ep_addr) dir_in t).busy
              && fill_state (view (tu.edpt_number ep_addr) dir_in t) == 0)
            ≡ false)
        × (stream (moved (view (tu.edpt_number ep_addr) dir_in t) (begin buf len l))
            ≡ l.sent ++ (queued l ++ packets_of l.view.eps.mps l.view.ram (base buf) len))
        × (t.ir ≡ ir_mask c)
  unfolding dcd_edpt_xfer ep_advance_xfer_in dcd_int_enable
  dcd_edpt_xfer-queues ep_addr len buf s l small_n dir same t small null =
      let num = tu.edpt_number ep_addr in
      let b = begin buf len l in
      let (w, e) = advance_in-returns tu num b (begin-IsTurn l buf len t small null) in
      let u = started buf len num s in
      let start : b.view ≡ view num dir_in u =
        ap {A = View A} {B = View A} (λ v. record v { eps = start_xfer buf len v.eps }) same
        ∙ sym (view-started buf len num s) in
      let e' : advance_in tu num (view num dir_in u) ≡ ok w =
        ap (λ v. advance_in tu num v) (sym start) ∙ e in
      let back : view num dir_in (put_view num dir_in w u) ≡ w =
        view-put_view num w u (advance_in-rx tu num (view num dir_in u) w e') in
      let k = begin-IsStreaming tu num l buf len t.line small null in
      let full : (w.eps.busy && fill_state w == 0) ≡ false = advance_in-full tu num b.view w e in
      (
        dcd_int_enable c (put_view num dir_in w u),
        rw (lt→ltb num 16 small_n)
            (ap (λ d. submit tu c buf len num d s) dir ∙ submit-in buf len num s w e'),
        rw back e,
        ap (λ (v : View A). v.eps.busy && fill_state v == 0) back ∙ full,
        ap (λ (v : View A). stream (moved v b)) back ∙ (advance_in-IsStreaming tu num b k e).flow,
        refl,
      )
