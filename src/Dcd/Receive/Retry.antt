-- ===== src/Dcd/Receive/Retry.antt =====
-- How an error on a packet from the host is retried.
use no2usb.Base.{ℕ, ◌<◌, ◌≡◌, refl, true, false, ok, arith}
use no2usb.Hw.{bd_state, bd_rdy_data}
use no2usb.Hw.Words.{bd_state-bd_rdy_data}
use no2usb.Dcd.State.{TinyUsb, set_csr}
use no2usb.Dcd.Transfer.{View, out_retire, out_fill, advance_out}

module _ {A : Type 0} (tu : TinyUsb A) (epnum : ℕ) where
  -- If the next descriptor to be retired is the second one, and it reports an error, then the call
  -- queues the first descriptor anew, whatever packet it holds, and leaves the second one with its
  -- error; nothing is stored and the stack is told nothing. The first descriptor is the next then.
  pub advance_out-second_error :
      (v : View A)
      → v.eps.dual ≡ true
      → v.eps.bdi_retire ≡ true
      → v.eps.mps < 1024
      → bd_state v.regs.bd1.csr ≡ 0xa000
      → (w : View A) × (advance_out tu epnum v ≡ ok w)
        × (w.regs.bd1 ≡ v.regs.bd1)
        × (w.regs.bd0.csr ≡ bd_rdy_data v.eps.mps)
        × (w.eps.bdi_retire ≡ false)
        × (w.ram ≡ v.ram)
        × (w.app ≡ v.app)
  unfolding advance_out out_retire out_fill
  advance_out-second_error v d i m e =
      let w = record v {
        regs = set_csr false (bd_rdy_data v.eps.mps) v.regs;
        eps = record (v.eps) { bdi_retire = false };
      } in
      (w, run, refl, refl, refl, refl, refl)
    where
      run :
          advance_out tu epnum v
          ≡ ok (record v {
            regs = set_csr false (bd_rdy_data v.eps.mps) v.regs;
            eps = record (v.eps) { bdi_retire = false };
          })
      run = ground (arith, d, i, e, bd_state-bd_rdy_data v.eps.mps m)
