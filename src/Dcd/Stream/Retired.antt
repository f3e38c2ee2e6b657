-- ===== src/Dcd/Stream/Retired.antt =====
-- What retiring a descriptor of an IN endpoint does.
use no2usb.Base.{◌≤◌, ◌≡◌, Bool, true, false, arith}
use no2usb.Hw.{bd_len}
use no2usb.Hw.Words.{bd_state-zero}
use no2usb.Dcd.State.{bd_at, set_csr}
use no2usb.Dcd.Transfer.{View, set_retire, retire_next}
use no2usb.Dcd.Slots.{ready, pending, InSync, InSync-retires}
use no2usb.Dcd.Copy.{Apart}
use no2usb.Dcd.Stream.{Line, IsLine, queued, moved}

-- The view when the next descriptor is retired.
abbrev pub retired : {A : Type 0} → View A → View A
retired v = retire_next (set_retire 0 v)

module _ {A : Type 0} (l : Line A) (h : IsLine l)
    (done : ready l.view.regs l.view.eps.bdi_retire ≡ false) where
  pub retires :
      InSync l.view.eps.dual l.bdi l.view.eps.bdi_fill (retired l.view).regs
      × (pending l.view.eps.dual (retired l.view).regs l.view.tx l.bdi ≡ queued l)
  retires =
      InSync-retires l.view.regs l.view.tx l.view.eps.dual l.bdi l.view.eps.bdi_fill
        l.view.eps.bdi_retire h.sync done

  retire-fits :
      (r i : Bool)
      → ready (set_csr r 0 l.view.regs) i ≡ true
      → bd_len (bd_at i (set_csr r 0 l.view.regs)).csr ≤ l.view.eps.mps
  retire-fits false false e = ground (arith, bd_state-zero, e)
  retire-fits true true e = ground (arith, bd_state-zero, e)
  retire-fits false true e = h.fits true e
  retire-fits true false e = h.fits false e

  retire-Apart :
      (r : Bool)
      → l.view.eps.dual ≡ true
      → Apart
          (set_csr r 0 l.view.regs).bd0.ptr
          l.view.eps.mps
          (set_csr r 0 l.view.regs).bd1.ptr
          l.view.eps.mps
  retire-Apart false = h.apart
  retire-Apart true = h.apart

  pub retire-IsLine : IsLine (moved (retired l.view) l)
  retire-IsLine = record {
    mps_pos = h.mps_pos;
    mps_max = h.mps_max;
    bytes = h.bytes;
    sync = retires.0;
    fits = retire-fits l.view.eps.bdi_retire;
    apart = retire-Apart l.view.eps.bdi_retire;
    ofs = h.ofs;
    len = h.len;
    null = h.null;
  }
