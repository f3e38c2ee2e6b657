-- ===== src/Dcd/Stream/Steps.antt =====
-- Each round of the loops of `_usb_ep_advance_xfer_in` keeps the stream of packets.
use no2usb.Base.{
  ℕ, zero, suc, ◌≤◌, ◌≡◌, ◌==◌, ◌||◌, ◌&&◌, Bool-cases, ap, sym, ◌∙◌, Bool, true, false, List, [],
  ◌∷◌, ◌++◌, ok, inl, inr, arith,
}
use no2usb.Hw.{bd_len, bd_rdy_data, bd_state_done_ok, bd_state_done_err}
use no2usb.Hw.Words.{bd_len-bd_rdy_data, bd_state-bd_rdy_data}
use no2usb.Dcd.State.{TinyUsb, bd_at, set_csr, flip}
use no2usb.Dcd.Transfer.{View, retire_state, fill_state, in_packet, in_retire, in_fill}
use no2usb.Dcd.Slots.{ready, pending, InSync, InSync-fills}
use no2usb.Dcd.Copy.{Apart}
use no2usb.Dcd.Stream.{Line, rest, IsLine, queued, stream, moved, IsStreaming}
use no2usb.Dcd.Stream.Retired.{retired, retires, retire-IsLine}
use no2usb.Dcd.Stream.Filled.{
  plen_of, filled_state, filled, filled-eps, filled-regs, filled-app, filled-ram, filled-packet,
  filled-other, filled-rest, plen-max, packet_to_fill,
}
use mathlib.Core.List.{append_assoc}

module _ {A : Type 0} (tu : TinyUsb A) (epnum : ℕ) where
  module _ (l : Line A) (h : IsLine l) (idle : fill_state l.view ≡ 0) where
    fills :
        InSync l.view.eps.dual l.bdi
          (flip l.view.eps.bdi_fill l.view.eps.dual)
          (filled tu epnum l h).regs
        × (pending l.view.eps.dual (filled tu epnum l h).regs (filled tu epnum l h).tx l.bdi
            ≡ queued l ++ packet_to_fill tu epnum l h ∷ [])
    fills = rw (filled-regs tu epnum l h) (
        InSync-fills l.view.regs l.view.tx l.view.eps.dual l.bdi l.view.eps.bdi_fill
          (bd_rdy_data (plen_of l.view.eps)) (filled tu epnum l h).tx (packet_to_fill tu epnum l h)
          h.sync (ground (arith, idle))
          (bd_state-bd_rdy_data (plen_of l.view.eps) (plen-max tu epnum l h))
          (rw (sym (filled-regs tu epnum l h)) (filled-packet tu epnum l h))
          (filled-other tu epnum l h))

    eps : (filled tu epnum l h).eps ≡ filled_state (plen_of l.view.eps) l.view.eps
    eps = filled-eps tu epnum l h

    keeps_mps : (filled tu epnum l h).eps.mps ≡ l.view.eps.mps
    keeps_mps = ground (arith, eps)

    pub keeps_dual : (filled tu epnum l h).eps.dual ≡ l.view.eps.dual
    keeps_dual = ground (arith, eps)

    keeps_fill : (in_packet tu epnum l.view).eps.bdi_fill ≡ l.view.eps.bdi_fill
    keeps_fill = ground (arith, eps)

    fill-fits :
        (i : Bool)
        → ready (filled tu epnum l h).regs i ≡ true
        → bd_len (bd_at i (filled tu epnum l h).regs).csr ≤ l.view.eps.mps
    fill-fits i = rw (filled-regs tu epnum l h) (fits_at i l.view.eps.bdi_fill)
      where
        len : bd_len (bd_rdy_data (plen_of l.view.eps)) ≡ plen_of l.view.eps
        len = bd_len-bd_rdy_data (plen_of l.view.eps) (plen-max tu epnum l h)

        fits_at :
            (i f : Bool)
            → ready (set_csr f (bd_rdy_data (plen_of l.view.eps)) l.view.regs) i ≡ true
            → bd_len (bd_at i (set_csr f (bd_rdy_data (plen_of l.view.eps)) l.view.regs)).csr
              ≤ l.view.eps.mps
        fits_at false false r = ground (arith, len)
        fits_at true true r = ground (arith, len)
        fits_at false true r = h.fits false r
        fits_at true false r = h.fits true r

    fill-Apart :
        l.view.eps.dual ≡ true
        → Apart
            (filled tu epnum l h).regs.bd0.ptr
            l.view.eps.mps
            (filled tu epnum l h).regs.bd1.ptr
            l.view.eps.mps
    fill-Apart d = rw (filled-regs tu epnum l h) (apart_at l.view.eps.bdi_fill)
      where
        apart_at :
            (f : Bool)
            → Apart
                (set_csr f (bd_rdy_data (plen_of l.view.eps)) l.view.regs).bd0.ptr
                l.view.eps.mps
                (set_csr f (bd_rdy_data (plen_of l.view.eps)) l.view.regs).bd1.ptr
                l.view.eps.mps
        apart_at false = h.apart d
        apart_at true = h.apart d

    pub fill-IsLine : IsLine (moved (filled tu epnum l h) l)
    fill-IsLine = record {
      mps_pos = rw keeps_mps (h.mps_pos);
      mps_max = rw keeps_mps (h.mps_max);
      bytes = rw (filled-ram tu epnum l h) (h.bytes);
      sync = rw keeps_dual (rw keeps_fill (fills.0));
      fits = rw keeps_mps fill-fits;
      apart = rw keeps_mps (rw keeps_dual fill-Apart);
      ofs = ground (arith, eps, h.ofs);
      len = ground (arith, eps, h.len);
      null = ground (arith, eps, h.null, h.ofs);
    }

    pub fill-stream : l.view.eps.busy ≡ true → stream (moved (filled tu epnum l h) l) ≡ stream l
    fill-stream b =
        ap (λ d. l.sent ++ (pending d w.regs w.tx l.bdi ++ rest w)) keeps_dual
        ∙ (ap (λ q. l.sent ++ (q ++ rest w)) (fills.1) ∙ ap (λ q. l.sent ++ q) joined)
      where
        w : View A
        w = filled tu epnum l h

        joined : (queued l ++ packet_to_fill tu epnum l h ∷ []) ++ rest w ≡ queued l ++ rest l.view
        joined =
            rw (filled-rest tu epnum l h b)
              (append_assoc (queued l) (packet_to_fill tu epnum l h ∷ []) (rest w))

    -- The whole of what a round keeps.
    fill-IsStreaming :
        {all : List (List ℕ)} {start over : A}
        → IsStreaming tu epnum all start over l
        → l.view.eps.busy ≡ true
        → IsStreaming tu epnum all start over (moved (filled tu epnum l h) l)
    fill-IsStreaming k b = record {
      line = fill-IsLine;
      flow = fill-stream b ∙ k.flow;
      waits = ground (arith, eps, k.waits b, filled-app tu epnum l h);
      going = ground (arith, eps, k.going b, filled-app tu epnum l h);
      ended = ground (arith, eps, k.going b, filled-app tu epnum l h);
    }

  retire-IsStreaming :
      (l : Line A)
      → ready l.view.regs l.view.eps.bdi_retire ≡ false
      → {all : List (List ℕ)} {start over : A} → IsStreaming tu epnum all start over l
      → IsStreaming tu epnum all start over (moved (retired l.view) l)
  unfolding rest
  retire-IsStreaming l d k = record {
    line = retire-IsLine l k.line d;
    flow = ap (λ q. l.sent ++ (q ++ rest l.view)) ((retires l k.line d).1) ∙ k.flow;
    waits = k.waits;
    going = k.going;
    ended = k.ended;
  }

  -- The loops.
  pub in_retire-IsStreaming :
      {all : List (List ℕ)} {start over : A} (f : ℕ) (l : Line A)
      → IsStreaming tu epnum all start over l
      → {v : View A} → in_retire f l.view ≡ ok v
      → IsStreaming tu epnum all start over (moved v l)
  unfolding in_retire
  in_retire-IsStreaming zero l k e = ground arith
  in_retire-IsStreaming {all = all} {start = start} {over = over} (suc f) l k {v = v} e =
      elim (Bool-cases
        (retire_state l.view == bd_state_done_ok || retire_state l.view == bd_state_done_err)) [
          | inl b ↦
              in_retire-IsStreaming f (moved (retired l.view) l)
                (retire-IsStreaming l (ground (arith, b)) k) (ground (arith, b, e))
          | inr b ↦ let same : l.view ≡ v = ground (arith, b, e) in rw (sym same) k
        ]

  pub in_fill-IsStreaming :
      {all : List (List ℕ)} {start over : A} (f : ℕ) (l : Line A)
      → IsStreaming tu epnum all start over l
      → {v : View A} → in_fill tu epnum f l.view ≡ ok v
      → IsStreaming tu epnum all start over (moved v l)
  unfolding in_fill
  in_fill-IsStreaming zero l k e = ground arith
  in_fill-IsStreaming {all = all} {start = start} {over = over} (suc f) l k {v = v} e =
      elim (Bool-cases (l.view.eps.busy && fill_state l.view == 0)) [
        | inl b ↦
            in_fill-IsStreaming f (moved (filled tu epnum l k.line) l)
              (fill-IsStreaming l k.line (ground (arith, b)) k (ground (arith, b)))
              (ground (arith, b, e))
        | inr b ↦ let same : l.view ≡ v = ground (arith, b, e) in rw (sym same) k
      ]
