-- ===== src/Dcd/Stream/Loops.antt =====
-- The loops of `_usb_ep_advance_xfer_in` end, and move a transfer on.
use no2usb.Base.{
  ℕ, zero, suc, ◌<◌, ◌≤◌, ◌≡◌, ◌==◌, Bool-cases, refl, ap, sym, ◌∙◌, true, false, ◌&&◌, ◌++◌,
  length, ok, inl, inr, arith,
}
use no2usb.Hw.{bd_state, bd_rdy_data}
use no2usb.Hw.Words.{bd_state-bd_rdy_data, bd_state-zero}
use no2usb.Dcd.State.{TinyUsb}
use no2usb.Dcd.Transfer.{View, retire_state, fill_state, in_packet, in_retire, in_fill, advance_in}
use no2usb.Dcd.Slots.{ready}
use no2usb.Dcd.Stream.{Line, rest, stream, moved}
use no2usb.Dcd.Stream.Filled.{plen_of, filled, filled-eps, filled-regs, filled-rest, plen-max}
use no2usb.Dcd.Stream.Steps.{keeps_dual, fill-stream, fill-IsLine}
use no2usb.Dcd.Stream.Retired.{retired, retires, retire-IsLine}
use no2usb.Dcd.Stream.Turn.{
  IsTurn, NoneReady, done, free, NoneReady-retire, fewer_done, fewer_free, not_err, Settled-set,
  InTurn-retires, InTurn-fills,
}

module _ {A : Type 0} where
  -- Retiring ends, with the next descriptor neither done nor, if nothing is ready, in use.
  pub record IsRetired (l : Line A) (v : View A) : Type 0 where
    pub turn : IsTurn (moved v l)
    pub unready : NoneReady l.view.eps.dual l.view.regs → NoneReady l.view.eps.dual v.regs
    pub same : stream (moved v l) ≡ stream l
    pub left : rest v ≡ rest l.view
    pub busy : v.eps.busy ≡ l.view.eps.busy
    pub dual : v.eps.dual ≡ l.view.eps.dual

  retire-IsTurn :
      (l : Line A)
      → (t : IsTurn l) → (d : retire_state l.view ≡ 0x8000) → IsRetired l (retired l.view)
  unfolding rest
  retire-IsTurn l t d =
      let sent : ready l.view.regs l.view.eps.bdi_retire ≡ false = ground (arith, d) in
      record {
        turn = record {
          line = retire-IsLine l t.line sent;
          turn =
              InTurn-retires l.view.regs l.view.eps.dual l.view.eps.bdi_retire l.view.eps.bdi_fill
                t.turn (ground (arith, d));
          states =
              Settled-set l.view.regs l.view.eps.bdi_retire 0 t.states
                (ground (arith, bd_state-zero));
        };
        unready = NoneReady-retire l.view.eps.bdi_retire l.view.eps.dual l.view.regs;
        same = ap (λ q. l.sent ++ (q ++ rest l.view)) ((retires l t.line sent).1);
        left = refl;
        busy = refl;
        dual = refl;
      }

  IsRetired-join :
      (l : Line A) (u v : View A) → IsRetired l u → IsRetired (moved u l) v → IsRetired l v
  IsRetired-join l u v a b = record {
    turn = b.turn;
    unready = λ n. rw (sym a.dual) (b.unready (rw a.dual (a.unready n)));
    same = b.same ∙ a.same;
    left = b.left ∙ a.left;
    busy = b.busy ∙ a.busy;
    dual = b.dual ∙ a.dual;
  }

  pub in_retire-ends :
      (f : ℕ) (l : Line A)
      → IsTurn l
      → done l.view.regs < f
      → (v : View A) × (in_retire f l.view ≡ ok v) × IsRetired l v × (retire_state v ≡ 0x8000 → ⊥)
  unfolding in_retire
  in_retire-ends zero l t h = absurd (omega arith)
  in_retire-ends (suc f) l t h = elim (Bool-cases (retire_state l.view == 0x8000)) [
    | inl b ↦
        let d : retire_state l.view ≡ 0x8000 = ground (arith, b) in
        let r = retire-IsTurn l t d in
        let (v, e, s, n) =
          in_retire-ends f (moved (retired l.view) l) r.turn
            (ground (arith, h, fewer_done l.view.eps.bdi_retire l.view.regs d)) in
        (v, ground (arith, b, e), IsRetired-join l (retired l.view) v r s, n)
    | inr b ↦
        let err = not_err l.view.eps.bdi_retire l.view.regs t.states in
        (
          l.view,
          ground (arith, b, err),
          record { turn = t; unready = λ n. n; same = refl; left = refl; busy = refl; dual = refl },
          λ d. ground (arith, b, d),
        )
  ]

  module _ (tu : TinyUsb A) (epnum : ℕ) where
    -- Filling ends, and takes packets from those that are left: one at least, if there is one and a
    -- buffer is free.
    pub record IsFilled (l : Line A) (v : View A) : Type 0 where
      pub turn : IsTurn (moved v l)
      pub same : stream (moved v l) ≡ stream l
      pub fewer : length (rest v) ≤ length (rest l.view)

    fill-IsTurn :
        (l : Line A) (t : IsTurn l) (b : l.view.eps.busy ≡ true) (i : fill_state l.view ≡ 0)
        → IsTurn (moved (filled tu epnum l t.line) l)
    fill-IsTurn l t b i = record {
      line = fill-IsLine tu epnum l t.line i;
      turn = rw (keeps_dual tu epnum l t.line i) (
          rw bdi_fill (
            rw bdi_retire (
              rw (filled-regs tu epnum l t.line) (
                InTurn-fills l.view.regs l.view.eps.dual l.view.eps.bdi_retire l.view.eps.bdi_fill
                  (bd_rdy_data (plen_of l.view.eps)) t.turn (ground (arith, i)) c))));
      states =
          rw (filled-regs tu epnum l t.line)
            (Settled-set l.view.regs l.view.eps.bdi_fill _ t.states (ground (arith, c)));
    }
      where
        c : bd_state (bd_rdy_data (plen_of l.view.eps)) ≡ 0x4000
        c = bd_state-bd_rdy_data (plen_of l.view.eps) (plen-max tu epnum l t.line)

        bdi_fill : (in_packet tu epnum l.view).eps.bdi_fill ≡ l.view.eps.bdi_fill
        bdi_fill = ground (arith, filled-eps tu epnum l t.line)

        bdi_retire : (in_packet tu epnum l.view).eps.bdi_retire ≡ l.view.eps.bdi_retire
        bdi_retire = ground (arith, filled-eps tu epnum l t.line)

    pub in_fill-ends :
        (f : ℕ) (l : Line A)
        → IsTurn l
        → free l.view.regs < f
        → (v : View A) × (in_fill tu epnum f l.view ≡ ok v)
          × IsFilled l v
          × (l.view.eps.busy ≡ true
              → fill_state l.view ≡ 0
              → length (rest v) < length (rest l.view))
    unfolding in_fill
    in_fill-ends zero l t h = absurd (omega arith)
    in_fill-ends (suc f) l t h = elim (Bool-cases (l.view.eps.busy && fill_state l.view == 0)) [
      | inl b ↦
          let y : l.view.eps.busy ≡ true = ground (arith, b) in
          let i : fill_state l.view ≡ 0 = ground (arith, b) in
          let less : free (filled tu epnum l t.line).regs < f = rw (filled-regs tu epnum l t.line) (
            omega (
              arith,
              fewer_free l.view.eps.bdi_fill (bd_rdy_data (plen_of l.view.eps)) l.view.regs i
                  (bd_state-bd_rdy_data (plen_of l.view.eps) (plen-max tu epnum l t.line)),
            )) in
          let rec =
            in_fill-ends f (moved (filled tu epnum l t.line) l) (fill-IsTurn l t y i) less in
          let (v, e, s, n) = rec in
          let first = filled-rest tu epnum l t.line y in
          let took : length (rest v) < length (rest l.view) = ground (arith, first, s.fewer) in
          (
            v,
            ground (arith, b, e),
            record {
              turn = s.turn;
              same = s.same ∙ fill-stream tu epnum l t.line i y;
              fewer = omega arith;
            },
            λ _ _. took,
          )
      | inr b ↦ (
        l.view,
        ground (arith, b),
        record { turn = t; same = refl; fewer = omega arith },
        λ y i. ground (arith, b, y, i),
      )
    ]

    -- A call of the port for the endpoint returns.
    pub advance_in-returns :
        (l : Line A) → IsTurn l → (v : View A) × (advance_in tu epnum l.view ≡ ok v)
    unfolding advance_in
    advance_in-returns l t =
        let (u, e, r, _) = in_retire-ends 4 l t (ground arith) in
        let filled = in_fill-ends 4 (moved u l) r.turn (ground arith) in
        (filled.0, ground (arith, e, filled.1))
