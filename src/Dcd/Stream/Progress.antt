-- ===== src/Dcd/Stream/Progress.antt =====
-- A transfer to the host comes to its end, if the host takes the packets and the port is called.
use no2usb.Base.{
  ℕ, zero, suc, ◌+◌, ◌-◌, ◌<◌, ◌≤◌, ◌^◌, ◌≡◌, bit_or, Bool-cases, refl, ap, sym, ◌∙◌, true, false,
  if◌then◌else◌, List, [], ◌++◌, length, Option, none, Run-cases, Run, ok, ◌>>=◌, inl, inr, arith,
}
use mathlib.Core.List.{append-nil}
use no2usb.Hw.{bd_state_done_ok}
use no2usb.Hw.Words.{bd_state-done_ok}
use no2usb.Dcd.State.{TinyUsb, xfer_complete}
use no2usb.Dcd.Transfer.{View, retire_state, fill_state, in_retire, advance_in}
use no2usb.Dcd.Stream.Loops.{IsRetired, IsFilled, in_retire-ends, in_fill-ends}
use no2usb.Dcd.Slots.{ready}
use no2usb.Dcd.Packets.{packets_of, packets_of-some}
use no2usb.Dcd.Stream.{Line, base, rest, queued, stream, moved, send, IsStreaming}
use no2usb.Dcd.Stream.Turn.{
  IsTurn, NoneReady, drained-NoneReady, not_taken, taken, Settled-set, InTurn-sends, InTurn-free,
}
use no2usb.Dcd.Stream.Delivery.{
  begin, rest-begin, send-IsLine, sync_sends, send-stream, send-IsStreaming, begin-IsStreaming,
  advance_in-IsStreaming,
}

module _ {A : Type 0} where
  -- The host takes up to `n` packets.
  unfoldable pub drain : ℕ → Line A → Line A
  unfolding send
  drain zero l = l
  drain (suc n) l = if ready l.view.regs l.bdi then drain n (send bd_state_done_ok l) else l

  module _ (tu : TinyUsb A) (epnum : ℕ) where
    -- The host takes what is queued, and the port moves the transfer on.
    unfoldable pub round : Line A → Run (Line A)
    unfolding drain advance_in
    round l = let d = drain 2 l in advance_in tu epnum d.view >>= λ v. ok (moved v d)

    unfoldable pub rounds : ℕ → Line A → Run (Line A)
    unfolding round
    rounds zero l = ok l
    rounds (suc n) l = round l >>= rounds n

  send-IsTurn :
      (l : Line A) → IsTurn l → ready l.view.regs l.bdi ≡ true → IsTurn (send bd_state_done_ok l)
  unfolding send
  send-IsTurn l t r = record {
    line = send-IsLine l t.line bd_state_done_ok r bd_state-done_ok;
    turn =
        InTurn-sends l.view.regs l.view.eps.dual l.view.eps.bdi_retire l.view.eps.bdi_fill l.bdi
          bd_state_done_ok t.turn r bd_state-done_ok;
    states =
        Settled-set l.view.regs l.bdi bd_state_done_ok t.states (ground (arith, bd_state-done_ok));
  }

  -- The packets that were queued are sent, and nothing else changes.
  record IsDrained (l d : Line A) : Type 0 where
    turn : IsTurn d
    empty : queued d ≡ []
    same : stream d ≡ stream l
    left : rest d.view ≡ rest l.view
    busy : d.view.eps.busy ≡ l.view.eps.busy

  drain-IsDrained :
      (n : ℕ) (l : Line A) → IsTurn l → length (queued l) ≤ n → IsDrained l (drain n l)
  unfolding drain send rest
  drain-IsDrained zero l t h = record {
    turn = t;
    empty = ground arith;
    same = refl;
    left = refl;
    busy = refl;
  }
  drain-IsDrained (suc n) l t h = elim (Bool-cases (ready l.view.regs l.bdi)) [
    | inl r ↦
        let s = sync_sends l t.line bd_state_done_ok r bd_state-done_ok in
        let d =
          drain-IsDrained n (send bd_state_done_ok l) (send-IsTurn l t r)
            (ground (arith, s.1, h)) in
        let all : IsDrained l (drain n (send bd_state_done_ok l)) = record {
          turn = d.turn;
          empty = d.empty;
          same = d.same ∙ send-stream l t.line bd_state_done_ok r bd_state-done_ok;
          left = d.left;
          busy = d.busy;
        } in
        rw r all
    | inr r ↦
        let all : IsDrained l l = record {
          turn = t;
          empty = ground (arith, r);
          same = refl;
          left = refl;
          busy = refl;
        } in
        rw r all
  ]

  not_busy : (v : View A) → rest v ≡ [] → v.eps.busy ≡ false
  unfolding rest
  not_busy v e = ground (
    arith,
    e,
    packets_of-some v.eps.mps v.ram (base v.eps.buf + v.eps.ofs) (v.eps.len - v.eps.ofs),
  )

  -- With nothing queued and nothing left, all is sent.
  sent_all : (d : Line A) → rest d.view ≡ [] → queued d ≡ [] → d.sent ≡ stream d
  sent_all d left empty =
      let gone : queued d ++ rest d.view ≡ [] = ap (λ q. q ++ rest d.view) empty ∙ left in
      sym (ap (λ q. d.sent ++ q) gone ∙ append-nil d.sent)

  rest-idle : (v : View A) → v.eps.busy ≡ false → rest v ≡ []
  unfolding rest
  rest-idle v b = ground (arith, b)

  -- Of the packets that are left, one at least is taken.
  one_less :
      (u v : View A)
      → length (rest v) ≤ length (rest u)
      → (u.eps.busy ≡ true → length (rest v) < length (rest u))
      → length (rest v) ≤ length (rest u) - 1
  one_less u v h took = elim (Bool-cases u.eps.busy) [
    | inl b ↦ omega (arith, took b)
    | inr b ↦ let gone : rest u ≡ [] = rest-idle u b in ground (arith, gone, h)
  ]

  module _ (tu : TinyUsb A) (epnum : ℕ) where
    drain-IsStreaming :
        {all : List (List ℕ)} {start over : A} (n : ℕ) (l : Line A)
        → IsStreaming tu epnum all start over l
        → IsStreaming tu epnum all start over (drain n l)
    unfolding drain
    drain-IsStreaming zero l k = k
    drain-IsStreaming (suc n) l k = elim (Bool-cases (ready l.view.regs l.bdi)) [
      | inl r ↦ rw r (
          drain-IsStreaming n (send bd_state_done_ok l)
            (send-IsStreaming tu epnum l bd_state_done_ok r bd_state-done_ok k))
      | inr r ↦ rw r k
    ]

    -- What a round brings about.
    record IsRound (l m : Line A) : Type 0 where
      turn : IsTurn m
      fewer : length (rest m.view) ≤ length (rest l.view) - 1
      last : rest l.view ≡ [] → m.sent ≡ stream l

    advance-fewer :
        (d : Line A) (u v : View A) (r : IsRetired d u)
        → NoneReady d.view.eps.dual d.view.regs
        → (retire_state u ≡ 0x8000 → ⊥)
        → IsFilled tu epnum (moved u d) v
        → (u.eps.busy ≡ true → fill_state u ≡ 0 → length (rest v) < length (rest u))
        → length (rest v) ≤ length (rest d.view) - 1
    advance-fewer d u v r quiet stops f took =
        let unused : taken u.regs u.eps.bdi_retire ≡ false =
          not_taken u.eps.dual u.eps.bdi_retire u.eps.bdi_fill u.regs r.turn.states r.turn.turn
            (rw r.dual (r.unready quiet)) stops in
        let free =
          InTurn-free u.regs u.eps.dual u.eps.bdi_retire u.eps.bdi_fill r.turn.turn unused in
        rw (sym (ap length r.left)) (one_less u v f.fewer (λ b. took b free))

    advance-ends :
        (d : Line A)
        → IsTurn d
        → queued d ≡ []
        → (v : View A) × (advance_in tu epnum d.view ≡ ok v)
          × IsTurn (moved v d)
          × (length (rest v) ≤ length (rest d.view) - 1)
    unfolding advance_in
    advance-ends d t e =
        let quiet =
          drained-NoneReady d.view.eps.dual d.bdi d.view.eps.bdi_fill d.view.regs d.view.tx
            t.line.sync e in
        filled (in_retire-ends 4 d t (ground arith)) quiet
      where
        filled :
            (x : (u : View A) × (in_retire 4 d.view ≡ ok u)
              × IsRetired d u
              × (retire_state u ≡ 0x8000 → ⊥))
            → NoneReady d.view.eps.dual d.view.regs
            → (v : View A) × (advance_in tu epnum d.view ≡ ok v)
              × IsTurn (moved v d)
              × (length (rest v) ≤ length (rest d.view) - 1)
        filled (u, eu, r, stops) quiet =
            let x = in_fill-ends tu epnum 4 (moved u d) r.turn (ground arith) in
            (x.0, ground (arith, eu, x.1), x.2.turn, advance-fewer d u x.0 r quiet stops x.2 x.3)

    round-ends : (l : Line A) → IsTurn l → (m : Line A) × (round tu epnum l ≡ ok m) × IsRound l m
    unfolding round
    round-ends l t =
        let d = drain-IsDrained 2 l t (ground arith) in
        let (v, e, t', fewer) = advance-ends (drain 2 l) d.turn d.empty in
        (
          moved v (drain 2 l),
          ground (arith, e),
          record {
            turn = t';
            fewer = rw (sym d.left) fewer;
            last = λ gone. sent_all (drain 2 l) (d.left ∙ gone) d.empty ∙ d.same;
          },
        )

    round-IsStreaming :
        {all : List (List ℕ)} {start over : A} (l m : Line A)
        → IsStreaming tu epnum all start over l
        → round tu epnum l ≡ ok m
        → IsStreaming tu epnum all start over m
    unfolding round
    round-IsStreaming {all = all} {start = start} {over = over} l m k e =
        elim (Run-cases (advance_in tu epnum (drain 2 l).view)) [
          | inl (v, ev) ↦
              let same : moved v (drain 2 l) ≡ m = ground (arith, ev, e) in
              rw (sym same)
                (advance_in-IsStreaming tu epnum (drain 2 l) (drain-IsStreaming 2 l k) ev)
          | inr (inl bad) ↦ ground (arith, bad, e)
          | inr (inr bad) ↦ ground (arith, bad, e)
        ]

    rounds-end :
        {all : List (List ℕ)} {start over : A} (n : ℕ) (l : Line A)
        → IsTurn l
        → IsStreaming tu epnum all start over l
        → length (rest l.view) ≤ n
        → (m : Line A) × (rounds tu epnum (suc n) l ≡ ok m)
          × (m.sent ≡ all)
          × (m.view.eps.busy ≡ false)
          × (m.view.app ≡ over)
    unfolding rounds
    rounds-end zero l t k h =
        let (m, e, r) = round-ends l t in
        let gone : rest l.view ≡ [] = ground (arith, h) in
        let k' = round-IsStreaming l m k e in
        let b = not_busy m.view (ground (arith, r.fewer, gone)) in
        (m, ground (arith, e), r.last gone ∙ k.flow, b, k'.ended b)
    rounds-end (suc n) l t k h =
        let (m, e, r) = round-ends l t in
        let (z, ez, s, b, a) =
          rounds-end n m r.turn (round-IsStreaming l m k e) (omega (arith, r.fewer, h)) in
        (z, ground (arith, e, ez), s, b, a)

    -- A transfer to the host of `len` bytes from `buf` on, on an endpoint that has none. In each round
    -- the host takes the packets that wait, and the port is called; no call runs forever. After as
    -- many rounds as the transfer has packets and one more, the host has received what was queued
    -- before and then all packets of the block, the endpoint is free again, and the stack has been
    -- told once that the transfer is complete, with its length.
    pub rounds-deliver :
        (l : Line A) (buf : Option ℕ) (len : ℕ)
        → IsTurn l
        → len < 2 ^ 16
        → (buf ≡ none → len ≡ 0)
        → (m : Line A) × (rounds tu epnum
              (suc (length (packets_of l.view.eps.mps l.view.ram (base buf) len)))
              (begin buf len l)
            ≡ ok m)
          × (m.sent ≡ l.sent ++ (queued l ++ packets_of l.view.eps.mps l.view.ram (base buf) len))
          × (m.view.eps.busy ≡ false)
          × (m.view.app ≡ tu.notify (xfer_complete (bit_or epnum 0x80) len) l.view.app)
    rounds-deliver l buf len t small null =
        let k = begin-IsStreaming tu epnum l buf len t.line small null in
        rounds-end (length (packets_of l.view.eps.mps l.view.ram (base buf) len)) (begin buf len l)
          (record { line = k.line; turn = t.turn; states = t.states }) k
          (rw (rest-begin l buf len) (omega arith))
