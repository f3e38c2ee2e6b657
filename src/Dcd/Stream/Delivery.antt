-- ===== src/Dcd/Stream/Delivery.antt =====
-- What the host receives of a transfer to it.
use no2usb.Base.{
  ℕ, ◌+◌, ◌-◌, ◌<◌, ◌≤◌, ◌^◌, ◌≡◌, bit_or, refl, ap, sym, ◌∙◌, Bool, true, false, List, [], ◌∷◌,
  ◌++◌, concat, Option, none, Run-cases, ok, inl, inr, arith,
}
use no2usb.Hw.{bd_state, bd_len, bd_state_done_ok}
use no2usb.Dcd.State.{TinyUsb, xfer_complete, bd_at, set_csr, flip}
use no2usb.Dcd.Transfer.{View, in_retire, advance_in}
use no2usb.Dcd.Endpoint.{start_xfer}
use no2usb.Dcd.Slots.{ready, packet_at, InSync, InSync-sends}
use no2usb.Dcd.Copy.{Apart}
use no2usb.Dcd.Packets.{packets_of, concat-packets_of}
use no2usb.Dcd.Memory.{ram_load}
use no2usb.Dcd.Stream.{
  Line, base, rest, IsLine, queued, stream, moved, send, Step, sends, advances, Reach, here, next,
  IsStreaming,
}
use no2usb.Dcd.Stream.Turn.{IsTurn}
use no2usb.Dcd.Stream.Steps.{in_retire-IsStreaming, in_fill-IsStreaming}
use mathlib.Core.List.{append_assoc}

-- The endpoint when a transfer of `len` bytes from `buf` on has been asked for.
abbrev pub begin : {A : Type 0} → Option ℕ → ℕ → Line A → Line A
begin buf len l = moved (record (l.view) { eps = start_xfer buf len l.view.eps }) l

-- What is left of a new transfer is the whole block.
pub rest-begin :
    {A : Type 0} (l : Line A) (buf : Option ℕ) (len : ℕ)
    → rest (begin buf len l).view ≡ packets_of l.view.eps.mps l.view.ram (base buf) len
unfolding rest
rest-begin l buf len =
    let at : base buf + 0 ≡ base buf = omega arith in
    let all : len - 0 ≡ len = omega arith in rw at (rw all refl)

begin-IsLine :
    {A : Type 0} (l : Line A) (buf : Option ℕ) (len : ℕ)
    → IsLine l
    → len < 2 ^ 16
    → (buf ≡ none → len ≡ 0)
    → IsLine (begin buf len l)
begin-IsLine l buf len h small null = record {
  mps_pos = h.mps_pos;
  mps_max = h.mps_max;
  bytes = h.bytes;
  sync = h.sync;
  fits = h.fits;
  apart = h.apart;
  ofs = omega arith;
  len = small;
  null = λ e. (null e, refl);
}

pub begin-IsTurn :
    {A : Type 0} (l : Line A) (buf : Option ℕ) (len : ℕ)
    → IsTurn l
    → len < 2 ^ 16
    → (buf ≡ none → len ≡ 0)
    → IsTurn (begin buf len l)
begin-IsTurn l buf len t small null = record {
  line = begin-IsLine l buf len t.line small null;
  turn = t.turn;
  states = t.states;
}

module _ {A : Type 0} (l : Line A) (h : IsLine l) (csr : ℕ) (r : ready l.view.regs l.bdi ≡ true)
    (d : bd_state csr ≡ bd_state_done_ok) where
  pub sync_sends :
      InSync l.view.eps.dual
        (flip l.bdi l.view.eps.dual)
        l.view.eps.bdi_fill
        (set_csr l.bdi csr l.view.regs)
      × (queued l ≡ packet_at l.view.regs l.view.tx l.bdi ∷ queued (send csr l))
  unfolding send
  sync_sends =
      InSync-sends l.view.regs l.view.tx l.view.eps.dual l.bdi l.view.eps.bdi_fill csr h.sync r d

  send-fits :
      (b i : Bool)
      → ready (set_csr b csr l.view.regs) i ≡ true
      → bd_len (bd_at i (set_csr b csr l.view.regs)).csr ≤ l.view.eps.mps
  send-fits false false e = ground (arith, d, e)
  send-fits true true e = ground (arith, d, e)
  send-fits false true e = h.fits true e
  send-fits true false e = h.fits false e

  send-Apart :
      (b : Bool)
      → l.view.eps.dual ≡ true
      → Apart
          (set_csr b csr l.view.regs).bd0.ptr
          l.view.eps.mps
          (set_csr b csr l.view.regs).bd1.ptr
          l.view.eps.mps
  send-Apart false = h.apart
  send-Apart true = h.apart

  pub send-IsLine : IsLine (send csr l)
  unfolding send
  send-IsLine = record {
    mps_pos = h.mps_pos;
    mps_max = h.mps_max;
    bytes = h.bytes;
    sync = sync_sends.0;
    fits = send-fits l.bdi;
    apart = send-Apart l.bdi;
    ofs = h.ofs;
    len = h.len;
    null = h.null;
  }

  pub send-stream : stream (send csr l) ≡ stream l
  unfolding send rest
  send-stream =
      let p = packet_at l.view.regs l.view.tx l.bdi in
      append_assoc l.sent (p ∷ []) (queued (send csr l) ++ rest l.view)
      ∙ ap (λ q. l.sent ++ (q ++ rest l.view)) (sym (sync_sends.1))

module _ {A : Type 0} (tu : TinyUsb A) (epnum : ℕ) where
  pub send-IsStreaming :
      (l : Line A) (csr : ℕ) {all : List (List ℕ)} {start over : A}
      → ready l.view.regs l.bdi ≡ true
      → bd_state csr ≡ bd_state_done_ok
      → IsStreaming tu epnum all start over l
      → IsStreaming tu epnum all start over (send csr l)
  unfolding send
  send-IsStreaming l csr r d k = record {
    line = send-IsLine l k.line csr r d;
    flow = send-stream l k.line csr r d ∙ k.flow;
    waits = k.waits;
    going = k.going;
    ended = k.ended;
  }

  pub advance_in-IsStreaming :
      {all : List (List ℕ)} {start over : A} (l : Line A)
      → IsStreaming tu epnum all start over l
      → {v : View A} → advance_in tu epnum l.view ≡ ok v
      → IsStreaming tu epnum all start over (moved v l)
  unfolding advance_in
  advance_in-IsStreaming l k {v = v} e = elim (Run-cases (in_retire 4 l.view)) [
    | inl (u, eu) ↦
        in_fill-IsStreaming tu epnum 4 (moved u l) (in_retire-IsStreaming tu epnum 4 l k eu)
          (ground (arith, eu, e))
    | inr (inl bad) ↦ ground (arith, bad, e)
    | inr (inr bad) ↦ ground (arith, bad, e)
  ]

  Step-IsStreaming :
      {all : List (List ℕ)} {start over : A} {l m : Line A}
      → IsStreaming tu epnum all start over l
      → Step tu epnum l m
      → IsStreaming tu epnum all start over m
  Step-IsStreaming {l = l} k (sends csr r d) = send-IsStreaming l csr r d k
  Step-IsStreaming {l = l} k (advances e) = advance_in-IsStreaming l k e

  pub Reach-IsStreaming :
      {all : List (List ℕ)} {start over : A} {l m : Line A}
      → IsStreaming tu epnum all start over l
      → Reach tu epnum l m
      → IsStreaming tu epnum all start over m
  Reach-IsStreaming k here = k
  Reach-IsStreaming k (next r s) = Step-IsStreaming (Reach-IsStreaming k r) s

  -- A new transfer, on an endpoint that has none.
  pub begin-IsStreaming :
      (l : Line A) (buf : Option ℕ) (len : ℕ)
      → IsLine l
      → len < 2 ^ 16
      → (buf ≡ none → len ≡ 0)
      → IsStreaming tu epnum
          (l.sent ++ (queued l ++ packets_of l.view.eps.mps l.view.ram (base buf) len))
          l.view.app
          (tu.notify (xfer_complete (bit_or epnum 0x80) len) l.view.app)
          (begin buf len l)
  unfolding rest
  begin-IsStreaming l buf len h small null = record {
    line = begin-IsLine l buf len h small null;
    flow = ap (λ r. l.sent ++ (queued l ++ r)) (rest-begin l buf len);
    waits = λ b. refl;
    going = λ b. refl;
    ended = λ b. ground (arith, b);
  }

  -- A transfer to the host from an endpoint that has none, of `len` bytes from `buf` on. Whatever the
  -- core and the port do from then on, and in whatever order: the packets that the host has received,
  -- those that wait in the buffers and those that are still to be queued are, in this order, the
  -- packets that were there before and then the block of memory, cut into full packets and a last
  -- one. The stack hears nothing before all are queued, and then it has been told once that the
  -- transfer is complete, with its length. The packets carry the bytes of the block.
  pub Reach-delivers :
      (l m : Line A) (buf : Option ℕ) (len : ℕ)
      → IsLine l
      → len < 2 ^ 16
      → (buf ≡ none → len ≡ 0)
      → Reach tu epnum (begin buf len l) m
      → (stream m ≡ l.sent ++ (queued l ++ packets_of l.view.eps.mps l.view.ram (base buf) len))
        × (m.view.eps.busy ≡ true → m.view.app ≡ l.view.app)
        × (m.view.eps.busy ≡ false
            → m.view.app ≡ tu.notify (xfer_complete (bit_or epnum 0x80) len) l.view.app)
        × (concat (packets_of l.view.eps.mps l.view.ram (base buf) len)
            ≡ ram_load l.view.ram (base buf) len)
  Reach-delivers l m buf len h small null r =
      let k = Reach-IsStreaming (begin-IsStreaming l buf len h small null) r in
      (
        k.flow,
        k.waits,
        k.ended,
        concat-packets_of l.view.eps.mps l.view.ram (base buf) len h.mps_pos,
      )
