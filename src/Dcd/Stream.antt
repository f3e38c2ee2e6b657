-- ===== src/Dcd/Stream.antt =====
-- An IN endpoint of the port at work: the core sends packets from the buffers that it finds ready,
-- and the port moves the transfer on, in any order. The memory that is sent stays as it is.
mod Filled
mod Retired
mod Steps
pub mod Turn
pub mod Loops
pub mod Delivery
pub mod Progress
use no2usb.Base.{
  ℕ, ◌+◌, ◌-◌, ◌<◌, ◌≤◌, ◌^◌, ◌≡◌, ◌==◌, Bool, true, false, if◌then◌else◌, List, [], ◌∷◌, ◌++◌,
  Option, none, some, ok, bit_or,
}
use no2usb.Hw.{Ep, Bd, bd_state, bd_len, bd_state_done_ok}
use no2usb.Dcd.State.{DcdEp, Event, xfer_complete, TinyUsb, bd_at, set_csr, flip}
use no2usb.Dcd.Transfer.{View, advance_in}
use no2usb.Dcd.Slots.{ready, packet_at, pending, InSync}
use no2usb.Dcd.Packets.{packets_of}
use no2usb.Dcd.Copy.{Apart}

-- The endpoint, the buffer that the core sends from next, and what the host has received.
pub record Line (A : Type 0) : Type 0 where
  pub view : View A
  pub bdi : Bool
  pub sent : List (List ℕ)

-- Where the bytes of a transfer stand.
abbrev pub base : Option ℕ → ℕ
base none = 0
base (some buf) = buf

module _ {A : Type 0} where
  -- The packets that the port has still to queue.
  unfoldable pub rest : View A → List (List ℕ)
  rest v =
      if v.eps.busy
      then packets_of v.eps.mps v.ram (base v.eps.buf + v.eps.ofs) (v.eps.len - v.eps.ofs)
      else []

  -- Those that wait in the buffers.
  abbrev pub queued : Line A → List (List ℕ)
  queued l = pending l.view.eps.dual l.view.regs l.view.tx l.bdi

  -- What the host has received, and will receive.
  abbrev pub stream : Line A → List (List ℕ)
  stream l = l.sent ++ (queued l ++ rest l.view)

  -- The core sends a packet, and writes `csr` to its descriptor.
  unfoldable pub send : ℕ → Line A → Line A
  send csr l = record {
    view = record (l.view) { regs = set_csr l.bdi csr l.view.regs };
    bdi = flip l.bdi l.view.eps.dual;
    sent = l.sent ++ (packet_at l.view.regs l.view.tx l.bdi ∷ []);
  }

  abbrev pub moved : View A → Line A → Line A
  moved v l = record l { view = v }

  -- The endpoint is set up, and its transfer is one that the driver can send.
  pub record IsLine (l : Line A) : Type 0 where
    pub mps_pos : 0 < l.view.eps.mps
    pub mps_max : l.view.eps.mps < 1024
    pub bytes : (k : ℕ) → l.view.ram k < 256
    pub sync : InSync l.view.eps.dual l.bdi l.view.eps.bdi_fill l.view.regs
    pub fits :
        (i : Bool) → ready l.view.regs i ≡ true → bd_len (bd_at i l.view.regs).csr ≤ l.view.eps.mps
    pub apart :
        l.view.eps.dual ≡ true
        → Apart l.view.regs.bd0.ptr l.view.eps.mps l.view.regs.bd1.ptr l.view.eps.mps
    pub ofs : l.view.eps.ofs ≤ l.view.eps.len
    pub len : l.view.eps.len < 2 ^ 16
    pub null : l.view.eps.buf ≡ none → (l.view.eps.len ≡ 0) × (l.view.eps.plen ≡ 0)

  module _ (tu : TinyUsb A) (epnum : ℕ) where
    -- A step of the core, or one of the port.
    pub data Step (l : Line A) : Line A → Type 0 where
      sends :
          (csr : ℕ)
          → ready l.view.regs l.bdi ≡ true
          → bd_state csr ≡ bd_state_done_ok
          → Step l (send csr l)
      advances : {v : View A} → advance_in tu epnum l.view ≡ ok v → Step l (moved v l)

    pub data Reach (l : Line A) : Line A → Type 0 where
      here : Reach l l
      next : {m k : Line A} → Reach l m → Step m k → Reach l k

    -- The stream is `all`. The stack is told nothing while the transfer lasts, and is told its end:
    -- its state is `start` until then, and `over` from then on.
    pub record IsStreaming (all : List (List ℕ)) (start over : A) (l : Line A) : Type 0 where
      pub line : IsLine l
      pub flow : stream l ≡ all
      pub waits : l.view.eps.busy ≡ true → l.view.app ≡ start
      pub going :
          l.view.eps.busy ≡ true
          → tu.notify (xfer_complete (bit_or epnum 0x80) l.view.eps.len) l.view.app ≡ over
      pub ended : l.view.eps.busy ≡ false → l.view.app ≡ over
