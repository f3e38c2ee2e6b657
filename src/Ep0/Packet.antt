-- ===== src/Ep0/Packet.antt =====
-- One packet of a read transfer: what `usb_handle_control_data` does in state `DATA_IN`.
use no2usb.Base.{
  ℕ, suc, zero, ◌+◌, ◌-◌, ◌≤◌, ◌<◌, ◌≡◌, refl, inl, inr, ltb, ◌==◌, Bool-cases, false, List, length,
  take, drop, All, All-take, All-drop, length-take, length-drop, some, Returns, arith, ok,
}
use no2usb.Hw.{bd_rdy_data}
use no2usb.Hw.Data.{data_read, data_write, data_read-data_write}
use no2usb.Stack.{Usb, status_done_out}
use no2usb.Stack.Memory.{object, load-object}
use no2usb.Ep0.Regs.{ep0_pkt_len, in_csr, out_csr, setup_csr}
use no2usb.Ep0.Transfer.{packet_len, fill_packet, queue_packet, handle_data_in}

-- The size of the next packet.
abbrev pub chunk : {A : Type 0} → Usb A → ℕ
chunk s = packet_len (s.xfer.len - s.xfer.ofs)

-- The bytes of `xs` that the next packet carries.
abbrev pub payload : {A : Type 0} → List ℕ → Usb A → List ℕ
payload xs s = take (chunk s) (drop s.xfer.ofs xs)

-- The transfer reads from `xs`, and has not gone past its length.
pub record Reads {A : Type 0} (xs : List ℕ) (s : Usb A) : Type 0 where
  pub source : object s.xfer.bytes s.buffers ≡ some xs
  pub fits : s.xfer.len ≤ length xs
  pub within : s.xfer.ofs ≤ s.xfer.len

-- `t` is `s` with the next packet queued.
pub record Sent {A : Type 0} (xs : List ℕ) (s t : Usb A) : Type 0 where
  pub packet : data_read t.hw.tx 0 (chunk s) ≡ payload xs s
  pub queued : in_csr t.hw ≡ bd_rdy_data (chunk s)
  pub ofs : t.xfer.ofs ≡ s.xfer.ofs + chunk s
  pub len : t.xfer.len ≡ s.xfer.len
  pub source : object t.xfer.bytes t.buffers ≡ some xs
  pub setup : setup_csr t.hw ≡ setup_csr s.hw
  pub ends : chunk s < 64 → (t.ctrl_state ≡ status_done_out) × (out_csr t.hw ≡ bd_rdy_data 64)
  pub goes_on : 64 ≤ chunk s → (t.ctrl_state ≡ s.ctrl_state) × (out_csr t.hw ≡ out_csr s.hw)

pub packet_len_bounds : (left : ℕ) → (packet_len left ≤ left) × (packet_len left ≤ 64)
unfolding packet_len
packet_len_bounds left = ground arith

pub packet_len-short : (left : ℕ) → left < 64 → packet_len left ≡ left
unfolding packet_len
packet_len-short left h = ground arith

pub packet_len-full : (left : ℕ) → 64 ≤ left → packet_len left ≡ 64
unfolding packet_len
packet_len-full left h = ground arith

abbrev with_tx : {A : Type 0} → (ℕ → ℕ) → Usb A → Usb A
with_tx tx s = record s { hw = record (s.hw) { tx = tx } }

fill_packet_lem :
    {A : Type 0} (n : ℕ) (xs : List ℕ) (s : Usb A)
    → object s.xfer.bytes s.buffers ≡ some xs
    → s.xfer.ofs + n ≤ length xs
    → All (λ b. b < 256) xs
    → (tx : ℕ → ℕ) × (fill_packet n s ≡ ok (with_tx tx s))
      × (data_read tx 0 n ≡ take n (drop s.xfer.ofs xs))
unfolding fill_packet
fill_packet_lem zero xs s source room small = (s.hw.tx, refl, unfold data_read in refl)
fill_packet_lem (suc n) xs s source room small =
    let bs = take (suc n) (drop s.xfer.ofs xs) in
    let some_bytes : (suc n == 0) ≡ false = ground arith in
    let size : length bs ≡ suc n =
      length-take (suc n) (drop s.xfer.ofs xs) (omega (arith, length-drop s.xfer.ofs xs)) in
    let bytes =
      All-take (λ (b : ℕ). b < 256) (suc n) (drop s.xfer.ofs xs)
        (All-drop (λ (b : ℕ). b < 256) s.xfer.ofs xs small) in
    (
      data_write s.hw.tx 0 bs,
      rw (some_bytes, load-object s.xfer.bytes xs s.xfer.ofs (suc n) s source room),
      rw size at (data_read-data_write s.hw.tx 0 bs bytes),
    )

queue_packet-Sent :
    {A : Type 0} (xs : List ℕ) (s : Usb A) (tx : ℕ → ℕ)
    → Reads xs s
    → data_read tx 0 (chunk s) ≡ payload xs s
    → Sent xs s (queue_packet (chunk s) (with_tx tx s))
unfolding queue_packet
queue_packet-Sent xs s tx h got = elim (Bool-cases (ltb (chunk s) ep0_pkt_len)) [
  | inl short ↦ rw short (record {
    packet = got;
    queued = refl;
    ofs = refl;
    len = refl;
    source = h.source;
    setup = refl;
    ends = λ _. (refl, refl);
    goes_on = λ long. absurd (ground arith);
  })
  | inr full ↦ rw full (record {
    packet = got;
    queued = refl;
    ofs = refl;
    len = refl;
    source = h.source;
    setup = refl;
    ends = λ short. absurd (ground arith);
    goes_on = λ _. (refl, refl);
  })
]

-- In state `DATA_IN` the next packet of at most 64 bytes is put into packet memory and queued with
-- its size, and the offset moves behind it; when it is shorter than 64 bytes, the status stage is
-- armed, and otherwise the endpoint's state and its OUT side stay.
pub handle_data_in-Sent :
    {A : Type 0} (xs : List ℕ) (s : Usb A)
    → Reads xs s
    → All (λ b. b < 256) xs
    → Returns (Sent xs s) (handle_data_in s)
unfolding handle_data_in
handle_data_in-Sent xs s h small =
    let inside : ltb s.xfer.len s.xfer.ofs ≡ false = ground (arith, h.within) in
    let room : s.xfer.ofs + chunk s ≤ length xs =
      omega (arith, packet_len_bounds (s.xfer.len - s.xfer.ofs), h.within, h.fits) in
    let (tx, filled, got) = fill_packet_lem (chunk s) xs s h.source room small in
    rw (inside, filled) (queue_packet-Sent xs s tx h got)
