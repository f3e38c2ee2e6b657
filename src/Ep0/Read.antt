-- ===== src/Ep0/Read.antt =====
-- A whole read transfer: the packets that the host takes are the bytes of the transfer.
use no2usb.Base.{
  ℕ, zero, suc, ◌+◌, ◌-◌, ◌/◌, ◌≤◌, ◌<◌, ◌≡◌, sym, ap, ◌∙◌, ◌⊎◌, inl, inr, true, List, [], ◌∷◌,
  ◌++◌, length, take, drop, All, concat, take-add, drop-drop, length-take, length-drop, ok, ◌>>=◌,
  Returns, Returns-ok, le_or_lt, arith,
}
use mathlib.Core.List.{append-nil}
use no2usb.Hw.{bd_state, bd_len, bd_rdy_data}
use no2usb.Hw.Words.{bd_state-bd_rdy_data, bd_state-done_ok, bd_state-zero, bd_len-bd_rdy_data}
use no2usb.Stack.{Usb, Services, data_in, status_done_out}
use no2usb.Ep0.Regs.{out_csr, setup_csr}
use no2usb.Ep0.Transfer.{when_data_in, when_data_out, map_hw, handle_data_in, handle_control_data}
use no2usb.Ep0.Packet.{
  chunk, payload, Reads, Sent, packet_len_bounds, packet_len-short, packet_len-full,
  handle_data_in-Sent,
}
use no2usb.Ep0.Poll.{status_out_stage, data_event, event_stage, state_stage, ep0_round, ep0_poll}
use no2usb.Ep0.Host.{quiet, ack_in, in_packet, host_reads, IsQuiet, ep0_round-quiet}

-- Every packet but the last has 64 bytes, and the last has fewer.
abbrev pub FullThenShort : List (List ℕ) → Type 0
FullThenShort [] = ⊥
FullThenShort (p ∷ []) = length p < 64
FullThenShort (p ∷ q ∷ ps) = (length p ≡ 64) × FullThenShort (q ∷ ps)

FullThenShort-cons :
    (p : List ℕ) (ps : List (List ℕ)) → length p ≡ 64 → FullThenShort ps → FullThenShort (p ∷ ps)
FullThenShort-cons p [] full rest = absurd rest
FullThenShort-cons p (q ∷ ps) full rest = (full, rest)

-- The host got `bs` in such packets, and the endpoint waits for its status packet.
pub record Delivered {A : Type 0} (bs : List ℕ) (r : List (List ℕ) × Usb A) : Type 0 where
  pub whole : concat r.0 ≡ bs
  pub shape : FullThenShort r.0
  pub state : r.1.ctrl_state ≡ status_done_out
  pub armed : out_csr r.1.hw ≡ bd_rdy_data 64

-- A read transfer that is under way, with nothing else to do at the endpoint.
pub record Serves {A : Type 0} (xs : List ℕ) (s : Usb A) : Type 0 where
  pub reads : Reads xs s
  pub state : s.ctrl_state ≡ data_in
  pub setup : bd_state (setup_csr s.hw) ≡ 0x4000
  pub out : (bd_state (out_csr s.hw) ≡ 0) ⊎ (bd_state (out_csr s.hw) ≡ 0x4000)

Serves-ack_in : {A : Type 0} {xs : List ℕ} {s : Usb A} → Serves xs s → Serves xs (map_hw ack_in s)
unfolding ack_in
Serves-ack_in h = record {
  reads = record { source = h.reads.source; fits = h.reads.fits; within = h.reads.within };
  state = h.state;
  setup = h.setup;
  out = h.out;
}

pub state_of_Sent :
    {A : Type 0} {xs : List ℕ} {s t : Usb A}
    → s.ctrl_state ≡ data_in
    → Sent xs s t
    → (t.ctrl_state ≡ data_in) ⊎ (t.ctrl_state ≡ status_done_out)
state_of_Sent {s} state sent = elim (le_or_lt 64 (chunk s)) [
  | inl full ↦ inl ((sent.goes_on full).0 ∙ state)
  | inr short ↦ inr (sent.ends short).0
]

handle_control_data-data_in :
    {A : Type 0} (s t : Usb A)
    → s.ctrl_state ≡ data_in
    → handle_data_in s ≡ ok t
    → (t.ctrl_state ≡ data_in) ⊎ (t.ctrl_state ≡ status_done_out)
    → handle_control_data s ≡ ok t
unfolding handle_control_data when_data_in when_data_out
handle_control_data-data_in s t state e end = ground arith

-- In state `DATA_IN`, `usb_handle_control_data` queues the next packet and does nothing else.
pub handle_control_data-Sent :
    {A : Type 0} (xs : List ℕ) (s : Usb A)
    → s.ctrl_state ≡ data_in
    → Reads xs s
    → All (λ b. b < 256) xs
    → Returns (Sent xs s) (handle_control_data s)
handle_control_data-Sent xs s state h small =
    let (t, e, sent) = Returns-ok (handle_data_in s) (handle_data_in-Sent xs s h small) in
    rw (handle_control_data-data_in s t state e (state_of_Sent state sent)) sent

module _ {A : Type 0} {xs : List ℕ} {s t : Usb A} (h : Serves xs s) (sent : Sent xs s t) where
  -- The state behind a packet is quiet until the host takes it.
  Sent-IsQuiet : IsQuiet t
  Sent-IsQuiet = record {
    state = state_of_Sent h.state sent;
    setup = rw sent.setup h.setup;
    inp = rw sent.queued (
        bd_state-bd_rdy_data (chunk s)
          (omega (arith, packet_len_bounds (s.xfer.len - s.xfer.ofs))));
    out = elim (le_or_lt 64 (chunk s)) [
      | inl full ↦ rw (sent.goes_on full).1 h.out
      | inr short ↦ inr (rw (sent.ends short).1 (bd_state-bd_rdy_data 64 (omega arith)))
    ];
  }

  -- What the core sends is the payload.
  in_packet-payload : in_packet t ≡ payload xs s
  unfolding in_packet
  in_packet-payload =
      let len : bd_len (bd_rdy_data (chunk s)) ≡ chunk s =
        bd_len-bd_rdy_data (chunk s) (omega (arith, packet_len_bounds (s.xfer.len - s.xfer.ofs))) in
      rw (sent.queued, len) sent.packet

module _ {A : Type 0} (sv : Services A) (xs : List ℕ) (small : All (λ b. b < 256) xs) where
  round-ack :
      (s : Usb A)
      → Serves xs s
      → ep0_round sv (map_hw ack_in s)
        ≡ (handle_control_data (map_hw ack_in s) >>= λ t. ok (true, t))
  unfolding ep0_round state_stage event_stage data_event ack_in
  round-ack s h = ground (arith, bd_state-done_ok)

  -- Behind an acknowledged packet the poll queues the next.
  poll-Sent :
      (s : Usb A)
      → Serves xs s
      → Returns (Sent xs (map_hw ack_in s)) (ep0_poll sv (ack_in ∷ quiet ∷ []) s)
  unfolding ep0_poll
  poll-Sent s h =
      let s' = map_hw ack_in s in
      let h' = Serves-ack_in h in
      let (t, settled, sent) =
        Returns-ok (handle_control_data s')
          (handle_control_data-Sent xs s' h'.state h'.reads small) in
      rw (round-ack s h, settled, ep0_round-quiet sv t (Sent-IsQuiet h' sent)) sent

  -- Behind the last packet the poll clears its descriptor and waits.
  poll-last :
      (t : Usb A)
      → IsQuiet t
      → t.ctrl_state ≡ status_done_out
      → Returns
          (λ u. (u.ctrl_state ≡ status_done_out) × (out_csr u.hw ≡ out_csr t.hw))
          (ep0_poll sv (ack_in ∷ quiet ∷ []) t)
  unfolding ep0_poll ep0_round state_stage status_out_stage event_stage ack_in
  poll-last t q end = ground (arith, bd_state-done_ok, bd_state-zero)

  -- A queued full packet is the start of a transfer from the offset behind it.
  Serves-next : (s t : Usb A) → Serves xs s → Sent xs s t → 64 ≤ chunk s → Serves xs t
  Serves-next s t h sent full =
      let (state, out) = sent.goes_on full in
      record {
        reads = record {
          source = sent.source;
          fits = omega (arith, sent.len, h.reads.fits);
          within = omega (
            arith,
            sent.len,
            sent.ofs,
            h.reads.within,
            packet_len_bounds (s.xfer.len - s.xfer.ofs),
          );
        };
        state = state ∙ h.state;
        setup = rw sent.setup h.setup;
        out = rw out h.out;
      }

  -- The rest of the bytes is the payload and what is left behind it.
  take-split :
      (s t : Usb A)
      → chunk s ≡ 64
      → Sent xs s t
      → take (s.xfer.len - s.xfer.ofs) (drop s.xfer.ofs xs)
        ≡ payload xs s ++ take (t.xfer.len - t.xfer.ofs) (drop t.xfer.ofs xs)
  take-split s t full sent =
      let split : s.xfer.len - s.xfer.ofs ≡ chunk s + (t.xfer.len - t.xfer.ofs) =
        omega (arith, sent.len, sent.ofs, packet_len_bounds (s.xfer.len - s.xfer.ofs)) in
      ap (λ k. take k (drop s.xfer.ofs xs)) split
      ∙ take-add (chunk s) (t.xfer.len - t.xfer.ofs) (drop s.xfer.ofs xs)
      ∙ ap (λ ys. payload xs s ++ take (t.xfer.len - t.xfer.ofs) ys)
          (sym (ap (λ k. drop k xs) sent.ofs ∙ drop-drop s.xfer.ofs (chunk s) xs))

  length-payload : (s : Usb A) → Reads xs s → length (payload xs s) ≡ chunk s
  length-payload s h = length-take (chunk s) (drop s.xfer.ofs xs) (
      omega (
        arith,
        length-drop s.xfer.ofs xs,
        packet_len_bounds (s.xfer.len - s.xfer.ofs),
        h.within,
        h.fits,
      ))

  -- The packets from the queued one on are the rest of the bytes.
  pub host_reads-Delivered :
      (n : ℕ) (s t : Usb A)
      → Serves xs s
      → Sent xs s t
      → (s.xfer.len - s.xfer.ofs) / 64 ≡ n
      → Returns
          (Delivered (take (s.xfer.len - s.xfer.ofs) (drop s.xfer.ofs xs)))
          (host_reads sv (suc n) t)
  unfolding host_reads
  host_reads-Delivered zero s t h sent e =
      let left = s.xfer.len - s.xfer.ofs in
      let all : chunk s ≡ left = packet_len-short left (omega arith) in
      let (state, out) = sent.ends (omega arith) in
      let (u, polled, (end, armed)) =
        Returns-ok (ep0_poll sv (ack_in ∷ quiet ∷ []) t)
          (poll-last t (Sent-IsQuiet h sent) state) in
      rw polled (record {
        whole =
            append-nil (in_packet t)
            ∙ in_packet-payload h sent
            ∙ ap (λ k. take k (drop s.xfer.ofs xs)) all;
        shape = rw (in_packet-payload h sent, length-payload s h.reads) (omega arith);
        state = end;
        armed = armed ∙ out;
      })
  host_reads-Delivered (suc n) s t h sent e =
      let left = s.xfer.len - s.xfer.ofs in
      let full : chunk s ≡ 64 = packet_len-full left (omega arith) in
      let next = Serves-next s t h sent (omega arith) in
      let (u, polled, later) =
        Returns-ok (ep0_poll sv (ack_in ∷ quiet ∷ []) t) (poll-Sent t next) in
      let (r, reads, rest) = Returns-ok (host_reads sv (suc n) u) (
        host_reads-Delivered n (map_hw ack_in t) u (Serves-ack_in next) later
          (omega (arith, sent.len, sent.ofs, full))) in
      rw (polled, reads)
        (record {
          whole =
              ap (λ p. p ++ concat r.0) (in_packet-payload h sent)
              ∙ ap (λ q. payload xs s ++ q) rest.whole
              ∙ sym (take-split s t full sent);
          shape =
              FullThenShort-cons (in_packet t) r.0
                (rw (in_packet-payload h sent, length-payload s h.reads) full) rest.shape;
          state = rest.state;
          armed = rest.armed;
        })
