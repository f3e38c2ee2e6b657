-- ===== src/Ep0/Write.antt =====
-- One packet of a write transfer: what `usb_handle_control_data` does in state `DATA_OUT`, and what
-- happens when the packet does not fit.
use no2usb.Base.{
  ℕ, zero, suc, ◌+◌, ◌-◌, ◌≤◌, ◌<◌, ◌≡◌, ◌≢◌, refl, sym, false, ◌==◌, List, [], ◌++◌, length, take,
  drop, take-append-drop, ok, fault, ◌>>=◌, Returns, inl, inr, Bool-cases, arith,
}
use no2usb.Hw.{bd_state, bd_len, bd_rdy_data}
use no2usb.Hw.Data.{data_read, length-data_read}
use no2usb.Stack.{Usb, data_out, status_done_in, ram}
use no2usb.Stack.Memory.{set_buffer, splice, store_to, store}
use no2usb.Ep0.Regs.{out_clear, in_csr, out_csr, setup_csr}
use no2usb.Ep0.Transfer.{
  map_hw, advance, take_packet, store_packet, next_packet, handle_data_out, when_data_in,
  when_data_out, handle_control_data,
}

-- The bytes of the packet that came in, less the two of its checksum.
unfoldable pub out_packet : {A : Type 0} → Usb A → List ℕ
out_packet s = data_read s.hw.rx 0 (bd_len (out_csr s.hw) - 2)

-- A write transfer into buffer `b` for which the core has received a packet.
pub record Receives {A : Type 0} (b : ℕ) (s : Usb A) : Type 0 where
  pub state : s.ctrl_state ≡ data_out
  pub done : bd_state (out_csr s.hw) ≡ 0x8000
  pub checksum : 2 ≤ bd_len (out_csr s.hw)
  pub into : s.xfer.bytes ≡ ram b

-- `t` is `s` behind the packet `p`.
pub record Took {A : Type 0} (b : ℕ) (p : List ℕ) (s t : Usb A) : Type 0 where
  pub written :
      t.buffers b
      ≡ take s.xfer.ofs (s.buffers b) ++ (p ++ drop (s.xfer.ofs + length p) (s.buffers b))
  pub others : (k : ℕ) → k ≢ b → t.buffers k ≡ s.buffers k
  pub ofs : t.xfer.ofs ≡ s.xfer.ofs + length p
  pub len : t.xfer.len ≡ s.xfer.len
  pub bytes : t.xfer.bytes ≡ s.xfer.bytes
  pub setup : setup_csr t.hw ≡ setup_csr s.hw
  pub complete :
      s.xfer.ofs + length p ≡ s.xfer.len
      → (t.ctrl_state ≡ status_done_in) × (in_csr t.hw ≡ bd_rdy_data 0)
  pub partial :
      s.xfer.ofs + length p ≢ s.xfer.len
      → (t.ctrl_state ≡ data_out) × (out_csr t.hw ≡ bd_rdy_data 64)

with_buffers : {A : Type 0} → (ℕ → List ℕ) → Usb A → Usb A
with_buffers buffers s = record s { buffers = buffers }

module _ {A : Type 0} (b : ℕ) (s : Usb A) (into : s.xfer.bytes ≡ ram b) where
  store_packet-fits :
      (n : ℕ)
      → s.xfer.ofs + n ≤ length (s.buffers b)
      → (buffers : ℕ → List ℕ) × (store_packet n s ≡ ok (with_buffers buffers s))
        × (buffers b
            ≡ take s.xfer.ofs (s.buffers b)
              ++ (data_read s.hw.rx 0 n ++ drop (s.xfer.ofs + n) (s.buffers b)))
        × ((k : ℕ) → k ≢ b → buffers k ≡ s.buffers k)
  unfolding store_packet with_buffers
  store_packet-fits zero room =
      let none_in : data_read s.hw.rx 0 0 ≡ [] = unfold data_read in refl in
      let same : s.xfer.ofs + 0 ≡ s.xfer.ofs = omega arith in
      (
        s.buffers,
        refl,
        rw (none_in, same) (sym (take-append-drop s.xfer.ofs (s.buffers b))),
        λ k _. refl,
      )
  store_packet-fits (suc n) room =
      let p = data_read s.hw.rx 0 (suc n) in
      let size : length p ≡ suc n = length-data_read s.hw.rx 0 (suc n) in
      let new = take s.xfer.ofs (s.buffers b) ++ (p ++ drop (s.xfer.ofs + suc n) (s.buffers b)) in
      let some_bytes : (suc n == 0) ≡ false = ground arith in
      let stored : store s.xfer.bytes s.xfer.ofs p s
          ≡ ok (with_buffers (set_buffer b new s.buffers) s) =
        unfold store store_to splice in rw into (rw size (ground (arith, room))) in
      (set_buffer b new s.buffers, rw (some_bytes, stored), ground arith, λ k ne. ground arith)

  store_packet-past :
      (n : ℕ)
      → length (s.buffers b) < s.xfer.ofs + n
      → s.xfer.ofs ≤ length (s.buffers b)
      → store_packet n s ≡ fault
  unfolding store_packet store store_to splice
  store_packet-past n past within = rw into (ground (arith, length-data_read s.hw.rx 0 n))

-- The state behind a packet of `n` bytes, when the buffers are as given.
taken : {A : Type 0} → ℕ → (ℕ → List ℕ) → Usb A → Usb A
taken n buffers s =
    next_packet (out_csr s.hw) (map_hw out_clear (advance n (with_buffers buffers s)))

module _ {A : Type 0} (b : ℕ) (s : Usb A) (h : Receives b s) where
  count : length (out_packet s) ≡ bd_len (out_csr s.hw) - 2
  unfolding out_packet
  count = length-data_read s.hw.rx 0 (bd_len (out_csr s.hw) - 2)

  taken-Took :
      (n : ℕ) (buffers : ℕ → List ℕ) (p : List ℕ)
      → length p ≡ n
      → buffers b ≡ take s.xfer.ofs (s.buffers b) ++ (p ++ drop (s.xfer.ofs + n) (s.buffers b))
      → ((k : ℕ) → k ≢ b → buffers k ≡ s.buffers k)
      → Took b p s (taken n buffers s)
  unfolding taken next_packet with_buffers out_clear
  taken-Took n buffers p size written others = elim (Bool-cases (s.xfer.ofs + n == s.xfer.len)) [
    | inl last ↦ rw last (record {
      written = rw size written;
      others = others;
      ofs = rw size;
      len = refl;
      bytes = refl;
      setup = refl;
      complete = λ _. (refl, refl);
      partial = λ more. absurd (more (ground arith));
    })
    | inr more ↦
        rw (more, h.done)
          (record {
            written = rw size written;
            others = others;
            ofs = rw size;
            len = refl;
            bytes = refl;
            setup = refl;
            complete = λ last. absurd (ground arith);
            partial = λ _. (h.state, refl);
          })
  ]

  -- The packet is stored, its descriptor cleared, and the rest decided.
  received : handle_control_data s ≡ (
      store_packet (bd_len (out_csr s.hw) - 2) s >>= λ t.
      ok (next_packet (out_csr s.hw) (map_hw out_clear (advance (bd_len (out_csr s.hw) - 2) t))))
  unfolding handle_control_data when_data_in when_data_out handle_data_out take_packet
  received = ground (arith, h.state, h.done, h.checksum)

  -- A packet that ends inside the buffer is put there, at the offset, and the offset moves behind
  -- it. When that is the length of the transfer the empty packet of the status stage is queued, and
  -- otherwise room for the next packet. Other buffers stay as they are.
  pub handle_control_data-Took :
      s.xfer.ofs + length (out_packet s) ≤ length (s.buffers b)
      → Returns (Took b (out_packet s) s) (handle_control_data s)
  handle_control_data-Took room =
      let n = bd_len (out_csr s.hw) - 2 in
      let (buffers, stored, written, others) =
        store_packet-fits b s h.into n (omega (arith, room, count)) in
      rw (received, stored)
        (unfold taken out_packet in taken-Took n buffers (out_packet s) count written others)

  -- Nothing compares the packet with the length of the transfer or with the size of the buffer: a
  -- packet that reaches past the end of the buffer is written there all the same.
  pub handle_control_data-overrun :
      s.xfer.ofs ≤ length (s.buffers b)
      → length (s.buffers b) < s.xfer.ofs + length (out_packet s)
      → handle_control_data s ≡ fault
  handle_control_data-overrun within past = rw (
    received,
    store_packet-past b s h.into (bd_len (out_csr s.hw) - 2) (omega (arith, past, count)) within,
  )
