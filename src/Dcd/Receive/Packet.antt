-- ===== src/Dcd/Receive/Packet.antt =====
-- What is done with one packet from the host.
use no2usb.Base.{
  ℕ, ◌+◌, ◌<◌, ◌≤◌, ◌^◌, ◌≡◌, ◌==◌, ◌-◌, leb, ltb, refl, subst, ap, sym, ◌∙◌, ◌⊎◌, inl, inr, Bool,
  Bool-cases, true, false, not, ◌||◌, if◌then◌else◌, List, [], ◌∷◌, length, none, some, ok, arith,
}
use no2usb.Hw.{Ep, bd_len}
use no2usb.Hw.Data.{put, data_read, read_words, length-data_read}
use no2usb.Dcd.State.{TinyUsb, xfer_complete, bd_at, set_csr}
use no2usb.Dcd.Memory.{ram_load, ram_store, dcd_data_read}
use no2usb.Dcd.Transfer.{View, out_plen, out_store, out_finish, out_packet}

-- Bytes that are stored stand in memory, and the rest of memory is as it was.
pub ram_store-below :
    (ram : ℕ → ℕ) (dst : ℕ) (bs : List ℕ) (k : ℕ) → k < dst → ram_store ram dst bs k ≡ ram k
unfolding ram_store
ram_store-below ram dst [] k h = refl
ram_store-below ram dst (b ∷ bs) k h =
    ground (arith, ram_store-below (put ram dst b) (dst + 1) bs k (omega arith))

pub ram_store-above :
    (ram : ℕ → ℕ) (dst : ℕ) (bs : List ℕ) (k : ℕ)
    → dst + length bs ≤ k
    → ram_store ram dst bs k ≡ ram k
unfolding ram_store
ram_store-above ram dst [] k h = refl
ram_store-above ram dst (b ∷ bs) k h =
    ground (arith, ram_store-above (put ram dst b) (dst + 1) bs k (omega arith))

ram_load-ram_store :
    (ram : ℕ → ℕ) (dst : ℕ) (bs : List ℕ) → ram_load (ram_store ram dst bs) dst (length bs) ≡ bs
unfolding ram_store ram_load
ram_load-ram_store ram dst [] = refl
ram_load-ram_store ram dst (b ∷ bs) = ground (
  arith,
  ram_load-ram_store (put ram dst b) (dst + 1) bs,
  ram_store-below (put ram dst b) (dst + 1) bs dst (omega arith),
)

-- The memory of a transfer is as it was outside its `len` bytes.
abbrev pub SameOutside : (buf len : ℕ) → (ram ram' : ℕ → ℕ) → Type 0
SameOutside buf len ram ram' = (k : ℕ) → (k < buf) ⊎ (buf + len ≤ k) → ram' k ≡ ram k

abbrev pub min : ℕ → ℕ → ℕ
min a b = if ltb a b then a else b

-- How many bytes of the next packet are taken, and where they go.
abbrev pub next_plen : {A : Type 0} → View A → ℕ
next_plen v = out_plen (bd_at v.eps.bdi_retire v.regs).csr v.eps

abbrev pub next_bytes : {A : Type 0} → View A → List ℕ
next_bytes v = data_read v.rx (bd_at v.eps.bdi_retire v.regs).ptr (next_plen v)

store_nothing :
    (ram rx : ℕ → ℕ) (dst ptr n : ℕ) → n ≡ 0 → ram_store ram dst (data_read rx ptr n) ≡ ram
unfolding ram_store data_read read_words
store_nothing ram rx dst ptr n e = rw e refl

same_bd : (i : Bool) (e : Ep) (csr : ℕ) → (bd_at i (set_csr i csr e)).ptr ≡ (bd_at i e).ptr
same_bd false e csr = refl
same_bd true e csr = refl

module _ {A : Type 0} where
  -- The bytes fit behind the offset.
  pub next_plen-fits :
      (v : View A)
      → v.eps.ofs ≤ v.eps.len
      → v.eps.len < 2 ^ 16
      → v.eps.ofs + next_plen v ≤ v.eps.len
  next_plen-fits v h l = ground arith

  -- What is taken of a packet of `m` bytes with its checksum.
  next_plen-min :
      (m : ℕ) (v : View A)
      → v.eps.ofs ≤ v.eps.len
      → v.eps.len < 2 ^ 16
      → bd_len (bd_at v.eps.bdi_retire v.regs).csr ≡ m + 2
      → m + 2 < 1024
      → next_plen v ≡ min m (v.eps.len - v.eps.ofs)
  next_plen-min m v h l count small = rw count (ground arith)

  -- The endpoint when the packet's bytes are in memory.
  abbrev pub received : ℕ → View A → View A
  received buf v = record v {
    regs = set_csr v.eps.bdi_retire 0 v.regs;
    eps = record (v.eps) { ofs = v.eps.ofs + next_plen v; plen = next_plen v };
    ram = ram_store v.ram (buf + v.eps.ofs) (next_bytes v);
  }

  stores-outside :
      (buf : ℕ) (v : View A)
      → SameOutside (buf + v.eps.ofs) (next_plen v) v.ram (received buf v).ram
  stores-outside buf v k (inl below) =
      ram_store-below v.ram (buf + v.eps.ofs) (next_bytes v) k below
  stores-outside buf v k (inr above) = ram_store-above v.ram (buf + v.eps.ofs) (next_bytes v) k (
      omega (arith, above, length-data_read v.rx (bd_at v.eps.bdi_retire v.regs).ptr (next_plen v)))

module _ {A : Type 0} (tu : TinyUsb A) (epnum : ℕ) where
  pub out_packet-received :
      (buf : ℕ) (v : View A)
      → v.eps.buf ≡ some buf
      → v.eps.ofs ≤ v.eps.len
      → v.eps.len < 2 ^ 16
      → out_packet tu epnum v ≡ ok (out_finish tu epnum (received buf v))
  unfolding out_packet out_store dcd_data_read
  out_packet-received buf v e h l = elim (Bool-cases (next_plen v == 0)) [
    | inl z ↦
        let n : next_plen v ≡ 0 = ground (arith, z) in
        let same =
          store_nothing v.ram v.rx (buf + v.eps.ofs) (bd_at v.eps.bdi_retire v.regs).ptr
            (next_plen v) n in
        ground (arith, e, n, h, l, same)
    | inr p ↦ ground (arith, e, p, h, l, next_plen-fits v h l, same_bd v.eps.bdi_retire v.regs 0)
  ]

  -- The same for a transfer of no bytes, which has no buffer.
  pub out_packet-nothing :
      (buf : ℕ) (v : View A)
      → v.eps.buf ≡ none
      → v.eps.len ≡ 0
      → v.eps.ofs ≤ v.eps.len
      → out_packet tu epnum v ≡ ok (out_finish tu epnum (received buf v))
  unfolding out_packet out_store
  out_packet-nothing buf v e l h =
      let n : next_plen v ≡ 0 = ground (arith, l, h) in
      let same =
        store_nothing v.ram v.rx (buf + v.eps.ofs) (bd_at v.eps.bdi_retire v.regs).ptr (next_plen v)
          n in
      ground (arith, e, n, same)

  -- The end of a transfer leaves the rest of the endpoint, and memory, alone.
  pub finish-dual : (v : View A) → (out_finish tu epnum v).eps.dual ≡ v.eps.dual
  unfolding out_finish
  finish-dual v = ground arith

  pub finish-retire : (v : View A) → (out_finish tu epnum v).eps.bdi_retire ≡ v.eps.bdi_retire
  unfolding out_finish
  finish-retire v = ground arith

  pub finish-ram : (v : View A) → (out_finish tu epnum v).ram ≡ v.ram
  unfolding out_finish
  finish-ram v = ground arith

  pub finish-regs : (v : View A) → (out_finish tu epnum v).regs ≡ v.regs
  unfolding out_finish
  finish-regs v = ground arith

  -- A packet of `m` bytes, for which the core has put their number and two for the checksum into the
  -- descriptor, at most 1023 together, for a transfer that is going on, with a buffer for its less than
  -- 2^16 bytes. Its first bytes, as many as are left of the transfer,
  -- stand in memory behind those before it, and nothing else is written, the checksum in particular.
  -- The descriptor is free for the next packet. The transfer ends exactly when what was taken is
  -- shorter than the endpoint's packets, or the length is reached; then the stack is told the number
  -- of bytes that were received, and otherwise nothing.
  pub out_packet-stores :
      (buf m : ℕ) (v : View A)
      → v.eps.busy ≡ true
      → v.eps.buf ≡ some buf
      → v.eps.ofs ≤ v.eps.len
      → v.eps.len < 2 ^ 16
      → bd_len (bd_at v.eps.bdi_retire v.regs).csr ≡ m + 2
      → m + 2 < 1024
      → (w : View A) × (out_packet tu epnum v ≡ ok w)
        × (ram_load w.ram (buf + v.eps.ofs) (min m (v.eps.len - v.eps.ofs))
            ≡ data_read v.rx (bd_at v.eps.bdi_retire v.regs).ptr (min m (v.eps.len - v.eps.ofs)))
        × SameOutside (buf + v.eps.ofs) (min m (v.eps.len - v.eps.ofs)) v.ram w.ram
        × (w.regs ≡ set_csr v.eps.bdi_retire 0 v.regs)
        × (w.eps.busy
            ≡ not (ltb (min m (v.eps.len - v.eps.ofs)) v.eps.mps || leb (v.eps.len - v.eps.ofs) m))
        × (w.app ≡ (
            if w.eps.busy
            then v.app
            else tu.notify (xfer_complete epnum (v.eps.ofs + min m (v.eps.len - v.eps.ofs))) v.app))
  unfolding out_finish
  out_packet-stores buf m v b e h l count small =
      let r = received buf v in
      let taken = min m (v.eps.len - v.eps.ofs) in
      let n : next_plen v ≡ min m (v.eps.len - v.eps.ofs) = next_plen-min m v h l count small in
      let end : (v.eps.len == v.eps.ofs + min m (v.eps.len - v.eps.ofs))
          ≡ leb (v.eps.len - v.eps.ofs) m =
        ground arith in
      let stored : ram_load (out_finish tu epnum r).ram (buf + v.eps.ofs) taken
          ≡ data_read v.rx (bd_at v.eps.bdi_retire v.regs).ptr taken =
        rw (finish-ram r) (
          subst
            (λ k.
              ram_load r.ram (buf + v.eps.ofs) k
              ≡ data_read v.rx (bd_at v.eps.bdi_retire v.regs).ptr k)
            n
            (sym (
                ap (ram_load r.ram (buf + v.eps.ofs))
                  (length-data_read v.rx (bd_at v.eps.bdi_retire v.regs).ptr (next_plen v)))
              ∙ ram_load-ram_store v.ram (buf + v.eps.ofs) (next_bytes v))) in
      let around : SameOutside (buf + v.eps.ofs) taken v.ram (out_finish tu epnum r).ram =
        rw (finish-ram r)
          (subst (λ k. SameOutside (buf + v.eps.ofs) k v.ram r.ram) n (stores-outside buf v)) in
      (
        out_finish tu epnum r,
        out_packet-received buf v e h l,
        stored,
        around,
        finish-regs r,
        ground (arith, b, n, end),
        ground (arith, b, n, end),
      )
