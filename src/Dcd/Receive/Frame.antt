-- ===== src/Dcd/Receive/Frame.antt =====
-- A transfer from the host keeps to its bytes of memory.
use no2usb.Base.{
  ℕ, zero, suc, ◌+◌, ◌<◌, ◌≤◌, ◌^◌, ◌≡◌, ◌==◌, ◌∙◌, ◌⊎◌, none, inl, inr, Bool-cases, true, false,
  not, ◌&&◌, ◌||◌, some, ok, arith,
}
use no2usb.Hw.{bd_state, bd_rdy_data}
use no2usb.Hw.Data.{length-data_read}
use no2usb.Hw.Words.{bd_state-bd_rdy_data}
use no2usb.Dcd.State.{TinyUsb, bd_at, set_csr}
use no2usb.Dcd.Stream.Turn.{free, fewer_free}
use no2usb.Dcd.Transfer.{
  View, retire_state, out_packet, out_finish, out_retire, out_fill, advance_out, set_fill,
  fill_next, retire_next,
}
use no2usb.Dcd.Receive.Packet.{
  SameOutside, next_plen, next_bytes, received, ram_store-below, ram_store-above, next_plen-fits,
  out_packet-received, out_packet-nothing, finish-dual, finish-retire, finish-ram, finish-regs,
}
use no2usb.Dcd.Receive.Rounds.{to_do, less_taken, less_retried, few_to_do, few_free, in_order-flip}

-- The endpoint's bytes: those given, or none at all.
abbrev pub Target : {A : Type 0} → (buf len : ℕ) → View A → Type 0
Target buf len v =
    ((v.eps.buf ≡ some buf) × (v.eps.len ≡ len)) ⊎ ((v.eps.buf ≡ none) × (v.eps.len ≡ 0))

module _ {A : Type 0} (tu : TinyUsb A) (epnum : ℕ) where
  -- An endpoint that receives the `len` bytes from `buf` on, or has received them.
  pub record IsReceiving (buf len : ℕ) (ram : ℕ → ℕ) (v : View A) : Type 0 where
    pub target : v.eps.busy ≡ true → Target buf len v
    pub ofs : v.eps.ofs ≤ v.eps.len
    pub len_max : v.eps.len < 2 ^ 16
    pub mps_max : v.eps.mps < 1024
    pub order : v.eps.dual ≡ false → v.eps.bdi_retire ≡ false
    pub outside : SameOutside buf len ram v.ram

  -- A received packet goes to memory behind those before it, and no further than the end.
  finished-outside :
      (buf len : ℕ) (ram : ℕ → ℕ) (v : View A)
      → IsReceiving buf len ram v
      → v.eps.busy ≡ true
      → SameOutside buf len ram (received buf v).ram
  finished-outside buf len ram v h b k (inl below) =
      ram_store-below v.ram (buf + v.eps.ofs) (next_bytes v) k (omega arith)
      ∙ h.outside k (inl below)
  finished-outside buf len ram v h b k (inr above) =
      ram_store-above v.ram (buf + v.eps.ofs) (next_bytes v) k (
        ground (
          arith,
          h.target b,
          next_plen-fits v h.ofs h.len_max,
          length-data_read v.rx (bd_at v.eps.bdi_retire v.regs).ptr (next_plen v),
        ))
      ∙ h.outside k (inr above)

  taken_packet :
      (buf len : ℕ) (ram : ℕ → ℕ) (v : View A)
      → IsReceiving buf len ram v
      → v.eps.busy ≡ true
      → out_packet tu epnum v ≡ ok (out_finish tu epnum (received buf v))
  taken_packet buf len ram v h b = elim (h.target b) [
    | inl (at, size) ↦ out_packet-received tu epnum buf v at h.ofs h.len_max
    | inr (nowhere, nothing) ↦ out_packet-nothing tu epnum buf v nowhere nothing h.ofs
  ]

  abbrev finished : ℕ → View A → View A
  finished buf v = retire_next (out_finish tu epnum (received buf v))

  finished-IsReceiving :
      (buf len : ℕ) (ram : ℕ → ℕ) (v : View A)
      → IsReceiving buf len ram v
      → v.eps.busy ≡ true
      → IsReceiving buf len ram (finished buf v)
  unfolding out_finish
  finished-IsReceiving buf len ram v h b = record {
    target = ground (arith, h.target b);
    ofs = ground (arith, next_plen-fits v h.ofs h.len_max);
    len_max = ground (arith, h.len_max);
    mps_max = ground (arith, h.mps_max);
    order = rw (finish-dual tu epnum (received buf v)) (
        rw (finish-retire tu epnum (received buf v))
          (in_order-flip v.eps.dual v.eps.bdi_retire h.order));
    outside = rw (finish-ram tu epnum (received buf v)) (finished-outside buf len ram v h b);
  }

  out_retire-IsReceiving :
      (f : ℕ) (buf len : ℕ) (ram : ℕ → ℕ) (v : View A)
      → IsReceiving buf len ram v
      → to_do v.eps.dual v.eps.bdi_retire v.regs < f
      → (w : View A) × (out_retire tu epnum f v ≡ ok w) × IsReceiving buf len ram w
  unfolding out_retire
  out_retire-IsReceiving zero buf len ram v h m = absurd (omega arith)
  out_retire-IsReceiving (suc f) buf len ram v h m = elim (Bool-cases (retire_state v == 0x8000)) [
    | inl d ↦ elim (Bool-cases v.eps.busy) [
      | inl b ↦
          let less : to_do (finished buf v).eps.dual (finished buf v).eps.bdi_retire
                (finished buf v).regs
              < f =
            rw (finish-dual tu epnum (received buf v)) (
              rw (finish-retire tu epnum (received buf v)) (
                rw (finish-regs tu epnum (received buf v)) (
                  omega (
                    arith,
                    m,
                    less_taken v.eps.dual v.eps.bdi_retire v.regs h.order (ground (arith, d)),
                  )))) in
          let (w, e, k) =
            out_retire-IsReceiving f buf len ram (finished buf v)
              (finished-IsReceiving buf len ram v h b) less in
          (w, ground (arith, d, b, e, taken_packet buf len ram v h b), k)
      | inr b ↦ (v, ground (arith, d, b), h)
    ]
    | inr d ↦ elim (Bool-cases (retire_state v == 0xa000)) [
      | inl x ↦
          let c = bd_state-bd_rdy_data v.eps.mps h.mps_max in
          let err : bd_state (bd_at v.eps.bdi_retire v.regs).csr ≡ 0xa000 = ground (arith, x) in
          let retried =
            retire_next (record v { regs = set_csr false (bd_rdy_data v.eps.mps) v.regs }) in
          let (w, e, k) =
            out_retire-IsReceiving f buf len ram retried
              (record {
                target = h.target;
                ofs = h.ofs;
                len_max = h.len_max;
                mps_max = h.mps_max;
                order = in_order-flip v.eps.dual v.eps.bdi_retire h.order;
                outside = h.outside;
              })
              (omega (
                arith,
                m,
                less_retried v.eps.dual v.eps.bdi_retire v.regs (bd_rdy_data v.eps.mps) h.order err
                    c,
              )) in
          (w, ground (arith, d, x, e), k)
      | inr x ↦ (v, ground (arith, d, x), h)
    ]
  ]

  out_fill-IsReceiving :
      (f : ℕ) (buf len : ℕ) (ram : ℕ → ℕ) (v : View A)
      → IsReceiving buf len ram v
      → free v.regs < f
      → (w : View A) × (out_fill tu epnum f v ≡ ok w) × IsReceiving buf len ram w
  unfolding out_fill
  out_fill-IsReceiving zero buf len ram v h m = absurd (omega arith)
  out_fill-IsReceiving (suc f) buf len ram v h m =
      elim (Bool-cases
        (bd_state (bd_at v.eps.bdi_fill v.regs).csr == 0 && (v.eps.busy || not (epnum == 0)))) [
          | inl b ↦
              let c = bd_state-bd_rdy_data v.eps.mps h.mps_max in
              let unused : bd_state (bd_at v.eps.bdi_fill v.regs).csr ≡ 0 = ground (arith, b) in
              let less = fewer_free v.eps.bdi_fill (bd_rdy_data v.eps.mps) v.regs unused c in
              let (w, e, k) =
                out_fill-IsReceiving f buf len ram (fill_next (set_fill (bd_rdy_data v.eps.mps) v))
                  (record {
                    target = h.target;
                    ofs = h.ofs;
                    len_max = h.len_max;
                    mps_max = h.mps_max;
                    order = h.order;
                    outside = h.outside;
                  })
                  (omega (arith, m, less)) in
              (w, ground (arith, b, e), k)
          | inr b ↦ (v, ground (arith, b), h)
        ]

  -- For a transfer from the host into the `len` bytes from `buf` on, or one of no bytes that has no
  -- buffer: however many packets the host has sent, of whatever lengths, and whatever its descriptors hold: the port's call comes to its
  -- end without a bad access, no byte of memory outside those `len` is changed, and if the transfer
  -- is still going on then it is one into the same bytes. It applies to a call without a transfer too.
  pub advance_out-frame :
      (buf len : ℕ) (v : View A)
      → IsReceiving buf len v.ram v
      → (w : View A) × (advance_out tu epnum v ≡ ok w)
        × SameOutside buf len v.ram w.ram
        × IsReceiving buf len v.ram w
  unfolding advance_out
  advance_out-frame buf len v h =
      let small : to_do v.eps.dual v.eps.bdi_retire v.regs < 4 =
        few_to_do v.eps.dual v.eps.bdi_retire v.regs in
      let (u, e, k) = out_retire-IsReceiving 4 buf len v.ram v h small in
      let (w, e', k') = out_fill-IsReceiving 4 buf len v.ram u k (few_free u.regs) in
      (w, ground (arith, e, e'), k'.outside, k')
