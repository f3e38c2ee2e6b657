-- ===== src/Dcd/Stream/Filled.antt =====
-- What filling a buffer of an IN endpoint does.
use no2usb.Base.{
  ℕ, ◌+◌, ◌-◌, ◌<◌, ◌≤◌, ◌≡◌, ◌==◌, ltb, not, bit_or, Bool-cases, ltb→lt, Bool, true, if◌then◌else◌,
  List, ◌∷◌, Option-cases, inl, inr, arith,
}
use no2usb.Hw.{bd_len, bd_rdy_data}
use no2usb.Hw.Words.{bd_len-bd_rdy_data}
use no2usb.Dcd.State.{DcdEp, TinyUsb, xfer_complete, bd_at, set_csr, flip}
use no2usb.Dcd.Memory.{ram_load, dcd_data_write, copy_words}
use no2usb.Dcd.Transfer.{
  View, in_plen, end_xfer, in_load, in_submit, in_finish, in_packet, fill_next,
}
use no2usb.Dcd.Packets.{packets_of-more, packets_of-last}
use no2usb.Dcd.Slots.{ready, packet_at}
use no2usb.Dcd.Copy.{Apart, data_read-dcd_data_write, data_read-frame}
use no2usb.Dcd.Stream.{Line, base, rest, IsLine}

-- The length of the next packet.
abbrev pub plen_of : DcdEp → ℕ
plen_of e = if ltb e.mps (e.len - e.ofs) then e.mps else e.len - e.ofs

-- The state of an endpoint that has filled a buffer with `n` bytes.
abbrev pub filled_state : ℕ → DcdEp → DcdEp
filled_state n e =
    if e.ofs + n == e.len
    then record (end_xfer e) { bdi_fill = flip e.bdi_fill e.dual }
    else record e { ofs = e.ofs + n; plen = n; bdi_fill = flip e.bdi_fill e.dual }

module _ {A : Type 0} (tu : TinyUsb A) (epnum : ℕ) (l : Line A) (h : IsLine l) where
  in_plen-eq : in_plen l.view.eps ≡ plen_of l.view.eps
  in_plen-eq = ground (arith, h.ofs, h.len)

  abbrev pub filled : View A
  filled = fill_next (in_packet tu epnum l.view)

  pub filled-eps : filled.eps ≡ filled_state (plen_of l.view.eps) l.view.eps
  unfolding in_packet in_load in_submit in_finish
  filled-eps = elim (Option-cases l.view.eps.buf) [
    | inl e ↦ ground (arith, e, h.null e, h.ofs)
    | inr (buf, e) ↦ ground (arith, e, in_plen-eq, h.ofs, h.len)
  ]

  -- The packet that is filled in.
  abbrev pub packet_to_fill : List ℕ
  packet_to_fill = ram_load l.view.ram (base l.view.eps.buf + l.view.eps.ofs) (plen_of l.view.eps)

  abbrev pub at_end : Bool
  at_end = l.view.eps.ofs + plen_of l.view.eps == l.view.eps.len

  pub filled-regs :
      filled.regs ≡ set_csr l.view.eps.bdi_fill (bd_rdy_data (plen_of l.view.eps)) l.view.regs
  unfolding in_packet in_load in_submit in_finish
  filled-regs = elim (Option-cases l.view.eps.buf) [
    | inl e ↦ ground (arith, e, h.null e, h.ofs)
    | inr (buf, e) ↦ ground (arith, e, in_plen-eq, h.ofs, h.len)
  ]

  filled-tx :
      filled.tx
      ≡ dcd_data_write l.view.tx
          (bd_at l.view.eps.bdi_fill l.view.regs).ptr
          l.view.ram
          (base l.view.eps.buf + l.view.eps.ofs)
          (plen_of l.view.eps)
  unfolding in_packet in_load in_submit in_finish dcd_data_write copy_words
  filled-tx = elim (Option-cases l.view.eps.buf) [
    | inl e ↦ ground (arith, e, h.null e, h.ofs)
    | inr (buf, e) ↦ ground (arith, e, in_plen-eq, h.ofs, h.len)
  ]

  pub filled-app : filled.app ≡ (
      if at_end
      then tu.notify (xfer_complete (bit_or epnum 0x80) l.view.eps.len) l.view.app
      else l.view.app)
  unfolding in_packet in_load in_submit in_finish
  filled-app = elim (Option-cases l.view.eps.buf) [
    | inl e ↦ ground (arith, e, h.null e, h.ofs)
    | inr (buf, e) ↦ ground (arith, e, in_plen-eq, h.ofs, h.len)
  ]

  pub filled-ram : filled.ram ≡ l.view.ram
  unfolding in_packet in_load in_submit in_finish
  filled-ram = elim (Option-cases l.view.eps.buf) [
    | inl e ↦ ground (arith, e, h.null e, h.ofs)
    | inr (buf, e) ↦ ground (arith, e, in_plen-eq, h.ofs, h.len)
  ]

  pub plen-max : plen_of l.view.eps < 1024
  plen-max = ground (arith, h.mps_max)

  -- The packet stands in its buffer.
  pub filled-packet : packet_at filled.regs filled.tx l.view.eps.bdi_fill ≡ packet_to_fill
  filled-packet = elim (Bool-cases l.view.eps.bdi_fill) [
    | inl e ↦ ground (
      arith,
      e,
      filled-regs,
      filled-tx,
      bd_len-bd_rdy_data (plen_of l.view.eps) plen-max,
      data_read-dcd_data_write l.view.ram h.bytes l.view.tx
          (bd_at l.view.eps.bdi_fill l.view.regs).ptr (base l.view.eps.buf + l.view.eps.ofs)
          (plen_of l.view.eps),
    )
    | inr e ↦ ground (
      arith,
      e,
      filled-regs,
      filled-tx,
      bd_len-bd_rdy_data (plen_of l.view.eps) plen-max,
      data_read-dcd_data_write l.view.ram h.bytes l.view.tx
          (bd_at l.view.eps.bdi_fill l.view.regs).ptr (base l.view.eps.buf + l.view.eps.ofs)
          (plen_of l.view.eps),
    )
  ]

  -- The other buffer is left alone.
  pub filled-other :
      l.view.eps.dual ≡ true
      → ready l.view.regs (not l.view.eps.bdi_fill) ≡ true
      → packet_at l.view.regs filled.tx (not l.view.eps.bdi_fill)
        ≡ packet_at l.view.regs l.view.tx (not l.view.eps.bdi_fill)
  filled-other d r = rw filled-tx (
      data_read-frame l.view.ram l.view.tx (bd_at l.view.eps.bdi_fill l.view.regs).ptr
        (base l.view.eps.buf + l.view.eps.ofs) (plen_of l.view.eps)
        (bd_at (not l.view.eps.bdi_fill) l.view.regs).ptr
        (bd_len (bd_at (not l.view.eps.bdi_fill) l.view.regs).csr) other)
    where
      other :
          Apart
            (bd_at l.view.eps.bdi_fill l.view.regs).ptr
            (plen_of l.view.eps)
            (bd_at (not l.view.eps.bdi_fill) l.view.regs).ptr
            (bd_len (bd_at (not l.view.eps.bdi_fill) l.view.regs).csr)
      other = ground (arith, h.apart d, h.fits (not l.view.eps.bdi_fill) r)

  -- It is the first of the packets that were to be queued.
  pub filled-rest : l.view.eps.busy ≡ true → rest l.view ≡ packet_to_fill ∷ rest filled
  unfolding rest
  filled-rest b =
      let src = base l.view.eps.buf + l.view.eps.ofs in
      let left = l.view.eps.len - l.view.eps.ofs in
      let mps = l.view.eps.mps in
      elim (Bool-cases (ltb mps left)) [
        | inl more ↦
            let less : mps < left = ltb→lt mps left more in
            let at : base l.view.eps.buf + (l.view.eps.ofs + mps) ≡ src + mps = omega arith in
            let len : l.view.eps.len - (l.view.eps.ofs + mps) ≡ left - mps = omega arith in
            ground (
              arith,
              b,
              more,
              filled-eps,
              filled-ram,
              at,
              len,
              packets_of-more mps l.view.ram src left h.mps_pos less,
            )
        | inr last ↦
            let le : left ≤ mps = ground (arith, last) in
            ground (arith, b, last, h.ofs, filled-eps, packets_of-last mps l.view.ram src left le)
      ]
