-- ===== src/Dcd/Transfer.antt =====
-- Moving a transfer on: `_usb_ep_advance_xfer_in` and `_usb_ep_advance_xfer_out` of
-- fw/tinyusb/dcd_no2usb.c. The registers are taken to stand still while one of them runs.
use no2usb.Base.{
  ℕ, zero, suc, ◌+◌, ◌-◌, ◌%◌, ◌^◌, ◌==◌, ltb, bit_or, false, not, ◌&&◌, ◌||◌, if◌then◌else◌,
  Option, none, some, Run, ok, fault, spin, ◌>>=◌,
}
use no2usb.Hw.{
  Ep, bd_state, bd_len, bd_rdy_data, bd_state_none, bd_state_done_ok, bd_state_done_err,
}
use no2usb.Dcd.State.{
  Dir, dir_out, dir_in, DcdEp, Dcd, xfer_complete, TinyUsb, bd_at, set_csr, flip, ep_regs, put_regs,
  ep_state, put_state,
}
use no2usb.Dcd.Memory.{dcd_data_write, dcd_data_read}

-- What the two functions work on: `*epr`, `*eps`, packet memory, memory, and the stack's state.
pub record View (A : Type 0) : Type 0 where
  pub regs : Ep
  pub eps : DcdEp
  pub tx : ℕ → ℕ
  pub rx : ℕ → ℕ
  pub ram : ℕ → ℕ
  pub app : A

-- A difference in a `uint16_t`.
abbrev pub sub16 : ℕ → ℕ → ℕ
sub16 a b = (a + 2 ^ 16 - b) % 2 ^ 16

abbrev pub add16 : ℕ → ℕ → ℕ
add16 a b = (a + b) % 2 ^ 16

-- The transfer is over.
abbrev pub end_xfer : DcdEp → DcdEp
end_xfer e = record e { busy = false; buf = none; len = 0; ofs = 0; plen = 0 }

-- The size of the next packet.
abbrev pub in_plen : DcdEp → ℕ
in_plen e = let left = sub16 e.len e.ofs in if ltb e.mps left then e.mps else left

-- How much of a received packet is taken: its length without the checksum, but no more than is
-- left of the transfer.
abbrev pub out_plen : ℕ → DcdEp → ℕ
out_plen csr e =
    let n = sub16 (bd_len csr) 2 in if ltb e.len (e.ofs + n) then sub16 e.len e.ofs else n

module _ {A : Type 0} where
  -- The state of the descriptor that is next to be retired, or to be filled.
  abbrev pub retire_state : View A → ℕ
  retire_state v = bd_state (bd_at v.eps.bdi_retire v.regs).csr

  abbrev pub fill_state : View A → ℕ
  fill_state v = bd_state (bd_at v.eps.bdi_fill v.regs).csr

  -- `epr->bd[eps->bdi_retire].csr = x;` and `epr->bd[eps->bdi_fill].csr = x;`
  abbrev pub set_retire : ℕ → View A → View A
  set_retire x v = record v { regs = set_csr v.eps.bdi_retire x v.regs }

  abbrev pub set_fill : ℕ → View A → View A
  set_fill x v = record v { regs = set_csr v.eps.bdi_fill x v.regs }

  abbrev pub retire_next : View A → View A
  retire_next v = record v {
    eps = record (v.eps) { bdi_retire = flip v.eps.bdi_retire v.eps.dual };
  }

  abbrev pub fill_next : View A → View A
  fill_next v = record v { eps = record (v.eps) { bdi_fill = flip v.eps.bdi_fill v.eps.dual } }

  -- The first loop of `_usb_ep_advance_xfer_in`.
  unfoldable pub in_retire : ℕ → View A → Run (View A)
  in_retire zero v = spin
  in_retire (suc f) v =
      let next = in_retire f (retire_next (set_retire 0 v)) in
      if retire_state v == bd_state_done_ok || retire_state v == bd_state_done_err
      then next
      else ok v

  -- The packet is put into its buffer, if there are bytes to send.
  unfoldable pub in_load : Option ℕ → View A → View A
  unfolding dcd_data_write
  in_load none v = v
  in_load (some buf) v =
      let n = in_plen v.eps in
      record v {
        eps = record (v.eps) { plen = n };
        tx = dcd_data_write v.tx (bd_at v.eps.bdi_fill v.regs).ptr v.ram (buf + v.eps.ofs) n;
      }

  -- The packet is queued, and the offset moves on.
  unfoldable pub in_submit : View A → View A
  in_submit v =
      let w = set_fill (bd_rdy_data v.eps.plen) v in
      record w { eps = record (w.eps) { ofs = add16 v.eps.ofs v.eps.plen } }

  module _ (tu : TinyUsb A) (epnum : ℕ) where
    -- `dcd_event_xfer_complete`, when the length is reached.
    unfoldable pub in_finish : View A → View A
    in_finish v =
        if v.eps.ofs == v.eps.len
        then record v {
          eps = end_xfer v.eps;
          app = tu.notify (xfer_complete (bit_or epnum 0x80) v.eps.len) v.app;
        }
        else v

    -- A descriptor is filled.
    unfoldable pub in_packet : View A → View A
    unfolding in_load in_submit in_finish
    in_packet v = in_finish (in_submit (in_load v.eps.buf v))

    -- The second loop.
    unfoldable pub in_fill : ℕ → View A → Run (View A)
    in_fill zero v = spin
    in_fill (suc f) v =
        let next = in_fill f (fill_next (in_packet v)) in
        if v.eps.busy && fill_state v == bd_state_none then next else ok v

    -- `_usb_ep_advance_xfer_in` on its endpoint. Each loop has at most two rounds that change
    -- something, one for each descriptor.
    unfoldable pub advance_in : View A → Run (View A)
    unfolding in_retire in_fill
    advance_in v = in_retire 4 v >>= in_fill 4

    -- The packet's bytes go to memory, if there are any.
    unfoldable pub out_store : Option ℕ → ℕ → View A → Run (View A)
    unfolding dcd_data_read
    out_store none n v = if n == 0 then ok v else fault
    out_store (some buf) n v =
        let ptr = (bd_at v.eps.bdi_retire v.regs).ptr in
        let stored = record v {
          ram = dcd_data_read v.ram (buf + v.eps.ofs) v.rx ptr n;
          eps = record (v.eps) { ofs = add16 v.eps.ofs n };
        } in
        ok (if n == 0 then v else stored)

    -- The transfer ends with a short packet, or when its length is reached.
    unfoldable pub out_finish : View A → View A
    out_finish v =
        if ltb v.eps.plen v.eps.mps || v.eps.len == v.eps.ofs
        then record v {
          eps = end_xfer v.eps;
          app = tu.notify (xfer_complete epnum v.eps.ofs) v.app;
        }
        else v

    -- A received packet is taken.
    unfoldable pub out_packet : View A → Run (View A)
    unfolding out_store out_finish
    out_packet v =
        let n = out_plen (bd_at v.eps.bdi_retire v.regs).csr v.eps in
        let w = set_retire 0 (record v { eps = record (v.eps) { plen = n } }) in
        out_store w.eps.buf n w >>= λ u. ok (out_finish u)

    -- The first loop of `_usb_ep_advance_xfer_out`. After an error it is `bd[0]` that is queued.
    unfoldable pub out_retire : ℕ → View A → Run (View A)
    unfolding out_packet
    out_retire zero v = spin
    out_retire (suc f) v =
        let taken = (out_packet v >>= λ w. out_retire f (retire_next w)) in
        let retried =
          out_retire f
            (retire_next (record v { regs = set_csr false (bd_rdy_data v.eps.mps) v.regs })) in
        if retire_state v == bd_state_done_ok
        then (if v.eps.busy then taken else ok v)
        else if retire_state v == bd_state_done_err
        then retried
        else ok v

    -- The second loop: endpoint 0 gets a buffer only for a transfer.
    unfoldable pub out_fill : ℕ → View A → Run (View A)
    out_fill zero v = spin
    out_fill (suc f) v =
        let next = out_fill f (fill_next (set_fill (bd_rdy_data v.eps.mps) v)) in
        if fill_state v == bd_state_none && (v.eps.busy || not (epnum == 0)) then next else ok v

    -- `_usb_ep_advance_xfer_out` on its endpoint.
    unfoldable pub advance_out : View A → Run (View A)
    unfolding out_retire out_fill
    advance_out v = out_retire 4 v >>= out_fill 4

-- The view of an endpoint, and the state with a view put back.
abbrev pub view : {A : Type 0} → ℕ → Dir → Dcd A → View A
view n dir s = record {
  regs = ep_regs n dir s.hw;
  eps = ep_state n dir s;
  tx = s.hw.tx;
  rx = s.hw.rx;
  ram = s.ram;
  app = s.app;
}

unfoldable pub put_view : {A : Type 0} → ℕ → Dir → View A → Dcd A → Dcd A
unfolding put_regs put_state
put_view n dir v s =
    let t = put_state n dir v.eps s in
    record t { hw = record (put_regs n dir v.regs s.hw) { tx = v.tx }; ram = v.ram; app = v.app }

module _ {A : Type 0} (tu : TinyUsb A) where
  -- The two functions, by the number of the endpoint.
  unfoldable pub ep_advance_xfer_in : ℕ → Dcd A → Run (Dcd A)
  unfolding advance_in put_view
  ep_advance_xfer_in n s = advance_in tu n (view n dir_in s) >>= λ v. ok (put_view n dir_in v s)

  unfoldable pub ep_advance_xfer_out : ℕ → Dcd A → Run (Dcd A)
  unfolding advance_out put_view
  ep_advance_xfer_out n s = advance_out tu n (view n dir_out s) >>= λ v. ok (put_view n dir_out v s)
