-- ===== src/Dcd/Endpoint.antt =====
-- The endpoint calls of the port: `dcd_edpt_open`, `dcd_edpt_xfer`, `dcd_edpt_stall` and
-- `dcd_edpt_clear_stall` of fw/tinyusb/dcd_no2usb.c.
use no2usb.Base.{
  ℕ, ◌==◌, ltb, bit_and, bit_or, Bool, true, false, if◌then◌else◌, Option, none, some, Run, ok,
  fault, ◌>>=◌,
}
use no2usb.Hw.{Ep, bd_rdy_data, ep_type_int, ep_type_bulk, ep_type_isoc, ep_type_halted, ep_bd_dual}
use no2usb.Dcd.State.{
  Dir, dir_out, dir_in, DcdEp, no_ep, Dcd, TinyUsb, Config, ep_regs, put_regs, ep_state, put_state,
  map_regs,
}
use no2usb.Dcd.Transfer.{ep_advance_xfer_in, ep_advance_xfer_out}
use no2usb.Dcd.Device.{hw_buf_alloc, dcd_int_enable, dcd_int_disable, stall_ep0}

-- `TUSB_XFER_*`
pub data XferType : Type 0 where
  xfer_control xfer_isochronous xfer_bulk xfer_interrupt : XferType

-- What `dcd_edpt_open` reads of an endpoint descriptor.
pub record EndpointDesc : Type 0 where
  pub endpoint_address : ℕ
  pub xfer : XferType
  pub max_packet_size : ℕ

-- The `NO2USB_EP_TYPE_*` of an endpoint, if it is supported.
abbrev pub type_of : XferType → Option ℕ
type_of xfer_control = none
type_of xfer_isochronous = some ep_type_isoc
type_of xfer_bulk = some ep_type_bulk
type_of xfer_interrupt = some ep_type_int

-- What an opened endpoint's descriptors start with.
abbrev pub open_csr : Dir → ℕ → ℕ
open_csr dir_out mps = bd_rdy_data mps
open_csr dir_in mps = 0

-- The registers of an endpoint that is opened.
unfoldable pub opened_regs : Dir → (type mps ptr0 ptr1 : ℕ) → Bool → Ep → Ep
opened_regs dir type mps ptr0 ptr1 dual epr = record epr {
  status = bit_or type (if dual then ep_bd_dual else 0);
  bd0 = record { csr = open_csr dir mps; ptr = ptr0 };
  bd1 = record { csr = open_csr dir mps; ptr = ptr1 };
}

-- Its state: an endpoint without a transfer.
unfoldable pub opened_state : (mps : ℕ) → Bool → DcdEp
opened_state mps dual = record no_ep { mps = mps; dual = dual }

-- The state of an endpoint that a transfer is asked for.
abbrev pub start_xfer : Option ℕ → ℕ → DcdEp → DcdEp
start_xfer buffer total_bytes e = record e {
  busy = true;
  buf = buffer;
  len = total_bytes;
  ofs = 0;
  plen = 0;
}

module _ {A : Type 0} where
  -- `dcd_edpt_open` behind the switch. Bulk endpoints have two buffers.
  unfoldable pub open_typed : ℕ → Dir → (type mps : ℕ) → Dcd A → Dcd A
  unfolding hw_buf_alloc opened_regs opened_state put_regs put_state
  open_typed n dir type mps s =
      let dual = type == ep_type_bulk in
      let (ptr0, t) = hw_buf_alloc dir mps s in
      let (ptr1, u) = if dual then hw_buf_alloc dir mps t else (0, t) in
      let regs = opened_regs dir type mps ptr0 ptr1 dual (ep_regs n dir s.hw) in
      map_regs (put_regs n dir regs) (put_state n dir (opened_state mps dual) u)

  module _ (tu : TinyUsb A) where
    -- A call on an endpoint that the core does not have is outside its registers.
    abbrev with_endpoint : {B : Type 0} → ℕ → (ℕ → Dir → Run B) → Run B
    with_endpoint ep_addr f =
        let r = f (tu.edpt_number ep_addr) (tu.edpt_dir ep_addr) in
        if ltb (tu.edpt_number ep_addr) 16 then r else fault

    -- `dcd_edpt_open`, with what it returns.
    unfoldable pub dcd_edpt_open : EndpointDesc → Dcd A → Run (Bool × Dcd A)
    unfolding open_typed
    dcd_edpt_open d s = with_endpoint d.endpoint_address (λ n dir. elim (type_of d.xfer) [
      | none ↦ ok (false, s)
      | some type ↦ ok (true, open_typed n dir type d.max_packet_size s)
    ])

    -- The transfer is set up, and moved on for the first time.
    abbrev pub bootstrap : ℕ → Dir → Dcd A → Run (Dcd A)
    bootstrap n dir_out s = ep_advance_xfer_out tu n s
    bootstrap n dir_in s = ep_advance_xfer_in tu n s

    unfoldable pub submit : Config → Option ℕ → (total_bytes n : ℕ) → Dir → Dcd A → Run (Dcd A)
    unfolding put_state dcd_int_disable dcd_int_enable
    submit c buffer total_bytes n dir s =
        let t = dcd_int_disable s in
        let u = put_state n dir (start_xfer buffer total_bytes (ep_state n dir t)) t in
        bootstrap n dir u >>= λ v. ok (dcd_int_enable c v)

    -- `dcd_edpt_xfer`. It always returns `true`.
    unfoldable pub dcd_edpt_xfer : Config → ℕ → Option ℕ → ℕ → Dcd A → Run (Dcd A)
    unfolding submit
    dcd_edpt_xfer c ep_addr buffer total_bytes s =
        with_endpoint ep_addr (λ n dir. submit c buffer total_bytes n dir s)

    -- `dcd_edpt_stall`: endpoint 0 is not halted, but both its descriptors are queued to stall,
    -- at the call for the OUT direction.
    unfoldable pub dcd_edpt_stall : Config → ℕ → Dcd A → Run (Dcd A)
    unfolding put_regs dcd_int_disable dcd_int_enable stall_ep0
    dcd_edpt_stall c ep_addr s = with_endpoint ep_addr (λ n dir.
        let halt : Ep → Ep = λ epr. record epr { status = bit_or epr.status ep_type_halted } in
        let halted = map_regs (λ hw. put_regs n dir (halt (ep_regs n dir hw)) hw) s in
        let stalled : Dcd A = elim dir [
          | dir_out ↦ dcd_int_enable c (stall_ep0 (record (dcd_int_disable s) { ep0_stall = true }))
          | dir_in ↦ s
        ] in
        ok (if n == 0 then stalled else halted))

    -- `dcd_edpt_clear_stall`
    unfoldable pub dcd_edpt_clear_stall : ℕ → Dcd A → Run (Dcd A)
    unfolding put_regs
    dcd_edpt_clear_stall ep_addr s = with_endpoint ep_addr (λ n dir.
        let resume : Ep → Ep = λ epr. record epr { status = bit_and epr.status 0xfffffffe } in
        let resumed = map_regs (λ hw. put_regs n dir (resume (ep_regs n dir hw)) hw) s in
        ok (if n == 0 then s else resumed))
