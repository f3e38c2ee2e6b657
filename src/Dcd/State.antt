-- ===== src/Dcd/State.antt =====
-- The state of the port: `struct dcd_ep` and `g_usb` of fw/tinyusb/dcd_no2usb.c, with the registers
-- of fw/tinyusb/dcd_no2usb_hw.h, which are those of `Hw` and the interrupt mask, the memory that
-- transfers read and write, and what the TinyUSB stack keeps.
use no2usb.Base.{ℕ, ◌==◌, Bool, true, false, not, if◌then◌else◌, List, Option, none}
use no2usb.Hw.{Hw, Ep, Bd, set_ep}

-- `TUSB_DIR_OUT` and `TUSB_DIR_IN`
pub data Dir : Type 0 where
  dir_out dir_in : Dir

-- `struct dcd_ep`. The two indices of a buffer descriptor start at 0 and change by `^= dual` only,
-- so each is kept as a Boolean. `buf` is an address, and `none` for `NULL`.
pub record DcdEp : Type 0 where
  pub mps : ℕ
  pub busy : Bool
  pub dual : Bool
  pub bdi_fill : Bool
  pub bdi_retire : Bool
  pub buf : Option ℕ
  pub len : ℕ
  pub ofs : ℕ
  pub plen : ℕ

pub record DcdPair : Type 0 where
  pub out : DcdEp
  pub inp : DcdEp

-- An endpoint's state behind `memset(..., 0x00, ...)`.
abbrev pub no_ep : DcdEp
no_ep = record {
  mps = 0;
  busy = false;
  dual = false;
  bdi_fill = false;
  bdi_retire = false;
  buf = none;
  len = 0;
  ofs = 0;
  plen = 0;
}

-- `g_usb`, the registers, the memory by bytes, and the state of the TinyUSB stack.
pub record Dcd (A : Type 0) : Type 0 where
  pub mem_out : ℕ
  pub mem_in : ℕ
  pub ep0_stall : Bool
  pub ep : ℕ → DcdPair
  pub hw : Hw
  pub ir : ℕ
  pub ram : ℕ → ℕ
  pub app : A

-- What the port tells the stack: the calls of `dcd_event_*`.
pub data Event : Type 0 where
  xfer_complete : (ep_addr len : ℕ) → Event
  setup_received : List ℕ → Event
  bus_reset sof : Event

-- What the port takes from TinyUSB: its event functions, which queue an event when they are called
-- from an interrupt, the parts of an endpoint address, and the size of endpoint 0.
pub record TinyUsb (A : Type 0) : Type 0 where
  pub notify : Event → A → A
  pub edpt_number : ℕ → ℕ
  pub edpt_dir : ℕ → Dir
  pub endpoint0_size : ℕ

-- The settings of fw/tinyusb/dcd_no2usb_config.h.
pub record Config : Type 0 where
  pub with_sof : Bool
  pub with_event_fifo : Bool

-- `bd[i]`
abbrev pub bd_at : Bool → Ep → Bd
bd_at false e = e.bd0
bd_at true e = e.bd1

abbrev pub put_bd : Bool → Bd → Ep → Ep
put_bd false b e = record e { bd0 = b }
put_bd true b e = record e { bd1 = b }

abbrev pub set_csr : Bool → ℕ → Ep → Ep
set_csr i v e = put_bd i (record (bd_at i e) { csr = v }) e

-- `i ^= dual`
abbrev pub flip : Bool → Bool → Bool
flip i true = not i
flip i false = i

-- `_ep_regs`
abbrev pub ep_regs : ℕ → Dir → Hw → Ep
ep_regs n dir_out hw = (hw.ep n).out
ep_regs n dir_in hw = (hw.ep n).inp

unfoldable pub put_regs : ℕ → Dir → Ep → Hw → Hw
unfolding set_ep
put_regs n dir_out e hw = set_ep n (record (hw.ep n) { out = e }) hw
put_regs n dir_in e hw = set_ep n (record (hw.ep n) { inp = e }) hw

module _ {A : Type 0} where
  -- `_ep_state`
  abbrev pub ep_state : ℕ → Dir → Dcd A → DcdEp
  ep_state n dir_out s = (s.ep n).out
  ep_state n dir_in s = (s.ep n).inp

  abbrev pub put_pair : ℕ → DcdPair → Dcd A → Dcd A
  put_pair n p s = record s { ep = λ k. if k == n then p else s.ep k }

  unfoldable pub put_state : ℕ → Dir → DcdEp → Dcd A → Dcd A
  put_state n dir_out e s = put_pair n (record (s.ep n) { out = e }) s
  put_state n dir_in e s = put_pair n (record (s.ep n) { inp = e }) s

  abbrev pub map_regs : (Hw → Hw) → Dcd A → Dcd A
  map_regs f s = record s { hw = f s.hw }
