-- ===== src/Hw.antt =====
-- The registers of the core as the firmware sees them: fw/v0/include/no2usb/usb_hw.h, with the
-- effect of a write to the control, action and event registers from rtl/usb.v.
-- The control / status word is kept as its fields. Buffer descriptors and endpoint status words
-- are kept as numbers, and read through the header's masks.
pub mod Words
pub mod Data
use no2usb.Base.{
  ℕ, ◌+◌, ◌==◌, bit_and, bit_or, Bool, true, false, not, ◌&&◌, ◌||◌, if◌then◌else◌, List, [], ◌∷◌,
}

-- A buffer descriptor.
pub record Bd : Type 0 where
  pub csr : ℕ
  pub ptr : ℕ

-- One direction of an endpoint. `mps` is `_rsvd[2]`.
pub record Ep : Type 0 where
  pub status : ℕ
  pub mps : ℕ
  pub bd0 : Bd
  pub bd1 : Bd

pub record EpPair : Type 0 where
  pub out : Ep
  pub inp : Ep

-- The part of the control word that a write sets.
pub record Ctl : Type 0 where
  pub pu_ena : Bool
  pub cel_ena : Bool
  pub addr_match : Bool
  pub addr : ℕ

pub record Hw : Type 0 where
  pub ctl : Ctl
  pub cel_active : Bool
  pub bus_suspend : Bool
  pub bus_rst : Bool
  pub bus_rst_pending : Bool
  pub sof_pending : Bool
  pub evts : List ℕ  -- the event queue, oldest first
  pub ep : ℕ → EpPair
  pub tx : ℕ → ℕ  -- words that the core sends from
  pub rx : ℕ → ℕ  -- words that the core receives into

-- `USB_CSR_EVT_PENDING`
unfoldable pub evt_pending : Hw → Bool
evt_pending hw = elim (hw.evts) [ [] ↦ false | _ ∷ _ ↦ true ]

-- A read of the event register takes the oldest event off the queue.
unfoldable pub evt_pop : Hw → Hw
evt_pop hw = record hw { evts = elim (hw.evts) [ [] ↦ [] | _ ∷ es ↦ es ] }

-- `USB_CSR_ADDR(x)`
abbrev pub csr_addr : ℕ → ℕ
csr_addr x = bit_and x 0x7f

-- A write to the action register: release the lockout, clear the pending reset, clear the pending
-- start of frame. A reset that is still on the bus stays pending.
unfoldable pub ar_write : (cel_release bus_rst_clear sof_clear : Bool) → Hw → Hw
ar_write cel_release bus_rst_clear sof_clear hw = record hw {
  cel_active = hw.cel_active && not cel_release;
  bus_rst_pending = hw.bus_rst_pending && not bus_rst_clear || hw.bus_rst;
  sof_pending = hw.sof_pending && not sof_clear;
}

abbrev pub ep_type_isoc : ℕ
ep_type_isoc = 0x0001

abbrev pub ep_type_int : ℕ
ep_type_int = 0x0002

abbrev pub ep_type_bulk : ℕ
ep_type_bulk = 0x0004

abbrev pub ep_type_ctrl : ℕ
ep_type_ctrl = 0x0006

abbrev pub ep_type_halted : ℕ
ep_type_halted = 0x0001

-- `USB_EP_TYPE_IS_BCI(x)`
unfoldable pub ep_type_is_bci : ℕ → Bool
ep_type_is_bci x = not (bit_and x 6 == 0)

-- `USB_EP_TYPE(x)`
unfoldable pub ep_type : ℕ → ℕ
ep_type x = bit_and x 7

abbrev pub ep_dt_bit : ℕ
ep_dt_bit = 0x0080

abbrev pub ep_bd_ctrl : ℕ
ep_bd_ctrl = 0x0020

abbrev pub ep_bd_dual : ℕ
ep_bd_dual = 0x0010

-- `csr & USB_BD_STATE_MSK`
unfoldable pub bd_state : ℕ → ℕ
bd_state csr = bit_and csr 0xe000

-- `csr & USB_BD_LEN_MSK`, and `USB_BD_LEN(l)`
unfoldable pub bd_len : ℕ → ℕ
bd_len csr = bit_and csr 0x3ff

abbrev pub bd_state_none : ℕ
bd_state_none = 0x0000

abbrev pub bd_state_rdy_data : ℕ
bd_state_rdy_data = 0x4000

abbrev pub bd_state_rdy_stall : ℕ
bd_state_rdy_stall = 0x6000

abbrev pub bd_state_done_ok : ℕ
bd_state_done_ok = 0x8000

abbrev pub bd_state_done_err : ℕ
bd_state_done_err = 0xa000

-- `USB_BD_STATE_RDY_DATA | USB_BD_LEN(l)`
unfoldable pub bd_rdy_data : ℕ → ℕ
unfolding bd_len
bd_rdy_data l = bit_or bd_state_rdy_data (bd_len l)

-- The endpoint registers with one endpoint replaced.
unfoldable pub set_ep : ℕ → EpPair → Hw → Hw
set_ep n p hw = record hw { ep = λ k. if k == n then p else hw.ep k }
