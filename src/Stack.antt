-- ===== src/Stack.antt =====
-- The state of the stack: `struct usb_stack g_usb` of fw/v0/include/no2usb/usb_priv.h with the
-- types of usb.h and usb_proto.h that it is made of, the registers and the memory that transfers
-- read and write.
pub mod Memory
use no2usb.Base.{
  ℕ, ◌+◌, ◌*◌, ◌/◌, ◌==◌, bit_and, Bool, true, false, not, List, Option, Run, if◌then◌else◌,
}
use no2usb.Hw.{Hw}

-- `enum usb_dev_state`. It is kept as a number, since `USB_DS_SUSPENDED` is a bit that is set on
-- top of another state.
abbrev pub ds_off : ℕ
ds_off = 0

abbrev pub ds_disconnected : ℕ
ds_disconnected = 1

abbrev pub ds_connected : ℕ
ds_connected = 2

abbrev pub ds_default : ℕ
ds_default = 3

abbrev pub ds_address : ℕ
ds_address = 4

abbrev pub ds_configured : ℕ
ds_configured = 5

abbrev pub ds_suspended : ℕ
ds_suspended = 0x80

abbrev pub ds_resume : ℕ
ds_resume = 0x81

-- `enum usb_fnd_resp`
pub data Resp : Type 0 where
  continue success error : Resp

-- The state of the control endpoint.
pub data CtrlState : Type 0 where
  idle data_in data_out status_done_out status_done_in stall : CtrlState

-- A pointer to the bytes of a transfer: `NULL`, a constant descriptor, or a buffer in memory.
-- Buffer 0 is `g_usb.ctrl.buf`; drivers have the others.
pub data Ptr : Type 0 where
  null : Ptr
  rom : List ℕ → Ptr
  ram : ℕ → Ptr

-- A completion callback: none, `_set_addr_done`, or one of the other drivers', by number.
pub data Callback : Type 0 where
  no_callback set_addr_done : Callback
  driver_callback : ℕ → Callback

-- `struct usb_xfer`. `cb_data` is never set, and `cb_ctx` is only ever `&g_usb.ctrl.req`.
pub record Xfer : Type 0 where
  pub bytes : Ptr
  pub ofs : ℕ
  pub len : ℕ
  pub cb_done : Callback

-- `struct usb_ctrl_req`
pub record Req : Type 0 where
  pub bm_request_type : ℕ
  pub b_request : ℕ
  pub w_value : ℕ
  pub w_index : ℕ
  pub w_length : ℕ

-- `wRequestAndType`
abbrev pub request_and_type : Req → ℕ
request_and_type r = r.bm_request_type + 256 * r.b_request

-- `USB_REQ_IS_READ(req)`
unfoldable pub is_read : Req → Bool
is_read r = not (bit_and r.bm_request_type 0x80 == 0)

-- `struct usb_stack_descriptors`, each descriptor by its bytes.
pub record StackDesc : Type 0 where
  pub dev : List ℕ
  pub bos : Option (List ℕ)
  pub conf : List (List ℕ)
  pub str : List (List ℕ)

-- An entry of the driver chain: the standard driver, or another by its number.
pub data DrvId : Type 0 where
  ctrl_std : DrvId
  fn : ℕ → DrvId

-- `g_usb`, the registers, the buffers, and what the drivers and the application keep.
pub record Usb (A : Type 0) : Type 0 where
  pub stack_desc : StackDesc
  pub state : ℕ
  pub conf : Option (List ℕ)
  pub intf_alt : ℕ
  pub tick : ℕ
  pub mem_out : ℕ  -- `ep_cfg.mem[0]`
  pub mem_in : ℕ  -- `ep_cfg.mem[1]`
  pub ctrl_state : CtrlState
  pub xfer : Xfer
  pub req : Req
  pub fnd : List DrvId
  pub hw : Hw
  pub buffers : ℕ → List ℕ
  pub app : A

-- What the control endpoint asks of the drivers: an answer to a request, and a callback's run.
pub record Services (A : Type 0) : Type 0 where
  pub ctrl_req : Req → Usb A → Run (Resp × Usb A)
  pub callback : Callback → Usb A → Run (Usb A)
