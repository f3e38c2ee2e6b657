-- ===== src/Dfu/State.antt =====
-- The state of the update driver: `g_dfu` of fw/v0/src/usb_dfu.c with the enumerations of
-- fw/v0/include/no2usb/usb_dfu_proto.h, and the flash, whose access functions are the application's.
use no2usb.Base.{ℕ, Bool, List}
use no2usb.Stack.{Usb}

-- `enum dfu_state`
pub data DfuState : Type 0 where
  app_idle app_detach dfu_idle dnload_sync dnbusy dnload_idle manifest_sync manifest : DfuState
  manifest_wait_reset upload_idle dfu_error : DfuState

-- The number of a state.
abbrev pub state_code : DfuState → ℕ
state_code app_idle = 0
state_code app_detach = 1
state_code dfu_idle = 2
state_code dnload_sync = 3
state_code dnbusy = 4
state_code dnload_idle = 5
state_code manifest_sync = 6
state_code manifest = 7
state_code manifest_wait_reset = 8
state_code upload_idle = 9
state_code dfu_error = 10

-- `OK` and `errUNKNOWN` of `enum dfu_status`, the two that are used.
abbrev pub status_ok : ℕ
status_ok = 0

abbrev pub err_unknown : ℕ
err_unknown = 14

pub data FlashOp : Type 0 where
  fl_idle fl_erase fl_program : FlashOp

-- `struct usb_dfu_zone`; its flags are not used.
pub record Zone : Type 0 where
  pub start : ℕ
  pub end : ℕ

-- `g_dfu`, but for its buffer, which is buffer 1, and the flash.
pub record Dfu (F : Type 0) : Type 0 where
  pub zones : List Zone
  pub state : DfuState
  pub status : ℕ
  pub intf : ℕ
  pub alt : ℕ
  pub armed : Bool
  pub addr_read : ℕ
  pub addr_prog : ℕ
  pub addr_erase : ℕ
  pub addr_end : ℕ
  pub op_ofs : ℕ
  pub op_len : ℕ
  pub op : FlashOp
  pub flash : F

-- The functions `usb_dfu_cb_*` of the application. `read` gives the bytes at an address, and `raw`
-- what a command's bytes are replaced by.
pub record Flash (F : Type 0) : Type 0 where
  pub busy : F → Bool
  pub erase : (addr size : ℕ) → F → F
  pub program : List ℕ → ℕ → F → F
  pub read : (addr size : ℕ) → F → List ℕ
  pub raw : List ℕ → F → List ℕ × F
  pub reboot : F → F

-- The size of the driver's buffer.
abbrev pub buf_len : ℕ
buf_len = 4096

abbrev pub dfu_buf : ℕ
dfu_buf = 1

abbrev pub map_dfu : {F : Type 0} → (Dfu F → Dfu F) → Usb (Dfu F) → Usb (Dfu F)
map_dfu f s = record s { app = f s.app }
