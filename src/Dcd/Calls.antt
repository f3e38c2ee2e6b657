-- ===== src/Dcd/Calls.antt =====
-- The calls that the TinyUSB stack makes of the port, fw/tinyusb/dcd_no2usb.c, one after the other,
-- with the work of the core and of the stack between them.
use no2usb.Base.{ℕ, ◌<◌, ◌^◌, ◌≡◌, List, Option, Run, ok, ◌>>=◌}
use no2usb.Hw.{Hw}
use no2usb.Dcd.State.{dir_out, Dcd, TinyUsb, Config}
use no2usb.Dcd.Device.{dcd_init, dcd_int_enable, dcd_int_disable, dcd_set_address, dcd_int_handler}
use no2usb.Dcd.Endpoint.{
  EndpointDesc, dcd_edpt_open, dcd_edpt_xfer, dcd_edpt_stall, dcd_edpt_clear_stall,
}
use no2usb.Dcd.Safe.{SparesBytes}

pub data Call : Type 0 where
  init int_enable int_disable interrupt : Call
  edpt_open : EndpointDesc → Call
  edpt_xfer : (ep_addr : ℕ) → Option ℕ → (total_bytes : ℕ) → Call
  edpt_stall edpt_clear_stall : (ep_addr : ℕ) → Call

module _ {A : Type 0} (tu : TinyUsb A) (c : Config) where
  abbrev pub call : Call → Dcd A → Run (Dcd A)
  call init s = ok (dcd_init s)
  call int_enable s = ok (dcd_int_enable c s)
  call int_disable s = ok (dcd_int_disable s)
  call interrupt s = dcd_int_handler tu c s
  call (edpt_open d) s = dcd_edpt_open tu d s >>= λ r. ok r.1
  call (edpt_xfer ep_addr buffer total_bytes) s = dcd_edpt_xfer tu c ep_addr buffer total_bytes s
  call (edpt_stall ep_addr) s = dcd_edpt_stall tu c ep_addr s
  call (edpt_clear_stall ep_addr) s = dcd_edpt_clear_stall tu ep_addr s

  -- What the stack keeps to: the endpoints that there are, packets that the core can take, and
  -- buffers for the host's bytes that hold none of the bytes to keep.
  abbrev pub Allowed : (ℕ → Type 0) → Call → Type 0
  Allowed keep init = Unit
  Allowed keep int_enable = Unit
  Allowed keep int_disable = Unit
  Allowed keep interrupt = tu.endpoint0_size < 1024
  Allowed keep (edpt_open d) = (tu.edpt_number d.endpoint_address < 16) × (d.max_packet_size < 1024)
  Allowed keep (edpt_xfer ep_addr buffer total_bytes) =
      (tu.edpt_number ep_addr < 16)
      × (total_bytes < 2 ^ 16)
      × (tu.edpt_dir ep_addr ≡ dir_out → SparesBytes keep buffer total_bytes)
  Allowed keep (edpt_stall ep_addr) = tu.edpt_number ep_addr < 16
  Allowed keep (edpt_clear_stall ep_addr) = tu.edpt_number ep_addr < 16

  -- What happens to the port: a call that returns, an address that is set while the core works, the
  -- core's work on its registers and its memory, and the stack's work on its state and the memory.
  pub data Step (keep : ℕ → Type 0) (s : Dcd A) : Dcd A → Type 0 where
    called : {t : Dcd A} (op : Call) → Allowed keep op → call op s ≡ ok t → Step keep s t
    addressed :
        {t : Dcd A} (es : List (Hw → Hw)) (dev_addr : ℕ)
        → dcd_set_address c es dev_addr s ≡ ok t
        → Step keep s t
    core : (hw : Hw) → Step keep s (record s { hw = hw })
    stack :
        (app : A) (ram : ℕ → ℕ)
        → ((k : ℕ) → keep k → ram k ≡ s.ram k)
        → Step keep s (record s { app = app; ram = ram })

  -- The states that follow a call of `dcd_init`.
  pub data Reached (keep : ℕ → Type 0) (s : Dcd A) : Dcd A → Type 0 where
    started : Reached keep s (dcd_init s)
    after : {t u : Dcd A} → Reached keep s t → Step keep t u → Reached keep s u
