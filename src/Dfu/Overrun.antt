-- ===== src/Dfu/Overrun.antt =====
-- A DNLOAD request of fw/v0/src/usb_dfu.c that is longer than the driver's buffer, from its SETUP
-- packet to its data packets.
use no2usb.Base.{ℕ, ◌≡◌, List, [], ◌∷◌, Run, ok, ◌>>=◌}
use no2usb.Hw.{Hw, bd_state, bd_len}
use no2usb.Stack.{Usb, Req}
use no2usb.Ep0.Regs.{out_csr}
use no2usb.Ep0.Transfer.{handle_control_data}
use no2usb.Std.Status.{set_len}
use no2usb.Dfu.State.{fl_erase, Dfu, Flash, map_dfu}
use no2usb.Dfu.Request.{set_data, set_done}

-- The core has received a packet of 64 bytes, with its checksum.
pub record IsFull (hw : Hw) : Type 0 where
  pub done : bd_state (out_csr hw) ≡ 0x8000
  pub len : bd_len (out_csr hw) ≡ 66

module _ {A : Type 0} where
  abbrev pub with_hw : Hw → Usb A → Usb A
  with_hw hw s = record s { hw = hw }

  -- The data stage: the registers and the packet memory at each packet.
  unfoldable pub data_stage : List Hw → Usb A → Run (Usb A)
  unfolding handle_control_data
  data_stage [] s = ok s
  data_stage (hw ∷ hws) s = handle_control_data (with_hw hw s) >>= data_stage hws

module _ {F : Type 0} (fl : Flash F) where
  -- What the driver does with a request that it takes.
  abbrev accepted : ℕ → Usb (Dfu F) → Usb (Dfu F)
  accepted n u =
      map_dfu (λ d. record d { op_ofs = 0; op_len = n; op = fl_erase })
        (set_done 1 (set_data (set_len n u)))

  abbrev dnload_req : (w_value w_index w_length : ℕ) → Req
  dnload_req w_value w_index w_length = record {
    bm_request_type = 0x21;
    b_request = 1;
    w_value = w_value;
    w_index = w_index;
    w_length = w_length;
  }
