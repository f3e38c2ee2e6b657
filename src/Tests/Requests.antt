-- ===== src/Tests/Requests.antt =====
-- Standard requests on a device.
use no2usb.Base.{
  ℕ, suc, ◌/◌, ◌<◌, ◌≡◌, ◌≢◌, refl, true, [], ◌∷◌, ◌++◌, take, All, none, some, ok, Returns, arith,
  bit_and,
}
use no2usb.Hw.Data.{data_read}
use no2usb.Stack.{Usb, Req, idle, status_done_in, ctrl_std, fn}
use no2usb.Desc.{half_at}
use no2usb.Desc.Intf.{IsComplete}
use no2usb.Ep0.Poll.{setup_begin, handle_setup, ep0_poll}
use no2usb.Ep0.Host.{quiet, ack_in, host_reads}
use no2usb.Ep0.Read.{Delivered}
use no2usb.Driver.{ctrl_req_of}
use no2usb.Driver.Dispatch.{Pass, nobody, passed}
use no2usb.Std.Address.{asked, IsSetAddress, set_address-after_status}
use no2usb.Std.Config.{pick_descriptor, set_configuration}
use no2usb.Std.Status.{get_status_intf}
use no2usb.Std.Describe.{IsGetDescriptor, asked_len, get_descriptor-Delivered}
use no2usb.Std.Select.{
  IsSelected, wanted_intf, is_none, get_status_intf-is_none, set_configuration-zero,
}
use no2usb.Std.Handle.{all_drivers, services}
use no2usb.Tests.Fixture.{device, hw_with, conf_bytes, conf_descs, quiet_fns, quiet_drv, no_done}

-- GET_DESCRIPTOR for configuration 0, 64 bytes.
abbrev get_conf : Usb Unit
get_conf = device (hw_with 0x8000 0 0 0x02000680 0x00400000)

conf_bytes-small : All (λ b. b < 256) conf_bytes
conf_bytes-small = ground arith

get_conf-req :
    (setup_begin get_conf).req
    ≡ record { bm_request_type = 0x80; b_request = 6; w_value = 0x200; w_index = 0; w_length = 64 }
unfolding setup_begin data_read
get_conf-req = refl

get_conf-IsGetDescriptor : IsGetDescriptor (setup_begin get_conf).req
unfolding setup_begin data_read
get_conf-IsGetDescriptor = record { kind = refl; request = refl }

get_conf-picked :
    pick_descriptor
      (setup_begin get_conf).stack_desc
      (bit_and (setup_begin get_conf).req.w_value 0xff00)
      (bit_and (setup_begin get_conf).req.w_value 0xff)
    ≡ ok (some (conf_bytes, 25))
unfolding setup_begin pick_descriptor data_read
get_conf-picked = refl

passes :
    (s : Usb Unit)
    → Pass
        (all_drivers quiet_fns)
        (λ p. ctrl_req_of (all_drivers quiet_fns p) (setup_begin s).req)
        (fn 0 ∷ [])
        (asked s)
        (asked s)
passes s = passed refl nobody

fnd-get_conf : (setup_begin get_conf).fnd ≡ (fn 0 ∷ []) ++ ctrl_std ∷ []
unfolding setup_begin
fnd-get_conf = refl

get_descriptor-Delivered_example :
    Returns
      (λ t. Returns (Delivered (take (asked_len 25 (setup_begin get_conf).req) conf_bytes)) (
        host_reads
          (services quiet_fns no_done)
          (suc (asked_len 25 (setup_begin get_conf).req / 64))
          t))
      (handle_setup (services quiet_fns no_done) get_conf)
get_descriptor-Delivered_example =
    get_descriptor-Delivered quiet_fns get_conf get_conf-IsGetDescriptor conf_bytes 25
      get_conf-picked no_done (fn 0 ∷ []) [] (omega arith) conf_bytes-small fnd-get_conf
      (passes get_conf)

-- SET_ADDRESS with address 7.
abbrev to_address : Usb Unit
to_address = device (hw_with 0x8000 0 0 0x00070500 0)

to_address-IsSetAddress : IsSetAddress (setup_begin to_address).req
unfolding setup_begin data_read
to_address-IsSetAddress = record {
  kind = refl;
  request = refl;
  no_bytes = refl;
  fits = omega arith;
}

fnd-to_address : (setup_begin to_address).fnd ≡ (fn 0 ∷ []) ++ ctrl_std ∷ []
unfolding setup_begin
fnd-to_address = refl

set_address-after_status_example :
    Returns
      (λ t.
        (t.hw.ctl ≡ to_address.hw.ctl)
        × (t.ctrl_state ≡ status_done_in)
        × Returns
            (λ u. (u.ctrl_state ≡ idle) × (u.hw.ctl.addr ≡ (setup_begin to_address).req.w_value))
            (ep0_poll (services quiet_fns no_done) (ack_in ∷ quiet ∷ []) t))
      (handle_setup (services quiet_fns no_done) to_address)
set_address-after_status_example =
    set_address-after_status quiet_fns to_address to_address-IsSetAddress no_done (fn 0 ∷ []) []
      fnd-to_address (passes to_address)

-- A device between requests, and requests to it.
abbrev resting : Usb Unit
resting = device (hw_with 0x4000 0 0 0 0)

abbrev request : ℕ → ℕ → Req
request value index = record {
  bm_request_type = 0;
  b_request = 0;
  w_value = value;
  w_index = index;
  w_length = 0;
}

half_at-conf_bytes : half_at conf_bytes 2 ≡ ok 25
unfolding half_at
half_at-conf_bytes = refl

conf_descs-IsComplete : All IsComplete conf_descs
conf_descs-IsComplete = (λ e. omega arith, (λ e. omega arith, (λ e. omega arith, tt)))

-- Before, nothing is selected.
abbrev unconfigured : Usb Unit
unconfigured = record resting { conf = none; intf_alt = 3 }

abbrev configured : Usb Unit
configured = record resting { conf = some conf_bytes; intf_alt = 0 }

-- The answer is written over the first byte of the buffer, at another time.
abbrev later : Usb Unit
later = record configured { tick = 1000 }

resting-IsSelected : IsSelected conf_bytes conf_descs resting
resting-IsSelected = record {
  selected = refl;
  rest = [];
  stands = refl;
  total = half_at-conf_bytes;
  whole = conf_descs-IsComplete;
}

get_status_intf-is_none_example :
    Returns
      (λ r. r.0 ≡ is_none (wanted_intf conf_descs (request 0 0)))
      (get_status_intf (request 0 0) resting)
get_status_intf-is_none_example =
    get_status_intf-is_none conf_bytes conf_descs (request 0 0) resting resting-IsSelected refl
      (omega arith)

set_configuration-zero_example :
    set_configuration quiet_drv (request 0 0) resting ≢ ok (true, resting)
set_configuration-zero_example =
    set_configuration-zero quiet_drv (request 0 0) resting refl (true, resting)
