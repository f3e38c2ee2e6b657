-- ===== src/Tests/Protocols.antt =====
-- Objects of the headers' structures, and a request of a class.
use text.Mathlib.Text.{◌==◌ as str_eq}
use mathlib.Core.List.{append-nil}
use no2usb.Base.{
  ℕ, ◌+◌, ◌≡◌, ◌⊎◌, refl, sym, if◌then◌else◌, List, [], ◌∷◌, length, All, some, ok, arith,
}
use no2usb.Desc.{desc_find}
use no2usb.Proto.Layout.{Values, sizeof, members_size, find_member}
use no2usb.Proto.Kinds.{
  DescStruct, layout, conf, intf, ac_ms_hdr, ac_ms_out_jack, ep, vc_ep_interrupt,
}
use no2usb.Proto.Bytes.{sizeof-members_size}
use no2usb.Proto.Walk.{Object, IsSized, objects_bytes, first_object, desc_find-objects}
use no2usb.Stack.{Req, ctrl_std, fn}
use no2usb.Driver.{no_drv, dispatch_ctrl_req}
use no2usb.Std.Handle.{all_drivers}
use no2usb.Proto.Requests.Request.{request}
use no2usb.Proto.Requests.Passed.{class_requests-passed}
use no2usb.Tests.Fixture.{device, hw_with}

-- The length and the type of a descriptor, under both spellings of the type, and 1 for all else.
abbrev values : (size kind : ℕ) → Values
values size kind name i part =
    if str_eq name "bLength"
    then size
    else if str_eq name "bDescriptorType"
    then kind
    else if str_eq name "bDescriptortype"
    then kind
    else 1

abbrev object : DescStruct → (size kind : ℕ) → Object
object k size kind = record { kind = k; values = values size kind }

-- The last jack has two sources.
abbrev midi : List Object
midi =
    object conf 9 2
    ∷ object intf 9 4
    ∷ object ac_ms_hdr 7 36
    ∷ object (ac_ms_out_jack 2) 11 36
    ∷ object ep 7 5
    ∷ []

midi-IsSized : All IsSized midi
unfolding layout
midi-IsSized = omega arith

desc_find-objects_example :
    desc_find (objects_bytes midi) 0 (0 + length (objects_bytes midi)) 5
    ≡ ok (first_object 0 midi 5)
desc_find-objects_example =
    desc_find-objects (objects_bytes midi) 0 5 midi [] (sym (append-nil _)) midi-IsSized

midi-first_object : first_object 0 midi 5 ≡ some 36
unfolding first_object layout
midi-first_object = refl

sizeof-members_size_example :
    (sizeof (layout vc_ep_interrupt) ≡ members_size (layout vc_ep_interrupt).members)
    ⊎ ((vc_ep_interrupt ≡ vc_ep_interrupt)
        × (sizeof (layout vc_ep_interrupt) ≡ 6)
        × (members_size (layout vc_ep_interrupt).members ≡ 5)
        × (find_member
              (layout vc_ep_interrupt).is_packed
              0
              (layout vc_ep_interrupt).members
              "wMaxtransferSize"
            ≡ some (4, 2)))
sizeof-members_size_example = sizeof-members_size vc_ep_interrupt

-- SET_LINE_CODING, for interface 0.
abbrev set_line_coding : Req
set_line_coding = record {
  bm_request_type = 0x21;
  b_request = 0x20;
  w_value = 0;
  w_index = 0;
  w_length = 7;
}

class_requests-passed_example :
    (set_line_coding.bm_request_type ≡ 0x21)
    × (set_line_coding.b_request ≡ 0x20)
    × (dispatch_ctrl_req
          (all_drivers (λ n. no_drv))
          set_line_coding
          (ctrl_std ∷ fn 0 ∷ [])
          (device (hw_with 0 0 0 0 0))
        ≡ dispatch_ctrl_req
            (all_drivers (λ n. no_drv))
            set_line_coding
            (fn 0 ∷ [])
            (device (hw_with 0 0 0 0 0)))
class_requests-passed_example =
    class_requests-passed (λ n. no_drv) 47 (request "USB_RT_CDC_SET_LINE_CODING" 0x20 0x21)
      set_line_coding (fn 0 ∷ []) (device (hw_with 0 0 0 0 0)) refl (omega arith) refl
