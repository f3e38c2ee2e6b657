-- ===== src/Proto/Codes/Names.antt =====
-- The enumerators of the headers: in each enumeration a name has one number and a number one name.
use Prim.Native.String.{String}
use text.Mathlib.Text.{◌==◌ as str_eq}
use text.Mathlib.TextEquality.{eq_iff}
use no2usb.Base.{
  ℕ, ◌≡◌, refl, ap, Bool, true, false, ◌&&◌, ◌==◌, ==_iff, List, [], ◌∷◌, get_elem?, Option, none,
  some, every, every-elem, and_parts,
}
use no2usb.Proto.Codes.Enum.{Enum, code_of, name_of}
use no2usb.Proto.Requests
use no2usb.Proto.Codes.Usb
use no2usb.Proto.Codes.Ac
use no2usb.Proto.Codes.Vc
use no2usb.Proto.Codes.Cdc

-- All enumerations but `enum usb_class`, where two names share the number 2, and the numbers of the
-- class requests and notifications.
abbrev pub enums : List Enum
enums =
    Usb.desc_type ∷ Usb.cs_desc_type ∷ Usb.hid_subclass ∷ Usb.hid_protocol ∷ Usb.hid_desc_type
    ∷ Usb.dfu_desc_type ∷ Usb.dfu_status ∷ Usb.msos20_desc_type ∷ Ac.ac_subclass
    ∷ Ac.ac_ac_intf_desc_subtype ∷ Ac.ac_as_intf_desc_subtype ∷ Ac.ac_ms_intf_desc_subtype
    ∷ Ac.ac_ms_jack_types ∷ Ac.ac_ep_desc_subtype ∷ Ac.ac_terminal_control ∷ Ac.ac_feature_control
    ∷ Ac.ac_updown_control ∷ Ac.ac_dolby_control ∷ Ac.ac_3d_control ∷ Ac.ac_reverb_control
    ∷ Ac.ac_chorus_control ∷ Ac.ac_dynrange_control ∷ Ac.ac_extension_control
    ∷ Ac.ac_as_endpoint_control ∷ Ac.ac_ms_endpoint_control ∷ Vc.vc_subclass
    ∷ Vc.vc_vc_intf_desc_subtype ∷ Vc.vc_vs_intf_desc_subtype ∷ Vc.vc_ep_desc_subtype
    ∷ Vc.vc_vc_control ∷ Vc.vc_terminal_control ∷ Vc.vc_selector_control ∷ Vc.vc_camera_control
    ∷ Vc.vc_processing_control ∷ Vc.vc_encoding_control ∷ Vc.vc_extension_control ∷ Vc.vc_vs_control
    ∷ Cdc.cdc_subclass ∷ Cdc.cdc_desc_subtype ∷ Requests.Usb.hid_request_codes
    ∷ Requests.Usb.dfu_request_codes ∷ Requests.Ac.ac_request_codes ∷ Requests.Vc.vc_request_codes
    ∷ Requests.Cdc.cdc_request_codes ∷ Requests.Cdc.cdc_notifications ∷ []

abbrev is_code : Option ℕ → ℕ → Bool
is_code none code = false
is_code (some c) code = c == code

abbrev is_name : Option String → String → Bool
is_name none name = false
is_name (some n) name = str_eq n name

abbrev one_to_one : Enum → (String × ℕ) → Bool
one_to_one e (name, code) = is_code (code_of e name) code && is_name (name_of e code) name

enums-one_to_one : every (λ e. every (one_to_one e) e) enums ≡ true
enums-one_to_one = refl

is_code-some : (o : Option ℕ) (code : ℕ) → is_code o code ≡ true → o ≡ some code
is_code-some none code h = cc h
is_code-some (some c) code h = ap some ((==_iff c code).0 h)

is_name-some : (o : Option String) (name : String) → is_name o name ≡ true → o ≡ some name
is_name-some none name h = cc h
is_name-some (some n) name h = ap some ((eq_iff n name).0 h)

-- In every enumeration of the headers but `enum usb_class`, and among the numbers of each class's
-- requests and notifications, an enumerator's name has its number, and
-- its number has no other name.
pub code_of-name_of :
    (i j : ℕ) (e : Enum) (name : String) (code : ℕ)
    → get_elem? enums i ≡ some e
    → get_elem? e j ≡ some (name, code)
    → (code_of e name ≡ some code) × (name_of e code ≡ some name)
code_of-name_of i j e name code which at =
    let each = every-elem (λ e. every (one_to_one e) e) enums i e enums-one_to_one which in
    let (c, n) =
      and_parts (is_code (code_of e name) code) (is_name (name_of e code) name)
        (every-elem (one_to_one e) e j (name, code) each at) in
    (is_code-some (code_of e name) code c, is_name-some (name_of e code) name n)
