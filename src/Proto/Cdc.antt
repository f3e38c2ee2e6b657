-- ===== src/Proto/Cdc.antt =====
-- The structures of fw/v0/include/no2usb/usb_cdc_proto.h, for communication devices.
use Prim.Native.String.{String}
use no2usb.Base.{ℕ, List, [], ◌∷◌}
use no2usb.Proto.Layout.{Struct, u8, u16, u32, array, structs, packed}

-- `struct usb_cdc_hdr_desc`
unfoldable pub cdc_hdr_desc : Struct
cdc_hdr_desc =
    packed (u8 "bLength" ∷ u8 "bDescriptorType" ∷ u8 "bDescriptorsubtype" ∷ u16 "bcdCDC" ∷ [])

-- `struct usb_cdc_call_mgmt_desc`
unfoldable pub cdc_call_mgmt_desc : Struct
cdc_call_mgmt_desc = packed (
    u8 "bLength"
    ∷ u8 "bDescriptorType"
    ∷ u8 "bDescriptorsubtype"
    ∷ u8 "bmCapabilities"
    ∷ u8 "bDataInterface"
    ∷ [])

-- `struct usb_cdc_acm_desc`
unfoldable pub cdc_acm_desc : Struct
cdc_acm_desc =
    packed
      (u8 "bLength" ∷ u8 "bDescriptorType" ∷ u8 "bDescriptorsubtype" ∷ u8 "bmCapabilities" ∷ [])

-- `struct usb_cdc_dlm_desc`
unfoldable pub cdc_dlm_desc : Struct
cdc_dlm_desc =
    packed
      (u8 "bLength" ∷ u8 "bDescriptorType" ∷ u8 "bDescriptorsubtype" ∷ u8 "bmCapabilities" ∷ [])

-- `usb_cdc_union_desc_def(n)`
unfoldable pub cdc_union_desc : ℕ → Struct
cdc_union_desc n = packed (
    u8 "bLength"
    ∷ u8 "bDescriptorType"
    ∷ u8 "bDescriptorsubtype"
    ∷ u8 "bMasterInterface"
    ∷ array (u8 "bSlaveInterface") n
    ∷ [])

-- `usb_cdc_coutry_sel_desc_def(n)`
unfoldable pub cdc_country_sel_desc : ℕ → Struct
cdc_country_sel_desc n = packed (
    u8 "bLength"
    ∷ u8 "bDescriptorType"
    ∷ u8 "bDescriptorsubtype"
    ∷ u8 "iCountryCodeRelDate"
    ∷ array (u16 "wCountryCode") n
    ∷ [])

-- `struct usb_cdc_notif_header`, with the two bytes that `wRequestAndType` overlays.
unfoldable pub cdc_notif_header : Struct
cdc_notif_header =
    packed (u8 "bmRequestType" ∷ u8 "bRequest" ∷ u16 "wValue" ∷ u16 "wIndex" ∷ u16 "wLength" ∷ [])

abbrev hdr_parts : List (String × ℕ)
hdr_parts =
    ("bmRequestType", 1) ∷ ("bRequest", 1) ∷ ("wValue", 2) ∷ ("wIndex", 2) ∷ ("wLength", 2) ∷ []

-- `struct usb_cdc_notif_serial_state`, which starts with a `struct usb_cdc_notif_header`.
unfoldable pub cdc_notif_serial_state : Struct
cdc_notif_serial_state = packed (structs "hdr" hdr_parts 1 ∷ u16 "bits" ∷ [])

-- `struct usb_cdc_line_coding`
unfoldable pub cdc_line_coding : Struct
cdc_line_coding =
    packed (u32 "dwDTERate" ∷ u8 "bCharFormat" ∷ u8 "bParityType" ∷ u8 "bDataBits" ∷ [])
