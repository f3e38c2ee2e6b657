-- ===== src/Proto/Requests/Usb.antt =====
-- The requests of usb_proto.h, usb_hid_proto.h and usb_dfu_proto.h in fw/v0/include/no2usb.
use no2usb.Base.{List, [], ◌∷◌}
use no2usb.Proto.Codes.Enum.{Enum}
use no2usb.Proto.Requests.Request.{Request, request}

-- `USB_RT_GET_STATUS_DEV` to `USB_RT_SYNCHFRAME`
abbrev pub standard_requests : List Request
standard_requests =
    request "USB_RT_GET_STATUS_DEV" 0 0x80
    ∷ request "USB_RT_GET_STATUS_INTF" 0 0x81
    ∷ request "USB_RT_GET_STATUS_EP" 0 0x82
    ∷ request "USB_RT_CLEAR_FEATURE_DEV" 1 0x00
    ∷ request "USB_RT_CLEAR_FEATURE_INTF" 1 0x01
    ∷ request "USB_RT_CLEAR_FEATURE_EP" 1 0x02
    ∷ request "USB_RT_SET_FEATURE_DEV" 3 0x00
    ∷ request "USB_RT_SET_FEATURE_INTF" 3 0x01
    ∷ request "USB_RT_SET_FEATURE_EP" 3 0x02
    ∷ request "USB_RT_SET_ADDRESS" 5 0x00
    ∷ request "USB_RT_GET_DESCRIPTOR" 6 0x80
    ∷ request "USB_RT_SET_DESCRIPTOR" 7 0x00
    ∷ request "USB_RT_GET_CONFIGURATION" 8 0x80
    ∷ request "USB_RT_SET_CONFIGURATION" 9 0x00
    ∷ request "USB_RT_GET_INTERFACE" 10 0x81
    ∷ request "USB_RT_SET_INTERFACE" 11 0x01
    ∷ request "USB_RT_SYNCHFRAME" 12 0x82
    ∷ []

-- `USB_REQ_HID_GET_REPORT` to `USB_REQ_HID_SET_PROTOCOL`
abbrev pub hid_request_codes : Enum
hid_request_codes =
    ("USB_REQ_HID_GET_REPORT", 0x01)
    ∷ ("USB_REQ_HID_SET_REPORT", 0x09)
    ∷ ("USB_REQ_HID_GET_IDLE", 0x02)
    ∷ ("USB_REQ_HID_SET_IDLE", 0x0a)
    ∷ ("USB_REQ_HID_GET_PROTOCOL", 0x03)
    ∷ ("USB_REQ_HID_SET_PROTOCOL", 0x0b)
    ∷ []

-- `USB_RT_HID_GET_REPORT` to `USB_RT_HID_SET_PROTOCOL`
abbrev pub hid_requests : List Request
hid_requests =
    request "USB_RT_HID_GET_REPORT" 0x01 0xa1
    ∷ request "USB_RT_HID_SET_REPORT" 0x09 0x21
    ∷ request "USB_RT_HID_GET_IDLE" 0x02 0xa1
    ∷ request "USB_RT_HID_SET_IDLE" 0x0a 0x21
    ∷ request "USB_RT_HID_GET_PROTOCOL" 0x03 0xa1
    ∷ request "USB_RT_HID_SET_PROTOCOL" 0x0b 0x21
    ∷ []

-- `USB_RT_HID_GET_DESCRIPTOR` to `USB_RT_HID_SET_DESCRIPTOR`
abbrev pub hid_descriptor_requests : List Request
hid_descriptor_requests =
    request "USB_RT_HID_GET_DESCRIPTOR" 6 0x81 ∷ request "USB_RT_HID_SET_DESCRIPTOR" 7 0x01 ∷ []

-- `USB_REQ_DFU_DETACH` to `USB_REQ_DFU_ABORT`
abbrev pub dfu_request_codes : Enum
dfu_request_codes =
    ("USB_REQ_DFU_DETACH", 0)
    ∷ ("USB_REQ_DFU_DNLOAD", 1)
    ∷ ("USB_REQ_DFU_UPLOAD", 2)
    ∷ ("USB_REQ_DFU_GETSTATUS", 3)
    ∷ ("USB_REQ_DFU_CLRSTATUS", 4)
    ∷ ("USB_REQ_DFU_GETSTATE", 5)
    ∷ ("USB_REQ_DFU_ABORT", 6)
    ∷ []

-- `USB_RT_DFU_DETACH` to `USB_RT_DFU_ABORT`
abbrev pub dfu_requests : List Request
dfu_requests =
    request "USB_RT_DFU_DETACH" 0 0x21
    ∷ request "USB_RT_DFU_DNLOAD" 1 0x21
    ∷ request "USB_RT_DFU_UPLOAD" 2 0xa1
    ∷ request "USB_RT_DFU_GETSTATUS" 3 0xa1
    ∷ request "USB_RT_DFU_CLRSTATUS" 4 0x21
    ∷ request "USB_RT_DFU_GETSTATE" 5 0xa1
    ∷ request "USB_RT_DFU_ABORT" 6 0x21
    ∷ []
