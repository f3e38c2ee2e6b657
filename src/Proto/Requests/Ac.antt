-- ===== src/Proto/Requests/Ac.antt =====
-- The requests of usb_ac_proto.h in fw/v0/include/no2usb.
use no2usb.Base.{List, [], ◌∷◌}
use no2usb.Proto.Codes.Enum.{Enum}
use no2usb.Proto.Requests.Request.{Request, request}

-- `USB_REQ_AC_SET_CUR` to `USB_REQ_AC_GET_STAT`
abbrev pub ac_request_codes : Enum
ac_request_codes =
    ("USB_REQ_AC_SET_CUR", 0x01)
    ∷ ("USB_REQ_AC_GET_CUR", 0x81)
    ∷ ("USB_REQ_AC_SET_MIN", 0x02)
    ∷ ("USB_REQ_AC_GET_MIN", 0x82)
    ∷ ("USB_REQ_AC_SET_MAX", 0x03)
    ∷ ("USB_REQ_AC_GET_MAX", 0x83)
    ∷ ("USB_REQ_AC_SET_RES", 0x04)
    ∷ ("USB_REQ_AC_GET_RES", 0x84)
    ∷ ("USB_REQ_AC_SET_MEM", 0x05)
    ∷ ("USB_REQ_AC_GET_MEM", 0x85)
    ∷ ("USB_REQ_AC_GET_STAT", 0xFF)
    ∷ []

-- `USB_RT_AC_SET_CUR_INTF` to `USB_RT_AC_GET_STAT_INTF`
abbrev pub ac_intf_requests : List Request
ac_intf_requests =
    request "USB_RT_AC_SET_CUR_INTF" 0x01 0x21
    ∷ request "USB_RT_AC_GET_CUR_INTF" 0x81 0xa1
    ∷ request "USB_RT_AC_SET_MIN_INTF" 0x02 0x21
    ∷ request "USB_RT_AC_GET_MIN_INTF" 0x82 0xa1
    ∷ request "USB_RT_AC_SET_MAX_INTF" 0x03 0x21
    ∷ request "USB_RT_AC_GET_MAX_INTF" 0x83 0xa1
    ∷ request "USB_RT_AC_SET_RES_INTF" 0x04 0x21
    ∷ request "USB_RT_AC_GET_RES_INTF" 0x84 0xa1
    ∷ request "USB_RT_AC_SET_MEM_INTF" 0x05 0x21
    ∷ request "USB_RT_AC_GET_MEM_INTF" 0x85 0xa1
    ∷ request "USB_RT_AC_GET_STAT_INTF" 0xFF 0xa1
    ∷ []

-- `USB_RT_AC_SET_CUR_EP` to `USB_RT_AC_GET_STAT_EP`
abbrev pub ac_ep_requests : List Request
ac_ep_requests =
    request "USB_RT_AC_SET_CUR_EP" 0x01 0x22
    ∷ request "USB_RT_AC_GET_CUR_EP" 0x81 0xa2
    ∷ request "USB_RT_AC_SET_MIN_EP" 0x02 0x22
    ∷ request "USB_RT_AC_GET_MIN_EP" 0x82 0xa2
    ∷ request "USB_RT_AC_SET_MAX_EP" 0x03 0x22
    ∷ request "USB_RT_AC_GET_MAX_EP" 0x83 0xa2
    ∷ request "USB_RT_AC_SET_RES_EP" 0x04 0x22
    ∷ request "USB_RT_AC_GET_RES_EP" 0x84 0xa2
    ∷ request "USB_RT_AC_GET_STAT_EP" 0xFF 0xa2
    ∷ []
