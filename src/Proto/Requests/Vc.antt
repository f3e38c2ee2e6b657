-- ===== src/Proto/Requests/Vc.antt =====
-- The requests of usb_vc_proto.h in fw/v0/include/no2usb.
use no2usb.Base.{List, [], ◌∷◌}
use no2usb.Proto.Codes.Enum.{Enum}
use no2usb.Proto.Requests.Request.{Request, request}

-- `USB_REQ_VC_SET_CUR` to `USB_REQ_VC_GET_DEF`
abbrev pub vc_request_codes : Enum
vc_request_codes =
    ("USB_REQ_VC_SET_CUR", 0x01)
    ∷ ("USB_REQ_VC_GET_CUR", 0x81)
    ∷ ("USB_REQ_VC_GET_MIN", 0x82)
    ∷ ("USB_REQ_VC_GET_MAX", 0x83)
    ∷ ("USB_REQ_VC_GET_RES", 0x84)
    ∷ ("USB_REQ_VC_GET_LEN", 0x85)
    ∷ ("USB_REQ_VC_GET_INFO", 0x86)
    ∷ ("USB_REQ_VC_GET_DEF", 0x87)
    ∷ []

-- `USB_RT_VC_SET_CUR_INTF` to `USB_RT_VC_GET_DEF_INTF`
abbrev pub vc_intf_requests : List Request
vc_intf_requests =
    request "USB_RT_VC_SET_CUR_INTF" 0x01 0x21
    ∷ request "USB_RT_VC_GET_CUR_INTF" 0x81 0xa1
    ∷ request "USB_RT_VC_GET_MIN_INTF" 0x82 0xa1
    ∷ request "USB_RT_VC_GET_MAX_INTF" 0x83 0xa1
    ∷ request "USB_RT_VC_GET_RES_INTF" 0x84 0xa1
    ∷ request "USB_RT_VC_GET_LEN_INTF" 0x85 0xa1
    ∷ request "USB_RT_VC_GET_INFO_INTF" 0x86 0xa1
    ∷ request "USB_RT_VC_GET_DEF_INTF" 0x87 0xa1
    ∷ []

-- `USB_RT_VC_SET_CUR_EP` to `USB_RT_VC_GET_DEF_EP`
abbrev pub vc_ep_requests : List Request
vc_ep_requests =
    request "USB_RT_VC_SET_CUR_EP" 0x01 0x22
    ∷ request "USB_RT_VC_GET_CUR_EP" 0x81 0xa2
    ∷ request "USB_RT_VC_GET_MIN_EP" 0x82 0xa2
    ∷ request "USB_RT_VC_GET_MAX_EP" 0x83 0xa2
    ∷ request "USB_RT_VC_GET_RES_EP" 0x84 0xa2
    ∷ request "USB_RT_VC_GET_LEN_EP" 0x85 0xa2
    ∷ request "USB_RT_VC_GET_INFO_EP" 0x86 0xa2
    ∷ request "USB_RT_VC_GET_DEF_EP" 0x87 0xa2
    ∷ []
