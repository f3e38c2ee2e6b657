-- ===== src/Proto/Requests/Cdc.antt =====
-- The requests of usb_cdc_proto.h in fw/v0/include/no2usb.
use no2usb.Base.{List, [], ◌∷◌}
use no2usb.Proto.Codes.Enum.{Enum}
use no2usb.Proto.Requests.Request.{Request, request}

-- `USB_REQ_CDC_SEND_ENCAPSULATED_COMMAND` to `USB_REQ_CDC_GET_ATM_VC_STATISTICS`
abbrev pub cdc_request_codes : Enum
cdc_request_codes =
    ("USB_REQ_CDC_SEND_ENCAPSULATED_COMMAND", 0x00)
    ∷ ("USB_REQ_CDC_GET_ENCAPSULATED_RESPONSE", 0x01)
    ∷ ("USB_REQ_CDC_SET_COMM_FEATURE", 0x02)
    ∷ ("USB_REQ_CDC_GET_COMM_FEATURE", 0x03)
    ∷ ("USB_REQ_CDC_CLEAR_COMM_FEATURE", 0x04)
    ∷ ("USB_REQ_CDC_SET_AUX_LINE_STATE", 0x10)
    ∷ ("USB_REQ_CDC_SET_HOOK_STATE", 0x11)
    ∷ ("USB_REQ_CDC_PULSE_SETUP", 0x12)
    ∷ ("USB_REQ_CDC_SEND_PULSE", 0x13)
    ∷ ("USB_REQ_CDC_SET_PULSE_TIME", 0x14)
    ∷ ("USB_REQ_CDC_RING_AUX_JACK", 0x15)
    ∷ ("USB_REQ_CDC_SET_LINE_CODING", 0x20)
    ∷ ("USB_REQ_CDC_GET_LINE_CODING", 0x21)
    ∷ ("USB_REQ_CDC_SET_CONTROL_LINE_STATE", 0x22)
    ∷ ("USB_REQ_CDC_SEND_BREAK", 0x23)
    ∷ ("USB_REQ_CDC_SET_RINGER_PARMS", 0x30)
    ∷ ("USB_REQ_CDC_GET_RINGER_PARMS", 0x31)
    ∷ ("USB_REQ_CDC_SET_OPERATION_PARMS", 0x32)
    ∷ ("USB_REQ_CDC_GET_OPERATION_PARMS", 0x33)
    ∷ ("USB_REQ_CDC_SET_LINE_PARMS", 0x34)
    ∷ ("USB_REQ_CDC_GET_LINE_PARMS", 0x35)
    ∷ ("USB_REQ_CDC_DIAL_DIGITS", 0x36)
    ∷ ("USB_REQ_CDC_SET_UNIT_PARAMETER", 0x37)
    ∷ ("USB_REQ_CDC_GET_UNIT_PARAMETER", 0x38)
    ∷ ("USB_REQ_CDC_CLEAR_UNIT_PARAMETER", 0x39)
    ∷ ("USB_REQ_CDC_GET_PROFILE", 0x3A)
    ∷ ("USB_REQ_CDC_SET_ETH_MULTICAST_FILTERS", 0x40)
    ∷ ("USB_REQ_CDC_SET_ETH_PWR_MGMT_PTRN_FLT", 0x41)
    ∷ ("USB_REQ_CDC_GET_ETH_PWR_MGMT_PTRN_FLT", 0x42)
    ∷ ("USB_REQ_CDC_SET_ETH_PACKET_FILTER", 0x43)
    ∷ ("USB_REQ_CDC_GET_ETH_STATISTIC", 0x44)
    ∷ ("USB_REQ_CDC_SET_ATM_DATA_FORMAT", 0x50)
    ∷ ("USB_REQ_CDC_GET_ATM_DEVICE_STATISTICS", 0x51)
    ∷ ("USB_REQ_CDC_SET_ATM_DEFAULT_VC", 0x52)
    ∷ ("USB_REQ_CDC_GET_ATM_VC_STATISTICS", 0x53)
    ∷ []

-- `USB_NOTIF_CDC_NETWORK_CONNECTION` to `USB_NOTIF_CDC_CONNECTION_SPEED_CHANGE`
abbrev pub cdc_notifications : Enum
cdc_notifications =
    ("USB_NOTIF_CDC_NETWORK_CONNECTION", 0x00)
    ∷ ("USB_NOTIF_CDC_RESPONSE_AVAILABLE", 0x01)
    ∷ ("USB_NOTIF_CDC_AUX_JACK_HOOK_STATE", 0x08)
    ∷ ("USB_NOTIF_CDC_RING_DETECT", 0x09)
    ∷ ("USB_NOTIF_CDC_SERIAL_STATE", 0x20)
    ∷ ("USB_NOTIF_CDC_CALL_STATE_CHANGE", 0x28)
    ∷ ("USB_NOTIF_CDC_LINE_STATE_CHANGE", 0x29)
    ∷ ("USB_NOTIF_CDC_CONNECTION_SPEED_CHANGE", 0x2A)
    ∷ []

-- `USB_RT_CDC_SEND_ENCAPSULATED_COMMAND` to `USB_RT_CDC_GET_ATM_VC_STATISTICS`
abbrev pub cdc_requests : List Request
cdc_requests =
    request "USB_RT_CDC_SEND_ENCAPSULATED_COMMAND" 0x00 0x21
    ∷ request "USB_RT_CDC_GET_ENCAPSULATED_RESPONSE" 0x01 0xa1
    ∷ request "USB_RT_CDC_SET_COMM_FEATURE" 0x02 0x21
    ∷ request "USB_RT_CDC_GET_COMM_FEATURE" 0x03 0xa1
    ∷ request "USB_RT_CDC_CLEAR_COMM_FEATURE" 0x04 0x21
    ∷ request "USB_RT_CDC_SET_AUX_LINE_STATE" 0x10 0x21
    ∷ request "USB_RT_CDC_SET_HOOK_STATE" 0x11 0x21
    ∷ request "USB_RT_CDC_PULSE_SETUP" 0x12 0x21
    ∷ request "USB_RT_CDC_SEND_PULSE" 0x13 0x21
    ∷ request "USB_RT_CDC_SET_PULSE_TIME" 0x14 0x21
    ∷ request "USB_RT_CDC_RING_AUX_JACK" 0x15 0x21
    ∷ request "USB_RT_CDC_SET_LINE_CODING" 0x20 0x21
    ∷ request "USB_RT_CDC_GET_LINE_CODING" 0x21 0xa1
    ∷ request "USB_RT_CDC_SET_CONTROL_LINE_STATE" 0x22 0x21
    ∷ request "USB_RT_CDC_SEND_BREAK" 0x23 0x21
    ∷ request "USB_RT_CDC_SET_RINGER_PARMS" 0x30 0x21
    ∷ request "USB_RT_CDC_GET_RINGER_PARMS" 0x31 0xa1
    ∷ request "USB_RT_CDC_SET_OPERATION_PARMS" 0x32 0x21
    ∷ request "USB_RT_CDC_GET_OPERATION_PARMS" 0x33 0xa1
    ∷ request "USB_RT_CDC_SET_LINE_PARMS" 0x34 0x21
    ∷ request "USB_RT_CDC_GET_LINE_PARMS" 0x35 0xa1
    ∷ request "USB_RT_CDC_DIAL_DIGITS" 0x36 0x21
    ∷ request "USB_RT_CDC_SET_UNIT_PARAMETER" 0x37 0x21
    ∷ request "USB_RT_CDC_GET_UNIT_PARAMETER" 0x38 0xa1
    ∷ request "USB_RT_CDC_CLEAR_UNIT_PARAMETER" 0x39 0x21
    ∷ request "USB_RT_CDC_GET_PROFILE" 0x3A 0xa1
    ∷ request "USB_RT_CDC_SET_ETH_MULTICAST_FILTERS" 0x40 0x21
    ∷ request "USB_RT_CDC_SET_ETH_PWR_MGMT_PTRN_FLT" 0x41 0x21
    ∷ request "USB_RT_CDC_GET_ETH_PWR_MGMT_PTRN_FLT" 0x42 0xa1
    ∷ request "USB_RT_CDC_SET_ETH_PACKET_FILTER" 0x43 0x21
    ∷ request "USB_RT_CDC_GET_ETH_STATISTIC" 0x44 0xa1
    ∷ request "USB_RT_CDC_SET_ATM_DATA_FORMAT" 0x50 0x21
    ∷ request "USB_RT_CDC_GET_ATM_DEVICE_STATISTICS" 0x51 0xa1
    ∷ request "USB_RT_CDC_SET_ATM_DEFAULT_VC" 0x52 0x21
    ∷ request "USB_RT_CDC_GET_ATM_VC_STATISTICS" 0x53 0xa1
    ∷ []
