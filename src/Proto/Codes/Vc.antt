-- ===== src/Proto/Codes/Vc.antt =====
-- The enumerations of usb_vc_proto.h
-- in fw/v0/include/no2usb.
use no2usb.Base.{[], ◌∷◌}
use no2usb.Proto.Codes.Enum.{Enum}

-- `enum usb_vc_subclass`
abbrev pub vc_subclass : Enum
vc_subclass =
    ("USB_VC_SCLS_UNDEFINED", 0x00)
    ∷ ("USB_VC_SCLS_VIDEOCONTROL", 0x01)
    ∷ ("USB_VC_SCLS_VIDEOSTREAMING", 0x02)
    ∷ ("USB_VC_SCLS_COLLECTION", 0x03)
    ∷ []

-- `enum usb_vc_vc_intf_desc_subtype`
abbrev pub vc_vc_intf_desc_subtype : Enum
vc_vc_intf_desc_subtype =
    ("USB_VC_VC_IDST_UNDEFINED", 0x00)
    ∷ ("USB_VC_VC_IDST_HEADER", 0x01)
    ∷ ("USB_VC_VC_IDST_INPUT_TERMINAL", 0x02)
    ∷ ("USB_VC_VC_IDST_OUTPUT_TERMINAL", 0x03)
    ∷ ("USB_VC_VC_IDST_SELECTOR_UNIT", 0x04)
    ∷ ("USB_VC_VC_IDST_PROCESSING_UNIT", 0x05)
    ∷ ("USB_VC_VC_IDST_EXTENSION_UNIT", 0x06)
    ∷ []

-- `enum usb_vc_vs_intf_desc_subtype`
abbrev pub vc_vs_intf_desc_subtype : Enum
vc_vs_intf_desc_subtype =
    ("USB_VC_VS_IDST_UNDEFINED", 0x00)
    ∷ ("USB_VC_VS_IDST_INPUT_HEADER", 0x01)
    ∷ ("USB_VC_VS_IDST_OUTPUT_HEADER", 0x02)
    ∷ ("USB_VC_VS_IDST_STILL_IMAGE_FRAME", 0x03)
    ∷ ("USB_VC_VS_IDST_FORMAT_UNCOMPRESSED", 0x04)
    ∷ ("USB_VC_VS_IDST_FRAME_UNCOMPRESSED", 0x05)
    ∷ ("USB_VC_VS_IDST_FORMAT_MJPEG", 0x06)
    ∷ ("USB_VC_VS_IDST_FRAME_MJPEG", 0x07)
    ∷ ("USB_VC_VS_IDST_FORMAT_MPEG2TS", 0x0A)
    ∷ ("USB_VC_VS_IDST_FORMAT_DV", 0x0C)
    ∷ ("USB_VC_VS_IDST_COLORFORMAT", 0x0D)
    ∷ ("USB_VC_VS_IDST_FORMAT_FRAME_BASED", 0x10)
    ∷ ("USB_VC_VS_IDST_FRAME_FRAME_BASED", 0x11)
    ∷ ("USB_VC_VS_IDST_FORMAT_STREAM_BASED", 0x12)
    ∷ []

-- `enum usb_vc_ep_desc_subtype`
abbrev pub vc_ep_desc_subtype : Enum
vc_ep_desc_subtype =
    ("USB_VC_EDST_UNDEFINED", 0x00)
    ∷ ("USB_VC_EDST_GENERAL", 0x01)
    ∷ ("USB_VC_EDST_ENDPOINT", 0x02)
    ∷ ("USB_VC_EDST_INTERRUPT", 0x03)
    ∷ []

-- `enum usb_vc_vc_control`
abbrev pub vc_vc_control : Enum
vc_vc_control =
    ("USB_VC_VC_CONTROL_UNDEFINED", 0x00)
    ∷ ("USB_VC_VC_CONTROL_VIDEO_POWER_MODE", 0x01)
    ∷ ("USB_VC_VC_CONTROL_REQUEST_ERROR_CODE", 0x02)
    ∷ []

-- `enum usb_vc_terminal_control`
abbrev pub vc_terminal_control : Enum
vc_terminal_control = ("USB_VC_TE_CONTROL_UNDEFINED", 0x00) ∷ []

-- `enum usb_vc_selector_control`
abbrev pub vc_selector_control : Enum
vc_selector_control =
    ("USB_VC_SU_CONTROL_UNDEFINED", 0x00) ∷ ("USB_VC_SU_CONTROL_INPUT_SELECT", 0x01) ∷ []

-- `enum usb_vc_camera_control`
abbrev pub vc_camera_control : Enum
vc_camera_control =
    ("USB_VC_CT_CONTROL_UNDEFINED", 0x00)
    ∷ ("USB_VC_CT_CONTROL_SCANNING_MODE", 0x01)
    ∷ ("USB_VC_CT_CONTROL_AE_MODE", 0x02)
    ∷ ("USB_VC_CT_CONTROL_AE_PRIORITY", 0x03)
    ∷ ("USB_VC_CT_CONTROL_EXPOSURE_TIME_ABSOLUTE", 0x04)
    ∷ ("USB_VC_CT_CONTROL_EXPOSURE_TIME_RELATIVE", 0x05)
    ∷ ("USB_VC_CT_CONTROL_FOCUS_ABSOLUTE", 0x06)
    ∷ ("USB_VC_CT_CONTROL_FOCUS_RELATIVE", 0x07)
    ∷ ("USB_VC_CT_CONTROL_FOCUS_AUTO", 0x08)
    ∷ ("USB_VC_CT_CONTROL_IRIS_ABSOLUTE", 0x09)
    ∷ ("USB_VC_CT_CONTROL_IRIS_RELATIVE", 0x0A)
    ∷ ("USB_VC_CT_CONTROL_ZOOM_ABSOLUTE", 0x0B)
    ∷ ("USB_VC_CT_CONTROL_ZOOM_RELATIVE", 0x0C)
    ∷ ("USB_VC_CT_CONTROL_PANTILT_ABSOLUTE", 0x0D)
    ∷ ("USB_VC_CT_CONTROL_PANTILT_RELATIVE", 0x0E)
    ∷ ("USB_VC_CT_CONTROL_ROLL_ABSOLUTE", 0x0F)
    ∷ ("USB_VC_CT_CONTROL_ROLL_RELATIVE", 0x10)
    ∷ ("USB_VC_CT_CONTROL_PRIVACY", 0x11)
    ∷ ("USB_VC_CT_CONTROL_FOCUS_SIMPLE", 0x12)
    ∷ ("USB_VC_CT_CONTROL_WINDOW", 0x13)
    ∷ ("USB_VC_CT_CONTROL_REGION_OF_INTEREST", 0x14)
    ∷ []

-- `enum usb_vc_processing_control`
abbrev pub vc_processing_control : Enum
vc_processing_control =
    ("USB_VC_PU_CONTROL_UNDEFINED", 0x00)
    ∷ ("USB_VC_PU_CONTROL_BACKLIGHT_COMPENSATION", 0x01)
    ∷ ("USB_VC_PU_CONTROL_BRIGHTNESS", 0x02)
    ∷ ("USB_VC_PU_CONTROL_CONTRAST", 0x03)
    ∷ ("USB_VC_PU_CONTROL_GAIN", 0x04)
    ∷ ("USB_VC_PU_CONTROL_POWER_LINE_FREQUENCY", 0x05)
    ∷ ("USB_VC_PU_CONTROL_HUE", 0x06)
    ∷ ("USB_VC_PU_CONTROL_SATURATION", 0x07)
    ∷ ("USB_VC_PU_CONTROL_SHARPNESS", 0x08)
    ∷ ("USB_VC_PU_CONTROL_GAMMA", 0x09)
    ∷ ("USB_VC_PU_CONTROL_WHITE_BALANCE_TEMPERATURE", 0x0A)
    ∷ ("USB_VC_PU_CONTROL_WHITE_BALANCE_TEMPERATURE_AUTO", 0x0B)
    ∷ ("USB_VC_PU_CONTROL_WHITE_BALANCE_COMPONENT", 0x0C)
    ∷ ("USB_VC_PU_CONTROL_WHITE_BALANCE_COMPONENT_AUTO", 0x0D)
    ∷ ("USB_VC_PU_CONTROL_DIGITAL_MULTIPLIER", 0x0E)
    ∷ ("USB_VC_PU_CONTROL_DIGITAL_MULTIPLIER_LIMIT", 0x0F)
    ∷ ("USB_VC_PU_CONTROL_HUE_AUTO", 0x10)
    ∷ ("USB_VC_PU_CONTROL_ANALOG_VIDEO_STANDARD", 0x11)
    ∷ ("USB_VC_PU_CONTROL_ANALOG_LOCK_STATUS", 0x12)
    ∷ ("USB_VC_PU_CONTROL_CONTRAST_AUTO", 0x13)
    ∷ []

-- `enum usb_vc_encoding_control`
abbrev pub vc_encoding_control : Enum
vc_encoding_control =
    ("USB_VC_EU_CONTROL_UNDEFINED", 0x00)
    ∷ ("USB_VC_EU_CONTROL_SELECT_LAYER", 0x01)
    ∷ ("USB_VC_EU_CONTROL_PROFILE_TOOLSET", 0x02)
    ∷ ("USB_VC_EU_CONTROL_VIDEO_RESOLUTION", 0x03)
    ∷ ("USB_VC_EU_CONTROL_MIN_FRAME_INTERVAL", 0x04)
    ∷ ("USB_VC_EU_CONTROL_SLICE_MODE", 0x05)
    ∷ ("USB_VC_EU_CONTROL_RATE_CONTROL_MODE", 0x06)
    ∷ ("USB_VC_EU_CONTROL_AVERAGE_BITRATE", 0x07)
    ∷ ("USB_VC_EU_CONTROL_CPB_SIZE", 0x08)
    ∷ ("USB_VC_EU_CONTROL_PEAK_BIT_RATE", 0x09)
    ∷ ("USB_VC_EU_CONTROL_QUANTIZATION_PARAMS", 0x0A)
    ∷ ("USB_VC_EU_CONTROL_SYNC_REF_FRAME", 0x0B)
    ∷ ("USB_VC_EU_CONTROL_LTR_BUFFER", 0x0C)
    ∷ ("USB_VC_EU_CONTROL_LTR_PICTURE", 0x0D)
    ∷ ("USB_VC_EU_CONTROL_LTR_VALIDATION", 0x0E)
    ∷ ("USB_VC_EU_CONTROL_LEVEL_IDC_LIMIT", 0x0F)
    ∷ ("USB_VC_EU_CONTROL_SEI_PAYLOADTYPE", 0x10)
    ∷ ("USB_VC_EU_CONTROL_QP_RANGE", 0x11)
    ∷ ("USB_VC_EU_CONTROL_PRIORITY", 0x12)
    ∷ ("USB_VC_EU_CONTROL_START_OR_STOP_LAYER", 0x13)
    ∷ ("USB_VC_EU_CONTROL_ERROR_RESILIENCY", 0x14)
    ∷ []

-- `enum usb_vc_extension_control`
abbrev pub vc_extension_control : Enum
vc_extension_control = ("USB_VC_XU_CONTROL_UNDEFINED", 0x00) ∷ []

-- `enum usb_vc_vs_control`
abbrev pub vc_vs_control : Enum
vc_vs_control =
    ("USB_VC_VS_CONTROL_UNDEFINED", 0x00)
    ∷ ("USB_VC_VS_CONTROL_PROBE", 0x01)
    ∷ ("USB_VC_VS_CONTROL_COMMIT", 0x02)
    ∷ ("USB_VC_VS_CONTROL_STILL_PROBE", 0x03)
    ∷ ("USB_VC_VS_CONTROL_STILL_COMMI", 0x04)
    ∷ ("USB_VC_VS_CONTROL_STILL_IMAGE_TRIGGER", 0x05)
    ∷ ("USB_VC_VS_CONTROL_STREAM_ERROR_CODE", 0x06)
    ∷ ("USB_VC_VS_CONTROL_GENERATE_KEY_FRAME", 0x07)
    ∷ ("USB_VC_VS_CONTROL_UPDATE_FRAME_SEGMENT", 0x08)
    ∷ ("USB_VC_VS_CONTROL_SYNCH_DELAY", 0x09)
    ∷ []
