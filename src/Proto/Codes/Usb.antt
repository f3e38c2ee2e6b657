-- ===== src/Proto/Codes/Usb.antt =====
-- The enumerations of usb_proto.h, usb_hid_proto.h, usb_dfu_proto.h and usb_msos20_proto.h
-- in fw/v0/include/no2usb.
use no2usb.Base.{[], ◌∷◌}
use no2usb.Proto.Codes.Enum.{Enum}

-- `enum usb_desc_type`
abbrev pub desc_type : Enum
desc_type =
    ("USB_DT_DEV", 1)
    ∷ ("USB_DT_CONF", 2)
    ∷ ("USB_DT_STR", 3)
    ∷ ("USB_DT_INTF", 4)
    ∷ ("USB_DT_EP", 5)
    ∷ ("USB_DT_DEV_QUAL", 6)
    ∷ ("USB_DT_OTHER_SPEED_CONF", 7)
    ∷ ("USB_DT_INTF_PWR", 8)
    ∷ ("USB_DT_OTG", 9)
    ∷ ("USB_DT_DEBUG", 10)
    ∷ ("USB_DT_INTF_ASSOC", 11)
    ∷ ("USB_DT_BOS", 15)
    ∷ ("USB_DT_DEV_CAP", 16)
    ∷ []

-- `enum usb_cs_desc_type`
abbrev pub cs_desc_type : Enum
cs_desc_type =
    ("USB_CS_DT_UNDEFINED", 32)
    ∷ ("USB_CS_DT_DEV", 33)
    ∷ ("USB_CS_DT_CONF", 34)
    ∷ ("USB_CS_DT_STR", 35)
    ∷ ("USB_CS_DT_INTF", 36)
    ∷ ("USB_CS_DT_EP", 37)
    ∷ []

-- `enum usb_class`
abbrev pub class_code : Enum
class_code =
    ("USB_CLS_AUDIO", 0x01)
    ∷ ("USB_CLS_COMMUNICATIONS", 0x02)
    ∷ ("USB_CLS_CDC_CONTROL", 0x02)
    ∷ ("USB_CLS_HID", 0x03)
    ∷ ("USB_CLS_PHYSICAL", 0x05)
    ∷ ("USB_CLS_IMAGE", 0x06)
    ∷ ("USB_CLS_PRINTER", 0x07)
    ∷ ("USB_CLS_MASS_STORAGE", 0x08)
    ∷ ("USB_CLS_HUB", 0x09)
    ∷ ("USB_CLS_CDC_DATA", 0x0a)
    ∷ ("USB_CLS_SMARTCARD", 0x0b)
    ∷ ("USB_CLS_VIDEO", 0x0e)
    ∷ ("USB_CLS_HEALTHCARE", 0x0f)
    ∷ ("USB_CLS_AUDIOVIDEO", 0x10)
    ∷ ("USB_CLS_BILLBOARD", 0x11)
    ∷ ("USB_CLS_USB_C_BRIDGE", 0x12)
    ∷ ("USB_CLS_DIAGNOSTIC", 0xdc)
    ∷ ("USB_CLS_WIRELESS", 0xe0)
    ∷ ("USB_CLS_MISC", 0xef)
    ∷ ("USB_CLS_APP_SPECIFIC", 0xfe)
    ∷ ("USB_CLS_VENDOR_SPECIFIC", 0xff)
    ∷ []

-- `enum usb_hid_subclass`
abbrev pub hid_subclass : Enum
hid_subclass = ("USB_HID_SCLS_NONE", 0x00) ∷ ("USB_HID_SCLS_BOOT", 0x01) ∷ []

-- `enum usb_hid_protocol`
abbrev pub hid_protocol : Enum
hid_protocol =
    ("USB_HID_PROTO_NONE", 0x00)
    ∷ ("USB_HID_PROTO_KEYBOARD", 0x01)
    ∷ ("USB_HID_PROTO_MOUSE", 0x02)
    ∷ []

-- `enum usb_hid_desc_type`
abbrev pub hid_desc_type : Enum
hid_desc_type =
    ("USB_HID_DT_HID", 0x21) ∷ ("USB_HID_DT_REPORT", 0x22) ∷ ("USB_HID_DT_PHYSICAL", 0x23) ∷ []

-- `enum usb_dfu_desc_type`
abbrev pub dfu_desc_type : Enum
dfu_desc_type = ("USB_DFU_DT_FUNC", 33) ∷ []

-- `enum dfu_status`
abbrev pub dfu_status : Enum
dfu_status =
    ("OK", 0)
    ∷ ("errTARGET", 1)
    ∷ ("errFILE", 2)
    ∷ ("errWRITE", 3)
    ∷ ("errERASE", 4)
    ∷ ("errCHECK_ERASED", 5)
    ∷ ("errPROG", 6)
    ∷ ("errVERIFY", 7)
    ∷ ("errADDRESS", 8)
    ∷ ("errNOTDONE", 9)
    ∷ ("errFIRMWARE", 10)
    ∷ ("errVENDOR", 11)
    ∷ ("errUSBR", 12)
    ∷ ("errPOR", 13)
    ∷ ("errUNKNOWN", 14)
    ∷ ("errSTALLEDPKT", 15)
    ∷ ("_DFU_MAX_STATUS", 16)
    ∷ []

-- `enum msos20_desc_type`
abbrev pub msos20_desc_type : Enum
msos20_desc_type =
    ("MSOS20_SET_HEADER_DESCRIPTOR", 0x00)
    ∷ ("MSOS20_SUBSET_HEADER_CONFIGURATION", 0x01)
    ∷ ("MSOS20_SUBSET_HEADER_FUNCTION", 0x02)
    ∷ ("MSOS20_FEATURE_COMPATBLE_ID", 0x03)
    ∷ ("MSOS20_FEATURE_REG_PROPERTY", 0x04)
    ∷ ("MSOS20_FEATURE_MIN_RESUME_TIME", 0x05)
    ∷ ("MSOS20_FEATURE_MODEL_ID", 0x06)
    ∷ ("MSOS20_FEATURE_CCGP_DEVICE", 0x07)
    ∷ ("MSOS20_FEATURE_VENDOR_REVISION", 0x08)
    ∷ []
