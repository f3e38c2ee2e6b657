-- ===== src/Proto/Vc.antt =====
-- The structures of fw/v0/include/no2usb/usb_vc_proto.h for the control of video devices.
use no2usb.Base.{ℕ, [], ◌∷◌}
use no2usb.Proto.Layout.{Struct, u8, u16, u32, array, packed}

-- `usb_vc_vc_hdr_desc_def(n)`
unfoldable pub vc_vc_hdr_desc : ℕ → Struct
vc_vc_hdr_desc n = packed (
    u8 "bLength"
    ∷ u8 "bDescriptorType"
    ∷ u8 "bDescriptorSubtype"
    ∷ u16 "bcdUVC"
    ∷ u16 "wTotalLength"
    ∷ u32 "dwClockFrequency"
    ∷ u8 "bInCollection"
    ∷ array (u8 "baInterfaceNr") n
    ∷ [])

-- `struct usb_vc_vc_input_desc`
unfoldable pub vc_vc_input_desc : Struct
vc_vc_input_desc = packed (
    u8 "bLength"
    ∷ u8 "bDescriptortype"
    ∷ u8 "bDescriptorSubtype"
    ∷ u8 "bTerminalID"
    ∷ u16 "wTerminalType"
    ∷ u8 "bAssocTerminal"
    ∷ u8 "iTerminal"
    ∷ [])

-- `struct usb_vc_vc_output_desc`
unfoldable pub vc_vc_output_desc : Struct
vc_vc_output_desc = packed (
    u8 "bLength"
    ∷ u8 "bDescriptortype"
    ∷ u8 "bDescriptorSubtype"
    ∷ u8 "bTerminalID"
    ∷ u16 "wTerminalType"
    ∷ u8 "bAssocTerminal"
    ∷ u8 "bSourceID"
    ∷ u8 "iTerminal"
    ∷ [])

-- `usb_vc_vc_camera_desc_def(n)`
unfoldable pub vc_vc_camera_desc : ℕ → Struct
vc_vc_camera_desc n = packed (
    u8 "bLength"
    ∷ u8 "bDescriptortype"
    ∷ u8 "bDescriptorSubtype"
    ∷ u8 "bTerminalID"
    ∷ u16 "wTerminalType"
    ∷ u8 "bAssocTerminal"
    ∷ u8 "iTerminal"
    ∷ u16 "wObjectiveFocalLengthMin"
    ∷ u16 "wObjectiveFocalLengthMax"
    ∷ u16 "wObjectiveFocalLength"
    ∷ u8 "bControlSize"
    ∷ array (u8 "bmControls") n
    ∷ [])

-- `usb_vc_vc_selector_desc_def(n)`
unfoldable pub vc_vc_selector_desc : ℕ → Struct
vc_vc_selector_desc n = packed (
    u8 "bLength"
    ∷ u8 "bDescriptortype"
    ∷ u8 "bDescriptorSubtype"
    ∷ u8 "bUnitID"
    ∷ u8 "bNrInPins"
    ∷ array (u8 "baSourceID") n
    ∷ u8 "iSelector"
    ∷ [])

-- `usb_vc_vc_processing_desc_def(n)`
unfoldable pub vc_vc_processing_desc : ℕ → Struct
vc_vc_processing_desc n = packed (
    u8 "bLength"
    ∷ u8 "bDescriptortype"
    ∷ u8 "bDescriptorSubtype"
    ∷ u8 "bUnitID"
    ∷ u8 "bSourceID"
    ∷ u16 "wMaxMultiplier"
    ∷ u8 "bControlSize"
    ∷ array (u8 "bmControls") n
    ∷ u8 "iProcessing"
    ∷ u8 "bmVideoStandards"
    ∷ [])

-- `usb_vc_vc_extension_desc_def(n, m)`
unfoldable pub vc_vc_extension_desc : ℕ → ℕ → Struct
vc_vc_extension_desc n m = packed (
    u8 "bLength"
    ∷ u8 "bDescriptortype"
    ∷ u8 "bDescriptorSubtype"
    ∷ u8 "bUnitID"
    ∷ array (u8 "guidExtensionCode") 16
    ∷ u8 "bNumControls"
    ∷ u8 "bNrInPins"
    ∷ array (u8 "baSourceID") n
    ∷ u8 "bControlSize"
    ∷ array (u8 "bmControls") m
    ∷ u8 "iExtension"
    ∷ [])
