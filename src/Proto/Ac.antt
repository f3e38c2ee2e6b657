-- ===== src/Proto/Ac.antt =====
-- The structures of fw/v0/include/no2usb/usb_ac_proto.h for the control of audio devices.
use no2usb.Base.{ℕ, [], ◌∷◌}
use no2usb.Proto.Layout.{Struct, u8, u16, array, packed}

-- `usb_ac_ac_hdr_desc_def(n)`
unfoldable pub ac_ac_hdr_desc : ℕ → Struct
ac_ac_hdr_desc n = packed (
    u8 "bLength"
    ∷ u8 "bDescriptorType"
    ∷ u8 "bDescriptorSubtype"
    ∷ u16 "bcdADC"
    ∷ u16 "wTotalLength"
    ∷ u8 "bInCollection"
    ∷ array (u8 "baInterfaceNr") n
    ∷ [])

-- `struct usb_ac_ac_input_desc`
unfoldable pub ac_ac_input_desc : Struct
ac_ac_input_desc = packed (
    u8 "bLength"
    ∷ u8 "bDescriptortype"
    ∷ u8 "bDescriptorSubtype"
    ∷ u8 "bTerminalID"
    ∷ u16 "wTerminalType"
    ∷ u8 "bAssocTerminal"
    ∷ u8 "bNrChannels"
    ∷ u16 "wChannelConfig"
    ∷ u8 "iChannelNames"
    ∷ u8 "iTerminal"
    ∷ [])

-- `struct usb_ac_ac_output_desc`
unfoldable pub ac_ac_output_desc : Struct
ac_ac_output_desc = packed (
    u8 "bLength"
    ∷ u8 "bDescriptortype"
    ∷ u8 "bDescriptorSubtype"
    ∷ u8 "bTerminalID"
    ∷ u16 "wTerminalType"
    ∷ u8 "bAssocTerminal"
    ∷ u8 "bSourceID"
    ∷ u8 "iTerminal"
    ∷ [])

-- `usb_ac_ac_mixer_desc_def(n, m)`
unfoldable pub ac_ac_mixer_desc : ℕ → ℕ → Struct
ac_ac_mixer_desc n m = packed (
    u8 "bLength"
    ∷ u8 "bDescriptortype"
    ∷ u8 "bDescriptorSubtype"
    ∷ u8 "bUnitID"
    ∷ u8 "bNrInPins"
    ∷ array (u8 "baSourceID") n
    ∷ u8 "bNrChannels"
    ∷ u16 "wChannelConfig"
    ∷ u8 "iChannelNames"
    ∷ array (u8 "bmControls") m
    ∷ u8 "iMixer"
    ∷ [])

-- `usb_ac_ac_selector_desc_def(n)`
unfoldable pub ac_ac_selector_desc : ℕ → Struct
ac_ac_selector_desc n = packed (
    u8 "bLength"
    ∷ u8 "bDescriptortype"
    ∷ u8 "bDescriptorSubtype"
    ∷ u8 "bUnitID"
    ∷ u8 "bNrInPins"
    ∷ array (u8 "baSourceID") n
    ∷ u8 "iSelector"
    ∷ [])

-- `usb_ac_ac_feature_desc_def(n)`
unfoldable pub ac_ac_feature_desc : ℕ → Struct
ac_ac_feature_desc n = packed (
    u8 "bLength"
    ∷ u8 "bDescriptortype"
    ∷ u8 "bDescriptorSubtype"
    ∷ u8 "bUnitID"
    ∷ u8 "bSourceID"
    ∷ u8 "bControlSize"
    ∷ array (u8 "bmaControls") n
    ∷ u8 "iFeature"
    ∷ [])

-- `usb_ac_ac_processing_common_desc_def(n, m)`
unfoldable pub ac_ac_processing_common_desc : ℕ → ℕ → Struct
ac_ac_processing_common_desc n m = packed (
    u8 "bLength"
    ∷ u8 "bDescriptortype"
    ∷ u8 "bDescriptorSubtype"
    ∷ u8 "bUnitID"
    ∷ u16 "wProcessType"
    ∷ u8 "bNrInPins"
    ∷ array (u8 "baSourceID") n
    ∷ u8 "bNrChannels"
    ∷ u16 "wChannelConfig"
    ∷ u8 "iChannelNames"
    ∷ u8 "bControlSize"
    ∷ array (u8 "bmControls") m
    ∷ u8 "iProcessing"
    ∷ [])

-- `usb_ac_ac_processing_updown_desc_def(n)`, which does not use its parameter.
unfoldable pub ac_ac_processing_updown_desc : ℕ → Struct
ac_ac_processing_updown_desc _ = packed (u8 "bNrModes" ∷ u16 "waModes" ∷ [])

-- `usb_ac_ac_processing_dolby_desc_def(n)`, which does not use its parameter.
unfoldable pub ac_ac_processing_dolby_desc : ℕ → Struct
ac_ac_processing_dolby_desc _ = packed (u8 "bNrModes" ∷ u16 "waModes" ∷ [])

-- `usb_ac_ac_extension_desc_def(n, m)`
unfoldable pub ac_ac_extension_desc : ℕ → ℕ → Struct
ac_ac_extension_desc n m = packed (
    u8 "bLength"
    ∷ u8 "bDescriptortype"
    ∷ u8 "bDescriptorSubtype"
    ∷ u8 "bUnitID"
    ∷ u16 "wExtensionCode"
    ∷ u8 "bNrInPins"
    ∷ array (u8 "baSourceID") n
    ∷ u8 "bNrChannels"
    ∷ u16 "wChannelConfig"
    ∷ u8 "iChannelNames"
    ∷ u8 "bControlSize"
    ∷ array (u8 "bmControls") m
    ∷ u8 "iExtension"
    ∷ [])
