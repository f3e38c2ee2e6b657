-- ===== src/Proto/AcStreams.antt =====
-- The structures of fw/v0/include/no2usb/usb_ac_proto.h for audio and MIDI streams, and for
-- endpoints.
use no2usb.Base.{ℕ, [], ◌∷◌}
use no2usb.Proto.Layout.{Struct, u8, u16, array, structs, packed}

-- `struct usb_ac_as_general_desc`
unfoldable pub ac_as_general_desc : Struct
ac_as_general_desc = packed (
    u8 "bLength"
    ∷ u8 "bDescriptortype"
    ∷ u8 "bDescriptorSubtype"
    ∷ u8 "bTerminalLink"
    ∷ u8 "bDelay"
    ∷ u16 "wFormatTag"
    ∷ [])

-- `usb_ac_as_fmt_type1_desc_def(n)`
unfoldable pub ac_as_fmt_type1_desc : ℕ → Struct
ac_as_fmt_type1_desc n = packed (
    u8 "bLength"
    ∷ u8 "bDescriptortype"
    ∷ u8 "bDescriptorSubtype"
    ∷ u8 "bFormatType"
    ∷ u8 "bNrChannels"
    ∷ u8 "bSubframeSize"
    ∷ u8 "bBitResolution"
    ∷ u8 "bSamFreqType"
    ∷ array (u8 "tSamFreq") n
    ∷ [])

-- `struct usb_ac_ms_hdr_desc`
unfoldable pub ac_ms_hdr_desc : Struct
ac_ms_hdr_desc = packed (
    u8 "bLength"
    ∷ u8 "bDescriptorType"
    ∷ u8 "bDescriptorSubtype"
    ∷ u16 "bcdADC"
    ∷ u16 "wTotalLength"
    ∷ [])

-- `struct usb_ac_ms_in_jack_desc`
unfoldable pub ac_ms_in_jack_desc : Struct
ac_ms_in_jack_desc = packed (
    u8 "bLength"
    ∷ u8 "bDescriptorType"
    ∷ u8 "bDescriptorSubtype"
    ∷ u8 "bJackType"
    ∷ u8 "bJackID"
    ∷ u8 "iJack"
    ∷ [])

-- `usb_ac_ms_out_jack_desc_def(n)`
unfoldable pub ac_ms_out_jack_desc : ℕ → Struct
ac_ms_out_jack_desc n = packed (
    u8 "bLength"
    ∷ u8 "bDescriptorType"
    ∷ u8 "bDescriptorSubtype"
    ∷ u8 "bJackType"
    ∷ u8 "bJackID"
    ∷ u8 "bNrInputPins"
    ∷ structs "sources" (("baSourceID", 1) ∷ ("baSourcePin", 1) ∷ []) n
    ∷ u8 "iJack"
    ∷ [])

-- `usb_ac_ms_elem_desc_def(n)`
unfoldable pub ac_ms_elem_desc : ℕ → Struct
ac_ms_elem_desc n = packed (
    u8 "bLength"
    ∷ u8 "bDescriptorType"
    ∷ u8 "bDescriptorSubtype"
    ∷ u8 "bElementID"
    ∷ u8 "bNrInputPins"
    ∷ structs "sources" (("baSourceID", 1) ∷ ("baSourcePin", 1) ∷ []) n
    ∷ u8 "bNrOutputPins"
    ∷ u8 "bInTerminalLink"
    ∷ u8 "bOutTerminalLink"
    ∷ u8 "bElCapsSize"
    ∷ u16 "bmElementCaps"
    ∷ u8 "iElement"
    ∷ [])

-- `struct usb_ac_as_ep_general_desc`
unfoldable pub ac_as_ep_general_desc : Struct
ac_as_ep_general_desc = packed (
    u8 "bLength"
    ∷ u8 "bDescriptortype"
    ∷ u8 "bDescriptorSubtype"
    ∷ u8 "bmAttributes"
    ∷ u8 "bLockDelayUnits"
    ∷ u16 "wLockDelay"
    ∷ [])

-- `usb_ac_ms_ep_general_desc_def(n)`
unfoldable pub ac_ms_ep_general_desc : ℕ → Struct
ac_ms_ep_general_desc n = packed (
    u8 "bLength"
    ∷ u8 "bDescriptortype"
    ∷ u8 "bDescriptorSubtype"
    ∷ u8 "bNumEmbMIDIJack"
    ∷ array (u8 "baAssocJackID") n
    ∷ [])
