-- ===== src/Proto/Codes/Ac.antt =====
-- The enumerations of usb_ac_proto.h
-- in fw/v0/include/no2usb.
use no2usb.Base.{[], ◌∷◌}
use no2usb.Proto.Codes.Enum.{Enum}

-- `enum usb_ac_subclass`
abbrev pub ac_subclass : Enum
ac_subclass =
    ("USB_AC_SCLS_UNDEFINED", 0x00)
    ∷ ("USB_AC_SCLS_AUDIOCONTROL", 0x01)
    ∷ ("USB_AC_SCLS_AUDIOSTREAMING", 0x02)
    ∷ ("USB_AC_SCLS_MIDISTREAMING", 0x03)
    ∷ []

-- `enum usb_ac_ac_intf_desc_subtype`
abbrev pub ac_ac_intf_desc_subtype : Enum
ac_ac_intf_desc_subtype =
    ("USB_AC_AC_IDST_UNDEFINED", 0x00)
    ∷ ("USB_AC_AC_IDST_HEADER", 0x01)
    ∷ ("USB_AC_AC_IDST_INPUT_TERMINAL", 0x02)
    ∷ ("USB_AC_AC_IDST_OUTPUT_TERMINAL", 0x03)
    ∷ ("USB_AC_AC_IDST_MIXER_UNIT", 0x04)
    ∷ ("USB_AC_AC_IDST_SELECTOR_UNIT", 0x05)
    ∷ ("USB_AC_AC_IDST_FEATURE_UNIT", 0x06)
    ∷ ("USB_AC_AC_IDST_PROCESSING_UNIT", 0x07)
    ∷ ("USB_AC_AC_IDST_EXTENSION_UNIT", 0x08)
    ∷ []

-- `enum usb_ac_as_intf_desc_subtype`
abbrev pub ac_as_intf_desc_subtype : Enum
ac_as_intf_desc_subtype =
    ("USB_AC_AS_IDST_UNDEFINED", 0x00)
    ∷ ("USB_AC_AS_IDST_GENERAL", 0x01)
    ∷ ("USB_AC_AS_IDST_FORMAT_TYPE", 0x02)
    ∷ ("USB_AC_AS_IDST_FORMAT_SPECIFIC", 0x03)
    ∷ []

-- `enum usb_ac_ms_intf_desc_subtype`
abbrev pub ac_ms_intf_desc_subtype : Enum
ac_ms_intf_desc_subtype =
    ("USB_AC_MS_IDST_UNDEFINED", 0x00)
    ∷ ("USB_AC_MS_IDST_HEADER", 0x01)
    ∷ ("USB_AC_MS_IDST_MIDI_IN_JACK", 0x02)
    ∷ ("USB_AC_MS_IDST_MIDI_OUT_JACK", 0x03)
    ∷ ("USB_AC_MS_IDST_ELEMENT", 0x04)
    ∷ []

-- `enum usb_ac_ms_jack_types`
abbrev pub ac_ms_jack_types : Enum
ac_ms_jack_types =
    ("USB_AC_MS_JACK_TYPE_UNDEFINED", 0x00)
    ∷ ("USB_AC_MS_JACK_TYPE_EMBEDDED", 0x01)
    ∷ ("USB_AC_MS_JACK_TYPE_EXTERNAL", 0x02)
    ∷ []

-- `enum usb_ac_ep_desc_subtype`
abbrev pub ac_ep_desc_subtype : Enum
ac_ep_desc_subtype = ("USB_AC_EDST_UNDEFINED", 0x00) ∷ ("USB_AC_EDST_GENERAL", 0x01) ∷ []

-- `enum usb_ac_terminal_control`
abbrev pub ac_terminal_control : Enum
ac_terminal_control =
    ("USB_AC_TE_CONTROL_UNDEFINED", 0x00) ∷ ("USB_AC_TE_CONTROL_COPY_PROTECT", 0x01) ∷ []

-- `enum usb_ac_feature_control`
abbrev pub ac_feature_control : Enum
ac_feature_control =
    ("USB_AC_FU_CONTROL_UNDEFINED", 0x00)
    ∷ ("USB_AC_FU_CONTROL_MUTE", 0x01)
    ∷ ("USB_AC_FU_CONTROL_VOLUME", 0x02)
    ∷ ("USB_AC_FU_CONTROL_BASS", 0x03)
    ∷ ("USB_AC_FU_CONTROL_MID", 0x04)
    ∷ ("USB_AC_FU_CONTROL_TREBLE", 0x05)
    ∷ ("USB_AC_FU_CONTROL_GRAPHIC_EQUALIZER", 0x06)
    ∷ ("USB_AC_FU_CONTROL_AUTOMATIC_GAIN", 0x07)
    ∷ ("USB_AC_FU_CONTROL_DELAY", 0x08)
    ∷ ("USB_AC_FU_CONTROL_BASS_BOOST", 0x09)
    ∷ ("USB_AC_FU_CONTROL_LOUDNESS", 0x0A)
    ∷ []

-- `enum usb_ac_updown_control`
abbrev pub ac_updown_control : Enum
ac_updown_control =
    ("USB_AC_UD_CONTROL_UNDEFINED", 0x00)
    ∷ ("USB_AC_UD_CONTROL_ENABLE", 0x01)
    ∷ ("USB_AC_UD_CONTROL_MODE_SELECT", 0x02)
    ∷ []

-- `enum usb_ac_dolby_control`
abbrev pub ac_dolby_control : Enum
ac_dolby_control =
    ("USB_AC_DP_CONTROL_UNDEFINED", 0x00)
    ∷ ("USB_AC_DP_CONTROL_ENABLE", 0x01)
    ∷ ("USB_AC_DP_CONTROL_MODE_SELECT", 0x02)
    ∷ []

-- `enum usb_ac_3d_control`
abbrev pub ac_3d_control : Enum
ac_3d_control =
    ("USB_AC_3D_CONTROL_UNDEFINED", 0x00)
    ∷ ("USB_AC_3D_CONTROL_ENABLE", 0x01)
    ∷ ("USB_AC_3D_CONTROL_SPACIOUSNESS", 0x03)
    ∷ []

-- `enum usb_ac_reverb_control`
abbrev pub ac_reverb_control : Enum
ac_reverb_control =
    ("USB_AC_RV_CONTROL_UNDEFINED", 0x00)
    ∷ ("USB_AC_RV_CONTROL_ENABLE", 0x01)
    ∷ ("USB_AC_RV_CONTROL_LEVEL", 0x02)
    ∷ ("USB_AC_RV_CONTROL_TIME", 0x03)
    ∷ ("USB_AC_RV_CONTROL_FEEDBACK", 0x04)
    ∷ []

-- `enum usb_ac_chorus_control`
abbrev pub ac_chorus_control : Enum
ac_chorus_control =
    ("USB_AC_CH_CONTROL_UNDEFINED", 0x00)
    ∷ ("USB_AC_CH_CONTROL_ENABLE", 0x01)
    ∷ ("USB_AC_CH_CONTROL_LEVEL", 0x02)
    ∷ ("USB_AC_CH_CONTROL_RATE", 0x03)
    ∷ ("USB_AC_CH_CONTROL_DEPTH", 0x04)
    ∷ []

-- `enum usb_ac_dynrange_control`
abbrev pub ac_dynrange_control : Enum
ac_dynrange_control =
    ("USB_AC_DR_CONTROL_UNDEFINED", 0x00)
    ∷ ("USB_AC_DR_CONTROL_ENABLE", 0x01)
    ∷ ("USB_AC_DR_CONTROL_COMPRESSION_RATE", 0x02)
    ∷ ("USB_AC_DR_CONTROL_MAXAMPL", 0x03)
    ∷ ("USB_AC_DR_CONTROL_THRESHOLD", 0x04)
    ∷ ("USB_AC_DR_CONTROL_ATTACK_TIME", 0x05)
    ∷ ("USB_AC_DR_CONTROL_RELEASE_TIME", 0x06)
    ∷ []

-- `enum usb_ac_extension_control`
abbrev pub ac_extension_control : Enum
ac_extension_control =
    ("USB_AC_XU_CONTROL_UNDEFINED", 0x00) ∷ ("USB_AC_XU_CONTROL_ENABLE", 0x01) ∷ []

-- `enum usb_ac_as_endpoint_control`
abbrev pub ac_as_endpoint_control : Enum
ac_as_endpoint_control =
    ("USB_AC_AS_EP_CONTROL_UNDEFINED", 0x00)
    ∷ ("USB_AC_AS_EP_CONTROL_SAMPLING_FREQ", 0x01)
    ∷ ("USB_AC_AS_EP_CONTROL_PITCH", 0x02)
    ∷ []

-- `enum usb_ac_ms_endpoint_control`
abbrev pub ac_ms_endpoint_control : Enum
ac_ms_endpoint_control =
    ("USB_AC_MS_EP_CONTROL_UNDEFINED", 0x00) ∷ ("USB_AC_MS_EP_CONTROL_ASSOCIATION", 0x01) ∷ []
