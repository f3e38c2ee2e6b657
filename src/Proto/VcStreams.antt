-- ===== src/Proto/VcStreams.antt =====
-- The structures of fw/v0/include/no2usb/usb_vc_proto.h for video streams, and for endpoints.
use no2usb.Base.{ℕ, [], ◌∷◌}
use no2usb.Proto.Layout.{Struct, u8, u16, u32, array, packed, unpacked}

-- `usb_vc_vs_input_hdr_desc_def(n)`
unfoldable pub vc_vs_input_hdr_desc : ℕ → Struct
vc_vs_input_hdr_desc n = packed (
    u8 "bLength"
    ∷ u8 "bDescriptortype"
    ∷ u8 "bDescriptorSubtype"
    ∷ u8 "bNumFormats"
    ∷ u16 "wTotalLength"
    ∷ u8 "bEndpointAddress"
    ∷ u8 "bmInfo"
    ∷ u8 "bTerminalLink"
    ∷ u8 "bStillCaptureMethod"
    ∷ u8 "bTriggerSupport"
    ∷ u8 "bTriggerUsage"
    ∷ u8 "bControlSize"
    ∷ array (u8 "bmaControls") n
    ∷ [])

-- `usb_vc_vs_output_hdr_desc_def(n)`
unfoldable pub vc_vs_output_hdr_desc : ℕ → Struct
vc_vs_output_hdr_desc n = packed (
    u8 "bLength"
    ∷ u8 "bDescriptortype"
    ∷ u8 "bDescriptorSubtype"
    ∷ u8 "bNumFormats"
    ∷ u16 "wTotalLength"
    ∷ u8 "bEndpointAddress"
    ∷ u8 "bTerminalLink"
    ∷ u8 "bControlSize"
    ∷ array (u8 "bmaControls") n
    ∷ [])

-- `struct usb_vc_vs_fmt_uncompressed_desc`
unfoldable pub vc_vs_fmt_uncompressed_desc : Struct
vc_vs_fmt_uncompressed_desc = packed (
    u8 "bLength"
    ∷ u8 "bDescriptortype"
    ∷ u8 "bDescriptorSubtype"
    ∷ u8 "bFormatIndex"
    ∷ u8 "bNumFrameDescriptors"
    ∷ array (u8 "guidFormat") 16
    ∷ u8 "bBitsPerPixel"
    ∷ u8 "bDefaultFrameIndex"
    ∷ u8 "bAspectRatioX"
    ∷ u8 "bAspectRatioY"
    ∷ u8 "bmInterlaceFlags"
    ∷ u8 "bCopyProtect"
    ∷ [])

-- `struct usb_vc_vs_frame_uncompressed_desc`
unfoldable pub vc_vs_frame_uncompressed_desc : Struct
vc_vs_frame_uncompressed_desc = packed (
    u8 "bLength"
    ∷ u8 "bDescriptortype"
    ∷ u8 "bDescriptorSubtype"
    ∷ u8 "bFrameIndex"
    ∷ u8 "bmCapabilities"
    ∷ u16 "wWidth"
    ∷ u16 "wHeight"
    ∷ u32 "dwMinBitRate"
    ∷ u32 "dwMaxBitRate"
    ∷ u32 "dwMaxVideoFrameBufferSize"
    ∷ u32 "dwDefaultFrameInterval"
    ∷ u8 "bFrameIntervalType"
    ∷ u32 "dwMinFrameInterval"
    ∷ u32 "dwMaxFrameInterval"
    ∷ u32 "dwFrameIntervalStep"
    ∷ [])

-- `usb_vc_vs_frame_uncompressed_desc_def(n)`
unfoldable pub vc_vs_frame_uncompressed_desc_def : ℕ → Struct
vc_vs_frame_uncompressed_desc_def n = packed (
    u8 "bLength"
    ∷ u8 "bDescriptortype"
    ∷ u8 "bDescriptorSubtype"
    ∷ u8 "bFrameIndex"
    ∷ u8 "bmCapabilities"
    ∷ u16 "wWidth"
    ∷ u16 "wHeight"
    ∷ u32 "dwMinBitRate"
    ∷ u32 "dwMaxBitRate"
    ∷ u32 "dwMaxVideoFrameBufferSize"
    ∷ u32 "dwDefaultFrameInterval"
    ∷ u8 "bFrameIntervalType"
    ∷ array (u32 "dwFrameInterval") n
    ∷ [])

-- `struct usb_vc_ep_interrupt_desc`
unfoldable pub vc_ep_interrupt_desc : Struct
vc_ep_interrupt_desc =
    unpacked
      (u8 "bLength" ∷ u8 "bDescriptortype" ∷ u8 "bDescriptorSubtype" ∷ u16 "wMaxtransferSize" ∷ [])

-- `struct usb_vc_probe_commit`
unfoldable pub vc_probe_commit : Struct
vc_probe_commit = packed (
    u16 "bmHint"
    ∷ u8 "bFormatIndex"
    ∷ u8 "bFrameIndex"
    ∷ u32 "dwFrameInterval"
    ∷ u16 "wKeyFrameRate"
    ∷ u16 "wPFrameRate"
    ∷ u16 "wCompQuality"
    ∷ u16 "wCompWindowSize"
    ∷ u16 "wDelay"
    ∷ u32 "dwMaxVideoFrameSize"
    ∷ u32 "dwMaxPayloadTransferSize"
    ∷ u32 "dwClockFrequency"
    ∷ u8 "bmFramingInfo"
    ∷ u8 "bPreferedVersion"
    ∷ u8 "bMinVersion"
    ∷ u8 "bMaxVersion"
    ∷ [])
