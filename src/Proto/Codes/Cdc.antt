-- ===== src/Proto/Codes/Cdc.antt =====
-- The enumerations of usb_cdc_proto.h
-- in fw/v0/include/no2usb.
use no2usb.Base.{[], ◌∷◌}
use no2usb.Proto.Codes.Enum.{Enum}

-- `enum usb_cdc_subclass`
abbrev pub cdc_subclass : Enum
cdc_subclass =
    ("USB_CDC_SCLS_DLCM", 0x01)
    ∷ ("USB_CDC_SCLS_ACM", 0x02)
    ∷ ("USB_CDC_SCLS_TCM", 0x03)
    ∷ ("USB_CDC_SCLS_MCCM", 0x04)
    ∷ ("USB_CDC_SCLS_CCM", 0x05)
    ∷ ("USB_CDC_SCLS_ENCM", 0x06)
    ∷ ("USB_CDC_SCLS_ANCM", 0x07)
    ∷ []

-- `enum usb_cdc_desc_subtype`
abbrev pub cdc_desc_subtype : Enum
cdc_desc_subtype =
    ("USB_CDC_DST_HEADER", 0x00)
    ∷ ("USB_CDC_DST_CALL_MGMT", 0x01)
    ∷ ("USB_CDC_DST_ACM", 0x02)
    ∷ ("USB_CDC_DST_DLM", 0x03)
    ∷ ("USB_CDC_DST_TEL_R", 0x04)
    ∷ ("USB_CDC_DST_TEL_CAP", 0x05)
    ∷ ("USB_CDC_DST_UNION", 0x06)
    ∷ ("USB_CDC_DST_COUNTRY_SEL", 0x07)
    ∷ ("USB_CDC_DST_TEL_OM", 0x08)
    ∷ ("USB_CDC_DST_USB_TERM", 0x09)
    ∷ ("USB_CDC_DST_NCT", 0x0A)
    ∷ ("USB_CDC_DST_PU", 0x0B)
    ∷ ("USB_CDC_DST_EU", 0x0C)
    ∷ ("USB_CDC_DST_MCM", 0x0D)
    ∷ ("USB_CDC_DST_CAPI", 0x0E)
    ∷ ("USB_CDC_DST_ETH", 0x0F)
    ∷ ("USB_CDC_DST_ATM", 0x10)
    ∷ ("USB_CDC_DST_WHCM", 0x11)
    ∷ ("USB_CDC_DST_MDLM", 0x12)
    ∷ ("USB_CDC_DST_MDLM_DET", 0x13)
    ∷ ("USB_CDC_DST_DMM", 0x14)
    ∷ ("USB_CDC_DST_OBEX", 0x15)
    ∷ ("USB_CDC_DST_CS", 0x16)
    ∷ ("USB_CDC_DST_CS_DET", 0x17)
    ∷ ("USB_CDC_DST_TEL_CM", 0x18)
    ∷ ("USB_CDC_DST_OBEX_SI", 0x19)
    ∷ ("USB_CDC_DST_NCM", 0x1A)
    ∷ []
