-- ===== src/Proto/Usb.antt =====
-- The structures of usb_proto.h, usb_hid_proto.h, usb_dfu_proto.h and usb_msos20_proto.h in
-- fw/v0/include/no2usb.
use no2usb.Base.{ℕ, [], ◌∷◌}
use no2usb.Proto.Layout.{Struct, u8, u16, u32, array, structs, packed}

-- `struct usb_desc_hdr`
unfoldable pub desc_hdr : Struct
desc_hdr = packed (u8 "bLength" ∷ u8 "bDescriptorType" ∷ [])

-- `struct usb_desc_hdr2`
unfoldable pub desc_hdr2 : Struct
desc_hdr2 = packed (u8 "bLength" ∷ u8 "bDescriptorType" ∷ u8 "bDescriptorSubtype" ∷ [])

-- `struct usb_dev_desc`
unfoldable pub dev_desc : Struct
dev_desc = packed (
    u8 "bLength"
    ∷ u8 "bDescriptorType"
    ∷ u16 "bcdUSB"
    ∷ u8 "bDeviceClass"
    ∷ u8 "bDeviceSubClass"
    ∷ u8 "bDeviceProtocol"
    ∷ u8 "bMaxPacketSize0"
    ∷ u16 "idVendor"
    ∷ u16 "idProduct"
    ∷ u16 "bcdDevice"
    ∷ u8 "iManufacturer"
    ∷ u8 "iProduct"
    ∷ u8 "iSerialNumber"
    ∷ u8 "bNumConfigurations"
    ∷ [])

-- `struct usb_conf_desc`
unfoldable pub conf_desc : Struct
conf_desc = packed (
    u8 "bLength"
    ∷ u8 "bDescriptorType"
    ∷ u16 "wTotalLength"
    ∷ u8 "bNumInterfaces"
    ∷ u8 "bConfigurationValue"
    ∷ u8 "iConfiguration"
    ∷ u8 "bmAttributes"
    ∷ u8 "bMaxPower"
    ∷ [])

-- `struct usb_str_desc`
unfoldable pub str_desc : ℕ → Struct
str_desc n = packed (u8 "bLength" ∷ u8 "bDescriptorType" ∷ array (u16 "wString") n ∷ [])

-- `struct usb_intf_desc`
unfoldable pub intf_desc : Struct
intf_desc = packed (
    u8 "bLength"
    ∷ u8 "bDescriptorType"
    ∷ u8 "bInterfaceNumber"
    ∷ u8 "bAlternateSetting"
    ∷ u8 "bNumEndpoints"
    ∷ u8 "bInterfaceClass"
    ∷ u8 "bInterfaceSubClass"
    ∷ u8 "bInterfaceProtocol"
    ∷ u8 "iInterface"
    ∷ [])

-- `struct usb_ep_desc`
unfoldable pub ep_desc : Struct
ep_desc = packed (
    u8 "bLength"
    ∷ u8 "bDescriptorType"
    ∷ u8 "bEndpointAddress"
    ∷ u8 "bmAttributes"
    ∷ u16 "wMaxPacketSize"
    ∷ u8 "bInterval"
    ∷ [])

-- `struct usb_cc_ep_desc`
unfoldable pub cc_ep_desc : Struct
cc_ep_desc = packed (
    u8 "bLength"
    ∷ u8 "bDescriptorType"
    ∷ u8 "bEndpointAddress"
    ∷ u8 "bmAttributes"
    ∷ u16 "wMaxPacketSize"
    ∷ u8 "bInterval"
    ∷ u8 "bRefresh"
    ∷ u8 "bSynchAddress"
    ∷ [])

-- `struct usb_intf_assoc_desc`
unfoldable pub intf_assoc_desc : Struct
intf_assoc_desc = packed (
    u8 "bLength"
    ∷ u8 "bDescriptorType"
    ∷ u8 "bFirstInterface"
    ∷ u8 "bInterfaceCount"
    ∷ u8 "bFunctionClass"
    ∷ u8 "bFunctionSubClass"
    ∷ u8 "bFunctionProtocol"
    ∷ u8 "iFunction"
    ∷ [])

-- `struct usb_bos_desc`
unfoldable pub bos_desc : Struct
bos_desc =
    packed (u8 "bLength" ∷ u8 "bDescriptorType" ∷ u16 "wTotalLength" ∷ u8 "bNumDeviceCaps" ∷ [])

-- `struct usb_bos_plat_cap_hdr`
unfoldable pub bos_plat_cap_hdr : Struct
bos_plat_cap_hdr = packed (
    u8 "bLength"
    ∷ u8 "bDescriptorType"
    ∷ u8 "bDevCapabilityType"
    ∷ u8 "bReserved"
    ∷ array (u8 "PlatformCapabilityUUID") 16
    ∷ [])

-- `struct usb_ctrl_req`, with the two bytes that `wRequestAndType` overlays.
unfoldable pub ctrl_req : Struct
ctrl_req =
    packed (u8 "bmRequestType" ∷ u8 "bRequest" ∷ u16 "wValue" ∷ u16 "wIndex" ∷ u16 "wLength" ∷ [])

-- `usb_hid_hid_desc_def(n)`
unfoldable pub hid_hid_desc : ℕ → Struct
hid_hid_desc n = packed (
    u8 "bLength"
    ∷ u8 "bDescriptorType"
    ∷ u16 "bcdHID"
    ∷ u8 "bCountryCode"
    ∷ u8 "bNumDescriptors"
    ∷ structs "desc" (("bDescriptorType", 1) ∷ ("wDescriptorLength", 2) ∷ []) n
    ∷ [])

-- `struct usb_dfu_func_desc`
unfoldable pub dfu_func_desc : Struct
dfu_func_desc = packed (
    u8 "bLength"
    ∷ u8 "bDescriptorType"
    ∷ u8 "bmAttributes"
    ∷ u16 "wDetachTimeOut"
    ∷ u16 "wTransferSize"
    ∷ u16 "bcdDFUVersion"
    ∷ [])

-- `struct usb_bos_msos20_desc_set`
unfoldable pub bos_msos20_desc_set : Struct
bos_msos20_desc_set = packed (
    u32 "dwWindowsVersion"
    ∷ u16 "wMSOSDescriptorSetTotalLength"
    ∷ u8 "bMS_VendorCode"
    ∷ u8 "bAltEnumCode"
    ∷ [])

-- `struct msos20_desc_set_hdr`
unfoldable pub msos20_desc_set_hdr : Struct
msos20_desc_set_hdr =
    packed
      (u16 "wLength" ∷ u16 "wDescriptorType" ∷ u32 "dwWindowsVersion" ∷ u16 "wTotalLength" ∷ [])

-- `struct msos20_conf_subset_hdr`
unfoldable pub msos20_conf_subset_hdr : Struct
msos20_conf_subset_hdr = packed (
    u16 "wLength"
    ∷ u16 "wDescriptorType"
    ∷ u8 "bConfigurationValue"
    ∷ u8 "bReserved"
    ∷ u16 "wTotalLength"
    ∷ [])

-- `struct msos20_func_subset_hdr`
unfoldable pub msos20_func_subset_hdr : Struct
msos20_func_subset_hdr = packed (
    u16 "wLength"
    ∷ u16 "wDescriptorType"
    ∷ u8 "bFirstInterface"
    ∷ u8 "bReserved"
    ∷ u16 "wSubsetLength"
    ∷ [])

-- `struct msos20_feat_compat_id_desc`
unfoldable pub msos20_feat_compat_id_desc : Struct
msos20_feat_compat_id_desc = packed (
    u16 "wLength"
    ∷ u16 "wDescriptorType"
    ∷ array (u8 "CompatibleID") 8
    ∷ array (u8 "SubCompatibleID") 8
    ∷ [])
