-- ===== src/Msos20.antt =====
-- The driver for Microsoft OS 2.0 descriptors: fw/v0/src/usb_msos20.c, with the constants and the
-- layouts of fw/v0/include/no2usb/usb_msos20_proto.h.
pub mod Describe
use no2usb.Base.{
  ℕ, ◌==◌, ◌/◌, ◌%◌, ◌*◌, ◌+◌, if◌then◌else◌, List, [], ◌∷◌, ◌++◌, replicate, Option, none, some,
  Run, ok, ◌>>=◌,
}
use no2usb.Stack.{Usb, Req, Resp, continue, success, error, Xfer, rom, fn, request_and_type}
use no2usb.Desc.{half_at}
use no2usb.Driver.{Drv, no_drv, register_function_driver}

-- A 16-bit field and a 32-bit field, low byte first.
abbrev pub le16 : ℕ → List ℕ
le16 x = x % 256 ∷ x / 256 % 256 ∷ []

abbrev pub le32 : ℕ → List ℕ
le32 x = le16 (x % 65536) ++ le16 (x / 65536)

-- `MSOS20_WIN_VER_8_1`, `MSOS20_MS_VENDOR_CODE` and `MSOS20_DESCRIPTOR_INDEX`
abbrev pub win_ver_8_1 : ℕ
win_ver_8_1 = 0x06030000

abbrev pub ms_vendor_code : ℕ
ms_vendor_code = 0x4d

abbrev pub descriptor_index : ℕ
descriptor_index = 7

-- `struct msos20_desc_set_hdr`
abbrev pub desc_set_hdr : (version total : ℕ) → List ℕ
desc_set_hdr version total = le16 10 ++ le16 0 ++ le32 version ++ le16 total

-- `struct msos20_feat_compat_id_desc`
abbrev pub compat_id_desc : (compatible sub_compatible : List ℕ) → List ℕ
compat_id_desc compatible sub_compatible = le16 20 ++ le16 3 ++ compatible ++ sub_compatible

-- `_msos20_winusb_desc`, whose name is "WINUSB".
abbrev pub winusb_desc : List ℕ
winusb_desc =
    desc_set_hdr win_ver_8_1 30
    ++ compat_id_desc (0x57 ∷ 0x49 ∷ 0x4e ∷ 0x55 ∷ 0x53 ∷ 0x42 ∷ 0 ∷ 0 ∷ []) (replicate 8 0)

-- `MSOS20_PLAT_CAP_UUID`
abbrev pub plat_cap_uuid : List ℕ
plat_cap_uuid =
    0xdf ∷ 0x60 ∷ 0xdd ∷ 0xd8 ∷ 0x89 ∷ 0x45 ∷ 0xc7 ∷ 0x4c ∷ 0x9c ∷ 0xd2 ∷ 0x65 ∷ 0x9d ∷ 0x9e ∷ 0x64
    ∷ 0x8a ∷ 0x9f ∷ []

-- `_msos20_winusb_bos`: the descriptor, the header of its capability, and the capability's data.
abbrev pub winusb_bos : List ℕ
winusb_bos =
    (5 ∷ 15 ∷ [] ++ le16 33 ++ 1 ∷ [])
    ++ (28 ∷ 16 ∷ 5 ∷ 0 ∷ [] ++ plat_cap_uuid)
    ++ (le32 win_ver_8_1 ++ le16 30 ++ ms_vendor_code ∷ 0 ∷ [])

-- `g_msos20`: the set of descriptors that is given out, by its bytes.
pub record Msos20 : Type 0 where
  pub desc : List ℕ

-- `_msos20_ctrl_req`
unfoldable pub msos20_ctrl_req : Req → Usb Msos20 → Run (Resp × Usb Msos20)
unfolding half_at
msos20_ctrl_req req s =
    let found =
      (half_at s.app.desc 8 >>= λ n.
      ok (success, record s { xfer = record (s.xfer) { bytes = rom s.app.desc; len = n } })) in
    if request_and_type req == 0xc0 + 256 * ms_vendor_code
    then (if req.w_index == descriptor_index then found else ok (error, s))
    else ok (continue, s)

-- `_msos20_drv`
abbrev pub msos20_drv : Drv Msos20
msos20_drv = record no_drv { ctrl_req = some msos20_ctrl_req }

abbrev given : Option (List ℕ) → List ℕ
given none = winusb_desc
given (some desc) = desc

-- `usb_msos20_init`, with the driver's number in the chain.
unfoldable pub msos20_init : ℕ → Option (List ℕ) → Usb Msos20 → Usb Msos20
unfolding register_function_driver
msos20_init n desc s =
    register_function_driver (fn n) (record s { app = record { desc = given desc } })
