-- ===== src/Ep.antt =====
-- The endpoints other than the control endpoint: the endpoint part of fw/v0/src/usb.c.
pub mod Halt
pub mod Boot
pub mod Settings
pub mod Search
pub mod Scans
pub mod Booted
use no2usb.Base.{
  ℕ, zero, suc, ◌+◌, ◌*◌, ◌/◌, ◌%◌, ◌-◌, ◌^◌, bit_and, bit_or, Bool, true, false, not, ◌&&◌, ◌==◌,
  ltb, if◌then◌else◌, List, Option, none, some, Run, ok, fault, spin, ◌>>=◌,
}
use no2usb.Hw.{
  Hw, Ep, EpPair, Bd, set_ep, ep_type, ep_type_is_bci, ep_type_halted, ep_type_isoc, ep_type_int,
  ep_type_bulk, ep_type_ctrl, ep_bd_dual,
}
use no2usb.Stack.{Usb}
use no2usb.Desc.{
  byte_at, half_at, dt_intf, dt_ep, desc_find, desc_next, intf_number, intf_alternate,
  intf_num_endpoints,
}

-- An endpoint address: the number, and whether it is an IN endpoint.
abbrev pub ep_number : ℕ → ℕ
ep_number ep = bit_and ep 0xf

abbrev pub ep_is_in : ℕ → Bool
ep_is_in ep = not (bit_and ep 0x80 == 0)

-- `_get_ep_regs` and `_usb_hw_get_ep`: the registers of an endpoint, to read and to write.
unfoldable pub get_ep_regs : ℕ → Hw → Ep
get_ep_regs ep hw = if ep_is_in ep then (hw.ep (ep_number ep)).inp else (hw.ep (ep_number ep)).out

unfoldable pub put_ep_regs : ℕ → Ep → Hw → Hw
unfolding set_ep
put_ep_regs ep regs hw =
    let p = hw.ep (ep_number ep) in
    set_ep (ep_number ep) (if ep_is_in ep then record p { inp = regs } else record p { out = regs })
      hw

-- `usb_ep_is_configured`
unfoldable pub ep_is_configured : ℕ → Hw → Bool
unfolding get_ep_regs ep_type
ep_is_configured ep hw = not (ep_type (get_ep_regs ep hw).status == 0)

-- `usb_ep_is_halted`
unfoldable pub ep_is_halted : ℕ → Hw → Bool
unfolding get_ep_regs ep_type_is_bci
ep_is_halted ep hw =
    let s = (get_ep_regs ep hw).status in ep_type_is_bci s && not (bit_and s ep_type_halted == 0)

-- `usb_ep_halt`
unfoldable pub ep_halt : ℕ → Hw → Bool × Hw
unfolding get_ep_regs put_ep_regs ep_type_is_bci
ep_halt ep hw =
    let regs = get_ep_regs ep hw in
    if ep_type_is_bci regs.status
    then (true, put_ep_regs ep (record regs { status = bit_or regs.status ep_type_halted }) hw)
    else (false, hw)

-- `~(USB_EP_TYPE_HALTED | USB_EP_DT_BIT)`
abbrev pub resume_mask : ℕ
resume_mask = 0xffffff7e

-- `usb_ep_resume`
unfoldable pub ep_resume : ℕ → Hw → Bool × Hw
unfolding get_ep_regs put_ep_regs ep_type_is_bci
ep_resume ep hw =
    let regs = get_ep_regs ep hw in
    if ep_type_is_bci regs.status
    then (true, put_ep_regs ep (record regs { status = bit_and regs.status resume_mask }) hw)
    else (false, hw)

-- The size of a buffer in the packet memory, a multiple of four: `(size + 3) & ~3`.
abbrev pub buf_size : ℕ → ℕ
buf_size size = bit_and (size + 3) 0xfffffffc

module _ {A : Type 0} where
  -- `_usb_alloc_buf`
  unfoldable pub alloc_buf : ℕ → Bool → Usb A → ℕ × Usb A
  alloc_buf size true s = (s.mem_in, record s { mem_in = (s.mem_in + buf_size size) % 2 ^ 32 })
  alloc_buf size false s = (s.mem_out, record s { mem_out = (s.mem_out + buf_size size) % 2 ^ 32 })

-- Fields of an endpoint descriptor at an offset.
abbrev pub ep_address : List ℕ → ℕ → Run ℕ
ep_address mem p = byte_at mem (p + 2)

abbrev pub ep_attributes : List ℕ → ℕ → Run ℕ
ep_attributes mem p = byte_at mem (p + 3)

abbrev pub ep_max_packet : List ℕ → ℕ → Run ℕ
ep_max_packet mem p = half_at mem (p + 4)

-- `types[i]`
abbrev pub types : ℕ → ℕ
types zero = ep_type_ctrl
types (suc zero) = ep_type_isoc
types (suc (suc zero)) = ep_type_bulk
types (suc (suc (suc n))) = ep_type_int

-- The type and the packet size of an endpoint, 0 and 0 without a descriptor.
unfoldable pub ep_settings : List ℕ → Option ℕ → Run (ℕ × ℕ)
unfolding byte_at half_at
ep_settings mem none = ok (0, 0)
ep_settings mem (some p) = do
  a ← ep_attributes mem p
  m ← ep_max_packet mem p
  ok (types (bit_and a 3), m)

-- `_usb_ep_conf`, which always returns true.
unfoldable pub ep_conf : ℕ → List ℕ → Option ℕ → Hw → Run Hw
unfolding get_ep_regs put_ep_regs ep_settings
ep_conf ep_addr mem ep hw = do
  (type_bits, ml) ← ep_settings mem ep
  let regs = get_ep_regs ep_addr hw
  ok (
      put_ep_regs ep_addr
        (record regs {
          status = bit_or (bit_and regs.status ep_bd_dual) type_bits;
          mps = ml;
          bd0 = record (regs.bd0) { csr = 0 };
          bd1 = record (regs.bd1) { csr = 0 };
        })
        hw)

-- The loop over the endpoint descriptors behind an interface descriptor, for at most as many
-- rounds as it has endpoints. A search that finds nothing gives a null pointer, which is followed.
unfoldable pub ep_search : ℕ → List ℕ → (at eod ep_addr : ℕ) → Run (Option ℕ)
unfolding desc_find desc_next byte_at
ep_search zero mem at eod ep_addr = ok none
ep_search (suc n) mem at eod ep_addr = do
  sod ← desc_next mem at
  found ← desc_find mem sod eod dt_ep
  elim found [
    | none ↦ fault
    | some p ↦ do
      a ← ep_address mem p
      let rest = ep_search n mem p eod ep_addr
      if a == ep_addr then ok (some p) else rest
  ]

-- `usb_ep_reconf`, for the interface at an offset in the selected configuration.
unfoldable pub ep_reconf : {A : Type 0} → ℕ → ℕ → Usb A → Run (Bool × Usb A)
unfolding ep_conf ep_search half_at byte_at
ep_reconf intf ep_addr s = elim (s.conf) [
  | none ↦ fault
  | some mem ↦ do
    total ← half_at mem 2
    n ← intf_num_endpoints mem intf
    found ← ep_search n mem intf (intf + total) ep_addr
    elim found [
      | none ↦ ok (false, s)
      | some p ↦ (ep_conf ep_addr mem (some p) s.hw >>= λ hw. ok (true, record s { hw = hw }))
    ]
]

-- What the scan of the alternate settings has seen: the greatest packet size, and the endpoint
-- descriptor of setting 0.
pub record Scan : Type 0 where
  pub max_packet : ℕ
  pub ep_def : Option ℕ

-- What a setting adds to the scan.
unfoldable pub scan_setting : List ℕ → ℕ → Option ℕ → Scan → Run Scan
unfolding half_at byte_at
scan_setting mem intf_alt none sc = ok sc
scan_setting mem intf_alt (some p) sc = do
  m ← ep_max_packet mem p
  alternate ← intf_alternate mem intf_alt
  ok (record {
    max_packet = if ltb sc.max_packet m then m else sc.max_packet;
    ep_def = if alternate == 0 then some p else sc.ep_def;
  })

-- The loop over the alternate settings.
unfoldable pub scan_loop : ℕ → List ℕ → (eod number ep_addr : ℕ) → Option ℕ → Scan → Run Scan
unfolding scan_setting ep_search desc_find desc_next byte_at
scan_loop fuel mem eod number ep_addr none sc = ok sc
scan_loop zero mem eod number ep_addr (some intf_alt) sc = spin
scan_loop (suc f) mem eod number ep_addr (some intf_alt) sc = do
  i ← intf_number mem intf_alt
  let next = (do
    n ← intf_num_endpoints mem intf_alt
    found ← ep_search n mem intf_alt eod ep_addr
    seen ← scan_setting mem intf_alt found sc
    sod ← desc_next mem intf_alt
    behind ← desc_find mem sod eod dt_intf
    scan_loop f mem eod number ep_addr behind seen)
  if i == number then next else ok sc

-- A buffer descriptor gets a buffer of the packet memory.
abbrev pub boot_bd : {A : Type 0} → ℕ → Bool → Usb A → Bd × Usb A
unfolding alloc_buf
boot_bd size is_in s = let (v, t) = alloc_buf size is_in s in (record { csr = 0; ptr = v }, t)

-- `usb_ep_boot`
unfoldable pub ep_boot : {A : Type 0} → ℕ → ℕ → Bool → Usb A → Run (Bool × Usb A)
unfolding scan_loop ep_conf get_ep_regs put_ep_regs alloc_buf half_at byte_at
ep_boot intf ep_addr dual_bd s = elim (s.conf) [
  | none ↦ fault
  | some mem ↦ do
    total ← half_at mem 2
    number ← intf_number mem intf
    sc ←
        scan_loop (total + 1) mem total number ep_addr (some intf)
          (record { max_packet = 0; ep_def = none })
    let regs = get_ep_regs ep_addr s.hw
    let (bd0, t) = boot_bd sc.max_packet (ep_is_in ep_addr) s
    let (bd1, u) = if dual_bd then boot_bd sc.max_packet (ep_is_in ep_addr) t else (regs.bd1, t)
    let booted =
        put_ep_regs ep_addr
          (record {
            status = if dual_bd then ep_bd_dual else 0;
            mps = sc.max_packet;
            bd0 = bd0;
            bd1 = bd1;
          })
          u.hw
    if sc.max_packet == 0
        then ok (false, s)
        else (ep_conf ep_addr mem sc.ep_def booted >>= λ hw. ok (true, record u { hw = hw }))
]
