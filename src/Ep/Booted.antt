-- ===== src/Ep/Booted.antt =====
-- `usb_ep_boot` of fw/v0/src/usb.c on a configuration given by its settings.
use no2usb.Base.{
  ℕ, zero, suc, ◌+◌, ◌*◌, ◌%◌, ◌^◌, ◌<◌, ◌≡◌, refl, ap, ◌∙◌, ◌⊎◌, inl, inr, Bool, true, false, List,
  [], ◌∷◌, ◌++◌, length, drop, All, none, some, ok, arith,
}
use no2usb.Stack.{Usb}
use no2usb.Desc.{half_at}
use no2usb.Desc.Blob.{blob}
use no2usb.Ep.{ep_is_in, buf_size, ep_settings, ep_boot}
use no2usb.Ep.Settings.{Setting, IsSetting, setting_descs, settings_of}
use no2usb.Ep.Scans.{
  settings_of_intf, greatest_packet, first_endpoint, scan_loop-Scanned, number-here,
}
use no2usb.Ep.Boot.{IsBooted, next_buf, booted, boot_lem, boot_none, booted-IsBooted}

none-ep_settings : (mem : List ℕ) → ep_settings mem none ≡ ok (settings_of none)
unfolding ep_settings
none-ep_settings mem = refl

zero_or_more : (m : ℕ) → (m ≡ 0) ⊎ (0 < m)
zero_or_more zero = inl refl
zero_or_more (suc m) = inr (omega arith)

-- The endpoint's greatest packet in the settings of the interface at the front, and its type and
-- packet size in setting 0.
abbrev pub packet_room : ℕ → List Setting → ℕ
packet_room ep [] = 0
packet_room ep (x ∷ ss) = greatest_packet ep 0 (settings_of_intf x.number (x ∷ ss))

abbrev pub first_settings : ℕ → List Setting → ℕ × ℕ
first_settings ep [] = (0, 0)
first_settings ep (x ∷ ss) =
    settings_of (first_endpoint ep none (settings_of_intf x.number (x ∷ ss)))

-- From the interface descriptor that it is given on, the selected configuration is a list of
-- interfaces' settings, to its total length, with other descriptors between. Packets have less than
-- 1024 bytes, and there is memory for two buffers, from a whole word on. `usb_ep_boot` returns
-- success exactly if a setting of this interface has the endpoint with a packet size that is not 0.
-- Then the endpoint has the type and the packet size that setting 0 gives to it (0 if it has none),
-- and one or two idle buffers, each for the greatest packet of all settings, that lie one behind the
-- other in the free memory; the next free word is behind them. The other direction's memory and all
-- other endpoints are as before. Without success nothing changes.
pub ep_boot-IsBooted :
    {A : Type 0} (intf ep : ℕ) (dual : Bool) (s : Usb A) (mem : List ℕ) (x : Setting)
    (ss : List Setting) (rest : List ℕ)
    → s.conf ≡ some mem
    → drop intf mem ≡ blob (setting_descs (x ∷ ss)) ++ rest
    → half_at mem 2 ≡ ok (intf + length (blob (setting_descs (x ∷ ss))))
    → All IsSetting (x ∷ ss)
    → packet_room ep (x ∷ ss) < 1024
    → next_buf (ep_is_in ep) s % 4 ≡ 0
    → next_buf (ep_is_in ep) s + 2 * buf_size (packet_room ep (x ∷ ss)) < 2 ^ 32
    → ((packet_room ep (x ∷ ss) ≡ 0) × (ep_boot intf ep dual s ≡ ok (false, s)))
      ⊎ ((t : Usb A) × (0 < packet_room ep (x ∷ ss))
          × (ep_boot intf ep dual s ≡ ok (true, t))
          × IsBooted ep dual
              (packet_room ep (x ∷ ss))
              (first_settings ep (x ∷ ss)).0
              (first_settings ep (x ∷ ss)).1
              s
              t)
ep_boot-IsBooted intf ep dual s mem x ss rest conf stands total set low start fits =
    let m = packet_room ep (x ∷ ss) in
    let eod = intf + length (blob (setting_descs (x ∷ ss))) in
    let number = number-here mem eod x.number ep rest intf x ss stands refl set.0 in
    let scanned =
      scan_loop-Scanned mem eod x.number ep rest (eod + 1) intf x ss 0 none
        (record { max_packet = 0; ep_def = none }) stands refl set refl (none-ep_settings mem)
        (omega arith) in
    let type = (first_settings ep (x ∷ ss)).0 in
    let size = (first_settings ep (x ∷ ss)).1 in
    elim (zero_or_more m) [
      | inl nothing ↦ inl (
        nothing,
        boot_none intf ep s mem eod x.number scanned.scan type size conf total number scanned.ends
            dual (scanned.greatest ∙ nothing),
      )
      | inr more ↦ inr (
        booted ep m dual type size s,
        more,
        boot_lem intf ep s mem eod x.number scanned.scan type size conf total number scanned.ends
              dual (rw (scanned.greatest) more) scanned.first
            ∙ ap (λ n. ok (true, booted ep n dual type size s)) scanned.greatest,
        booted-IsBooted ep m s type size low start fits dual,
      )
    ]
