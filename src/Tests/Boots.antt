-- ===== src/Tests/Boots.antt =====
-- Setting up endpoint 0x81 of the fixture's interface with two buffers.
use no2usb.Base.{◌+◌, ◌<◌, ◌≡◌, ◌⊎◌, refl, true, false, [], ◌∷◌, length, ok, arith}
use no2usb.Stack.{Usb}
use no2usb.Desc.{half_at}
use no2usb.Desc.Blob.{blob}
use no2usb.Ep.{ep_boot}
use no2usb.Ep.Settings.{Setting, setting_descs}
use no2usb.Ep.Boot.{IsBooted}
use no2usb.Ep.Booted.{packet_room, first_settings, ep_boot-IsBooted}
use no2usb.Tests.Fixture.{conf_bytes, device, hw_with}

abbrev resting : Usb Unit
resting = device (hw_with 0x4000 0 0 0 0)

abbrev bulk_intf : Setting
bulk_intf = record {
  number = 0;
  alternate = 0;
  tail = 255 ∷ 0 ∷ 0 ∷ 0 ∷ [];
  endpoints =
      record { front = []; address = 0x81; attributes = 2; low = 64; high = 0; tail = 0 ∷ [] } ∷ [];
  behind = [];
}

total-conf_bytes : half_at conf_bytes 2 ≡ ok (9 + length (blob (setting_descs (bulk_intf ∷ []))))
unfolding half_at
total-conf_bytes = refl

bulk_intf-first_settings : first_settings 0x81 (bulk_intf ∷ []) ≡ (4, 64)
bulk_intf-first_settings = refl

ep_boot-IsBooted_example :
    ((packet_room 0x81 (bulk_intf ∷ []) ≡ 0) × (ep_boot 9 0x81 true resting ≡ ok (false, resting)))
    ⊎ ((t : Usb Unit) × (0 < packet_room 0x81 (bulk_intf ∷ []))
        × (ep_boot 9 0x81 true resting ≡ ok (true, t))
        × IsBooted 0x81 true 64 4 64 resting t)
ep_boot-IsBooted_example =
    ep_boot-IsBooted 9 0x81 true resting conf_bytes bulk_intf [] [] refl refl total-conf_bytes
      (((tt, tt), tt), tt) (omega arith) refl (omega arith)
