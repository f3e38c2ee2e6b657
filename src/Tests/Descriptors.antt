-- ===== src/Tests/Descriptors.antt =====
-- Searches through the fixture's configuration.
use no2usb.Base.{ℕ, ◌≡◌, refl, List, [], ◌∷◌, All, none, some, ok, spin, arith}
use no2usb.Desc.{half_at, desc_find_loop, desc_find_intf}
use no2usb.Desc.Find.{desc_find-zero_length}
use no2usb.Desc.Blob.{Desc}
use no2usb.Desc.Intf.{IsComplete, search_intf, desc_find_intf-search_intf}
use no2usb.Tests.Fixture.{conf_bytes, conf_descs}

total-conf_bytes : half_at conf_bytes 2 ≡ ok 25
unfolding half_at
total-conf_bytes = refl

conf_descs-IsComplete : All IsComplete conf_descs
conf_descs-IsComplete = (λ e. omega arith, (λ e. omega arith, (λ e. omega arith, tt)))

desc_find_intf-search_intf_example :
    desc_find_intf (some conf_bytes) none 0 0 none ≡ ok (search_intf 0 conf_descs 0 0 none)
desc_find_intf-search_intf_example =
    desc_find_intf-search_intf conf_bytes conf_descs [] none 0 0 none refl total-conf_bytes
      conf_descs-IsComplete

-- A descriptor of length 0 behind a configuration's.
abbrev stuck : List ℕ
stuck = 9 ∷ 2 ∷ 11 ∷ 0 ∷ 0 ∷ 1 ∷ 0 ∷ 128 ∷ 50 ∷ 0 ∷ 5 ∷ 0 ∷ []

abbrev stuck_descs : List Desc
stuck_descs = record { dtype = 2; body = 11 ∷ 0 ∷ 0 ∷ 1 ∷ 0 ∷ 128 ∷ 50 ∷ [] } ∷ []

desc_find-zero_length_example : desc_find_loop 1000 stuck 0 11 4 ≡ spin
desc_find-zero_length_example =
    desc_find-zero_length 1000 stuck 0 11 4 5 stuck_descs (0 ∷ []) refl (refl, tt) refl
      (omega arith)
