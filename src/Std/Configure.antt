-- ===== src/Std/Configure.antt =====
-- SET_CONFIGURATION with a value that a configuration has.
use no2usb.Base.{ℕ, ◌≡◌, List, some, Returns}
use no2usb.Stack.{Usb, DrvId, success, ds_configured}
use no2usb.Desc.Blob.{Desc}
use no2usb.Driver.{Drv, dispatch_state_chg, dispatch_set_conf, dispatch_set_intf}
use no2usb.Device.{get_state}

-- The device is configured with `c`.
abbrev pub IsConfigured : {A : Type 0} → List ℕ → Usb A → Type 0
IsConfigured c s = (s.conf ≡ some c) × (s.state ≡ ds_configured)

-- The drivers, told of a configuration and of its interfaces, return and leave both fields alone.
pub record KeepsConf {A : Type 0} (drv : DrvId → Drv A) (c : List ℕ) : Type 0 where
  pub state_chg :
      (u : Usb A)
      → IsConfigured c u
      → Returns (IsConfigured c) (dispatch_state_chg drv (get_state u) u.fnd u)
  pub set_conf :
      (u : Usb A)
      → IsConfigured c u
      → Returns (λ r. IsConfigured c r.1) (dispatch_set_conf drv u.conf success u.fnd u)
  pub set_intf :
      (p : ℕ) (u : Usb A)
      → IsConfigured c u
      → Returns (λ r. IsConfigured c r.1) (dispatch_set_intf drv (some p) p u.fnd u)
