-- ===== src/Tests/Drivers.antt =====
-- Chains of drivers.
use no2usb.Base.{◌≡◌, refl, [], ◌∷◌, ◌++◌, length, none, some, ok, fault, if◌then◌else◌, arith}
use no2usb.Stack.{Usb, Req, continue, success, error, DrvId, ctrl_std, fn}
use no2usb.Driver.{Drv, no_drv, dispatch_ctrl_req, dispatch_set_conf, unlink}
use no2usb.Driver.Dispatch.{
  nobody, passed, told, any_error, dispatch_ctrl_req-first, dispatch_set_conf-Told,
}
use no2usb.Driver.Chain.{is_even, unlink-even_places}
use no2usb.Tests.Fixture.{device, hw_with}

abbrev resting : Usb Unit
resting = device (hw_with 0x4000 0 0 0 0)

abbrev any_req : Req
any_req = record { bm_request_type = 0x21; b_request = 1; w_value = 0; w_index = 0; w_length = 0 }

-- Driver 1 answers every request, and refuses every configuration.
abbrev drivers : DrvId → Drv Unit
drivers (fn (Prim.Native.Nat.suc Prim.Native.Nat.zero)) = record no_drv {
  ctrl_req = some (λ r s. ok (success, s));
  set_conf = some (λ c s. ok (error, s));
}
drivers _ = no_drv

dispatch_ctrl_req-first_example :
    dispatch_ctrl_req drivers any_req ((fn 0 ∷ []) ++ fn 1 ∷ ctrl_std ∷ []) resting
    ≡ ok (success, resting)
dispatch_ctrl_req-first_example =
    dispatch_ctrl_req-first drivers any_req (fn 0 ∷ []) (fn 1) (ctrl_std ∷ []) resting resting
      resting success (passed refl nobody) refl (λ e. ground arith)

dispatch_set_conf-Told_example :
    dispatch_set_conf drivers none success (fn 1 ∷ fn 0 ∷ []) resting
    ≡ ok (if any_error (error ∷ continue ∷ []) then error else success, resting)
dispatch_set_conf-Told_example =
    dispatch_set_conf-Told drivers none (fn 1 ∷ fn 0 ∷ []) resting resting (error ∷ continue ∷ [])
      (told refl (told refl nobody))

unlink-even_places_example : unlink (fn 0) (fn 1 ∷ fn 0 ∷ ctrl_std ∷ []) ≡ (
    if is_even (length (fn 1 ∷ fn 0 ∷ ctrl_std ∷ []))
    then ok (fn 1 ∷ fn 0 ∷ ctrl_std ∷ [])
    else fault)
unlink-even_places_example =
    unlink-even_places (fn 0) (fn 1 ∷ fn 0 ∷ ctrl_std ∷ []) (refl, (refl, tt))
