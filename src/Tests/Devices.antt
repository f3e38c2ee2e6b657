-- ===== src/Tests/Devices.antt =====
-- The device's state changes, and endpoints.
use no2usb.Base.{◌≡◌, inl, inr, refl, true, false, [], bit_and, ok, Returns, arith}
use no2usb.Hw.{Hw, ep_type_is_bci, evt_pending}
use no2usb.Stack.{Usb, ds_connected, ds_suspended}
use no2usb.Ep.{get_ep_regs, ep_halt, ep_resume, ep_is_halted}
use no2usb.Ep.Halt.{ep_halt-ep_resume}
use no2usb.Device.{get_state, poll, bus_reset}
use no2usb.Device.State.{poll-before_reset, poll-suspend_resume}
use no2usb.Device.Reset.{IsReset, bus_reset-IsReset}
use no2usb.Std.Handle.{services}
use no2usb.Tests.Fixture.{device, hw_with, quiet_fns, quiet_drv, no_done, dispatch_state_chg-quiet}

abbrev resting_hw : Hw
resting_hw = hw_with 0x4000 0 0 0 0

abbrev resting : Usb Unit
resting = device resting_hw

bus_reset-IsReset_example : Returns IsReset (bus_reset quiet_drv resting)
bus_reset-IsReset_example = bus_reset-IsReset quiet_drv resting (λ d u h. h) (λ d u h. h)

-- The same device on a suspended bus, with a pull-up, and before its first reset.
abbrev idle_bus : Usb Unit
idle_bus = device (record resting_hw { bus_suspend = true })

abbrev new_device : Usb Unit
new_device = record resting { state = ds_connected }

evt_pending-resting : evt_pending resting_hw ≡ false
unfolding evt_pending
evt_pending-resting = refl

poll-before_reset_example :
    poll quiet_drv (services quiet_fns no_done) [] new_device ≡ ok new_device
poll-before_reset_example =
    poll-before_reset quiet_drv (services quiet_fns no_done) [] new_device (omega arith) (inl refl)

poll-suspend_resume_example :
    (poll quiet_drv (services quiet_fns no_done) [] idle_bus
      ≡ ok (record idle_bus { state = 0x85 }))
    × (get_state (record idle_bus { state = 0x85 }) ≡ ds_suspended)
    × (poll quiet_drv
          (services quiet_fns no_done)
          []
          (record idle_bus { state = 0x85; hw = resting_hw })
        ≡ ok (record idle_bus { hw = resting_hw }))
poll-suspend_resume_example =
    poll-suspend_resume quiet_drv idle_bus
      (λ state t. dispatch_state_chg-quiet state idle_bus.fnd t) (services quiet_fns no_done) []
      resting_hw (omega arith) (omega arith) refl refl refl refl refl evt_pending-resting

-- Endpoint 0x81 is a bulk endpoint.
bulk-status : (get_ep_regs 0x81 resting_hw).status ≡ 4
unfolding get_ep_regs
bulk-status = refl

bulk-ep_type_is_bci : ep_type_is_bci (get_ep_regs 0x81 resting_hw).status ≡ true
unfolding get_ep_regs ep_type_is_bci
bulk-ep_type_is_bci = refl

ep_halt-ep_resume_example :
    ((ep_halt 0x81 resting_hw).0 ≡ true)
    × (ep_is_halted 0x81 (ep_halt 0x81 resting_hw).1 ≡ true)
    × ((ep_resume 0x81 (ep_halt 0x81 resting_hw).1).0 ≡ true)
    × (ep_is_halted 0x81 (ep_resume 0x81 (ep_halt 0x81 resting_hw).1).1 ≡ false)
    × (bit_and (get_ep_regs 0x81 (ep_resume 0x81 (ep_halt 0x81 resting_hw).1).1).status 0x80 ≡ 0)
    × (ep_type_is_bci (get_ep_regs 0x81 (ep_resume 0x81 (ep_halt 0x81 resting_hw).1).1).status
        ≡ true)
    × (get_ep_regs 0x01 (ep_halt 0x81 resting_hw).1 ≡ get_ep_regs 0x01 resting_hw)
    × (get_ep_regs 0x01 (ep_resume 0x81 (ep_halt 0x81 resting_hw).1).1
        ≡ get_ep_regs 0x01 resting_hw)
ep_halt-ep_resume_example =
    ep_halt-ep_resume 0x81 0x01 resting_hw (omega (arith, bulk-status)) bulk-ep_type_is_bci
      (inr (λ e. ground arith))
