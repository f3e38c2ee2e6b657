-- ===== src/Tests/Vendors.antt =====
-- Requests to the drivers for Microsoft OS 2.0 descriptors and for the run-time part of updates.
use no2usb.Base.{
  ℕ, suc, ◌/◌, ◌<◌, ◌≤◌, ◌≡◌, refl, [], ◌∷◌, ◌++◌, take, length, All, some, Run, ok, Returns, arith,
}
use no2usb.Hw.Data.{data_read}
use no2usb.Stack.{Usb, idle, status_done_in, ctrl_std, fn}
use no2usb.Desc.{byte_at, half_at}
use no2usb.Ep0.Poll.{setup_begin, handle_setup, ep0_poll}
use no2usb.Ep0.Host.{quiet, ack_in, host_reads}
use no2usb.Ep0.Read.{Delivered}
use no2usb.Driver.{Drv}
use no2usb.Driver.Dispatch.{nobody}
use no2usb.Std.Address.{asked}
use no2usb.Std.Describe.{asked_len}
use no2usb.Std.Handle.{services}
use no2usb.Msos20.{Msos20, winusb_desc, winusb_bos, msos20_drv}
use no2usb.Msos20.Describe.{IsMsosRequest, msos20_ctrl_req-Delivered}
use no2usb.DfuRt.{DfuRt, rt_drv, rt_done}
use no2usb.DfuRt.Detach.{IsDetach, detach-after_status}
use no2usb.Tests.Fixture.{device_with, hw_with}

-- The default descriptors agree with each other: the lengths that they name are their own, and the
-- capability names the length of the set, and the vendor's request.
winusb-lengths :
    (half_at winusb_desc 8 ≡ ok (length winusb_desc))
    × (half_at winusb_bos 2 ≡ ok (length winusb_bos))
    × (half_at winusb_bos 29 ≡ ok (length winusb_desc))
    × (byte_at winusb_bos 31 ≡ ok 0x4d)
unfolding half_at byte_at
winusb-lengths = (refl, refl, refl, refl)

-- The request for the set, of up to 64 bytes.
abbrev get_msos : Usb Msos20
get_msos = device_with (record { desc = winusb_desc }) (hw_with 0x8000 0 0 0x00004dc0 0x00400007)

abbrev msos_fns : ℕ → Drv Msos20
msos_fns n = msos20_drv

abbrev msos_done : ℕ → Usb Msos20 → Run (Usb Msos20)
msos_done n s = ok s

get_msos-IsMsosRequest : IsMsosRequest (setup_begin get_msos).req
unfolding setup_begin data_read
get_msos-IsMsosRequest = record { kind = refl; vendor = refl; index = refl }

get_msos-total : half_at (asked get_msos).app.desc 8 ≡ ok 30
unfolding setup_begin half_at
get_msos-total = refl

get_msos-fits : 30 ≤ length (asked get_msos).app.desc
unfolding setup_begin
get_msos-fits = omega arith

get_msos-small : All (λ b. b < 256) (asked get_msos).app.desc
unfolding setup_begin
get_msos-small = ground arith

fnd-get_msos : (setup_begin get_msos).fnd ≡ [] ++ fn 0 ∷ ctrl_std ∷ []
unfolding setup_begin
fnd-get_msos = refl

msos20_ctrl_req-Delivered_example :
    Returns
      (λ t.
        Returns
          (Delivered (take (asked_len 30 (setup_begin get_msos).req) (asked get_msos).app.desc))
          (host_reads
            (services msos_fns msos_done)
            (suc (asked_len 30 (setup_begin get_msos).req / 64))
            t))
      (handle_setup (services msos_fns msos_done) get_msos)
msos20_ctrl_req-Delivered_example =
    msos20_ctrl_req-Delivered msos_fns 0 get_msos get_msos-IsMsosRequest 30 msos_done []
      (ctrl_std ∷ []) refl get_msos-total get_msos-fits get_msos-small fnd-get_msos nobody

-- A request to detach, to interface 2. A reboot is counted.
abbrev to_detach : Usb (DfuRt ℕ)
to_detach =
    device_with (record { intf = some 2; host = 0 }) (hw_with 0x8000 0 0 0x00000021 0x00000002)

abbrev rt_fns : ℕ → Drv (DfuRt ℕ)
rt_fns n = rt_drv

to_detach-IsDetach : IsDetach 2 (setup_begin to_detach).req
unfolding setup_begin data_read
to_detach-IsDetach = record { kind = refl; request = refl; index = refl; no_bytes = refl }

to_detach-mine : (asked to_detach).app.intf ≡ some 2
unfolding setup_begin
to_detach-mine = refl

fnd-to_detach : (setup_begin to_detach).fnd ≡ [] ++ fn 0 ∷ ctrl_std ∷ []
unfolding setup_begin
fnd-to_detach = refl

detach-after_status_example :
    Returns
      (λ t.
        (t.app ≡ to_detach.app)
        × (t.ctrl_state ≡ status_done_in)
        × Returns
            (λ u. (u.ctrl_state ≡ idle) × (u.app.host ≡ 1))
            (ep0_poll (services rt_fns (rt_done suc)) (ack_in ∷ quiet ∷ []) t))
      (handle_setup (services rt_fns (rt_done suc)) to_detach)
detach-after_status_example =
    detach-after_status rt_fns suc 0 2 to_detach to_detach-IsDetach to_detach-mine []
      (ctrl_std ∷ []) refl fnd-to_detach nobody
