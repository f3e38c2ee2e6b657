-- ===== src/Proto/Requests/Passed.antt =====
-- Who answers the class requests of the headers: `usb_ctrl_std_handle` of fw/v0/src/usb_ctrl_std.c
-- passes all of them on.
use no2usb.Base.{
  ℕ, ◌<◌, ◌≡◌, refl, Bool, true, false, not, ◌&&◌, ◌==◌, ltb, ltb→lt, every, every-elem, and_parts,
  not-true, List, [], ◌∷◌, ◌++◌, All, get_elem?, some, ok, arith,
}
use no2usb.Stack.{Usb, Req, continue, DrvId, ctrl_std, request_and_type}
use no2usb.Driver.{Drv, dispatch_ctrl_req}
use no2usb.Std.Handle.{ctrl_std_handle, all_drivers, told_drivers}
use no2usb.Proto.Requests.Request.{Request, value}
use no2usb.Proto.Requests.Usb.{hid_requests, hid_descriptor_requests, dfu_requests}
use no2usb.Proto.Requests.Ac.{ac_intf_requests, ac_ep_requests}
use no2usb.Proto.Requests.Vc.{vc_intf_requests, vc_ep_requests}
use no2usb.Proto.Requests.Cdc.{cdc_requests}

-- All requests of the headers that are not the standard ones.
abbrev pub class_requests : List Request
class_requests =
    ac_intf_requests
    ++ (ac_ep_requests
        ++ (vc_intf_requests
            ++ (vc_ep_requests
                ++ (cdc_requests ++ (hid_requests ++ (hid_descriptor_requests ++ dfu_requests))))))

-- The values that the switch of `usb_ctrl_std_handle` names.
abbrev std_values : List ℕ
std_values =
    0x0080 ∷ 0x0081 ∷ 0x0082 ∷ 0x0100 ∷ 0x0101 ∷ 0x0102 ∷ 0x0300 ∷ 0x0301 ∷ 0x0302 ∷ 0x0500 ∷ 0x0680
    ∷ 0x0880 ∷ 0x0900 ∷ 0x0a81 ∷ 0x0b01 ∷ []

abbrev differs : List ℕ → ℕ → Bool
differs [] n = true
differs (c ∷ cs) n = not (n == c) && differs cs n

abbrev passes : Request → Bool
passes e = differs std_values (value e) && ltb e.kind 256

class_requests-pass : every passes class_requests ≡ true
class_requests-pass = refl

differs-All : (cs : List ℕ) (n : ℕ) → differs cs n ≡ true → All (λ c. (n == c) ≡ false) cs
differs-All [] n h = tt
differs-All (c ∷ cs) n h =
    let (first, rest) = and_parts (not (n == c)) (differs cs n) h in
    (not-true (n == c) first, differs-All cs n rest)

module _ {A : Type 0} (drv : DrvId → Drv A) (req : Req) (s : Usb A) where
  ctrl_std_handle-continue :
      All (λ c. (request_and_type req == c) ≡ false) std_values
      → ctrl_std_handle drv req s ≡ ok (continue, s)
  unfolding ctrl_std_handle
  ctrl_std_handle-continue
        (a, (b, (c, (d, (e, (f, (g, (h, (i, (j, (k, (l, (m, (n, (o, _))))))))))))))) =
      rw (a, b, c, d, e, f, g, h, i, j, k, l, m, n, o)

-- A class request of the headers, for audio, video, communication, human interfaces or updates, with
-- its value in `wRequestAndType`: the request's code and kind are those of its macro, and the
-- standard driver, wherever it stands in the chain, passes it on to the drivers behind it and
-- changes nothing.
pub class_requests-passed :
    {A : Type 0} (fns : ℕ → Drv A) (i : ℕ) (e : Request) (req : Req) (ds : List DrvId) (s : Usb A)
    → get_elem? class_requests i ≡ some e
    → req.bm_request_type < 256
    → request_and_type req ≡ value e
    → (req.bm_request_type ≡ e.kind)
      × (req.b_request ≡ e.code)
      × (dispatch_ctrl_req (all_drivers fns) req (ctrl_std ∷ ds) s
          ≡ dispatch_ctrl_req (all_drivers fns) req ds s)
unfolding dispatch_ctrl_req
class_requests-passed fns i e req ds s at byte is =
    let (off, low) =
      and_parts (differs std_values (value e)) (ltb e.kind 256)
        (every-elem passes class_requests i e class_requests-pass at) in
    let others = rw (← is) at (differs-All std_values (value e) off) in
    let small : e.kind < 256 = ltb→lt e.kind 256 low in
    (omega arith, omega arith, rw (ctrl_std_handle-continue (told_drivers fns) req s others))
