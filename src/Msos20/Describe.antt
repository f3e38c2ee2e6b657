-- ===== src/Msos20/Describe.antt =====
-- The request for the Microsoft OS 2.0 descriptors, from its SETUP packet to the host's packets.
use no2usb.Base.{
  ℕ, suc, ◌/◌, ◌≤◌, ◌<◌, ◌≡◌, refl, ap, ◌∙◌, List, ◌∷◌, ◌++◌, length, take, All, ok, Run, Returns,
  arith,
}
use no2usb.Stack.{Usb, Req, success, DrvId, fn, is_read}
use no2usb.Desc.{half_at}
use no2usb.Ep0.Poll.{setup_begin, handle_setup}
use no2usb.Ep0.Host.{host_reads}
use no2usb.Ep0.Read.{Delivered}
use no2usb.Ep0.ReadRequest.{handle_setup-Delivered}
use no2usb.Driver.{Drv, ctrl_req_of, dispatch_ctrl_req}
use no2usb.Driver.Dispatch.{Pass, dispatch_ctrl_req-first}
use no2usb.Std.Handle.{all_drivers, services}
use no2usb.Std.Address.{asked, out_csr-asked}
use no2usb.Std.Describe.{asked_len, found}
use no2usb.Msos20.{Msos20, msos20_drv, msos20_ctrl_req}

-- A request for the set of descriptors.
pub record IsMsosRequest (req : Req) : Type 0 where
  pub kind : req.bm_request_type ≡ 0xc0
  pub vendor : req.b_request ≡ 0x4d
  pub index : req.w_index ≡ 7

module _ (fns : ℕ → Drv Msos20) (num : ℕ) (s : Usb Msos20)
    (h : IsMsosRequest (setup_begin s).req) where
  abbrev desc : List ℕ
  desc = (asked s).app.desc

  ctrl_req-found :
      (n : ℕ)
      → half_at desc 8 ≡ ok n
      → msos20_ctrl_req (setup_begin s).req (asked s) ≡ ok (success, found desc n s)
  unfolding msos20_ctrl_req
  ctrl_req-found n total = rw (h.kind, h.vendor, h.index, total) refl

  -- The driver with the number `num` is this one. When the drivers before it pass, and the set of
  -- descriptors that it was given says that it has `n` bytes and does, the packets that the host takes
  -- behind the SETUP packet are together its first bytes: `n` of them, but no more than asked for.
  pub msos20_ctrl_req-Delivered :
      (n : ℕ) (done : ℕ → Usb Msos20 → Run (Usb Msos20)) (ds behind : List DrvId)
      → fns num ≡ msos20_drv
      → half_at (asked s).app.desc 8 ≡ ok n
      → n ≤ length (asked s).app.desc
      → All (λ b. b < 256) (asked s).app.desc
      → (setup_begin s).fnd ≡ ds ++ fn num ∷ behind
      → Pass
          (all_drivers fns)
          (λ p. ctrl_req_of (all_drivers fns p) (setup_begin s).req)
          ds
          (asked s)
          (asked s)
      → Returns
          (λ t.
            Returns
              (Delivered (take (asked_len n (setup_begin s).req) (asked s).app.desc))
              (host_reads (services fns done) (suc (asked_len n (setup_begin s).req / 64)) t))
          (handle_setup (services fns done) s)
  unfolding is_read
  msos20_ctrl_req-Delivered n done ds behind mine total fits small chain pass =
      let answers : ctrl_req_of (all_drivers fns (fn num)) (setup_begin s).req (asked s)
          ≡ ok (success, found desc n s) =
        ap (λ d. ctrl_req_of d (setup_begin s).req (asked s)) mine ∙ ctrl_req-found n total in
      let first =
        dispatch_ctrl_req-first (all_drivers fns) (setup_begin s).req ds (fn num) behind (asked s)
          (asked s) (found desc n s) success pass answers (λ e. ground arith) in
      handle_setup-Delivered (services fns done) desc s (found desc n s) small
        (ap (λ c. dispatch_ctrl_req (all_drivers fns) (setup_begin s).req c (asked s)) chain
          ∙ first)
        (record {
          read = rw (h.kind);
          source = refl;
          start = refl;
          fits = fits;
          out = out_csr-asked s;
        })
