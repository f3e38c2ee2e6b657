-- ===== src/Std/Describe.antt =====
-- GET_DESCRIPTOR from its SETUP packet to the packets that the host gets.
use no2usb.Base.{
  ℕ, suc, ◌/◌, ◌≤◌, ◌<◌, ◌≡◌, refl, ap, ◌∙◌, if◌then◌else◌, ltb, List, ◌∷◌, ◌++◌, length, take, All,
  some, Run, ok, Returns, arith, bit_and,
}
use no2usb.Stack.{Usb, Req, success, rom, DrvId, ctrl_std, no_callback, is_read}
use no2usb.Ep0.Poll.{setup_begin, handle_setup}
use no2usb.Ep0.Host.{host_reads}
use no2usb.Ep0.Read.{Delivered}
use no2usb.Ep0.ReadRequest.{Answers, handle_setup-Delivered}
use no2usb.Driver.{Drv, ctrl_req_of, dispatch_ctrl_req}
use no2usb.Driver.Dispatch.{Pass, dispatch_ctrl_req-first}
use no2usb.Std.Config.{pick_descriptor, get_descriptor}
use no2usb.Std.Handle.{ctrl_std_handle, all_drivers, services}
use no2usb.Std.Address.{asked, out_csr-asked}

-- A request for a descriptor.
pub record IsGetDescriptor (req : Req) : Type 0 where
  pub kind : req.bm_request_type ≡ 0x80
  pub request : req.b_request ≡ 6

-- How many bytes of an answer of `n` are sent.
abbrev pub asked_len : ℕ → Req → ℕ
asked_len n req = if ltb n req.w_length then n else req.w_length

abbrev pub found : {A : Type 0} → List ℕ → ℕ → Usb A → Usb A
found d n s = record (asked s) {
  xfer = record { bytes = rom d; ofs = 0; len = n; cb_done = no_callback };
}

module _ {A : Type 0} (fns : ℕ → Drv A) (s : Usb A) (h : IsGetDescriptor (setup_begin s).req)
    (d : List ℕ) (n : ℕ)
    (picked : pick_descriptor
        (setup_begin s).stack_desc
        (bit_and (setup_begin s).req.w_value 0xff00)
        (bit_and (setup_begin s).req.w_value 0xff)
      ≡ ok (some (d, n))) where
  ctrl_std_handle-descriptor :
      ctrl_req_of (all_drivers fns ctrl_std) (setup_begin s).req (asked s)
      ≡ ok (success, found d n s)
  unfolding ctrl_std_handle get_descriptor
  ctrl_std_handle-descriptor = rw (h.kind, h.request, picked)

  found-Answers : n ≤ length d → Answers d (found d n s)
  unfolding is_read
  found-Answers fits = record {
    read = rw (h.kind);
    source = refl;
    start = refl;
    fits = fits;
    out = out_csr-asked s;
  }

  -- GET_DESCRIPTOR: when the drivers before the standard driver pass and the stack has the
  -- descriptor `d` that the request names, with `n` bytes to send, the packets that the host takes
  -- behind the SETUP packet are together the first bytes of `d`: `n` of them, but no more than the
  -- request asks for; all packets have 64 bytes but the last, which has fewer.
  pub get_descriptor-Delivered :
      (done : ℕ → Usb A → Run (Usb A)) (ds behind : List DrvId)
      → n ≤ length d
      → All (λ b. b < 256) d
      → (setup_begin s).fnd ≡ ds ++ ctrl_std ∷ behind
      → Pass
          (all_drivers fns)
          (λ p. ctrl_req_of (all_drivers fns p) (setup_begin s).req)
          ds
          (asked s)
          (asked s)
      → Returns
          (λ t.
            Returns
              (Delivered (take (asked_len n (setup_begin s).req) d))
              (host_reads (services fns done) (suc (asked_len n (setup_begin s).req / 64)) t))
          (handle_setup (services fns done) s)
  get_descriptor-Delivered done ds behind fits small chain pass =
      let first =
        dispatch_ctrl_req-first (all_drivers fns) (setup_begin s).req ds ctrl_std behind (asked s)
          (asked s) (found d n s) success pass ctrl_std_handle-descriptor (λ e. ground arith) in
      handle_setup-Delivered (services fns done) d s (found d n s) small
        (ap (λ c. dispatch_ctrl_req (all_drivers fns) (setup_begin s).req c (asked s)) chain
          ∙ first)
        (found-Answers fits)
