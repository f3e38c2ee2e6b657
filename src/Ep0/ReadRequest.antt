-- ===== src/Ep0/ReadRequest.antt =====
-- A read request from its SETUP packet to its status stage.
use no2usb.Base.{
  ℕ, suc, ◌-◌, ◌/◌, ◌≤◌, ◌<◌, ◌≡◌, refl, ap, ◌∙◌, inl, inr, true, ltb, if◌then◌else◌, Bool-cases,
  List, length, take, drop, All, some, ok, Returns, Returns-ok, arith,
}
use no2usb.Hw.{ar_write}
use no2usb.Hw.Words.{bd_state-bd_rdy_data, bd_state-zero}
use no2usb.Stack.{Usb, Services, data_in, success, is_read}
use no2usb.Stack.Memory.{object}
use no2usb.Ep0.Regs.{out_csr}
use no2usb.Ep0.Transfer.{set_ctrl, default_xfer, start_data, answer_request, handle_control_request}
use no2usb.Ep0.Packet.{Reads, Sent}
use no2usb.Ep0.Poll.{setup_begin, setup_end, handle_setup}
use no2usb.Ep0.Host.{host_reads}
use no2usb.Ep0.Read.{Serves, Delivered, handle_control_data-Sent, host_reads-Delivered}

-- How much of the answer is sent: no more than there is, and no more than was asked for.
abbrev pub reply_len : {A : Type 0} → Usb A → ℕ
reply_len a = if ltb a.xfer.len a.req.w_length then a.xfer.len else a.req.w_length

-- The handler's answer to a read request: at most all of the bytes `xs`, from the start.
pub record Answers {A : Type 0} (xs : List ℕ) (a : Usb A) : Type 0 where
  pub read : is_read a.req ≡ true
  pub source : object a.xfer.bytes a.buffers ≡ some xs
  pub start : a.xfer.ofs ≡ 0
  pub fits : a.xfer.len ≤ length xs
  pub out : out_csr a.hw ≡ 0

abbrev with_len : {A : Type 0} → ℕ → Usb A → Usb A
with_len n a = record a { xfer = record (a.xfer) { len = n } }

-- The state that the data stage starts in.
abbrev started : {A : Type 0} → Usb A → Usb A
started a = set_ctrl data_in (with_len (reply_len a) a)

module _ {A : Type 0} (sv : Services A) (xs : List ℕ) (a : Usb A) (h : Answers xs a) where
  started-Reads : Reads xs (started a)
  started-Reads = record {
    source = h.source;
    fits = ground (arith, h.fits);
    within = ground (arith, h.start);
  }

  answer_request-Sent :
      All (λ b. b < 256) xs → Returns (Sent xs (started a)) (answer_request success a)
  unfolding answer_request start_data
  answer_request-Sent small =
      let queued = handle_control_data-Sent xs (started a) refl started-Reads small in
      elim (Bool-cases (ltb a.xfer.len a.req.w_length)) [
        | inl short ↦ rw (short, h.read) (rw short at queued)
        | inr enough ↦ rw (enough, h.read) (rw enough at queued)
      ]

-- Behind the handling of the request the endpoint takes the next SETUP packet.
setup_end-Serves :
    {A : Type 0} (xs : List ℕ) (s : Usb A)
    → Reads xs s
    → s.ctrl_state ≡ data_in
    → out_csr s.hw ≡ 0
    → Serves xs (setup_end s)
unfolding setup_end ar_write
setup_end-Serves xs s h state out = record {
  reads = record { source = h.source; fits = h.fits; within = h.within };
  state = state;
  setup = bd_state-bd_rdy_data 64 (omega arith);
  out = inl (rw out bd_state-zero);
}

setup_end-Sent :
    {A : Type 0} (xs : List ℕ) (s t : Usb A) → Sent xs s t → Sent xs (setup_end s) (setup_end t)
unfolding setup_end ar_write
setup_end-Sent xs s t sent = record {
  packet = sent.packet;
  queued = sent.queued;
  ofs = sent.ofs;
  len = sent.len;
  source = sent.source;
  setup = refl;
  ends = sent.ends;
  goes_on = sent.goes_on;
}

-- A read request from its SETUP packet on: when the handlers answer it with `xs`, the endpoint
-- handles it, and the packets that the host then takes, one more than the full ones, are together
-- the first bytes of `xs`, as many as the answer has but no more than were asked for; all packets
-- have 64 bytes but the last, which has fewer. Then the endpoint waits for the host's status packet.
pub handle_setup-Delivered :
    {A : Type 0} (sv : Services A) (xs : List ℕ) (s a : Usb A)
    → All (λ b. b < 256) xs
    → sv.ctrl_req (setup_begin s).req (record (setup_begin s) { xfer = default_xfer })
      ≡ ok (success, a)
    → Answers xs a
    → Returns
        (λ t.
          Returns (Delivered (take (reply_len a) xs)) (host_reads sv (suc (reply_len a / 64)) t))
        (handle_setup sv s)
unfolding handle_setup handle_control_request setup_end ar_write
handle_setup-Delivered sv xs s a small answer h =
    let (t, e, sent) =
      Returns-ok (answer_request success a) (answer_request-Sent sv xs a h small) in
    let whole : reply_len a - a.xfer.ofs ≡ reply_len a = ground (arith, h.start) in
    let bytes : take (reply_len a - a.xfer.ofs) (drop a.xfer.ofs xs) ≡ take (reply_len a) xs =
      ap (λ n. take n (drop a.xfer.ofs xs)) whole
      ∙ ap (λ n. take (reply_len a) (drop n xs)) h.start in
    rw (answer, e)
      (rw bytes at (
        host_reads-Delivered sv xs small (reply_len a / 64) (setup_end (started a)) (setup_end t)
          (setup_end-Serves xs (started a) (started-Reads sv xs a h) refl h.out)
          (setup_end-Sent xs (started a) t sent) (ap (λ n. n / 64) whole)))
