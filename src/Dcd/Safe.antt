-- ===== src/Dcd/Safe.antt =====
-- The memory that the port writes, fw/tinyusb/dcd_no2usb.c: its transfers, its polls and its
-- handling of a SETUP packet.
use no2usb.Base.{
  ℕ, zero, suc, ◌+◌, ◌<◌, ◌≤◌, ◌^◌, ◌≡◌, ◌==◌, refl, ap, ◌∙◌, ◌⊎◌, Bool, true, false, Bool-cases,
  inl, inr, if◌then◌else◌, Option, none, some, ok, ◌>>=◌, Returns, Returns-if, Returns-bind, arith,
}
use no2usb.Hw.{bd_state, bd_rdy_data}
use no2usb.Ep0.Regs.{setup_csr, set_setup_csr}
use no2usb.Dcd.State.{Dir, dir_out, dir_in, DcdEp, Dcd, TinyUsb, put_state, map_regs}
use no2usb.Dcd.Transfer.{View, view, put_view, ep_advance_xfer_in, ep_advance_xfer_out}
use no2usb.Dcd.Device.{stall_ep0, advance_busy, take_setup, ep0_handle_setup, poll_eps, full_poll}
use no2usb.Dcd.Receive.Frame.{Target, IsReceiving, advance_out-frame}
use no2usb.Dcd.Total.{advance_in-total}

-- The bytes of a transfer are none of those to keep, or it has no bytes and no buffer.
abbrev pub SparesBytes : (ℕ → Type 0) → Option ℕ → ℕ → Type 0
SparesBytes keep buffer len =
    ((buf : ℕ) × (buffer ≡ some buf) × ((k : ℕ) → keep k → (k < buf) ⊎ (buf + len ≤ k)))
    ⊎ ((buffer ≡ none) × (len ≡ 0))

-- An endpoint that receives, or has nothing to do.
pub record Spares (keep : ℕ → Type 0) (e : DcdEp) : Type 0 where
  pub target : e.busy ≡ true → SparesBytes keep e.buf e.len
  pub ofs : e.ofs ≤ e.len
  pub len_max : e.len < 2 ^ 16
  pub mps_max : e.mps < 1024
  pub order : e.dual ≡ false → e.bdi_retire ≡ false

-- No endpoint receives into the bytes to keep, and they are as they were in `ram`.
pub record IsSafe {A : Type 0} (keep : ℕ → Type 0) (ram : ℕ → ℕ) (s : Dcd A) : Type 0 where
  pub out : (n : ℕ) → Spares keep (s.ep n).out
  pub kept : (k : ℕ) → keep k → s.ram k ≡ ram k

module _ {A : Type 0} (tu : TinyUsb A) (keep : ℕ → Type 0) (ram : ℕ → ℕ) where
  pub in-IsSafe :
      (n : ℕ) (s : Dcd A)
      → IsSafe keep ram s
      → Returns (IsSafe keep ram) (ep_advance_xfer_in tu n s)
  unfolding ep_advance_xfer_in put_view put_state
  in-IsSafe n s h =
      let (w, e, same) = advance_in-total tu n (view n dir_in s) in
      rw e (record {
        out = λ k. elim (Bool-cases (k == n)) [
          | inl here ↦ rw here (h.out n)
          | inr far ↦ rw far (h.out k)
        ];
        kept = λ k keeps. ap (λ (m : ℕ → ℕ). m k) same ∙ h.kept k keeps;
      })

  receiving :
      (n : ℕ) (s : Dcd A)
      → IsSafe keep ram s
      → (buf len : ℕ) → ((s.ep n).out.busy ≡ true → Target buf len (view n dir_out s))
      → IsReceiving tu n buf len s.ram (view n dir_out s)
  receiving n s h buf len target = record {
    target = target;
    ofs = (h.out n).ofs;
    len_max = (h.out n).len_max;
    mps_max = (h.out n).mps_max;
    order = (h.out n).order;
    outside = λ k outside. refl;
  }

  -- The view of an endpoint that receives.
  out-view :
      (n : ℕ) (s : Dcd A)
      → IsSafe keep ram s
      → (buf : ℕ) × (len : ℕ) × IsReceiving tu n buf len s.ram (view n dir_out s)
        × ((k : ℕ) → keep k → (k < buf) ⊎ (buf + len ≤ k))
  out-view n s h = elim (Bool-cases (s.ep n).out.busy) [
    | inl busy ↦ elim ((h.out n).target busy) [
      | inl (buf, at, apart) ↦
          (buf, (s.ep n).out.len, receiving n s h buf (s.ep n).out.len (λ b. inl (at, refl)), apart)
      | inr nothing ↦ (0, 0, receiving n s h 0 0 (λ b. inr nothing), λ k keeps. inr (omega arith))
    ]
    | inr rests ↦ (0, 0, receiving n s h 0 0 (λ b. cc (rests, b)), λ k keeps. inr (omega arith))
  ]

  still-Spares :
      (n buf len : ℕ) (before : ℕ → ℕ) (w : View A)
      → IsReceiving tu n buf len before w
      → ((k : ℕ) → keep k → (k < buf) ⊎ (buf + len ≤ k))
      → Spares keep w.eps
  still-Spares n buf len before w r apart = record {
    target = λ b. elim (r.target b) [
      | inl (at, size) ↦ inl (buf, at, λ k keeps. rw size (apart k keeps))
      | inr nothing ↦ inr nothing
    ];
    ofs = r.ofs;
    len_max = r.len_max;
    mps_max = r.mps_max;
    order = r.order;
  }

  pub out-IsSafe :
      (n : ℕ) (s : Dcd A)
      → IsSafe keep ram s
      → Returns (IsSafe keep ram) (ep_advance_xfer_out tu n s)
  unfolding ep_advance_xfer_out put_view put_state
  out-IsSafe n s h =
      let (buf, len, receives, apart) = out-view n s h in
      let (w, e, outside, after) = advance_out-frame tu n buf len (view n dir_out s) receives in
      rw e (record {
        out = λ k. elim (Bool-cases (k == n)) [
          | inl here ↦ rw here (still-Spares n buf len s.ram w after apart)
          | inr far ↦ rw far (h.out k)
        ];
        kept = λ k keeps. outside k (apart k keeps) ∙ h.kept k keeps;
      })

  -- A state with the same endpoints and the same memory is as safe.
  pub same-IsSafe :
      (s t : Dcd A) → t.ep ≡ s.ep → t.ram ≡ s.ram → IsSafe keep ram s → IsSafe keep ram t
  same-IsSafe s t ep mem h = record {
    out = λ n. rw ep (h.out n);
    kept = λ k keeps. rw mem (h.kept k keeps);
  }

  advance_busy-IsSafe :
      (d : Dir) (n : ℕ) (s : Dcd A)
      → IsSafe keep ram s
      → Returns (IsSafe keep ram) (advance_busy tu d n s)
  unfolding advance_busy
  advance_busy-IsSafe dir_in n s h =
      Returns-if (IsSafe keep ram) (s.ep n).inp.busy (ep_advance_xfer_in tu n s) (ok s)
        (λ busy. in-IsSafe n s h) (λ rests. h)
  advance_busy-IsSafe dir_out n s h =
      Returns-if (IsSafe keep ram) (s.ep n).out.busy (ep_advance_xfer_out tu n s) (ok s)
        (λ busy. out-IsSafe n s h) (λ rests. h)

  both-IsSafe :
      (n : ℕ) (s : Dcd A)
      → IsSafe keep ram s
      → Returns (IsSafe keep ram) (advance_busy tu dir_in n s >>= advance_busy tu dir_out n)
  both-IsSafe n s h =
      Returns-bind (IsSafe keep ram) (IsSafe keep ram) (advance_busy tu dir_in n s)
        (advance_busy tu dir_out n) (advance_busy-IsSafe dir_in n s h)
        (advance_busy-IsSafe dir_out n)

  take_setup-IsSafe : (s : Dcd A) → IsSafe keep ram s → IsSafe keep ram (take_setup tu s)
  unfolding take_setup
  take_setup-IsSafe s h = same-IsSafe s (take_setup tu s) refl refl h

  pub ep0_handle_setup-IsSafe :
      (s : Dcd A) → IsSafe keep ram s → Returns (IsSafe keep ram) (ep0_handle_setup tu s)
  unfolding ep0_handle_setup
  ep0_handle_setup-IsSafe s h =
      let P = IsSafe keep ram in
      let again = map_regs (set_setup_csr (bd_rdy_data 8)) s in
      Returns-if P (bd_state (setup_csr s.hw) == 0x8000) _ _
        (λ ready.
          Returns-bind P P (advance_busy tu dir_in 0 s >>= advance_busy tu dir_out 0)
            (λ t. ok (take_setup tu t)) (both-IsSafe 0 s h) take_setup-IsSafe)
        (λ other.
          Returns-if P (bd_state (setup_csr s.hw) == 0xa000) (ok again) (ok s)
            (λ bad. same-IsSafe s again refl refl h) (λ none_yet. h))

  poll_eps-IsSafe :
      (k n : ℕ) (s : Dcd A) → IsSafe keep ram s → Returns (IsSafe keep ram) (poll_eps tu k n s)
  unfolding poll_eps
  poll_eps-IsSafe zero n s h = h
  poll_eps-IsSafe (suc k) n s h =
      let P = IsSafe keep ram in
      Returns-bind P P (advance_busy tu dir_in n s) _ (advance_busy-IsSafe dir_in n s h) (λ t h'.
        Returns-bind P P (advance_busy tu dir_out n t) _ (advance_busy-IsSafe dir_out n t h')
          (poll_eps-IsSafe k (n + 1)))

  stall_if-IsSafe :
      (b : Bool) (s : Dcd A) → IsSafe keep ram s → IsSafe keep ram (if b then stall_ep0 s else s)
  unfolding stall_ep0
  stall_if-IsSafe true s h = same-IsSafe s (stall_ep0 s) refl refl h
  stall_if-IsSafe false s h = h

  pub full_poll-IsSafe :
      (s : Dcd A) → IsSafe keep ram s → Returns (IsSafe keep ram) (full_poll tu s)
  unfolding full_poll
  full_poll-IsSafe s h =
      let P = IsSafe keep ram in
      let t = if s.ep0_stall then stall_ep0 s else s in
      Returns-bind P P (poll_eps tu 16 0 t) (ep0_handle_setup tu)
        (poll_eps-IsSafe 16 0 t (stall_if-IsSafe s.ep0_stall s h)) ep0_handle_setup-IsSafe
