-- ===== src/Dcd/Started.antt =====
-- Endpoints of the port that are opened, and transfers that are started: `dcd_edpt_open` and
-- `dcd_edpt_xfer` of fw/tinyusb/dcd_no2usb.c keep the bytes that are not to be written.
use no2usb.Base.{
  ℕ, ◌<◌, ◌^◌, ◌≡◌, ◌==◌, refl, Bool, Bool-cases, inl, inr, if◌then◌else◌, Option, ok, Returns,
  Returns-bind, arith,
}
use no2usb.Hw.{ep_type_bulk}
use no2usb.Dcd.State.{Dir, dir_out, dir_in, DcdEp, Dcd, TinyUsb, Config, put_state, ep_state}
use no2usb.Dcd.Device.{hw_buf_alloc, dcd_int_enable, dcd_int_disable}
use no2usb.Dcd.Endpoint.{opened_state, open_typed, start_xfer, bootstrap, submit}
use no2usb.Dcd.Safe.{SparesBytes, Spares, IsSafe, same-IsSafe, in-IsSafe, out-IsSafe}

module _ {A : Type 0} (tu : TinyUsb A) (keep : ℕ → Type 0) (ram : ℕ → ℕ) where
  put_state-IsSafe :
      (n : ℕ) (d : Dir) (e : DcdEp) (s : Dcd A)
      → (d ≡ dir_out → Spares keep e)
      → IsSafe keep ram s
      → IsSafe keep ram (put_state n d e s)
  unfolding put_state
  put_state-IsSafe n dir_out e s spares h = record {
    out = λ k. elim (Bool-cases (k == n)) [
      | inl here ↦ rw here (spares refl)
      | inr far ↦ rw far (h.out k)
    ];
    kept = h.kept;
  }
  put_state-IsSafe n dir_in e s spares h = record {
    out = λ k. elim (Bool-cases (k == n)) [
      | inl here ↦ rw here (h.out n)
      | inr far ↦ rw far (h.out k)
    ];
    kept = h.kept;
  }

  hw_buf_alloc-IsSafe :
      (d : Dir) (mps : ℕ) (s : Dcd A) → IsSafe keep ram s → IsSafe keep ram (hw_buf_alloc d mps s).1
  unfolding hw_buf_alloc
  hw_buf_alloc-IsSafe dir_out mps s h = record { out = h.out; kept = h.kept }
  hw_buf_alloc-IsSafe dir_in mps s h = record { out = h.out; kept = h.kept }

  opened_state-Spares : (mps : ℕ) (dual : Bool) → mps < 1024 → Spares keep (opened_state mps dual)
  unfolding opened_state
  opened_state-Spares mps dual max = record {
    target = λ b. cc b;
    ofs = omega arith;
    len_max = omega arith;
    mps_max = max;
    order = λ d. refl;
  }

  pub open_typed-IsSafe :
      (n : ℕ) (d : Dir) (type mps : ℕ) (s : Dcd A)
      → mps < 1024
      → IsSafe keep ram s
      → IsSafe keep ram (open_typed n d type mps s)
  unfolding open_typed
  open_typed-IsSafe n d type mps s max h =
      let dual = type == ep_type_bulk in
      let t = (hw_buf_alloc d mps s).1 in
      let one = hw_buf_alloc-IsSafe d mps s h in
      let u = (if dual then hw_buf_alloc d mps t else (0, t)).1 in
      let both : IsSafe keep ram u = elim (Bool-cases dual) [
        | inl yes_dual ↦ rw yes_dual (hw_buf_alloc-IsSafe d mps t one)
        | inr single ↦ rw single one
      ] in
      let e = opened_state mps dual in
      same-IsSafe tu keep ram (put_state n d e u) _ refl refl
        (put_state-IsSafe n d e u (λ o. opened_state-Spares mps dual max) both)

  start_xfer-Spares :
      (buffer : Option ℕ) (len : ℕ) (e : DcdEp)
      → len < 2 ^ 16
      → SparesBytes keep buffer len
      → Spares keep e
      → Spares keep (start_xfer buffer len e)
  start_xfer-Spares buffer len e max spares h = record {
    target = λ b. spares;
    ofs = omega arith;
    len_max = max;
    mps_max = h.mps_max;
    order = h.order;
  }

  bootstrap-IsSafe :
      (n : ℕ) (d : Dir) (s : Dcd A)
      → IsSafe keep ram s
      → Returns (IsSafe keep ram) (bootstrap tu n d s)
  bootstrap-IsSafe n dir_out s h = out-IsSafe tu keep ram n s h
  bootstrap-IsSafe n dir_in s h = in-IsSafe tu keep ram n s h

  starts :
      (buffer : Option ℕ) (len n : ℕ) (d : Dir) (s : Dcd A)
      → len < 2 ^ 16
      → (d ≡ dir_out → SparesBytes keep buffer len)
      → IsSafe keep ram s
      → d ≡ dir_out
      → Spares keep (start_xfer buffer len (ep_state n d s))
  starts buffer len n dir_out s max spares h o =
      start_xfer-Spares buffer len (s.ep n).out max (spares refl) (h.out n)
  starts buffer len n dir_in s max spares h o = cc o

  pub submit-IsSafe :
      (c : Config) (buffer : Option ℕ) (len n : ℕ) (d : Dir) (s : Dcd A)
      → len < 2 ^ 16
      → (d ≡ dir_out → SparesBytes keep buffer len)
      → IsSafe keep ram s
      → Returns (IsSafe keep ram) (submit tu c buffer len n d s)
  unfolding submit dcd_int_disable dcd_int_enable
  submit-IsSafe c buffer len n d s max spares h =
      let P = IsSafe keep ram in
      let t = dcd_int_disable s in
      let off = same-IsSafe tu keep ram s t refl refl h in
      let u = put_state n d (start_xfer buffer len (ep_state n d t)) t in
      Returns-bind P P (bootstrap tu n d u) (λ v. ok (dcd_int_enable c v))
        (bootstrap-IsSafe n d u (
          put_state-IsSafe n d (start_xfer buffer len (ep_state n d t)) t
            (starts buffer len n d t max spares off) off))
        (λ v h'. same-IsSafe tu keep ram v (dcd_int_enable c v) refl refl h')
