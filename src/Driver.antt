-- ===== src/Driver.antt =====
-- The chain of function drivers: `struct usb_fn_drv` of fw/v0/include/no2usb/usb.h, the dispatch of
-- events and requests to it, and the calls that add and remove a driver, of fw/v0/src/usb.c.
-- The chain is a list, first driver first, and callbacks are taken to leave it as it is.
pub mod Dispatch
pub mod Chain
use mathlib.Core.Option
use no2usb.Base.{
  ℕ, ◌==◌, if◌then◌else◌, Bool, true, false, List, [], ◌∷◌, Option, none, some, Run, ok, fault,
  ◌>>=◌,
}
use no2usb.Stack.{Usb, Req, Resp, continue, success, error, DrvId, ctrl_std, fn}

-- A driver's callbacks, those that are not `NULL`. A configuration is given by its bytes, and an
-- interface by its offset in the selected configuration; the base interface of a selection may be
-- missing. `get_intf` answers with the alternate setting.
pub record Drv (A : Type 0) : Type 0 where
  pub sof : Option (Usb A → Run (Usb A))
  pub bus_reset : Option (Usb A → Run (Usb A))
  pub state_chg : Option (ℕ → Usb A → Run (Usb A))
  pub ctrl_req : Option (Req → Usb A → Run (Resp × Usb A))
  pub set_conf : Option (Option (List ℕ) → Usb A → Run (Resp × Usb A))
  pub set_intf : Option (Option ℕ → ℕ → Usb A → Run (Resp × Usb A))
  pub get_intf : Option (ℕ → Usb A → Run (Resp × ℕ × Usb A))

abbrev pub no_drv : {A : Type 0} → Drv A
no_drv = record {
  sof = none;
  bus_reset = none;
  state_chg = none;
  ctrl_req = none;
  set_conf = none;
  set_intf = none;
  get_intf = none;
}

abbrev pub same_drv : DrvId → DrvId → Bool
same_drv ctrl_std ctrl_std = true
same_drv (fn n) (fn m) = n == m
same_drv _ _ = false

-- `usb_register_function_driver`
unfoldable pub register_function_driver : {A : Type 0} → DrvId → Usb A → Usb A
register_function_driver drv s = record s { fnd = drv ∷ s.fnd }

-- The loop of `usb_unregister_function_driver`. The step `p = &(*p)->next->next` passes over the
-- driver behind the one that was compared, and follows `NULL` when there is none.
unfoldable pub unlink : DrvId → List DrvId → Run (List DrvId)
unlink drv [] = ok []
unlink drv (x ∷ []) = if same_drv x drv then ok [] else fault
unlink drv (x ∷ y ∷ xs) =
    let rest = (unlink drv xs >>= λ zs. ok (x ∷ y ∷ zs)) in
    if same_drv x drv then ok (y ∷ xs) else rest

unfoldable pub unregister_function_driver : {A : Type 0} → DrvId → Usb A → Run (Usb A)
unregister_function_driver drv s = unlink drv s.fnd >>= λ chain. ok (record s { fnd = chain })

abbrev pub is_error : Resp → Bool
is_error error = true
is_error _ = false

module _ {A : Type 0} where
  -- `if (p->cb) p->cb();`
  abbrev pub call : Option (Usb A → Run (Usb A)) → Usb A → Run (Usb A)
  call none s = ok s
  call (some f) s = f s

  abbrev pub call_with : Option (ℕ → Usb A → Run (Usb A)) → ℕ → Usb A → Run (Usb A)
  call_with none n s = ok s
  call_with (some f) n s = f n s

  -- The answer of a driver, `continue` when it has no callback.
  abbrev pub ask : Option (Usb A → Run (Resp × Usb A)) → Usb A → Run (Resp × Usb A)
  ask none s = ok (continue, s)
  ask (some f) s = f s

  -- The first answer that is not `continue` ends the walk.
  abbrev pub or_next : Resp × Usb A → (Usb A → Run (Resp × Usb A)) → Run (Resp × Usb A)
  or_next (continue, s) next = next s
  or_next (success, s) next = ok (success, s)
  or_next (error, s) next = ok (error, s)

  abbrev pub ctrl_req_of : Drv A → Req → Usb A → Run (Resp × Usb A)
  ctrl_req_of d req = ask (Option.map (λ f. f req) d.ctrl_req)

  abbrev pub set_conf_of : Drv A → Option (List ℕ) → Usb A → Run (Resp × Usb A)
  set_conf_of d desc = ask (Option.map (λ f. f desc) d.set_conf)

  abbrev pub set_intf_of : Drv A → Option ℕ → ℕ → Usb A → Run (Resp × Usb A)
  set_intf_of d base sel = ask (Option.map (λ f. f base sel) d.set_intf)

  abbrev or_next_get :
      Resp × ℕ × Usb A → (ℕ → Usb A → Run (Resp × ℕ × Usb A)) → Run (Resp × ℕ × Usb A)
  or_next_get (continue, alt, s) next = next alt s
  or_next_get (success, alt, s) next = ok (success, alt, s)
  or_next_get (error, alt, s) next = ok (error, alt, s)

  -- `alt` is what `*sel` holds so far.
  abbrev get_intf_of :
      Option (ℕ → Usb A → Run (Resp × ℕ × Usb A)) → ℕ → ℕ → Usb A → Run (Resp × ℕ × Usb A)
  get_intf_of none base alt s = ok (continue, alt, s)
  get_intf_of (some f) base alt s = f base s

module _ {A : Type 0} (drv : DrvId → Drv A) where
  unfoldable pub dispatch_sof : List DrvId → Usb A → Run (Usb A)
  dispatch_sof [] s = ok s
  dispatch_sof (p ∷ ps) s = call (drv p).sof s >>= dispatch_sof ps

  unfoldable pub dispatch_bus_reset : List DrvId → Usb A → Run (Usb A)
  dispatch_bus_reset [] s = ok s
  dispatch_bus_reset (p ∷ ps) s = call (drv p).bus_reset s >>= dispatch_bus_reset ps

  unfoldable pub dispatch_state_chg : ℕ → List DrvId → Usb A → Run (Usb A)
  dispatch_state_chg state [] s = ok s
  dispatch_state_chg state (p ∷ ps) s =
      call_with (drv p).state_chg state s >>= dispatch_state_chg state ps

  unfoldable pub dispatch_ctrl_req : Req → List DrvId → Usb A → Run (Resp × Usb A)
  dispatch_ctrl_req req [] s = ok (continue, s)
  dispatch_ctrl_req req (p ∷ ps) s =
      ctrl_req_of (drv p) req s >>= λ r. or_next r (dispatch_ctrl_req req ps)

  -- Every driver is told, and an error is remembered.
  unfoldable pub dispatch_set_conf :
      Option (List ℕ) → Resp → List DrvId → Usb A → Run (Resp × Usb A)
  dispatch_set_conf desc rv [] s = ok (rv, s)
  dispatch_set_conf desc rv (p ∷ ps) s = set_conf_of (drv p) desc s >>= λ r.
      dispatch_set_conf desc (if is_error r.0 then error else rv) ps r.1

  unfoldable pub dispatch_set_intf : Option ℕ → ℕ → List DrvId → Usb A → Run (Resp × Usb A)
  dispatch_set_intf base sel [] s = ok (continue, s)
  dispatch_set_intf base sel (p ∷ ps) s =
      set_intf_of (drv p) base sel s >>= λ r. or_next r (dispatch_set_intf base sel ps)

  unfoldable pub dispatch_get_intf : ℕ → List DrvId → ℕ → Usb A → Run (Resp × ℕ × Usb A)
  dispatch_get_intf base [] alt s = ok (continue, alt, s)
  dispatch_get_intf base (p ∷ ps) alt s =
      get_intf_of (drv p).get_intf base alt s >>= λ r. or_next_get r (dispatch_get_intf base ps)
