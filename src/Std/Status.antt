-- ===== src/Std/Status.antt =====
-- The requests that read and change a feature: fw/v0/src/usb_ctrl_std.c.
use no2usb.Base.{
  ℕ, ◌%◌, ◌==◌, ltb, if◌then◌else◌, Bool, true, false, not, ◌||◌, List, [], ◌∷◌, none, some, Run,
  ok, ◌>>=◌,
}
use no2usb.Stack.{Usb, Req, ds_configured, set_addr_done}
use no2usb.Stack.Memory.{store}
use no2usb.Desc.{desc_find_intf}
use no2usb.Ep.{ep_is_configured, ep_is_halted, ep_halt, ep_resume}
use no2usb.Device.{get_state}

module _ {A : Type 0} where
  -- `xfer->len = n;`
  abbrev pub set_len : ℕ → Usb A → Usb A
  set_len n s = record s { xfer = record (s.xfer) { len = n } }

  -- The answer is these bytes: they are written to the transfer's buffer, and its length is set.
  unfoldable pub answer : List ℕ → ℕ → Usb A → Run (Bool × Usb A)
  unfolding store
  answer bs n s = store s.xfer.bytes 0 bs s >>= λ t. ok (true, set_len n t)

  -- `_get_status_dev`
  unfoldable pub get_status_dev : Req → Usb A → Run (Bool × Usb A)
  unfolding answer
  get_status_dev req s = answer (0 ∷ 0 ∷ []) 2 s

  -- `_get_status_intf`
  unfoldable pub get_status_intf : Req → Usb A → Run (Bool × Usb A)
  unfolding answer desc_find_intf
  get_status_intf req s = do
    found ← desc_find_intf none s.conf (req.w_index % 256) 0 none
    elim (found.intf) [ none ↦ answer (0 ∷ 0 ∷ []) 2 s | some _ ↦ ok (false, s) ]

  -- `_get_status_ep`
  unfoldable pub get_status_ep : Req → Usb A → Run (Bool × Usb A)
  unfolding answer ep_is_configured ep_is_halted
  get_status_ep req s =
      let ep = req.w_index % 256 in
      if ep_is_configured ep s.hw
      then answer ((if ep_is_halted ep s.hw then 1 else 0) ∷ 0 ∷ []) 2 s
      else ok (false, s)

  -- `_clear_feature_dev`, `_clear_feature_intf`, `_set_feature_dev` and `_set_feature_intf`
  abbrev pub no_feature : Req → Usb A → Run (Bool × Usb A)
  no_feature req s = ok (false, s)

  -- What keeps a feature of an endpoint from being changed.
  unfoldable pub refuses_feature_ep : Req → Usb A → Bool
  unfolding ep_is_configured get_state
  refuses_feature_ep req s =
      let ep = req.w_index % 256 in
      ltb (get_state s) ds_configured
      || not (req.w_value == 0)
      || (ep == 0)
      || not (ep_is_configured ep s.hw)

  -- `_clear_feature_ep`
  unfoldable pub clear_feature_ep : Req → Usb A → Run (Bool × Usb A)
  unfolding refuses_feature_ep ep_resume
  clear_feature_ep req s =
      let (done, hw) = ep_resume (req.w_index % 256) s.hw in
      if refuses_feature_ep req s then ok (false, s) else ok (done, record s { hw = hw })

  -- `_set_feature_ep`
  unfoldable pub set_feature_ep : Req → Usb A → Run (Bool × Usb A)
  unfolding refuses_feature_ep ep_halt
  set_feature_ep req s =
      let (done, hw) = ep_halt (req.w_index % 256) s.hw in
      if refuses_feature_ep req s then ok (false, s) else ok (done, record s { hw = hw })

  -- `_set_address`: the address is set by `_set_addr_done` when the request is complete.
  unfoldable pub set_address_req : Req → Usb A → Run (Bool × Usb A)
  set_address_req req s =
      ok (true, record s { xfer = record (s.xfer) { len = 0; cb_done = set_addr_done } })
