-- ===== src/Std/Select.antt =====
-- The requests for a configuration's state, against the list of its descriptors.
use no2usb.Base.{
  ℕ, ◌+◌, ◌%◌, ◌≤◌, ◌≡◌, ◌≢◌, refl, ap, ◌∙◌, true, false, Bool, ltb, List, [], ◌∷◌, ◌++◌, length,
  All, Option, none, some, ok, Returns, Option-cases, bind-never, inl, inr, arith,
}
use no2usb.Stack.{Usb, Req, ram, DrvId, success, ds_default}
use no2usb.Stack.Memory.{store, store_to, splice}
use no2usb.Desc.{Found, half_at, desc_find_intf}
use no2usb.Desc.Blob.{Desc, blob}
use no2usb.Desc.Intf.{IsComplete, search_intf, desc_find_intf-search_intf}
use no2usb.Driver.{Drv, dispatch_set_conf}
use no2usb.Device.{set_state}
use no2usb.Std.Status.{answer, get_status_intf}
use no2usb.Std.Config.{select_conf, set_configuration}

-- A selected configuration that is this list of descriptors.
pub record IsSelected {A : Type 0} (conf : List ℕ) (ds : List Desc) (s : Usb A) : Type 0 where
  pub selected : s.conf ≡ some conf
  pub rest : List ℕ
  pub stands : conf ≡ blob ds ++ rest
  pub total : half_at conf 2 ≡ ok (length (blob ds))
  pub whole : All IsComplete ds

-- The interface that a request is about, among the descriptors.
abbrev pub wanted_intf : List Desc → Req → Option ℕ
wanted_intf ds req = (search_intf 0 ds (req.w_index % 256) 0 none).intf

abbrev pub is_none : Option ℕ → Bool
is_none none = true
is_none (some _) = false

-- Without a given configuration the selected one is searched.
desc_find_intf-selected :
    (conf : List ℕ) (idx alt : ℕ) (alt0 : Option ℕ)
    → desc_find_intf none (some conf) idx alt alt0 ≡ desc_find_intf (some conf) none idx alt alt0
unfolding desc_find_intf
desc_find_intf-selected conf idx alt alt0 = refl

-- An answer of two bytes fits into the endpoint's buffer.
answer-fits :
    {A : Type 0} (s : Usb A)
    → s.xfer.bytes ≡ ram 0
    → 2 ≤ length (s.buffers 0)
    → Returns (λ r. r.0 ≡ true) (answer (0 ∷ 0 ∷ []) 2 s)
unfolding answer store store_to splice
answer-fits s buffer room =
    let fits : ltb (length (s.buffers 0)) (0 + 2) ≡ false = ground arith in rw (buffer, fits) refl

get_status_intf-found :
    {A : Type 0} (req : Req) (s : Usb A) (f : Found)
    → desc_find_intf none s.conf (req.w_index % 256) 0 none ≡ ok f
    → s.xfer.bytes ≡ ram 0
    → 2 ≤ length (s.buffers 0)
    → Returns (λ r. r.0 ≡ is_none f.intf) (get_status_intf req s)
unfolding get_status_intf
get_status_intf-found req s f found buffer room = elim (Option-cases f.intf) [
  | inl missing ↦ rw (found, missing) (answer-fits s buffer room)
  | inr (p, here) ↦ rw (found, here) refl
]

-- GET_STATUS of an interface is answered with success when the selected configuration has no
-- interface of that number, and with an error when it has one.
pub get_status_intf-is_none :
    {A : Type 0} (conf : List ℕ) (ds : List Desc) (req : Req) (s : Usb A)
    → IsSelected conf ds s
    → s.xfer.bytes ≡ ram 0
    → 2 ≤ length (s.buffers 0)
    → Returns (λ r. r.0 ≡ is_none (wanted_intf ds req)) (get_status_intf req s)
get_status_intf-is_none conf ds req s h buffer room =
    let found : desc_find_intf none s.conf (req.w_index % 256) 0 none
        ≡ ok (search_intf 0 ds (req.w_index % 256) 0 none) =
      ap (λ c. desc_find_intf none c (req.w_index % 256) 0 none) h.selected
      ∙ desc_find_intf-selected conf (req.w_index % 256) 0 none
      ∙ desc_find_intf-search_intf conf ds h.rest none (req.w_index % 256) 0 none h.stands h.total
          h.whole in
    get_status_intf-found req s (search_intf 0 ds (req.w_index % 256) 0 none) found buffer room

select_conf-none :
    {A : Type 0} (drv : DrvId → Drv A) (state : ℕ) (s : Usb A) (r : Bool × Usb A)
    → select_conf drv none state s ≢ ok r
unfolding select_conf
select_conf-none drv state s r =
    bind-never (set_state drv state (record s { conf = none; intf_alt = 0 })) _ r
      (λ t. bind-never (dispatch_set_conf drv t.conf success t.fnd t) _ r (λ told e. ground arith))

-- SET_CONFIGURATION with the value 0, which is to leave the configured state, never returns a
-- result, whatever the state of the stack and whatever the drivers do.
pub set_configuration-zero :
    {A : Type 0} (drv : DrvId → Drv A) (req : Req) (s : Usb A)
    → req.w_value ≡ 0
    → (r : Bool × Usb A) → set_configuration drv req s ≢ ok r
unfolding set_configuration
set_configuration-zero drv req s zero_value r = rw zero_value (select_conf-none drv ds_default s r)
