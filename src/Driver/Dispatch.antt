-- ===== src/Driver/Dispatch.antt =====
-- Who answers: the walks along the driver chain of fw/v0/src/usb.c.
use no2usb.Base.{
  ℕ, ◌≡◌, refl, ap, ◌≢◌, Bool, ◌||◌, true, false, if◌then◌else◌, List, [], ◌∷◌, ◌++◌, Option, Run,
  ok,
}
use no2usb.Stack.{Usb, Req, Resp, continue, success, error, DrvId}
use no2usb.Driver.{Drv, ctrl_req_of, set_conf_of, is_error, dispatch_ctrl_req, dispatch_set_conf}

abbrev pub any_error : List Resp → Bool
any_error [] = false
any_error (r ∷ rs) = is_error r || any_error rs

error_first :
    (r : Resp) (later : Bool) (rv : Resp)
    → (if later then error else (if is_error r then error else rv))
      ≡ (if is_error r || later then error else rv)
error_first continue later rv = refl
error_first success later rv = refl
error_first error true rv = refl
error_first error false rv = refl

module _ {A : Type 0} (drv : DrvId → Drv A) where
  -- The drivers, asked in this order, all pass the question on, and leave the last state behind.
  pub data Pass (ask : DrvId → Usb A → Run (Resp × Usb A))
      : List DrvId → Usb A → Usb A → Type 0 where
    nobody : {s : Usb A} → Pass ask [] s s
    passed :
        {d : DrvId} {ds : List DrvId} {s t u : Usb A}
        → ask d s ≡ ok (continue, t)
        → Pass ask ds t u
        → Pass ask (d ∷ ds) s u

  -- A request goes to the drivers in order until one answers: behind drivers that pass, the next
  -- driver's answer, if it is success or an error, is the chain's and no driver behind it is asked.
  pub dispatch_ctrl_req-first :
      (req : Req) (ds : List DrvId) (d : DrvId) (behind : List DrvId) (s t u : Usb A)
      (answer : Resp)
      → Pass (λ p. ctrl_req_of (drv p) req) ds s t
      → ctrl_req_of (drv d) req t ≡ ok (answer, u)
      → answer ≢ continue
      → dispatch_ctrl_req drv req (ds ++ d ∷ behind) s ≡ ok (answer, u)
  unfolding dispatch_ctrl_req
  dispatch_ctrl_req-first req [] d behind s _ u continue nobody says final = absurd (final refl)
  dispatch_ctrl_req-first req [] d behind s _ u success nobody says final = rw says
  dispatch_ctrl_req-first req [] d behind s _ u error nobody says final = rw says
  dispatch_ctrl_req-first req (p ∷ ds) d behind s u v answer (passed says rest) last final =
      rw says (dispatch_ctrl_req-first req ds d behind _ u v answer rest last final)

  -- The drivers are told of the configuration in order, and answer with these.
  pub data Told (desc : Option (List ℕ)) : List DrvId → Usb A → List Resp → Usb A → Type 0 where
    nobody : {s : Usb A} → Told desc [] s [] s
    told :
        {d : DrvId} {ds : List DrvId} {s t u : Usb A} {r : Resp} {rs : List Resp}
        → set_conf_of (drv d) desc s ≡ ok (r, t)
        → Told desc ds t rs u
        → Told desc (d ∷ ds) s (r ∷ rs) u

  dispatch_set_conf-from :
      (desc : Option (List ℕ)) (ds : List DrvId) (s t : Usb A) (rs : List Resp) (rv : Resp)
      → Told desc ds s rs t
      → dispatch_set_conf drv desc rv ds s ≡ ok (if any_error rs then error else rv, t)
  unfolding dispatch_set_conf
  dispatch_set_conf-from desc [] s _ [] rv nobody = refl
  dispatch_set_conf-from desc [] s u (r ∷ rs) rv h = elim h [ ]
  dispatch_set_conf-from desc (d ∷ ds) s u [] rv h = elim h [ ]
  dispatch_set_conf-from desc (d ∷ ds) s u (r ∷ rs) rv (told says rest) =
      rw (says, dispatch_set_conf-from desc ds _ u rs (if is_error r then error else rv) rest)
        (ap (λ x. ok (x, u)) (error_first r (any_error rs) rv))

  -- All drivers are told of a new configuration, whatever the drivers before them answer, and the
  -- chain's answer is an error if some driver's is, and success otherwise.
  pub dispatch_set_conf-Told :
      (desc : Option (List ℕ)) (ds : List DrvId) (s t : Usb A) (rs : List Resp)
      → Told desc ds s rs t
      → dispatch_set_conf drv desc success ds s ≡ ok (if any_error rs then error else success, t)
  dispatch_set_conf-Told desc ds s t rs all = dispatch_set_conf-from desc ds s t rs success all
