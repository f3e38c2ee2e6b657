-- ===== src/Std/Configured.antt =====
-- GET_CONFIGURATION on a device that has been configured.
use no2usb.Base.{
  ℕ, ◌+◌, ◌≤◌, ◌≡◌, refl, inl, inr, ◌==◌, ltb, Bool-cases, true, false, List, [], ◌∷◌, length, take,
  Option, some, ok, Returns, arith,
}
use no2usb.Stack.{Usb, Req, ram}
use no2usb.Stack.Memory.{store, store_to, splice}
use no2usb.Desc.{byte_at}
use no2usb.Desc.Blob.{Desc, byte_at-cases}
use no2usb.Std.Status.{answer}
use no2usb.Std.Config.{find_conf, get_configuration}
use no2usb.Std.Configure.{IsConfigured}

-- A configuration that is found has the value that was sought.
find_conf-value :
    (cs : List (List ℕ)) (v : ℕ) (c : List ℕ) → find_conf cs v ≡ ok (some c) → byte_at c 5 ≡ ok v
unfolding find_conf
find_conf-value [] v c e = ground arith
find_conf-value (d ∷ ds) v c e = elim (byte_at-cases d 5) [
  | inl (w, at) ↦ elim (Bool-cases (w == v)) [
    | inl hit ↦ ground (arith, at)
    | inr miss ↦ find_conf-value ds v c (rw (at, miss) at e)
  ]
  | inr out ↦ ground (arith, rw out at e)
]

-- An answer of one byte in the endpoint's buffer.
answer-byte :
    {A : Type 0} (v : ℕ) (s : Usb A) (conf : Option (List ℕ))
    → s.conf ≡ conf
    → s.xfer.bytes ≡ ram 0
    → 1 ≤ length (s.buffers 0)
    → Returns
        (λ r.
          (r.0 ≡ true) × (r.1.xfer.len ≡ 1) × (take 1 (r.1.buffers 0) ≡ v ∷ []) × (r.1.conf ≡ conf))
        (answer (v ∷ []) 1 s)
unfolding answer store store_to splice
answer-byte v s conf selected buffer room =
    let fits : ltb (length (s.buffers 0)) (0 + 1) ≡ false = ground arith in
    rw (buffer, fits) (refl, refl, refl, selected)

get_configuration_lem :
    {A : Type 0} (req : Req) (s : Usb A) (c : List ℕ) (v : ℕ)
    → s.conf ≡ some c
    → byte_at c 5 ≡ ok v
    → get_configuration req s ≡ answer (v ∷ []) 1 s
unfolding get_configuration
get_configuration_lem req s c v selected value = ground (arith, selected, value)

-- A device that is configured with the configuration that was found for the value `v` answers
-- GET_CONFIGURATION with the one byte `v`, and stays configured with it. The answer is written to
-- the control endpoint's buffer.
pub get_configuration-find_conf :
    {A : Type 0} (req : Req) (cs : List (List ℕ)) (v : ℕ) (c : List ℕ) (s : Usb A)
    → find_conf cs v ≡ ok (some c)
    → IsConfigured c s
    → s.xfer.bytes ≡ ram 0
    → 1 ≤ length (s.buffers 0)
    → Returns
        (λ r.
          (r.0 ≡ true)
          × (r.1.xfer.len ≡ 1)
          × (take 1 (r.1.buffers 0) ≡ v ∷ [])
          × (r.1.conf ≡ some c))
        (get_configuration req s)
get_configuration-find_conf req cs v c s found configured buffer room =
    rw (get_configuration_lem req s c v configured.0 (find_conf-value cs v c found))
      (answer-byte v s (some c) configured.0 buffer room)
