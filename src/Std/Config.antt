-- ===== src/Std/Config.antt =====
-- The requests that read descriptors and select a configuration or an interface:
-- fw/v0/src/usb_ctrl_std.c. `drv` is the table of the drivers' callbacks.
use no2usb.Base.{
  ℕ, zero, suc, ◌+◌, ◌%◌, ◌^◌, ◌==◌, ltb, if◌then◌else◌, Bool, true, false, bit_and, bit_or, List,
  [], ◌∷◌, get_elem?, Option, none, some, Run, ok, fault, spin, ◌>>=◌,
}
use no2usb.Stack.{
  Usb, Req, StackDesc, null, rom, Resp, continue, success, DrvId, ds_default, ds_configured,
}
use no2usb.Desc.{byte_at, half_at, dt_intf, intf_alternate, desc_find, desc_next, desc_find_intf}
use no2usb.Driver.{Drv, dispatch_set_conf, dispatch_set_intf, dispatch_get_intf}
use no2usb.Device.{set_state}
use no2usb.Std.Status.{answer}

-- A descriptor and how many bytes of it to send, from the field at an offset.
abbrev pub by_length : Option (List ℕ) → Run (Option (List ℕ × ℕ))
by_length none = ok none
by_length (some d) = byte_at d 0 >>= λ l. ok (some (d, l))

abbrev pub by_total : Option (List ℕ) → Run (Option (List ℕ × ℕ))
by_total none = ok none
by_total (some d) = half_at d 2 >>= λ l. ok (some (d, l))

-- The `switch` of `_get_descriptor`.
unfoldable pub pick_descriptor : StackDesc → (kind idx : ℕ) → Run (Option (List ℕ × ℕ))
unfolding byte_at half_at
pick_descriptor d kind idx =
    if kind == 0x0100
    then by_length (some d.dev)
    else if kind == 0x0200
    then by_total (get_elem? d.conf idx)
    else if kind == 0x0300
    then by_length (get_elem? d.str idx)
    else if kind == 0x0f00
    then by_total d.bos
    else ok none

-- The first configuration with this value.
unfoldable pub find_conf : List (List ℕ) → ℕ → Run (Option (List ℕ))
unfolding byte_at
find_conf [] value = ok none
find_conf (c ∷ cs) value =
    let rest = find_conf cs value in byte_at c 5 >>= λ v. if v == value then ok (some c) else rest

-- The value of the selected configuration, 0 for none.
abbrev pub selected_value : Option (List ℕ) → Run ℕ
selected_value none = ok 0
selected_value (some c) = byte_at c 5

-- `1 << idx` in an `int`, which a larger index makes undefined.
abbrev pub shift : ℕ → Run ℕ
shift idx = if ltb idx 32 then ok (2 ^ idx) else fault

module _ {A : Type 0} where
  -- `usb_desc_find_conf` of fw/v0/src/usb.c
  unfoldable pub desc_find_conf : ℕ → Usb A → Run (Option (List ℕ))
  unfolding find_conf
  desc_find_conf cfg_value s = find_conf s.stack_desc.conf cfg_value

  -- `_get_descriptor`
  unfoldable pub get_descriptor : Req → Usb A → Run (Bool × Usb A)
  unfolding pick_descriptor
  get_descriptor req s = do
    picked ← pick_descriptor s.stack_desc (bit_and req.w_value 0xff00) (bit_and req.w_value 0xff)
    elim picked [
      | none ↦ ok (false, record s { xfer = record (s.xfer) { bytes = null } })
      | some found ↦
          ok (true, record s { xfer = record (s.xfer) { bytes = rom found.0; len = found.1 } })
    ]

  -- `_get_configuration`
  unfoldable pub get_configuration : Req → Usb A → Run (Bool × Usb A)
  unfolding answer byte_at
  get_configuration req s = selected_value s.conf >>= λ v. answer (v ∷ []) 1 s

  -- The driver's answer to `_get_interface`.
  abbrev pub answer_alt : Resp × ℕ × Usb A → Run (Bool × Usb A)
  answer_alt (success, alt, s) = answer (alt ∷ []) 1 s
  answer_alt (_, alt, s) = ok (false, s)

  -- A setting other than 0 takes the interface off the fast path of `_get_interface`.
  abbrev pub mark_alt : ℕ → ℕ → Resp × Usb A → Run (Bool × Usb A)
  mark_alt idx alt (success, s) =
      let marked =
        (shift idx >>= λ bit. ok (true, record s { intf_alt = bit_or s.intf_alt bit })) in
      if alt == 0 then ok (true, s) else marked
  mark_alt idx alt (_, s) = ok (false, s)

  module _ (drv : DrvId → Drv A) where
    -- The implicit selection of setting 0 of all interfaces. The chain's answers are not looked at.
    unfoldable pub set_intfs_loop : ℕ → List ℕ → (sod eod : ℕ) → Usb A → Run (Usb A)
    unfolding desc_find desc_next byte_at dispatch_set_intf
    set_intfs_loop zero conf sod eod s = spin
    set_intfs_loop (suc f) conf sod eod s = do
      at ← desc_find conf sod eod dt_intf
      elim at [
        | none ↦ ok s
        | some p ↦ do
          a ← intf_alternate conf p
          let told = dispatch_set_intf drv (some p) p s.fnd s
          r ← (if a == 0 then told else ok (continue, s))
          next ← desc_next conf p
          set_intfs_loop f conf next eod r.1
      ]

    -- `_set_configuration` behind the choice. A null `conf` is followed.
    unfoldable pub select_conf : Option (List ℕ) → ℕ → Usb A → Run (Bool × Usb A)
    unfolding set_state dispatch_set_conf half_at set_intfs_loop
    select_conf conf new_state s = do
      t ← set_state drv new_state (record s { conf = conf; intf_alt = 0 })
      told ← dispatch_set_conf drv t.conf success t.fnd t
      elim conf [
        | none ↦ fault
        | some c ↦ do
          total ← half_at c 2
          u ← set_intfs_loop (total + 1) c 0 total told.1
          ok (true, u)
      ]

    -- `_set_configuration`
    unfoldable pub set_configuration : Req → Usb A → Run (Bool × Usb A)
    unfolding find_conf select_conf
    set_configuration req s =
        if req.w_value == 0
        then select_conf none ds_default s
        else (find_conf s.stack_desc.conf req.w_value >>= λ conf. elim conf [
          | none ↦ ok (false, s)
          | some c ↦ select_conf (some c) ds_configured s
        ])

    -- `_get_interface`
    unfoldable pub get_interface : Req → Usb A → Run (Bool × Usb A)
    unfolding answer dispatch_get_intf desc_find_intf
    get_interface req s = do
      found ← desc_find_intf none s.conf (req.w_index % 256) 0 none
      elim (found.intf) [
        | none ↦ ok (false, s)
        | some p ↦ do
          bit ← shift (req.w_index % 256)
          if bit_and s.intf_alt bit == 0
              then answer (0 ∷ []) 1 s
              else (dispatch_get_intf drv p s.fnd 0 s >>= answer_alt)
      ]

    -- `_set_interface`. A base interface that was not found is not set in the source; it is `none`.
    unfoldable pub set_interface : Req → Usb A → Run (Bool × Usb A)
    unfolding dispatch_set_intf desc_find_intf
    set_interface req s = do
      found ← desc_find_intf none s.conf (req.w_index % 256) (req.w_value % 256) none
      elim (found.intf) [
        | none ↦ ok (false, s)
        | some p ↦
            (dispatch_set_intf drv found.alt0 p s.fnd s
              >>= mark_alt (req.w_index % 256) (req.w_value % 256))
      ]
