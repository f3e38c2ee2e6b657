-- ===== src/Desc/Intf.antt =====
-- `usb_desc_find_intf` against the list of descriptors.
use no2usb.Base.{
  ℕ, zero, suc, ◌+◌, ◌≤◌, ◌<◌, ◌≡◌, refl, ◌∙◌, inl, inr, ◌&&◌, ◌==◌, if◌then◌else◌, Bool-cases,
  List, [], ◌∷◌, ◌++◌, Option, none, some, length, length-append, get_elem?, drop, All, Run, ok,
  arith,
}
use mathlib.Core.List.{append_assoc}
use no2usb.Desc.{byte_at, half_at, Found, intf_round, find_intf_loop, desc_find_intf, dt_intf}
use no2usb.Desc.Blob.{
  Desc, size, bytes, blob, first_of_type, byte_at-drop, drop-size, desc_next_lem,
}
use no2usb.Desc.Find.{desc_find-blob_end}

abbrev byte_or_zero : List ℕ → ℕ → ℕ
byte_or_zero xs i = elim (get_elem? xs i) [ none ↦ 0 | some b ↦ b ]

-- Byte `i` behind the header, 0 if the descriptor is shorter.
abbrev pub body_byte : Desc → ℕ → ℕ
body_byte d i = byte_or_zero d.body i

-- An interface descriptor has its number and its alternate setting.
abbrev pub IsComplete : Desc → Type 0
IsComplete d = d.dtype ≡ dt_intf → 2 ≤ length d.body

-- The interface descriptor with this number and this alternate setting, and the last one with this
-- number and setting 0 that was passed on the way or is the one found.
unfoldable pub search_intf : ℕ → List Desc → (idx alt : ℕ) → Option ℕ → Found
search_intf at [] idx alt alt0 = record { intf = none; alt0 = alt0 }
search_intf at (d ∷ ds) idx alt alt0 =
    let mine = d.dtype == dt_intf && body_byte d 0 == idx in
    let seen = if mine && body_byte d 1 == 0 then some at else alt0 in
    let later = search_intf (at + size d) ds idx alt seen in
    if mine && body_byte d 1 == alt then record { intf = some at; alt0 = seen } else later

front_bytes :
    (xs ys : List ℕ)
    → 2 ≤ length xs
    → (get_elem? (xs ++ ys) 0 ≡ some (byte_or_zero xs 0))
      × (get_elem? (xs ++ ys) 1 ≡ some (byte_or_zero xs 1))
front_bytes [] ys h = absurd (omega arith)
front_bytes (x ∷ []) ys h = absurd (omega arith)
front_bytes (x ∷ y ∷ xs) ys h = (refl, refl)

module _ (mem : List ℕ) (at : ℕ) (d : Desc) (rest : List ℕ)
    (stands : drop at mem ≡ bytes d ++ rest) where
  pub fields :
      2 ≤ length d.body
      → (byte_at mem (at + 2) ≡ ok (body_byte d 0)) × (byte_at mem (at + 3) ≡ ok (body_byte d 1))
  fields long =
      let (number, alternate) = front_bytes d.body rest long in
      (
        byte_at-drop mem at 2 (body_byte d 0) (rw stands number),
        byte_at-drop mem at 3 (body_byte d 1) (rw stands alternate),
      )

  -- A round at an interface descriptor reads its two fields, and stops or moves on.
  intf_round_lem :
      (again : List ℕ → (sod eod idx alt : ℕ) → Option ℕ → Run Found) (eod idx alt : ℕ)
      (alt0 : Option ℕ)
      → 2 ≤ length d.body
      → intf_round again mem eod idx alt alt0 (some at) ≡ (
          let seen = if body_byte d 0 == idx && body_byte d 1 == 0 then some at else alt0 in
          if body_byte d 0 == idx && body_byte d 1 == alt
          then ok (record { intf = some at; alt0 = seen })
          else again mem (at + size d) eod idx alt seen)
  unfolding intf_round
  intf_round_lem again eod idx alt alt0 long =
      let (number, alternate) = fields long in
      rw (number, alternate, desc_next_lem mem at d rest stands)

find_intf_loop-blob :
    (ds : List Desc) (f : ℕ) (mem : List ℕ) (at eod idx alt : ℕ) (alt0 : Option ℕ) (rest : List ℕ)
    → All IsComplete ds
    → drop at mem ≡ blob ds ++ rest
    → eod ≡ at + length (blob ds)
    → length (blob ds) < f
    → find_intf_loop f mem at eod idx alt alt0 ≡ ok (search_intf at ds idx alt alt0)
unfolding find_intf_loop search_intf first_of_type
find_intf_loop-blob ds zero mem at eod idx alt alt0 rest whole stands end fuel = elim fuel [ ]
find_intf_loop-blob [] (suc f) mem at eod idx alt alt0 rest whole stands end fuel =
    rw (desc_find-blob_end mem at eod dt_intf [] rest stands end) (unfold intf_round in refl)
find_intf_loop-blob (d ∷ ds) (suc f) mem at eod idx alt alt0 rest whole stands end fuel =
    let here : drop at mem ≡ bytes d ++ (blob ds ++ rest) =
      stands ∙ append_assoc (bytes d) (blob ds) rest in
    let found = desc_find-blob_end mem at eod dt_intf (d ∷ ds) rest stands end in
    let next = drop-size mem at d (blob ds ++ rest) here in
    let behind : eod ≡ at + size d + length (blob ds) =
      omega (arith, length-append (bytes d) (blob ds)) in
    let shorter : length (blob ds) < f = omega (arith, length-append (bytes d) (blob ds)) in
    elim (Bool-cases (d.dtype == dt_intf)) [
      | inl hit ↦
          let seen = if body_byte d 0 == idx && body_byte d 1 == 0 then some at else alt0 in
          rw
            (
              found,
              hit,
              intf_round_lem mem at d (blob ds ++ rest) here (find_intf_loop f) eod idx alt alt0
                  (whole.0 (ground arith)),
            )
            (ground (
              arith,
              find_intf_loop-blob ds f mem (at + size d) eod idx alt seen rest whole.1 next behind
                  shorter,
            ))
      | inr miss ↦
          let later =
            find_intf_loop-blob ds (suc f) mem (at + size d) eod idx alt alt0 rest whole.1 next
              behind (omega arith) in
          rw (found, miss)
            (rw (desc_find-blob_end mem (at + size d) eod dt_intf ds rest next behind) at later)
    ]

-- On a configuration that is a list of descriptors, with its total length in bytes 2 and 3 and its
-- interface descriptors not cut short, `usb_desc_find_intf` finds the first interface with the
-- number and the alternate setting, and reports in `alt0` the last one of that number with setting
-- 0 up to there; it always ends.
pub desc_find_intf-search_intf :
    (conf : List ℕ) (ds : List Desc) (rest : List ℕ) (selected : Option (List ℕ)) (idx alt : ℕ)
    (alt0 : Option ℕ)
    → conf ≡ blob ds ++ rest
    → half_at conf 2 ≡ ok (length (blob ds))
    → All IsComplete ds
    → desc_find_intf (some conf) selected idx alt alt0 ≡ ok (search_intf 0 ds idx alt alt0)
unfolding desc_find_intf
desc_find_intf-search_intf conf ds rest selected idx alt alt0 stands total whole = rw (
  total,
  find_intf_loop-blob ds (length (blob ds) + 1) conf 0 (length (blob ds)) idx alt alt0 rest whole
      stands (omega arith) (omega arith),
)
