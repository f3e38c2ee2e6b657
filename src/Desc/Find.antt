-- ===== src/Desc/Find.antt =====
-- `usb_desc_find` against the list of descriptors, its termination, and what a descriptor of
-- length 0 does to it.
use no2usb.Base.{
  ℕ, zero, suc, ◌+◌, ◌-◌, ◌≤◌, ◌<◌, ◌≡◌, refl, ◌∙◌, inl, inr, true, false, leb, ◌==◌, Bool-cases,
  List, [], ◌∷◌, ◌++◌, length, length-append, drop, All, ok, spin, arith,
}
use mathlib.Core.List.{append_assoc}
use no2usb.Desc.{byte_at, desc_find_loop, desc_find}
use no2usb.Desc.Blob.{
  Desc, size, bytes, blob, first_of_type, length_byte, type_byte, drop-size, byte_at-drop,
  byte_at-cases,
}

desc_find_loop-blob :
    (f : ℕ) (mem : List ℕ) (at eod dt : ℕ) (ds : List Desc) (rest : List ℕ)
    → drop at mem ≡ blob ds ++ rest
    → eod ≡ at + length (blob ds)
    → length (blob ds) < f
    → desc_find_loop f mem at eod dt ≡ ok (first_of_type at ds dt)
unfolding desc_find_loop first_of_type
desc_find_loop-blob zero mem at eod dt ds rest stands end fuel = elim fuel [ ]
desc_find_loop-blob (suc f) mem at eod dt [] rest stands end fuel = ground arith
desc_find_loop-blob (suc f) mem at eod dt (d ∷ ds) rest stands end fuel =
    let here : drop at mem ≡ bytes d ++ (blob ds ++ rest) =
      stands ∙ append_assoc (bytes d) (blob ds) rest in
    let more : leb (at + 2) eod ≡ true = ground (arith, length-append (bytes d) (blob ds)) in
    rw
      (more, type_byte mem at d (blob ds ++ rest) here, length_byte mem at d (blob ds ++ rest) here)
      (elim (Bool-cases (d.dtype == dt)) [
        | inl hit ↦ rw hit
        | inr miss ↦ rw miss (
            desc_find_loop-blob f mem (at + size d) eod dt ds rest
              (drop-size mem at d (blob ds ++ rest) here)
              (omega (arith, length-append (bytes d) (blob ds)))
              (omega (arith, length-append (bytes d) (blob ds))))
      ])

-- On the bytes of a list of descriptors, wherever they stand in memory, the search finds the first
-- descriptor of the type, or says that there is none; it always ends.
pub desc_find-blob :
    (mem : List ℕ) (at dt : ℕ) (ds : List Desc) (rest : List ℕ)
    → drop at mem ≡ blob ds ++ rest
    → desc_find mem at (at + length (blob ds)) dt ≡ ok (first_of_type at ds dt)
unfolding desc_find
desc_find-blob mem at dt ds rest stands =
    desc_find_loop-blob _ mem at (at + length (blob ds)) dt ds rest stands refl (omega arith)

pub desc_find-blob_end :
    (mem : List ℕ) (at eod dt : ℕ) (ds : List Desc) (rest : List ℕ)
    → drop at mem ≡ blob ds ++ rest
    → eod ≡ at + length (blob ds)
    → desc_find mem at eod dt ≡ ok (first_of_type at ds dt)
desc_find-blob_end mem at eod dt ds rest stands end =
    rw end (desc_find-blob mem at dt ds rest stands)

-- At a descriptor of length 0 that is not the one sought no number of rounds is enough.
desc_find_loop-stuck :
    (n : ℕ) (mem : List ℕ) (sod eod dt t : ℕ)
    → sod + 2 ≤ eod
    → byte_at mem (sod + 1) ≡ ok t
    → (t == dt) ≡ false
    → byte_at mem sod ≡ ok 0
    → desc_find_loop n mem sod eod dt ≡ spin
unfolding desc_find_loop
desc_find_loop-stuck zero mem sod eod dt t inside type miss len = refl
desc_find_loop-stuck (suc n) mem sod eod dt t inside type miss len =
    let more : leb (sod + 2) eod ≡ true = ground arith in
    let same : sod + 0 ≡ sod = omega arith in
    rw (more, type, miss, len, same) (desc_find_loop-stuck n mem sod eod dt t inside type miss len)

desc_find_loop-spin :
    (f : ℕ) (mem : List ℕ) (sod eod dt : ℕ)
    → eod - sod < f
    → desc_find_loop f mem sod eod dt ≡ spin
    → (n : ℕ) → desc_find_loop n mem sod eod dt ≡ spin
unfolding desc_find_loop
desc_find_loop-spin zero mem sod eod dt fuel out n = elim fuel [ ]
desc_find_loop-spin (suc f) mem sod eod dt fuel out zero = refl
desc_find_loop-spin (suc f) mem sod eod dt fuel out (suc n) =
    elim (Bool-cases (leb (sod + 2) eod)) [
      | inl more ↦ elim (byte_at-cases mem (sod + 1)) [
        | inl (t, type) ↦ elim (Bool-cases (t == dt)) [
          | inl hit ↦ cc (rw (more, type, hit) at out)
          | inr miss ↦ elim (byte_at-cases mem sod) [
            | inl (zero, len) ↦
                desc_find_loop-stuck (suc n) mem sod eod dt t (ground arith) type miss len
            | inl (suc l, len) ↦
                rw (more, type, miss, len)
                  (desc_find_loop-spin f mem (sod + suc l) eod dt (ground arith)
                    (rw (more, type, miss, len) at out) n)
            | inr bad ↦ cc (rw (more, type, miss, bad) at out)
          ]
        ]
        | inr bad ↦ cc (rw (more, bad) at out)
      ]
      | inr done ↦ cc (rw done at out)
    ]

-- `eod - sod + 1` rounds decide the search: when they do not finish it, no number of rounds does,
-- which is to say that the C loop runs for ever.
pub desc_find-spin :
    (mem : List ℕ) (sod eod dt : ℕ)
    → desc_find mem sod eod dt ≡ spin
    → (n : ℕ) → desc_find_loop n mem sod eod dt ≡ spin
unfolding desc_find
desc_find-spin mem sod eod dt out =
    desc_find_loop-spin (eod - sod + 1) mem sod eod dt (omega arith) out

-- The search through descriptors of which none is the one sought, up to one of length 0 that is not
-- it either, and that ends inside the range: it never ends, which is to say that no number of rounds
-- of the loop is enough.
pub desc_find-zero_length :
    (n : ℕ) (mem : List ℕ) (at eod dt t : ℕ) (ds : List Desc) (rest : List ℕ)
    → drop at mem ≡ blob ds ++ (0 ∷ t ∷ rest)
    → All (λ d. (d.dtype == dt) ≡ false) ds
    → (t == dt) ≡ false
    → at + length (blob ds) + 2 ≤ eod
    → desc_find_loop n mem at eod dt ≡ spin
unfolding desc_find_loop
desc_find-zero_length zero mem at eod dt t ds rest stands others miss inside = refl
desc_find-zero_length (suc n) mem at eod dt t [] rest stands others miss inside =
    let here : at + 0 ≡ at = omega arith in
    desc_find_loop-stuck (suc n) mem at eod dt t (omega arith) (byte_at-drop mem at 1 t (rw stands))
      miss (rw here at (byte_at-drop mem at 0 0 (rw stands)))
desc_find-zero_length (suc n) mem at eod dt t (d ∷ ds) rest stands (other, others) miss inside =
    let tail = blob ds ++ (0 ∷ t ∷ rest) in
    let here : drop at mem ≡ bytes d ++ tail =
      stands ∙ append_assoc (bytes d) (blob ds) (0 ∷ t ∷ rest) in
    let more : leb (at + 2) eod ≡ true = ground (arith, length-append (bytes d) (blob ds)) in
    rw (more, type_byte mem at d tail here, length_byte mem at d tail here, other)
      (desc_find-zero_length n mem (at + size d) eod dt t ds rest (drop-size mem at d tail here)
        others miss (omega (arith, inside, length-append (bytes d) (blob ds))))
