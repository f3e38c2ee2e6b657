-- ===== src/Desc/Blob.antt =====
-- A configuration as a list of descriptors, the bytes that it stands for, and where a search by
-- the list finds a descriptor.
use no2usb.Base.{
  ℕ, suc, ◌+◌, ◌≡◌, ap, ◌∙◌, if◌then◌else◌, ◌==◌, List, [], ◌∷◌, ◌++◌, Option, none, some, length,
  get_elem?, drop, get_elem?-drop, drop-drop, drop-append, ok, fault, arith, ◌⊎◌, inl, inr,
  Option-cases,
}
use no2usb.Desc.{byte_at, desc_next}

-- A descriptor: its type, and what follows its two-byte header.
pub record Desc : Type 0 where
  pub dtype : ℕ
  pub body : List ℕ

abbrev pub size : Desc → ℕ
size d = suc (suc (length d.body))

abbrev pub bytes : Desc → List ℕ
bytes d = size d ∷ d.dtype ∷ d.body

abbrev pub blob : List Desc → List ℕ
blob [] = []
blob (d ∷ ds) = bytes d ++ blob ds

-- The offset of the first descriptor of a type, in a list that starts at `at`.
unfoldable pub first_of_type : ℕ → List Desc → ℕ → Option ℕ
first_of_type at [] dt = none
first_of_type at (d ∷ ds) dt = if d.dtype == dt then some at else first_of_type (at + size d) ds dt

-- A byte at an offset, from what stands there.
pub byte_at-drop :
    (mem : List ℕ) (at i b : ℕ) → get_elem? (drop at mem) i ≡ some b → byte_at mem (at + i) ≡ ok b
unfolding byte_at
byte_at-drop mem at i b e = rw (get_elem?-drop at i mem ∙ e, byte_at)

module _ (mem : List ℕ) (at : ℕ) (d : Desc) (rest : List ℕ)
    (stands : drop at mem ≡ bytes d ++ rest) where
  pub length_byte : byte_at mem at ≡ ok (size d)
  length_byte =
      let e : at + 0 ≡ at = omega arith in rw e at (byte_at-drop mem at 0 (size d) (rw stands))

  pub type_byte : byte_at mem (at + 1) ≡ ok d.dtype
  type_byte = byte_at-drop mem at 1 d.dtype (rw stands)

  -- The next descriptor stands behind this one.
  pub drop-size : drop (at + size d) mem ≡ rest
  drop-size = drop-drop at (size d) mem ∙ ap (drop (size d)) stands ∙ drop-append (bytes d) rest

  pub desc_next_lem : desc_next mem at ≡ ok (at + size d)
  unfolding desc_next
  desc_next_lem = rw length_byte

pub byte_at-cases :
    (mem : List ℕ) (i : ℕ) → ((b : ℕ) × (byte_at mem i ≡ ok b)) ⊎ (byte_at mem i ≡ fault)
unfolding byte_at
byte_at-cases mem i = elim (Option-cases (get_elem? mem i)) [
  | inl out ↦ inr (rw (out, byte_at))
  | inr (b, e) ↦ inl (b, rw (e, byte_at))
]
