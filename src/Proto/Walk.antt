-- ===== src/Proto/Walk.antt =====
-- `usb_desc_find` of fw/v0/src/usb.c on descriptors that are objects of the headers' structures.
use no2usb.Base.{
  ℕ, suc, ◌+◌, ◌%◌, ◌<◌, ◌≡◌, refl, sym, ap, ◌∙◌, ◌==◌, if◌then◌else◌, List, [], ◌∷◌, ◌++◌, length,
  drop, All, Option, none, some, ok, arith,
}
use no2usb.Desc.{desc_find}
use no2usb.Desc.Blob.{Desc, size, bytes, blob, first_of_type}
use no2usb.Desc.Find.{desc_find-blob}
use no2usb.Proto.Layout.{Values, sizeof, object_bytes}
use no2usb.Proto.Kinds.{DescStruct, layout}
use no2usb.Proto.Bytes.{length-object_bytes, type_name, front-object_bytes}

-- A descriptor in memory: its structure, and the values of its members.
pub record Object : Type 0 where
  pub kind : DescStruct
  pub values : Values

abbrev pub object_size : Object → ℕ
object_size o = sizeof (layout o.kind)

-- `bLength` says the structure's size, which fits into it.
abbrev pub IsSized : Object → Type 0
IsSized o = (o.values "bLength" 0 "" ≡ object_size o) × (object_size o < 256)

-- The value of `bDescriptorType`.
abbrev pub object_type : Object → ℕ
object_type o = o.values (type_name o.kind) 0 "" % 256

abbrev pub objects_bytes : List Object → List ℕ
objects_bytes [] = []
objects_bytes (o ∷ os) = object_bytes (layout o.kind) o.values ++ objects_bytes os

-- Where the first descriptor of a type stands, when the first one stands at `at`.
unfoldable pub first_object : ℕ → List Object → ℕ → Option ℕ
first_object at [] dt = none
first_object at (o ∷ os) dt =
    if object_type o == dt then some at else first_object (at + object_size o) os dt

abbrev as_desc : Object → Desc
as_desc o = record { dtype = object_type o; body = drop 2 (object_bytes (layout o.kind) o.values) }

abbrev as_descs : List Object → List Desc
as_descs [] = []
as_descs (o ∷ os) = as_desc o ∷ as_descs os

size-as_desc : (o : Object) → size (as_desc o) ≡ object_size o
size-as_desc o =
    let (rest, e) = front-object_bytes o.kind o.values in
    ap (λ xs. suc (suc (length (drop 2 xs)))) e
    ∙ sym (ap length e)
    ∙ length-object_bytes (layout o.kind) o.values

bytes-as_desc : (o : Object) → IsSized o → bytes (as_desc o) ≡ object_bytes (layout o.kind) o.values
bytes-as_desc o sized =
    let (rest, e) = front-object_bytes o.kind o.values in
    let l : size (as_desc o) ≡ o.values "bLength" 0 "" % 256 = omega (arith, size-as_desc o) in
    ap (λ n. n ∷ object_type o ∷ drop 2 (object_bytes (layout o.kind) o.values)) l
    ∙ ap (λ xs. o.values "bLength" 0 "" % 256 ∷ object_type o ∷ drop 2 xs) e
    ∙ sym e

blob-as_descs : (os : List Object) → All IsSized os → blob (as_descs os) ≡ objects_bytes os
blob-as_descs [] sized = refl
blob-as_descs (o ∷ os) sized =
    ap (λ (xs : List ℕ). xs ++ blob (as_descs os)) (bytes-as_desc o sized.0)
    ∙ ap (λ ys. object_bytes (layout o.kind) o.values ++ ys) (blob-as_descs os sized.1)

first_of_type-as_descs :
    (at : ℕ) (os : List Object) (dt : ℕ) → first_of_type at (as_descs os) dt ≡ first_object at os dt
unfolding first_of_type first_object
first_of_type-as_descs at [] dt = refl
first_of_type-as_descs at (o ∷ os) dt =
    rw (size-as_desc o, first_of_type-as_descs (at + object_size o) os dt)

-- Any objects of the structures that the protocol headers declare for descriptors, with arrays of
-- any length, whose `bLength` says their structure's size: where they stand in memory one behind
-- the other, the search through them ends and finds the first one of the type, or none if there
-- is none.
pub desc_find-objects :
    (mem : List ℕ) (at dt : ℕ) (os : List Object) (rest : List ℕ)
    → drop at mem ≡ objects_bytes os ++ rest
    → All IsSized os
    → desc_find mem at (at + length (objects_bytes os)) dt ≡ ok (first_object at os dt)
desc_find-objects mem at dt os rest stands sized =
    let e = blob-as_descs os sized in
    rw (← e) (
      desc_find-blob mem at dt (as_descs os) rest (rw e stands)
      ∙ ap ok (first_of_type-as_descs at os dt))
