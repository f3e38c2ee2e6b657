-- ===== src/Proto/Bytes.antt =====
-- The bytes of an object: how many there are, its first two bytes for a descriptor, and where the
-- gaps are.
use no2usb.Base.{
  ℕ, zero, suc, ◌+◌, ◌*◌, ◌%◌, ◌≡◌, refl, ap, ◌∙◌, ◌⊎◌, inl, inr, Bool, true, false, List, [], ◌∷◌,
  ◌++◌, some, length, length-append, replicate, drop, arith,
}
use Prim.Native.String.{String}
use no2usb.Proto.Layout.{
  Struct, Member, Values, u8, padding, end_of, sizeof, greatest_align, parts_size, member_size,
  members_size, find_member, le_bytes, element_bytes, elements_bytes, member_bytes, members_bytes,
  object_bytes,
}
use no2usb.Proto.Kinds.{DescStruct, layout, hdr, vc_ep_interrupt}

pub length-replicate : (n x : ℕ) → length (replicate n x) ≡ n
length-replicate zero x = refl
length-replicate (suc n) x = ap suc (length-replicate n x)

pub length-le_bytes : (k x : ℕ) → length (le_bytes k x) ≡ k
unfolding le_bytes
length-le_bytes zero x = refl
length-le_bytes (suc k) x = ap suc (length-le_bytes k _)

length-element_bytes :
    (v : String → ℕ) (ps : List (String × ℕ)) → length (element_bytes v ps) ≡ parts_size ps
length-element_bytes v [] = refl
length-element_bytes v ((name, k) ∷ ps) = omega (
  arith,
  length-append (le_bytes k (v name)) (element_bytes v ps),
  length-le_bytes k (v name),
  length-element_bytes v ps,
)

length-elements_bytes :
    (v : ℕ → String → ℕ) (ps : List (String × ℕ)) (i n : ℕ)
    → length (elements_bytes v ps i n) ≡ n * parts_size ps
length-elements_bytes v ps i zero = omega arith
length-elements_bytes v ps i (suc n) =
    let e : suc n * parts_size ps ≡ parts_size ps + n * parts_size ps = grind arith in
    omega (
      arith,
      e,
      length-append (element_bytes (v i) ps) (elements_bytes v ps (suc i) n),
      length-element_bytes (v i) ps,
      length-elements_bytes v ps (suc i) n,
    )

pub length-member_bytes : (v : Values) (m : Member) → length (member_bytes v m) ≡ member_size m
length-member_bytes v m = length-elements_bytes (v m.name) m.parts 0 m.count

length-members_bytes :
    (v : Values) (b : Bool) (at : ℕ) (ms : List Member)
    → at + length (members_bytes v b at ms) ≡ end_of b at ms
length-members_bytes v b at [] = omega arith
length-members_bytes v b at (m ∷ ms) =
    let p = at + padding b m.align at + member_size m in
    omega (
      arith,
      length-append (replicate (padding b m.align at) 0)
          (member_bytes v m ++ members_bytes v b p ms),
      length-append (member_bytes v m) (members_bytes v b p ms),
      length-replicate (padding b m.align at) 0,
      length-member_bytes v m,
      length-members_bytes v b p ms,
    )

-- An object has as many bytes as its structure's size says.
pub length-object_bytes : (s : Struct) (v : Values) → length (object_bytes s v) ≡ sizeof s
unfolding object_bytes
length-object_bytes s v =
    let e = end_of s.is_packed 0 s.members in
    let n = padding s.is_packed (greatest_align s.members) e in
    omega (
      arith,
      length-append (members_bytes v s.is_packed 0 s.members) (replicate n 0),
      length-members_bytes v s.is_packed 0 s.members,
      length-replicate n 0,
    )

-- The name of a structure's second member, and what is behind its first two.
abbrev second_name : List Member → String
second_name (a ∷ b ∷ ms) = b.name
second_name _ = ""

abbrev pub type_name : DescStruct → String
type_name k = second_name (layout k).members

headed :
    (k : DescStruct)
    → (layout k).members ≡ u8 "bLength" ∷ u8 (type_name k) ∷ drop 2 (layout k).members
unfolding layout
headed hdr = refl
headed _ = refl

front-members_bytes :
    (v : Values) (b : Bool) (x y : String) (ms : List Member)
    → members_bytes v b 0 (u8 x ∷ u8 y ∷ ms)
      ≡ v x 0 "" % 256 ∷ v y 0 "" % 256 ∷ members_bytes v b 2 ms
unfolding le_bytes
front-members_bytes v true x y ms = refl
front-members_bytes v false x y ms = refl

-- A descriptor's first two bytes are its length and its type.
pub front-object_bytes :
    (k : DescStruct) (v : Values)
    → (rest : List ℕ) × (object_bytes (layout k) v
        ≡ v "bLength" 0 "" % 256 ∷ v (type_name k) 0 "" % 256 ∷ rest)
unfolding object_bytes
front-object_bytes k v =
    let s = layout k in
    let gap =
      replicate (padding s.is_packed (greatest_align s.members) (end_of s.is_packed 0 s.members))
        0 in
    let rest = members_bytes v s.is_packed 2 (drop 2 s.members) in
    (
      rest ++ gap,
      ap (λ (xs : List ℕ). xs ++ gap)
          (ap (members_bytes v s.is_packed 0) (headed k)
            ∙ front-members_bytes v s.is_packed "bLength" (type_name k) (drop 2 s.members)),
    )

end_of-members_size : (at : ℕ) (ms : List Member) → end_of true at ms ≡ at + members_size ms
end_of-members_size at [] = omega arith
end_of-members_size at (m ∷ ms) = omega (arith, end_of-members_size (at + 0 + member_size m) ms)

packed_lem : (s : Struct) → s.is_packed ≡ true → sizeof s ≡ members_size s.members
packed_lem s e = rw e (omega (arith, end_of-members_size 0 s.members))

-- Every descriptor that the headers declare is as long as its members are together, whatever its
-- arrays' lengths, but for the interrupt endpoint's of the video class: that has six bytes for five,
-- and its last member stands at offset 4 and not 3.
pub sizeof-members_size :
    (k : DescStruct)
    → (sizeof (layout k) ≡ members_size (layout k).members)
      ⊎ ((k ≡ vc_ep_interrupt)
          × (sizeof (layout k) ≡ 6)
          × (members_size (layout k).members ≡ 5)
          × (find_member (layout k).is_packed 0 (layout k).members "wMaxtransferSize"
              ≡ some (4, 2)))
unfolding layout
sizeof-members_size vc_ep_interrupt = inr (refl, refl, refl, refl)
sizeof-members_size k = inl (packed_lem (layout k) refl)
