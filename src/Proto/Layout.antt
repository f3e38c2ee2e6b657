-- ===== src/Proto/Layout.antt =====
-- The layouts of the structures that fw/v0/include/no2usb/usb_proto.h and the protocol headers
-- beside it declare, and their bytes in memory. A structure is the list of its members; a packed
-- one has them side by side, and any other one has each at a multiple of its alignment.
use Prim.Native.String.{String}
use text.Mathlib.Text.{◌==◌ as str_eq}
use no2usb.Base.{
  ℕ, zero, suc, ◌+◌, ◌-◌, ◌*◌, ◌/◌, ◌%◌, ltb, Bool, true, false, if◌then◌else◌, List, [], ◌∷◌, ◌++◌,
  Option, none, some, replicate,
}

-- A member: an array of elements, each made of parts of some sizes in bytes. A number is an array
-- of one element with one part that has no name.
pub record Member : Type 0 where
  pub name : String
  pub parts : List (String × ℕ)
  pub count : ℕ
  pub align : ℕ

abbrev pub u8 : String → Member
u8 name = record { name = name; parts = ("", 1) ∷ []; count = 1; align = 1 }

abbrev pub u16 : String → Member
u16 name = record { name = name; parts = ("", 2) ∷ []; count = 1; align = 2 }

abbrev pub u32 : String → Member
u32 name = record { name = name; parts = ("", 4) ∷ []; count = 1; align = 4 }

abbrev pub array : Member → ℕ → Member
array m n = record m { count = n }

-- An array of packed structures.
abbrev pub structs : String → List (String × ℕ) → ℕ → Member
structs name parts n = record { name = name; parts = parts; count = n; align = 1 }

pub record Struct : Type 0 where
  pub is_packed : Bool
  pub members : List Member

abbrev pub packed : List Member → Struct
packed ms = record { is_packed = true; members = ms }

abbrev pub unpacked : List Member → Struct
unpacked ms = record { is_packed = false; members = ms }

abbrev pub parts_size : List (String × ℕ) → ℕ
parts_size [] = 0
parts_size ((name, k) ∷ ps) = k + parts_size ps

abbrev pub member_size : Member → ℕ
member_size m = m.count * parts_size m.parts

abbrev pub members_size : List Member → ℕ
members_size [] = 0
members_size (m ∷ ms) = member_size m + members_size ms

-- The bytes that are left free to reach a multiple of an alignment from an offset.
abbrev pub padding : Bool → (align at : ℕ) → ℕ
padding true align at = 0
padding false align at = (align - at % align) % align

abbrev pub greatest_align : List Member → ℕ
greatest_align [] = 1
greatest_align (m ∷ ms) = let a = greatest_align ms in if ltb a m.align then m.align else a

-- Where the members end that start at an offset.
abbrev pub end_of : Bool → ℕ → List Member → ℕ
end_of is_packed at [] = at
end_of is_packed at (m ∷ ms) =
    end_of is_packed (at + padding is_packed m.align at + member_size m) ms

abbrev pub sizeof : Struct → ℕ
sizeof s =
    let e = end_of s.is_packed 0 s.members in e + padding s.is_packed (greatest_align s.members) e

-- Where a member stands, and its size.
abbrev pub find_member : Bool → ℕ → List Member → String → Option (ℕ × ℕ)
find_member is_packed at [] name = none
find_member is_packed at (m ∷ ms) name =
    let p = at + padding is_packed m.align at in
    if str_eq m.name name
    then some (p, member_size m)
    else find_member is_packed (p + member_size m) ms name

-- The values of an object: of a member, by its element's number and the part's name.
abbrev pub Values : Type 0
Values = String → ℕ → String → ℕ

-- A number as `k` bytes, low byte first.
unfoldable pub le_bytes : ℕ → ℕ → List ℕ
le_bytes zero x = []
le_bytes (suc k) x = x % 256 ∷ le_bytes k (x / 256)

abbrev pub element_bytes : (String → ℕ) → List (String × ℕ) → List ℕ
element_bytes v [] = []
element_bytes v ((name, k) ∷ ps) = le_bytes k (v name) ++ element_bytes v ps

-- The elements of a member from number `i` on.
abbrev pub elements_bytes : (ℕ → String → ℕ) → List (String × ℕ) → (i n : ℕ) → List ℕ
elements_bytes v ps i zero = []
elements_bytes v ps i (suc n) = element_bytes (v i) ps ++ elements_bytes v ps (suc i) n

abbrev pub member_bytes : Values → Member → List ℕ
member_bytes v m = elements_bytes (v m.name) m.parts 0 m.count

-- The bytes of members that start at an offset; what is left free is 0, as in a static object.
abbrev pub members_bytes : Values → Bool → ℕ → List Member → List ℕ
members_bytes v is_packed at [] = []
members_bytes v is_packed at (m ∷ ms) =
    replicate (padding is_packed m.align at) 0
    ++ (member_bytes v m
        ++ members_bytes v is_packed (at + padding is_packed m.align at + member_size m) ms)

-- An object of the structure in memory.
unfoldable pub object_bytes : Struct → Values → List ℕ
unfolding le_bytes
object_bytes s v =
    let e = end_of s.is_packed 0 s.members in
    members_bytes v s.is_packed 0 s.members
    ++ replicate (padding s.is_packed (greatest_align s.members) e) 0
