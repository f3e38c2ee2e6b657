-- ===== src/Ep/Settings.antt =====
-- A configuration by its interfaces' settings, and what `usb_ep_boot` of fw/v0/src/usb.c looks for in
-- it: an endpoint's greatest packet size in the settings of an interface, and its descriptor in
-- setting 0.
use no2usb.Base.{
  ℕ, ◌+◌, ◌*◌, ◌≡◌, refl, ap, ◌∙◌, ◌⊎◌, false, ◌==◌, bit_and, if◌then◌else◌, List, [], ◌∷◌, ◌++◌,
  length, length-append, drop, drop-drop, drop-append, All, Option, none, some, Run, ok, arith,
}
use mathlib.Core.List.{append_assoc}
use no2usb.Desc.{byte_at, half_at, dt_intf, dt_ep}
use no2usb.Desc.Blob.{Desc, size, bytes, blob, first_of_type, byte_at-drop}
use no2usb.Ep.{ep_address, ep_attributes, ep_max_packet, types, ep_settings}

-- A descriptor that is neither an interface's nor an endpoint's.
abbrev pub IsPlain : Desc → Type 0
IsPlain d = ((d.dtype == dt_intf) ≡ false) × ((d.dtype == dt_ep) ≡ false)

-- An endpoint: the plain descriptors in front of its own, and the fields of that; `tail` is what
-- follows the packet size.
pub record Endpoint : Type 0 where
  pub front : List Desc
  pub address : ℕ
  pub attributes : ℕ
  pub low : ℕ
  pub high : ℕ
  pub tail : List ℕ

-- A setting of an interface: its number, its alternate setting, its endpoints, and the plain
-- descriptors behind them.
pub record Setting : Type 0 where
  pub number : ℕ
  pub alternate : ℕ
  pub tail : List ℕ
  pub endpoints : List Endpoint
  pub behind : List Desc

abbrev pub max_packet : Endpoint → ℕ
max_packet e = e.low + 256 * e.high

abbrev pub endpoint_desc : Endpoint → Desc
endpoint_desc e = record {
  dtype = dt_ep;
  body = e.address ∷ e.attributes ∷ e.low ∷ e.high ∷ e.tail;
}

abbrev pub endpoint_descs : List Endpoint → List Desc
endpoint_descs [] = []
endpoint_descs (e ∷ es) = e.front ++ endpoint_desc e ∷ endpoint_descs es

abbrev pub setting_desc : Setting → Desc
setting_desc s = record {
  dtype = dt_intf;
  body = s.number ∷ s.alternate ∷ length s.endpoints ∷ s.tail;
}

abbrev pub setting_descs : List Setting → List Desc
setting_descs [] = []
setting_descs (s ∷ ss) =
    setting_desc s ∷ ((endpoint_descs s.endpoints ++ s.behind) ++ setting_descs ss)

abbrev pub ArePlain : List Endpoint → Type 0
ArePlain [] = Unit
ArePlain (e ∷ es) = All IsPlain e.front × ArePlain es

abbrev pub IsSetting : Setting → Type 0
IsSetting s = ArePlain s.endpoints × All IsPlain s.behind

-- The first endpoint with an address.
abbrev pub find_endpoint : ℕ → List Endpoint → Option Endpoint
find_endpoint ep [] = none
find_endpoint ep (e ∷ es) = if e.address == ep then some e else find_endpoint ep es

-- The type and the packet size of an endpoint, 0 and 0 without one.
abbrev pub settings_of : Option Endpoint → ℕ × ℕ
settings_of none = (0, 0)
settings_of (some e) = (types (bit_and e.attributes 3), max_packet e)

-- An endpoint's descriptor stands at an offset.
abbrev pub Stands : List ℕ → ℕ → Endpoint → Type 0
Stands mem p e = (rest : List ℕ) × (drop p mem ≡ bytes (endpoint_desc e) ++ rest)

module _ (mem : List ℕ) (p : ℕ) (e : Endpoint) (stands : Stands mem p e) where
  pub address-Stands : ep_address mem p ≡ ok e.address
  address-Stands = byte_at-drop mem p 2 e.address (rw stands.1)

  attributes-Stands : ep_attributes mem p ≡ ok e.attributes
  attributes-Stands = byte_at-drop mem p 3 e.attributes (rw stands.1)

  pub max_packet-Stands : ep_max_packet mem p ≡ ok (max_packet e)
  unfolding half_at
  max_packet-Stands =
      let low = byte_at-drop mem p 4 e.low (rw stands.1) in
      let high : byte_at mem (p + 4 + 1) ≡ ok e.high =
        let same : p + 5 ≡ p + 4 + 1 = omega arith in
        rw same at (byte_at-drop mem p 5 e.high (rw stands.1)) in
      rw (low, high)

  pub settings-Stands : ep_settings mem (some p) ≡ ok (settings_of (some e))
  unfolding ep_settings
  settings-Stands = rw (attributes-Stands, max_packet-Stands)

-- A search passes over the descriptors of other types.
pub first_of_type-skip :
    (at dt : ℕ) (xs ys : List Desc)
    → All (λ d. (d.dtype == dt) ≡ false) xs
    → first_of_type at (xs ++ ys) dt ≡ first_of_type (at + length (blob xs)) ys dt
unfolding first_of_type
first_of_type-skip at dt [] ys other = let e : at + 0 ≡ at = omega arith in rw e
first_of_type-skip at dt (x ∷ xs) ys other =
    let e : at + size x + length (blob xs) ≡ at + length (blob (x ∷ xs)) =
      omega (arith, length-append (bytes x) (blob xs)) in
    rw (other.0, first_of_type-skip (at + size x) dt xs ys other.1, e)

pub blob-append : (xs ys : List Desc) → blob (xs ++ ys) ≡ blob xs ++ blob ys
blob-append [] ys = refl
blob-append (x ∷ xs) ys = ap (λ zs. bytes x ++ zs) (blob-append xs ys) ∙ simp append_assoc

pub drop-blob :
    (mem : List ℕ) (at : ℕ) (xs ys : List Desc) (rest : List ℕ)
    → drop at mem ≡ blob (xs ++ ys) ++ rest
    → drop (at + length (blob xs)) mem ≡ blob ys ++ rest
drop-blob mem at xs ys rest stands =
    drop-drop at (length (blob xs)) mem
    ∙ ap (drop (length (blob xs)))
        (stands ∙ ap (λ zs. zs ++ rest) (blob-append xs ys) ∙ append_assoc (blob xs) (blob ys) rest)
    ∙ drop-append (blob xs) (blob ys ++ rest)

-- What the loop over an interface's endpoints gives.
pub record Searched (mem : List ℕ) (ep : ℕ) (es : List Endpoint) (r : Run (Option ℕ)) : Type 0 where
  pub found : Option ℕ
  pub ends : r ≡ ok found
  pub is :
      (find_endpoint ep es ≡ none) × (found ≡ none)
      ⊎ ((p : ℕ) × (e : Endpoint) × (find_endpoint ep es ≡ some e)
          × (found ≡ some p)
          × Stands mem p e)
