-- ===== src/Ep/Search.antt =====
-- The loops over an interface's endpoints and over an interface's settings in `usb_ep_boot`,
-- fw/v0/src/usb.c, on a configuration given by its settings.
use no2usb.Base.{
  ℕ, ◌+◌, ◌≡◌, refl, ap, ◌∙◌, ◌⊎◌, inl, inr, true, false, ◌==◌, ==_iff, Bool-cases, List, [], ◌∷◌,
  ◌++◌, length, length-append, drop, All, none, some, ok, arith,
}
use mathlib.Core.List.{append_assoc}
use no2usb.Desc.{desc_find, dt_intf, dt_ep}
use no2usb.Desc.Blob.{Desc, size, bytes, blob, first_of_type, drop-size, desc_next_lem}
use no2usb.Desc.Find.{desc_find-blob_end}
use no2usb.Ep.{ep_search}
use no2usb.Ep.Settings.{
  Endpoint, IsPlain, ArePlain, endpoint_desc, endpoint_descs, Stands, address-Stands,
  first_of_type-skip, drop-blob, Searched, blob-append,
}

pub plain_of :
    (dt : ℕ)
    → (dt ≡ dt_intf) ⊎ (dt ≡ dt_ep)
    → (xs : List Desc) → All IsPlain xs
    → All (λ d. (d.dtype == dt) ≡ false) xs
plain_of dt which [] h = tt
plain_of dt (inl e) (x ∷ xs) h = (rw e (h.0.0), plain_of dt (inl e) xs h.1)
plain_of dt (inr e) (x ∷ xs) h = (rw e (h.0.1), plain_of dt (inr e) xs h.1)

-- The search for a descriptor of a type behind others.
pub desc_find-behind :
    (mem : List ℕ) (at eod dt : ℕ) (xs : List Desc) (d : Desc) (ys : List Desc) (rest : List ℕ)
    → drop at mem ≡ blob (xs ++ d ∷ ys) ++ rest
    → eod ≡ at + length (blob (xs ++ d ∷ ys))
    → All (λ x. (x.dtype == dt) ≡ false) xs
    → d.dtype ≡ dt
    → desc_find mem at eod dt ≡ ok (some (at + length (blob xs)))
unfolding first_of_type
desc_find-behind mem at eod dt xs d ys rest stands end others is =
    let hit : (d.dtype == dt) ≡ true = (==_iff d.dtype dt).1 is in
    desc_find-blob_end mem at eod dt (xs ++ d ∷ ys) rest stands end
    ∙ ap ok (first_of_type-skip at dt xs (d ∷ ys) others ∙ rw hit)

pub length-blob :
    (xs ys : List Desc) → length (blob (xs ++ ys)) ≡ length (blob xs) + length (blob ys)
length-blob xs ys = ap length (blob-append xs ys) ∙ length-append (blob xs) (blob ys)

module _ (mem : List ℕ) (eod ep : ℕ) (ys : List Desc) (rest : List ℕ) where
  pub ep_search-Searched :
      (es : List Endpoint) (at : ℕ) (d : Desc)
      → drop at mem ≡ bytes d ++ (blob (endpoint_descs es ++ ys) ++ rest)
      → eod ≡ at + size d + length (blob (endpoint_descs es ++ ys))
      → ArePlain es
      → Searched mem ep es (ep_search (length es) mem at eod ep)
  unfolding ep_search
  ep_search-Searched [] at d stands end plain = record {
    found = none;
    ends = refl;
    is = inl (refl, refl);
  }
  ep_search-Searched (e ∷ es) at d stands end plain =
      let sod = at + size d in
      let line : (endpoint_descs (e ∷ es) ++ ys)
          ≡ e.front ++ endpoint_desc e ∷ (endpoint_descs es ++ ys) =
        append_assoc e.front (endpoint_desc e ∷ endpoint_descs es) ys in
      let next = desc_next_lem mem at d (blob (endpoint_descs (e ∷ es) ++ ys) ++ rest) stands in
      let behind : drop sod mem
          ≡ blob (e.front ++ endpoint_desc e ∷ (endpoint_descs es ++ ys)) ++ rest =
        drop-size mem at d (blob (endpoint_descs (e ∷ es) ++ ys) ++ rest) stands
        ∙ ap (λ zs. blob zs ++ rest) line in
      let end' : eod
          ≡ sod + length (blob (e.front ++ endpoint_desc e ∷ (endpoint_descs es ++ ys))) =
        end ∙ ap (λ zs. sod + length (blob zs)) line in
      let found =
        desc_find-behind mem sod eod dt_ep e.front (endpoint_desc e) (endpoint_descs es ++ ys) rest
          behind end' (plain_of dt_ep (inr refl) e.front plain.0) refl in
      let p = sod + length (blob e.front) in
      let there : drop p mem ≡ bytes (endpoint_desc e) ++ (blob (endpoint_descs es ++ ys) ++ rest) =
        drop-blob mem sod e.front (endpoint_desc e ∷ (endpoint_descs es ++ ys)) rest behind
        ∙ append_assoc (bytes (endpoint_desc e)) (blob (endpoint_descs es ++ ys)) rest in
      let s : Stands mem p e = (blob (endpoint_descs es ++ ys) ++ rest, there) in
      elim (Bool-cases (e.address == ep)) [
        | inl hit ↦ record {
          found = some p;
          ends = rw (next, found, address-Stands mem p e s, hit);
          is = inr (p, e, rw hit, refl, s);
        }
        | inr miss ↦
            let end'' : eod ≡ p + size (endpoint_desc e) + length (blob (endpoint_descs es ++ ys)) =
              omega (
                arith,
                length-blob e.front (endpoint_desc e ∷ (endpoint_descs es ++ ys)),
                length-append (bytes (endpoint_desc e)) (blob (endpoint_descs es ++ ys)),
              ) in
            let later = ep_search-Searched es p (endpoint_desc e) there end'' plain.1 in
            record {
              found = later.found;
              ends = rw (next, found, address-Stands mem p e s, miss) later.ends;
              is = rw miss later.is;
            }
      ]
