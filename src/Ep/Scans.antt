-- ===== src/Ep/Scans.antt =====
-- The loop of `usb_ep_boot` over the settings of an interface, fw/v0/src/usb.c.
use no2usb.Base.{
  ℕ, zero, suc, ◌+◌, ◌<◌, ◌≡◌, refl, ap, ◌∙◌, inl, inr, true, false, ◌==◌, ltb, if◌then◌else◌,
  Bool-cases, List, [], ◌∷◌, ◌++◌, length, length-append, drop, All, All-append, Option, none, some,
  Run, ok, arith,
}
use mathlib.Core.List.{append_assoc}
use no2usb.Desc.{desc_find, dt_intf, intf_number, intf_alternate, intf_num_endpoints}
use no2usb.Desc.Blob.{
  Desc, size, bytes, blob, first_of_type, byte_at-drop, drop-size, desc_next_lem,
}
use no2usb.Desc.Find.{desc_find-blob_end}
use no2usb.Ep.{ep_search, ep_settings, Scan, scan_setting, scan_loop}
use no2usb.Ep.Settings.{
  Endpoint, Setting, IsSetting, ArePlain, max_packet, endpoint_desc, endpoint_descs, setting_desc,
  setting_descs, find_endpoint, settings_of, Stands, max_packet-Stands, settings-Stands,
  first_of_type-skip, drop-blob, Searched,
}
use no2usb.Ep.Search.{ep_search-Searched, desc_find-behind, length-blob, plain_of}

-- The settings of the interface at the front.
abbrev pub settings_of_intf : ℕ → List Setting → List Setting
settings_of_intf number [] = []
settings_of_intf number (s ∷ ss) = if s.number == number then s ∷ settings_of_intf number ss else []

abbrev greater : ℕ → Option Endpoint → ℕ
greater m none = m
greater m (some e) = if ltb m (max_packet e) then max_packet e else m

-- The greatest packet size of an endpoint in the settings, at least `m`.
abbrev pub greatest_packet : ℕ → ℕ → List Setting → ℕ
greatest_packet ep m [] = m
greatest_packet ep m (s ∷ ss) = greatest_packet ep (greater m (find_endpoint ep s.endpoints)) ss

abbrev in_first : Setting → Option Endpoint → Option Endpoint → Option Endpoint
in_first s o none = o
in_first s o (some e) = if s.alternate == 0 then some e else o

-- The endpoint in the last setting 0 that has it, `o` if none has.
abbrev pub first_endpoint : ℕ → Option Endpoint → List Setting → Option Endpoint
first_endpoint ep o [] = o
first_endpoint ep o (s ∷ ss) = first_endpoint ep (in_first s o (find_endpoint ep s.endpoints)) ss

-- The scan has come to its end, with this packet size and this endpoint.
pub record Scanned (mem : List ℕ) (m : ℕ) (o : Option Endpoint) (r : Run Scan) : Type 0 where
  pub scan : Scan
  pub ends : r ≡ ok scan
  pub greatest : scan.max_packet ≡ m
  pub first : ep_settings mem scan.ep_def ≡ ok (settings_of o)

module _ (mem : List ℕ) (ep at m : ℕ) (s : Setting) (o : Option Endpoint) (sc : Scan)
    (alternate : intf_alternate mem at ≡ ok s.alternate) (largest : sc.max_packet ≡ m)
    (so_far : ep_settings mem sc.ep_def ≡ ok (settings_of o)) where
  found-Scanned :
      (p : ℕ) (e : Endpoint)
      → Stands mem p e
      → Scanned mem (greater m (some e)) (in_first s o (some e)) (scan_setting mem at (some p) sc)
  unfolding scan_setting
  found-Scanned p e stands = elim (Bool-cases (s.alternate == 0)) [
    | inl is ↦ record {
      scan = record { max_packet = greater sc.max_packet (some e); ep_def = some p };
      ends = rw (max_packet-Stands mem p e stands, alternate, is);
      greatest = ap (λ n. greater n (some e)) largest;
      first = rw is (settings-Stands mem p e stands);
    }
    | inr other ↦ record {
      scan = record { max_packet = greater sc.max_packet (some e); ep_def = sc.ep_def };
      ends = rw (max_packet-Stands mem p e stands, alternate, other);
      greatest = ap (λ n. greater n (some e)) largest;
      first = rw other so_far;
    }
  ]

  scan_setting-Scanned :
      {r : Run (Option ℕ)} (h : Searched mem ep s.endpoints r)
      → Scanned mem
          (greater m (find_endpoint ep s.endpoints))
          (in_first s o (find_endpoint ep s.endpoints))
          (scan_setting mem at h.found sc)
  unfolding scan_setting
  scan_setting-Scanned h = elim (h.is) [
    | inl (is_none, nothing) ↦
        rw (is_none, nothing)
          (record { scan = sc; ends = refl; greatest = largest; first = so_far })
    | inr (p, e, is, at_p, stands) ↦ rw (is, at_p) (found-Scanned p e stands)
  ]

-- None of the descriptors behind an interface's, up to the next setting, is an interface's.
abbrev OtherThanIntf : Desc → Type 0
OtherThanIntf d = (d.dtype == dt_intf) ≡ false

endpoint_descs-OtherThanIntf :
    (es : List Endpoint) → ArePlain es → All OtherThanIntf (endpoint_descs es)
endpoint_descs-OtherThanIntf [] plain = tt
endpoint_descs-OtherThanIntf (e ∷ es) plain =
    All-append OtherThanIntf e.front (endpoint_desc e ∷ endpoint_descs es)
      (plain_of dt_intf (inl refl) e.front plain.0) (refl, endpoint_descs-OtherThanIntf es plain.1)

no_intf : (s : Setting) → IsSetting s → All OtherThanIntf (endpoint_descs s.endpoints ++ s.behind)
no_intf s set =
    All-append OtherThanIntf (endpoint_descs s.endpoints) s.behind
      (endpoint_descs-OtherThanIntf s.endpoints set.0) (plain_of dt_intf (inl refl) s.behind set.1)

-- The interface descriptor behind a setting: the next setting's, if there is one.
abbrev next_at : ℕ → List Setting → Option ℕ
next_at p [] = none
next_at p (s ∷ ss) = some p

module _ (mem : List ℕ) (eod number ep : ℕ) (rest : List ℕ) where
  desc_find-next :
      (at : ℕ) (xs : List Desc) (ss : List Setting)
      → drop at mem ≡ blob (xs ++ setting_descs ss) ++ rest
      → eod ≡ at + length (blob (xs ++ setting_descs ss))
      → All OtherThanIntf xs
      → desc_find mem at eod dt_intf ≡ ok (next_at (at + length (blob xs)) ss)
  unfolding first_of_type
  desc_find-next at xs [] stands end others =
      desc_find-blob_end mem at eod dt_intf (xs ++ []) rest stands end
      ∙ ap ok (first_of_type-skip at dt_intf xs [] others)
  desc_find-next at xs (s ∷ ss) stands end others =
      desc_find-behind mem at eod dt_intf xs (setting_desc s)
        ((endpoint_descs s.endpoints ++ s.behind) ++ setting_descs ss) rest stands end others refl

  -- What a round reads of a setting that stands at `at`.
  module _ (at : ℕ) (s : Setting) (ss : List Setting)
      (stands : drop at mem ≡ blob (setting_descs (s ∷ ss)) ++ rest)
      (end : eod ≡ at + length (blob (setting_descs (s ∷ ss)))) (set : IsSetting s) where
    inner : List Desc
    inner = endpoint_descs s.endpoints ++ s.behind

    here : drop at mem ≡ bytes (setting_desc s) ++ (blob (inner ++ setting_descs ss) ++ rest)
    unfolding inner
    here = stands ∙ append_assoc (bytes (setting_desc s)) (blob (inner ++ setting_descs ss)) rest

    pub number-here : intf_number mem at ≡ ok s.number
    number-here = byte_at-drop mem at 2 s.number (rw here)

    alternate-here : intf_alternate mem at ≡ ok s.alternate
    alternate-here = byte_at-drop mem at 3 s.alternate (rw here)

    num-here : intf_num_endpoints mem at ≡ ok (length s.endpoints)
    num-here = byte_at-drop mem at 4 (length s.endpoints) (rw here)

    sod : ℕ
    sod = at + size (setting_desc s)

    behind-here : drop sod mem ≡ blob (inner ++ setting_descs ss) ++ rest
    unfolding sod
    behind-here = drop-size mem at (setting_desc s) (blob (inner ++ setting_descs ss) ++ rest) here

    end-here : eod ≡ sod + length (blob (inner ++ setting_descs ss))
    unfolding sod inner
    end-here =
        omega (arith, length-append (bytes (setting_desc s)) (blob (inner ++ setting_descs ss)))

    search-here : Searched mem ep s.endpoints (ep_search (length s.endpoints) mem at eod ep)
    unfolding sod inner
    search-here =
        let line = append_assoc (endpoint_descs s.endpoints) s.behind (setting_descs ss) in
        ep_search-Searched mem eod ep (s.behind ++ setting_descs ss) rest s.endpoints at
          (setting_desc s) (here ∙ ap (λ zs. bytes (setting_desc s) ++ (blob zs ++ rest)) line)
          (end-here ∙ ap (λ zs. sod + length (blob zs)) line) set.0

    next-here : desc_find mem sod eod dt_intf ≡ ok (next_at (sod + length (blob inner)) ss)
    unfolding inner
    next-here = desc_find-next sod inner ss behind-here end-here (no_intf s set)

    -- A round at a setting of the interface moves on to the next interface descriptor.
    round-here :
        (f m : ℕ) (o : Option Endpoint) (sc : Scan)
        (seen : Scanned mem m o (scan_setting mem at search-here.found sc))
        → (s.number == number) ≡ true
        → scan_loop (suc f) mem eod number ep (some at) sc
          ≡ scan_loop f mem eod number ep (next_at (sod + length (blob inner)) ss) seen.scan
    unfolding scan_loop sod
    round-here f m o sc seen mine = rw (
      number-here,
      mine,
      num-here,
      search-here.ends,
      seen.ends,
      desc_next_lem mem at (setting_desc s) (blob (inner ++ setting_descs ss) ++ rest) here,
      next-here,
    )

    seen-here :
        (m : ℕ) (o : Option Endpoint) (sc : Scan)
        → sc.max_packet ≡ m
        → ep_settings mem sc.ep_def ≡ ok (settings_of o)
        → Scanned mem
            (greater m (find_endpoint ep s.endpoints))
            (in_first s o (find_endpoint ep s.endpoints))
            (scan_setting mem at search-here.found sc)
    seen-here m o sc largest so_far =
        scan_setting-Scanned mem ep at m s o sc alternate-here largest so_far search-here

    -- A round at a setting of another interface is the last.
    stop-here :
        (f m : ℕ) (o : Option Endpoint) (sc : Scan)
        → (s.number == number) ≡ false
        → sc.max_packet ≡ m
        → ep_settings mem sc.ep_def ≡ ok (settings_of o)
        → Scanned mem m o (scan_loop (suc f) mem eod number ep (some at) sc)
    unfolding scan_loop
    stop-here f m o sc other largest so_far = record {
      scan = sc;
      ends = rw (number-here, other);
      greatest = largest;
      first = so_far;
    }

    -- The settings behind, when there are some, stand there.
    later-here : drop (sod + length (blob inner)) mem ≡ blob (setting_descs ss) ++ rest
    later-here = drop-blob mem sod inner (setting_descs ss) rest behind-here

    later-end : eod ≡ sod + length (blob inner) + length (blob (setting_descs ss))
    later-end = omega (arith, end-here, length-blob inner (setting_descs ss))

    later-shorter : length (blob (setting_descs ss)) < length (blob (setting_descs (s ∷ ss)))
    unfolding inner
    later-shorter = omega (
      arith,
      length-append (bytes (setting_desc s)) (blob (inner ++ setting_descs ss)),
      length-blob inner (setting_descs ss),
    )

  no_more : (f : ℕ) (sc : Scan) → scan_loop f mem eod number ep none sc ≡ ok sc
  unfolding scan_loop
  no_more zero sc = refl
  no_more (suc f) sc = refl

  pub scan_loop-Scanned :
      (f at : ℕ) (s : Setting) (ss : List Setting) (m : ℕ) (o : Option Endpoint) (sc : Scan)
      → drop at mem ≡ blob (setting_descs (s ∷ ss)) ++ rest
      → eod ≡ at + length (blob (setting_descs (s ∷ ss)))
      → All IsSetting (s ∷ ss)
      → sc.max_packet ≡ m
      → ep_settings mem sc.ep_def ≡ ok (settings_of o)
      → length (blob (setting_descs (s ∷ ss))) < f
      → Scanned mem
          (greatest_packet ep m (settings_of_intf number (s ∷ ss)))
          (first_endpoint ep o (settings_of_intf number (s ∷ ss)))
          (scan_loop f mem eod number ep (some at) sc)
  scan_loop-Scanned zero at s ss m o sc stands end set greatest so_far fuel = elim fuel [ ]
  scan_loop-Scanned (suc f) at s [] m o sc stands end set largest so_far fuel =
      elim (Bool-cases (s.number == number)) [
        | inr other ↦ rw other (stop-here at s [] stands end set.0 f m o sc other largest so_far)
        | inl mine ↦
            let seen = seen-here at s [] stands end set.0 m o sc largest so_far in
            rw (mine, round-here at s [] stands end set.0 f _ _ sc seen mine)
              (record {
                scan = seen.scan;
                ends = no_more f seen.scan;
                greatest = seen.greatest;
                first = seen.first;
              })
      ]
  scan_loop-Scanned (suc f) at s (s' ∷ ss) m o sc stands end set largest so_far fuel =
      elim (Bool-cases (s.number == number)) [
        | inr other ↦
            rw other (stop-here at s (s' ∷ ss) stands end set.0 f m o sc other largest so_far)
        | inl mine ↦
            let seen = seen-here at s (s' ∷ ss) stands end set.0 m o sc largest so_far in
            rw (mine, round-here at s (s' ∷ ss) stands end set.0 f _ _ sc seen mine)
              (scan_loop-Scanned f _ s' ss _ _ seen.scan
                (later-here at s (s' ∷ ss) stands end set.0)
                (later-end at s (s' ∷ ss) stands end set.0) set.1 seen.greatest seen.first
                (omega (arith, later-shorter at s (s' ∷ ss) stands end set.0)))
      ]
