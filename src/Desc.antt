-- ===== src/Desc.antt =====
-- The search through descriptors: `usb_desc_find`, `usb_desc_next` and `usb_desc_find_intf` of
-- fw/v0/src/usb.c. A pointer into a configuration is an offset into its bytes.
pub mod Blob
pub mod Find
pub mod Intf
use no2usb.Base.{
  ℕ, zero, suc, ◌+◌, ◌-◌, ◌*◌, Bool, true, false, if◌then◌else◌, ◌&&◌, leb, ◌==◌, List, Option,
  none, some, get_elem?, Run, ok, fault, spin, ◌>>=◌,
}

-- `p[i]`, a fault outside of the object.
unfoldable pub byte_at : List ℕ → ℕ → Run ℕ
byte_at mem i = elim (get_elem? mem i) [ none ↦ fault | some b ↦ ok b ]

-- A 16-bit field, low byte first.
unfoldable pub half_at : List ℕ → ℕ → Run ℕ
unfolding byte_at
half_at mem i = do lo ← byte_at mem i; hi ← byte_at mem (i + 1); ok (lo + 256 * hi)

abbrev pub dt_intf : ℕ
dt_intf = 4

abbrev pub dt_ep : ℕ
dt_ep = 5

-- One round: the type is compared, and the length leads to the next descriptor.
pub desc_find_loop : ℕ → List ℕ → ℕ → ℕ → ℕ → Run (Option ℕ)
desc_find_loop zero mem sod eod dt = spin
desc_find_loop (suc f) mem sod eod dt =
    let step = (byte_at mem sod >>= λ l. desc_find_loop f mem (sod + l) eod dt) in
    if leb (sod + 2) eod
    then (byte_at mem (sod + 1) >>= λ t. if t == dt then ok (some sod) else step)
    else ok none

-- A round that moves on comes nearer to the end, so these rounds are enough for it; the C loop
-- has no bound, and runs for ever at a descriptor of length 0.
unfoldable pub desc_find : List ℕ → ℕ → ℕ → ℕ → Run (Option ℕ)
unfolding desc_find_loop byte_at
desc_find mem sod eod dt = desc_find_loop (eod - sod + 1) mem sod eod dt

unfoldable pub desc_next : List ℕ → ℕ → Run ℕ
unfolding byte_at
desc_next mem sod = do l ← byte_at mem sod; ok (sod + l)

-- Fields of an interface descriptor at an offset.
abbrev pub intf_number : List ℕ → ℕ → Run ℕ
intf_number mem p = byte_at mem (p + 2)

abbrev pub intf_alternate : List ℕ → ℕ → Run ℕ
intf_alternate mem p = byte_at mem (p + 3)

abbrev pub intf_num_endpoints : List ℕ → ℕ → Run ℕ
intf_num_endpoints mem p = byte_at mem (p + 4)

-- What the search has found: the interface, and what `*alt0` was set to on the way.
pub record Found : Type 0 where
  pub intf : Option ℕ
  pub alt0 : Option ℕ

-- One round of `usb_desc_find_intf`, behind its `usb_desc_find`; `again` is the next round.
intf_round :
    (List ℕ → (sod eod idx alt : ℕ) → Option ℕ → Run Found)
    → List ℕ
    → (eod idx alt : ℕ) → (alt0 at : Option ℕ) → Run Found
intf_round again mem eod idx alt alt0 none = ok (record { intf = none; alt0 = alt0 })
intf_round again mem eod idx alt alt0 (some p) = do
  n ← intf_number mem p
  a ← intf_alternate mem p
  let seen = if n == idx && a == 0 then some p else alt0
  if n == idx && a == alt
      then ok (record { intf = some p; alt0 = seen })
      else (desc_next mem p >>= λ sod. again mem sod eod idx alt seen)

-- The loop of `usb_desc_find_intf`, from `sod` on.
pub find_intf_loop : ℕ → List ℕ → (sod eod idx alt : ℕ) → Option ℕ → Run Found
find_intf_loop zero mem sod eod idx alt alt0 = spin
find_intf_loop (suc f) mem sod eod idx alt alt0 = do
  at ← desc_find mem sod eod dt_intf
  intf_round (find_intf_loop f) mem eod idx alt alt0 at

-- `if (!conf) conf = g_usb.conf;`
abbrev pub given_or {ℓ} : {A : Type ℓ} → Option A → Option A → Option A
given_or selected none = selected
given_or selected (some c) = some c

-- `conf` is the given configuration or, for `NULL`, the selected one.
unfoldable pub desc_find_intf :
    (given selected : Option (List ℕ)) (idx alt : ℕ) → Option ℕ → Run Found
unfolding find_intf_loop intf_round desc_find desc_next half_at byte_at
desc_find_intf given selected idx alt alt0 = elim (given_or selected given) [
  | none ↦ ok (record { intf = none; alt0 = alt0 })
  | some conf ↦ do total ← half_at conf 2; find_intf_loop (total + 1) conf 0 total idx alt alt0
]
