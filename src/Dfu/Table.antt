-- ===== src/Dfu/Table.antt =====
-- The check of `_dfu_ctrl_req`, fw/v0/src/usb_dfu.c, against the requests that the protocol has in
-- each state.
use no2usb.Base.{
  ℕ, zero, suc, ◌+◌, ◌^◌, Bool, true, false, ◌||◌, not, ◌==◌, if◌then◌else◌, List, [], ◌∷◌, bit_and,
}
use no2usb.Dfu.State.{
  DfuState, app_idle, dfu_idle, dnload_sync, dnbusy, dnload_idle, manifest_sync, manifest,
  manifest_wait_reset, upload_idle, dfu_error, Dfu,
}
use no2usb.Dfu.Request.{valid_req}

-- A device that can tell its status: not one that is busy, or waits for the bus to be reset.
abbrev answers : DfuState → Bool
answers dnbusy = false
answers manifest = false
answers manifest_wait_reset = false
answers st = true

abbrev detaches : DfuState → Bool
detaches app_idle = true
detaches dfu_idle = true
detaches st = false

-- A block can be sent when none is, and behind another one.
abbrev downloads : DfuState → Bool
downloads dfu_idle = true
downloads dnload_sync = true
downloads dnload_idle = true
downloads st = false

abbrev uploads : DfuState → Bool
uploads dfu_idle = true
uploads upload_idle = true
uploads st = false

abbrev failed : DfuState → Bool
failed dfu_error = true
failed st = false

abbrev aborts : DfuState → Bool
aborts manifest_sync = true
aborts st = downloads st || uploads st

-- The states in which a request is served: DETACH, DNLOAD, UPLOAD, GETSTATUS, CLRSTATUS, GETSTATE and
-- ABORT have the numbers 0 to 6, and there is no other one.
abbrev pub serves : (b_request : ℕ) → DfuState → Bool
serves r st =
    if r == 0
    then detaches st
    else if r == 1
    then downloads st
    else if r == 2
    then uploads st
    else if r == 3
    then answers st
    else if r == 4
    then failed st
    else if r == 5
    then answers st
    else if r == 6
    then aborts st
    else false

abbrev from : (k n : ℕ) → List ℕ
from k zero = []
from k (suc n) = k ∷ from (k + 1) n

abbrev in_table : DfuState → ℕ → Bool
in_table st r = not (bit_and (valid_req st) (2 ^ r) == 0)

abbrev agrees : DfuState → ℕ → Bool
agrees st r = if serves r st then in_table st r else not (in_table st r)
