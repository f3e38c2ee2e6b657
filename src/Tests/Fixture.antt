-- ===== src/Tests/Fixture.antt =====
-- A device with one configuration of one interface and one endpoint.
use no2usb.Base.{
  ℕ, ◌==◌, if◌then◌else◌, true, false, List, [], ◌∷◌, replicate, Option, none, some, Run, ok, ◌≡◌,
  refl,
}
use no2usb.Hw.{Bd, Ep, EpPair, Hw}
use no2usb.Stack.{
  Usb, continue, success, idle, ram, no_callback, DrvId, ctrl_std, fn, ds_configured,
}
use no2usb.Desc.Blob.{Desc}
use no2usb.Driver.{Drv, no_drv, dispatch_state_chg, dispatch_set_conf, dispatch_set_intf}

-- The configuration, as descriptors and as bytes.
abbrev pub conf_descs : List Desc
conf_descs =
    record { dtype = 2; body = 25 ∷ 0 ∷ 1 ∷ 1 ∷ 0 ∷ 128 ∷ 50 ∷ [] }
    ∷ record { dtype = 4; body = 0 ∷ 0 ∷ 1 ∷ 255 ∷ 0 ∷ 0 ∷ 0 ∷ [] }
    ∷ record { dtype = 5; body = 129 ∷ 2 ∷ 64 ∷ 0 ∷ 0 ∷ [] }
    ∷ []

abbrev pub conf_bytes : List ℕ
conf_bytes =
    9 ∷ 2 ∷ 25 ∷ 0 ∷ 1 ∷ 1 ∷ 0 ∷ 128 ∷ 50 ∷ 9 ∷ 4 ∷ 0 ∷ 0 ∷ 1 ∷ 255 ∷ 0 ∷ 0 ∷ 0 ∷ 7 ∷ 5 ∷ 129 ∷ 2
    ∷ 64 ∷ 0 ∷ 0 ∷ []

abbrev pub bd : ℕ → Bd
bd csr = record { csr = csr; ptr = 0 }

abbrev pub ep_of : ℕ → ℕ → ℕ → Ep
ep_of status csr0 csr1 = record { status = status; mps = 64; bd0 = bd csr0; bd1 = bd csr1 }

-- Endpoint 0 with these descriptor words, and a bulk endpoint 1.
abbrev pub eps : (setup out inp : ℕ) → ℕ → EpPair
eps setup out inp n =
    if n == 0
    then record { out = ep_of 0x26 out setup; inp = ep_of 0x86 inp 0 }
    else record { out = ep_of 0 0 0; inp = ep_of 4 0 0 }

-- A SETUP packet stands in the words 16 and 17, behind the data of an OUT packet.
abbrev pub packets : (w16 w17 : ℕ) → ℕ → ℕ
packets w16 w17 n = if n == 16 then w16 else if n == 17 then w17 else 0x04030201

abbrev pub hw_with : (setup out inp w16 w17 : ℕ) → Hw
hw_with setup out inp w16 w17 = record {
  ctl = record { pu_ena = true; cel_ena = true; addr_match = true; addr = 0 };
  cel_active = false;
  bus_suspend = false;
  bus_rst = false;
  bus_rst_pending = false;
  sof_pending = false;
  evts = [];
  ep = eps setup out inp;
  tx = λ n. 0;
  rx = packets w16 w17;
}

abbrev pub device_with : {A : Type 0} → A → Hw → Usb A
device_with app hw = record {
  stack_desc = record { dev = 18 ∷ 1 ∷ []; bos = none; conf = conf_bytes ∷ []; str = [] };
  state = ds_configured;
  conf = some conf_bytes;
  intf_alt = 0;
  tick = 0;
  mem_out = 128;
  mem_in = 64;
  ctrl_state = idle;
  xfer = record { bytes = ram 0; ofs = 0; len = 64; cb_done = no_callback };
  req = record { bm_request_type = 0; b_request = 0; w_value = 0; w_index = 0; w_length = 0 };
  fnd = fn 0 ∷ ctrl_std ∷ [];
  hw = hw;
  buffers = λ b. replicate 64 0;
  app = app;
}

abbrev pub device : Hw → Usb Unit
device = device_with tt

-- Drivers without callbacks.
abbrev pub quiet_drv : DrvId → Drv Unit
quiet_drv d = no_drv

abbrev pub quiet_fns : ℕ → Drv Unit
quiet_fns n = no_drv

abbrev pub no_done : ℕ → Usb Unit → Run (Usb Unit)
no_done n s = ok s

-- Such drivers do nothing when they are told.
pub dispatch_state_chg-quiet :
    (state : ℕ) (ds : List DrvId) (u : Usb Unit) → dispatch_state_chg quiet_drv state ds u ≡ ok u
unfolding dispatch_state_chg
dispatch_state_chg-quiet state [] u = refl
dispatch_state_chg-quiet state (d ∷ ds) u = dispatch_state_chg-quiet state ds u

pub dispatch_set_conf-quiet :
    (desc : Option (List ℕ)) (ds : List DrvId) (u : Usb Unit)
    → dispatch_set_conf quiet_drv desc success ds u ≡ ok (success, u)
unfolding dispatch_set_conf
dispatch_set_conf-quiet desc [] u = refl
dispatch_set_conf-quiet desc (d ∷ ds) u = dispatch_set_conf-quiet desc ds u

pub dispatch_set_intf-quiet :
    (base : Option ℕ) (sel : ℕ) (ds : List DrvId) (u : Usb Unit)
    → dispatch_set_intf quiet_drv base sel ds u ≡ ok (continue, u)
unfolding dispatch_set_intf
dispatch_set_intf-quiet base sel [] u = refl
dispatch_set_intf-quiet base sel (d ∷ ds) u = dispatch_set_intf-quiet base sel ds u
