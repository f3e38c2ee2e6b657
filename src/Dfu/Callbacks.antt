-- ===== src/Dfu/Callbacks.antt =====
-- The update driver's other callbacks and its start: fw/v0/src/usb_dfu.c, with the completion
-- callback of fw/v0/src/usb_dfu_vendor.c.
use no2usb.Base.{
  ℕ, ◌+◌, ◌==◌, Bool, false, ◌&&◌, if◌then◌else◌, List, get_elem?, replicate, Option, none, some,
  Run, ok, fault, ◌>>=◌,
}
use no2usb.Stack.{Usb, Resp, continue, success, error, fn, ds_configured}
use no2usb.Stack.Memory.{load, store, set_buffer}
use no2usb.Desc.{byte_at}
use no2usb.Driver.{Drv, register_function_driver}
use no2usb.Dfu.State.{
  app_detach, dfu_idle, dnload_sync, status_ok, fl_idle, Zone, Dfu, Flash, buf_len, dfu_buf,
  map_dfu,
}
use no2usb.Dfu.Tick.{dfu_tick}
use no2usb.Dfu.Request.{set_dfu_state, dfu_ctrl_req}

-- The interface's class, subclass and protocol are those of an update interface.
unfoldable pub is_dfu_intf : List ℕ → ℕ → Run Bool
unfolding byte_at
is_dfu_intf conf p = do
  c ← byte_at conf (p + 5)
  sub ← byte_at conf (p + 6)
  proto ← byte_at conf (p + 7)
  ok (c == 0xfe && (sub == 0x01 && proto == 0x02))

module _ {F : Type 0} where
  module _ (fl : Flash F) where
    -- `_dfu_bus_reset`
    unfoldable pub dfu_bus_reset : Usb (Dfu F) → Run (Usb (Dfu F))
    dfu_bus_reset s =
        ok (if s.app.armed then map_dfu (λ d. record d { flash = fl.reboot d.flash }) s else s)

    -- `_dfu_state_chg`
    unfoldable pub dfu_state_chg : ℕ → Usb (Dfu F) → Run (Usb (Dfu F))
    dfu_state_chg state s = ok (if state == ds_configured then set_dfu_state dfu_idle s else s)

    -- The completion callbacks: `_dfu_detach_done_cb`, `_dfu_dnload_done_cb` and
    -- `_dfu_vendor_spi_exec_cb`, by number.
    unfoldable pub dfu_done : ℕ → Usb (Dfu F) → Run (Usb (Dfu F))
    unfolding load store
    dfu_done n s =
        let raw =
          (load s.xfer.bytes 0 s.xfer.len s >>= λ bs.
          store s.xfer.bytes 0 (fl.raw bs s.app.flash).0 s >>= λ t.
          ok (map_dfu (λ d. record d { flash = (fl.raw bs d.flash).1 }) t)) in
        if n == 0
        then ok (map_dfu (λ d. record d { flash = fl.reboot d.flash }) s)
        else if n == 1
        then ok (set_dfu_state dnload_sync s)
        else if n == 2
        then raw
        else ok s

  abbrev pub select_zone : ℕ → ℕ → Option Zone → Usb (Dfu F) → Resp × Usb (Dfu F)
  select_zone number alt none s = (error, s)
  select_zone number alt (some z) s = (
    success,
    map_dfu
        (λ d. record d {
          state = dfu_idle;
          intf = number;
          alt = alt;
          addr_read = z.start;
          addr_prog = z.start;
          addr_erase = z.start;
          addr_end = z.end;
        })
        s,
  )

  -- `_dfu_set_intf`, for an interface of the selected configuration.
  unfoldable pub dfu_set_intf : Option ℕ → ℕ → Usb (Dfu F) → Run (Resp × Usb (Dfu F))
  unfolding is_dfu_intf byte_at
  dfu_set_intf base sel s = elim (s.conf) [
    | none ↦ fault
    | some conf ↦ do
      mine ← is_dfu_intf conf sel
      number ← byte_at conf (sel + 2)
      alt ← byte_at conf (sel + 3)
      ok (if mine then select_zone number alt (get_elem? s.app.zones alt) s else (continue, s))
  ]

  -- `_dfu_get_intf`
  unfoldable pub dfu_get_intf : ℕ → Usb (Dfu F) → Run (Resp × ℕ × Usb (Dfu F))
  unfolding is_dfu_intf byte_at
  dfu_get_intf base s = elim (s.conf) [
    | none ↦ fault
    | some conf ↦ do
      mine ← is_dfu_intf conf base
      ok (if mine then (success, s.app.alt, s) else (continue, 0, s))
  ]

  -- `_dfu_drv`
  abbrev pub dfu_drv : Flash F → Drv (Dfu F)
  dfu_drv fl = record {
    sof = some (dfu_tick fl);
    bus_reset = some (dfu_bus_reset fl);
    state_chg = some (dfu_state_chg fl);
    ctrl_req = some (dfu_ctrl_req fl);
    set_conf = none;
    set_intf = some dfu_set_intf;
    get_intf = some dfu_get_intf;
  }

  -- `usb_dfu_init`, with the driver's number in the chain.
  unfoldable pub dfu_init : ℕ → List Zone → Usb (Dfu F) → Usb (Dfu F)
  unfolding register_function_driver
  dfu_init n zones s = register_function_driver (fn n) (record s {
    buffers = set_buffer dfu_buf (replicate buf_len 0) s.buffers;
    app = record {
      zones = zones;
      state = app_detach;
      status = status_ok;
      intf = 0;
      alt = 0;
      armed = false;
      addr_read = 0;
      addr_prog = 0;
      addr_erase = 0;
      addr_end = 0;
      op_ofs = 0;
      op_len = 0;
      op = fl_idle;
      flash = s.app.flash;
    };
  })
