-- ===== src/Dfu/Tick.antt =====
-- The work on the flash at each start of frame: `_dfu_tick` of fw/v0/src/usb_dfu.c.
use no2usb.Base.{
  ℕ, ◌+◌, ◌-◌, ◌%◌, ◌^◌, ◌==◌, ltb, leb, bit_and, Bool, true, false, ◌||◌, if◌then◌else◌, Run, ok,
  ◌>>=◌,
}
use no2usb.Stack.{Usb, ram}
use no2usb.Stack.Memory.{load}
use no2usb.Dfu.State.{
  DfuState, dnload_sync, dnload_idle, FlashOp, fl_idle, fl_erase, fl_program, Dfu, Flash, dfu_buf,
  map_dfu,
}

-- A sum in a `uint32_t`.
abbrev pub add32 : ℕ → ℕ → ℕ
add32 a b = (a + b) % 2 ^ 32

-- How much is left of the block, and of the flash page; the lesser is programmed.
unfoldable pub page_len : {F : Type 0} → Dfu F → ℕ
page_len d =
    let l = (d.op_len + 2 ^ 32 - d.op_ofs) % 2 ^ 32 in
    let pl = 256 - bit_and (add32 d.addr_prog d.op_ofs) 0xff in if ltb pl l then pl else l

abbrev pub is_idle : FlashOp → Bool
is_idle fl_idle = true
is_idle _ = false

module _ {F : Type 0} (fl : Flash F) where
  -- The erase part: one 4096-byte block, or on to programming.
  unfoldable pub erase_step : FlashOp → Dfu F → Dfu F
  erase_step fl_erase d =
      if leb (add32 d.addr_prog d.op_len) d.addr_erase
      then record d { op = fl_program }
      else record d {
        flash = fl.erase d.addr_erase 4096 d.flash;
        addr_erase = add32 d.addr_erase 4096;
      }
  erase_step _ d = d

  -- The block is done.
  unfoldable pub finish : Dfu F → Dfu F
  finish d = record d {
    op = fl_idle;
    state = dnload_idle;
    addr_prog = add32 d.addr_prog d.op_len;
    armed = true;
  }

  -- The next page of the block.
  unfoldable pub program_page : Usb (Dfu F) → Run (Usb (Dfu F))
  unfolding page_len load
  program_page s =
      let d = s.app in
      load (ram dfu_buf) d.op_ofs (page_len d) s >>= λ bs. ok (record s {
        app = record d {
          flash = fl.program bs (add32 d.addr_prog d.op_ofs) d.flash;
          op_ofs = d.op_ofs + page_len d;
        };
      })

  -- The programming part, once the block has come in.
  unfoldable pub program_step : FlashOp → DfuState → Usb (Dfu F) → Run (Usb (Dfu F))
  unfolding program_page finish
  program_step fl_program dnload_sync s =
      let page = program_page s in
      if s.app.op_ofs == s.app.op_len then ok (map_dfu finish s) else page
  program_step _ _ s = ok s

  -- `_dfu_tick`
  unfoldable pub dfu_tick : Usb (Dfu F) → Run (Usb (Dfu F))
  unfolding erase_step program_step
  dfu_tick s =
      let d = erase_step s.app.op s.app in
      if is_idle s.app.op || fl.busy s.app.flash
      then ok s
      else program_step d.op d.state (record s { app = d })
