-- ===== src/Dfu/Checks.antt =====
-- A page of a block that is programmed, fw/v0/src/usb_dfu.c.
use no2usb.Base.{
  ℕ, ◌+◌, ◌-◌, ◌^◌, ◌≤◌, ◌<◌, ◌≡◌, refl, bit_and, false, List, length, take, drop, ok, Returns,
  arith,
}
use no2usb.Stack.{Usb, ram}
use no2usb.Stack.Memory.{load, load-object}
use no2usb.Dfu.State.{dnload_sync, fl_program, Dfu, Flash, dfu_buf}
use no2usb.Dfu.Tick.{add32, page_len, program_page, program_step, erase_step, dfu_tick}

pub page_len_bounds :
    {F : Type 0} (d : Dfu F)
    → d.op_ofs < d.op_len
    → d.op_len < 2 ^ 32
    → (d.op_ofs + page_len d ≤ d.op_len)
      × (page_len d ≤ 256 - bit_and (add32 d.addr_prog d.op_ofs) 0xff)
unfolding page_len
page_len_bounds d more small = ground arith

pub program_page_lem :
    {F : Type 0} (fl : Flash F) (s : Usb (Dfu F)) (bs : List ℕ)
    → load (ram dfu_buf) s.app.op_ofs (page_len s.app) s ≡ ok bs
    → program_page fl s
      ≡ ok (record s {
        app = record (s.app) {
          flash = fl.program bs (add32 s.app.addr_prog s.app.op_ofs) s.app.flash;
          op_ofs = s.app.op_ofs + page_len s.app;
        };
      })
unfolding program_page
program_page_lem fl s bs loaded = rw loaded

pub dfu_tick-program_page :
    {F : Type 0} (fl : Flash F) (s : Usb (Dfu F))
    → s.app.op ≡ fl_program
    → s.app.state ≡ dnload_sync
    → fl.busy s.app.flash ≡ false
    → s.app.op_ofs < s.app.op_len
    → dfu_tick fl s ≡ program_page fl s
unfolding dfu_tick erase_step program_step
dfu_tick-program_page fl s op state free more = ground arith

-- While a block of the buffer is programmed, a tick with a flash that is not busy programs the bytes
-- behind those that are programmed already, at the address that belongs to them: no more than are
-- left of the block, and no more than are left of the flash page.
pub dfu_tick-programs :
    {F : Type 0} (fl : Flash F) (s : Usb (Dfu F))
    → s.app.op ≡ fl_program
    → s.app.state ≡ dnload_sync
    → fl.busy s.app.flash ≡ false
    → s.app.op_ofs < s.app.op_len
    → s.app.op_len ≤ length (s.buffers dfu_buf)
    → s.app.op_len < 2 ^ 32
    → Returns
        (λ t.
          (n : ℕ) × (s.app.op_ofs + n ≤ s.app.op_len)
          × (n ≤ 256 - bit_and (add32 s.app.addr_prog s.app.op_ofs) 0xff)
          × (t.app.op_ofs ≡ s.app.op_ofs + n)
          × (t.app.flash
              ≡ fl.program
                  (take n (drop s.app.op_ofs (s.buffers dfu_buf)))
                  (add32 s.app.addr_prog s.app.op_ofs)
                  s.app.flash))
        (dfu_tick fl s)
dfu_tick-programs fl s op state free more room small =
    let (left, page) = page_len_bounds s.app more small in
    let bytes =
      load-object (ram dfu_buf) (s.buffers dfu_buf) s.app.op_ofs (page_len s.app) s refl
        (omega (arith, left, room)) in
    rw (dfu_tick-program_page fl s op state free more, program_page_lem fl s _ bytes)
      (page_len s.app, left, page, refl, refl)
