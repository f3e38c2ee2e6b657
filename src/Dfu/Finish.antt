-- ===== src/Dfu/Finish.antt =====
-- A block of a firmware update that has come in is programmed: `_dfu_tick` of fw/v0/src/usb_dfu.c
-- frame by frame, with a flash that is ready at each.
use no2usb.Base.{
  ℕ, zero, suc, ◌+◌, ◌-◌, ◌^◌, ◌≤◌, ◌<◌, ◌≡◌, inl, inr, le_or_lt, refl, ap, sym, ◌∙◌, true, false,
  List, [], ◌∷◌, ◌++◌, concat, length, take, drop, take-add, drop-drop, length-take, length-drop,
  Run, ok, ◌>>=◌, arith,
}
use no2usb.Base.Bits.{bit_and-le}
use no2usb.Stack.{Usb, ram}
use no2usb.Stack.Memory.{load-object}
use no2usb.Dfu.State.{dnload_sync, dnload_idle, fl_idle, fl_program, Dfu, Flash, dfu_buf, map_dfu}
use no2usb.Dfu.Tick.{add32, page_len, finish, program_step, erase_step, dfu_tick}
use no2usb.Dfu.Checks.{page_len_bounds, program_page_lem, dfu_tick-program_page}

-- Pages that are written one behind the other.
pub write_pages : {F : Type 0} → Flash F → List (List ℕ) → ℕ → F → F
write_pages fl [] a f = f
write_pages fl (p ∷ ps) a f = write_pages fl ps (a + length p) (fl.program p a f)

-- A block that stands in the buffer is being programmed.
pub record IsProgramming {F : Type 0} (s : Usb (Dfu F)) : Type 0 where
  pub op : s.app.op ≡ fl_program
  pub state : s.app.state ≡ dnload_sync
  pub ofs : s.app.op_ofs ≤ s.app.op_len
  pub room : s.app.op_len ≤ length (s.buffers dfu_buf)
  pub small : s.app.addr_prog + s.app.op_len < 2 ^ 32

module _ {F : Type 0} (fl : Flash F) where
  -- So many frames.
  unfoldable pub ticks : ℕ → Usb (Dfu F) → Run (Usb (Dfu F))
  unfolding dfu_tick
  ticks zero s = ok s
  ticks (suc n) s = dfu_tick fl s >>= ticks n

  -- The block that was in the buffer is in the flash, and the driver waits for the next one.
  pub record IsProgrammed (s t : Usb (Dfu F)) : Type 0 where
    pub pages : List (List ℕ)
    pub bytes :
        concat pages ≡ take (s.app.op_len - s.app.op_ofs) (drop s.app.op_ofs (s.buffers dfu_buf))
    pub flash : t.app.flash ≡ write_pages fl pages (s.app.addr_prog + s.app.op_ofs) s.app.flash
    pub state : t.app.state ≡ dnload_idle
    pub op : t.app.op ≡ fl_idle
    pub addr_prog : t.app.addr_prog ≡ s.app.addr_prog + s.app.op_len
    pub armed : t.app.armed ≡ true

  module _ (idle : (f : F) → fl.busy f ≡ false) where
    finish-tick :
        (s : Usb (Dfu F))
        → IsProgramming s
        → s.app.op_ofs ≡ s.app.op_len
        → (dfu_tick fl s ≡ ok (map_dfu (finish fl) s)) × IsProgrammed s (map_dfu (finish fl) s)
    unfolding dfu_tick erase_step program_step finish write_pages
    finish-tick s h e = (
      ground (arith, h.op, h.state, idle s.app.flash, e),
      record {
        pages = [];
        bytes =
            let none_left : s.app.op_len - s.app.op_ofs ≡ 0 = omega (arith, e) in rw none_left refl;
        flash = refl;
        state = refl;
        op = refl;
        addr_prog = ground (arith, h.small);
        armed = refl;
      },
    )

    -- The state behind a page.
    abbrev paged : Usb (Dfu F) → Usb (Dfu F)
    paged s = record s {
      app = record (s.app) {
        flash =
            fl.program (take (page_len s.app) (drop s.app.op_ofs (s.buffers dfu_buf)))
              (add32 s.app.addr_prog s.app.op_ofs) s.app.flash;
        op_ofs = s.app.op_ofs + page_len s.app;
      };
    }

    page_len-pos : (d : Dfu F) → d.op_ofs < d.op_len → d.op_len < 2 ^ 32 → 0 < page_len d
    unfolding page_len
    page_len-pos d more small = ground (arith, bit_and-le (add32 d.addr_prog d.op_ofs) 0xff)

    module _ (s : Usb (Dfu F)) (h : IsProgramming s) (more : s.app.op_ofs < s.app.op_len) where
      small : s.app.op_len < 2 ^ 32
      small = omega (arith, h.small)

      left : s.app.op_ofs + page_len s.app ≤ s.app.op_len
      left = (page_len_bounds s.app more small).0

      page-tick : dfu_tick fl s ≡ ok (paged s)
      page-tick =
          let bytes =
            load-object (ram dfu_buf) (s.buffers dfu_buf) s.app.op_ofs (page_len s.app) s refl
              (omega (arith, left, h.room)) in
          dfu_tick-program_page fl s h.op h.state (idle s.app.flash) more
          ∙ program_page_lem fl s _ bytes

      paged-IsProgramming : IsProgramming (paged s)
      paged-IsProgramming = record {
        op = h.op;
        state = h.state;
        ofs = left;
        room = h.room;
        small = h.small;
      }

      -- A page, and the pages behind it.
      paged-IsProgrammed : (t : Usb (Dfu F)) → IsProgrammed (paged s) t → IsProgrammed s t
      unfolding write_pages
      paged-IsProgrammed t p =
          let n = page_len s.app in
          let m = s.app.op_len - (s.app.op_ofs + n) in
          let xs = drop s.app.op_ofs (s.buffers dfu_buf) in
          let page = take n xs in
          let sum : n + m ≡ s.app.op_len - s.app.op_ofs = omega (arith, left) in
          let size : length page ≡ n =
            length-take n xs
              (omega (arith, left, h.room, length-drop s.app.op_ofs (s.buffers dfu_buf))) in
          let behind : s.app.addr_prog + (s.app.op_ofs + n)
              ≡ s.app.addr_prog + s.app.op_ofs + length page =
            omega (arith, size) in
          let at : add32 s.app.addr_prog s.app.op_ofs ≡ s.app.addr_prog + s.app.op_ofs =
            ground (arith, h.small, h.ofs) in
          record {
            pages = page ∷ p.pages;
            bytes =
                ap (λ q. page ++ q)
                  (p.bytes ∙ ap (take m) (drop-drop s.app.op_ofs n (s.buffers dfu_buf)))
                ∙ (sym (take-add n m xs) ∙ ap (λ k. take k xs) sum);
            flash =
                p.flash
                ∙ (ap
                      (λ a.
                        write_pages fl p.pages a
                          (fl.program page (add32 s.app.addr_prog s.app.op_ofs) s.app.flash))
                      behind
                    ∙ ap
                        (λ a.
                          write_pages fl p.pages (s.app.addr_prog + s.app.op_ofs + length page)
                            (fl.program page a s.app.flash))
                        at);
            state = p.state;
            op = p.op;
            addr_prog = p.addr_prog;
            armed = p.armed;
          }

    programs :
        (k : ℕ) (s : Usb (Dfu F))
        → IsProgramming s
        → s.app.op_len - s.app.op_ofs ≤ k
        → (n : ℕ) × (t : Usb (Dfu F)) × (n ≤ suc k) × (ticks n s ≡ ok t) × IsProgrammed s t
    unfolding ticks
    programs zero s h m =
        let (e, p) = finish-tick s h (omega (arith, m, h.ofs)) in
        (1, map_dfu (finish fl) s, omega arith, ground (arith, e), p)
    programs (suc k) s h m = elim (le_or_lt s.app.op_len s.app.op_ofs) [
      | inl all ↦
          let (e, p) = finish-tick s h (omega (arith, all, h.ofs)) in
          (1, map_dfu (finish fl) s, omega arith, ground (arith, e), p)
      | inr more ↦
          let pos = page_len-pos s.app more (small s h more) in
          let (n, t, le, e, p) =
            programs k (paged s) (paged-IsProgramming s h more) (omega (arith, m, pos, more)) in
          (suc n, t, omega (arith, le), rw (page-tick s h more) e, paged-IsProgrammed s h more t p)
    ]

    -- With a flash that is ready at each frame, a block of the buffer that is being programmed is
    -- finished: after finitely many frames, one for each of its bytes and one more at most, the driver
    -- waits for the next block, behind this one, and the pages that were written, one behind the other
    -- from the address that belongs to them on, are together the rest of the block.
    pub ticks-IsProgrammed :
        (s : Usb (Dfu F))
        → IsProgramming s
        → (n : ℕ) × (t : Usb (Dfu F)) × (n ≤ suc (s.app.op_len - s.app.op_ofs))
          × (ticks n s ≡ ok t)
          × IsProgrammed s t
    ticks-IsProgrammed s h = programs (s.app.op_len - s.app.op_ofs) s h (omega arith)
