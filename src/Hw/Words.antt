-- ===== src/Hw/Words.antt =====
-- What the masks of a buffer descriptor word read.
use no2usb.Base.{ℕ, ◌<◌, ◌≡◌, refl, true, ◌&&◌, ◌==◌, arith}
use no2usb.Base.Bits.{passes_below, from_table}
use no2usb.Hw.{bd_state, bd_len, bd_rdy_data, bd_state_done_ok, bd_state_rdy_stall}

queued_table :
    passes_below (λ x. bd_state (bd_rdy_data x) == 0x4000 && bd_len (bd_rdy_data x) == x) 1024
    ≡ true
unfolding passes_below bd_state bd_rdy_data
queued_table = refl

queued : (l : ℕ) → l < 1024 → (bd_state (bd_rdy_data l) ≡ 0x4000) × (bd_len (bd_rdy_data l) ≡ l)
queued l h =
    let table =
      from_table (λ x. bd_state (bd_rdy_data x) == 0x4000 && bd_len (bd_rdy_data x) == x) l h
        queued_table in
    ground (arith, table)

-- A descriptor that was queued with data reads as ready, with the length that was asked for.
pub bd_state-bd_rdy_data : (l : ℕ) → l < 1024 → bd_state (bd_rdy_data l) ≡ 0x4000
bd_state-bd_rdy_data l h = (queued l h).0

pub bd_len-bd_rdy_data : (l : ℕ) → l < 1024 → bd_len (bd_rdy_data l) ≡ l
bd_len-bd_rdy_data l h = (queued l h).1

pub bd_state-done_ok : bd_state bd_state_done_ok ≡ 0x8000
unfolding bd_state
bd_state-done_ok = refl

pub bd_state-rdy_stall : bd_state bd_state_rdy_stall ≡ 0x6000
unfolding bd_state
bd_state-rdy_stall = refl

pub bd_state-zero : bd_state 0 ≡ 0
unfolding bd_state
bd_state-zero = refl
