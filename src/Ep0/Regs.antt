-- ===== src/Ep0/Regs.antt =====
-- The registers of endpoint 0: the helpers at the top of fw/v0/src/usb_ctrl_ep0.c.
use no2usb.Base.{ℕ, bit_or}
use no2usb.Hw.{Hw, set_ep, bd_rdy_data, bd_state_rdy_stall, ep_type_ctrl, ep_dt_bit}

abbrev pub ep0_pkt_len : ℕ
ep0_pkt_len = 64

-- The registers of endpoint 0.
abbrev pub in_csr : Hw → ℕ
in_csr hw = (hw.ep 0).inp.bd0.csr

abbrev pub out_csr : Hw → ℕ
out_csr hw = (hw.ep 0).out.bd0.csr

abbrev pub setup_csr : Hw → ℕ
setup_csr hw = (hw.ep 0).out.bd1.csr

unfoldable pub set_in_csr : ℕ → Hw → Hw
unfolding set_ep
set_in_csr v hw =
    let p = hw.ep 0 in
    set_ep 0 (record p { inp = record (p.inp) { bd0 = record (p.inp.bd0) { csr = v } } }) hw

unfoldable pub set_out_csr : ℕ → Hw → Hw
unfolding set_ep
set_out_csr v hw =
    let p = hw.ep 0 in
    set_ep 0 (record p { out = record (p.out) { bd0 = record (p.out.bd0) { csr = v } } }) hw

unfoldable pub set_setup_csr : ℕ → Hw → Hw
unfolding set_ep
set_setup_csr v hw =
    let p = hw.ep 0 in
    set_ep 0 (record p { out = record (p.out) { bd1 = record (p.out.bd1) { csr = v } } }) hw

unfoldable pub in_clear : Hw → Hw
unfolding set_in_csr
in_clear = set_in_csr 0

unfoldable pub in_queue_data : ℕ → Hw → Hw
unfolding set_in_csr
in_queue_data len = set_in_csr (bd_rdy_data len)

unfoldable pub in_queue_stall : Hw → Hw
unfolding set_in_csr
in_queue_stall = set_in_csr bd_state_rdy_stall

unfoldable pub out_clear : Hw → Hw
unfolding set_out_csr
out_clear = set_out_csr 0

unfoldable pub out_queue_data : Hw → Hw
unfolding set_out_csr
out_queue_data = set_out_csr (bd_rdy_data ep0_pkt_len)

unfoldable pub out_queue_stall : Hw → Hw
unfolding set_out_csr
out_queue_stall = set_out_csr bd_state_rdy_stall

unfoldable pub setup_queue_data : Hw → Hw
unfolding set_setup_csr
setup_queue_data = set_setup_csr (bd_rdy_data ep0_pkt_len)

-- `usb_ep0_setup_clear`, which nothing calls.
unfoldable pub setup_clear : Hw → Hw
unfolding set_setup_csr
setup_clear = set_setup_csr 0

-- `usb_ep_regs[0].in.status = USB_EP_TYPE_CTRL | USB_EP_DT_BIT;`
unfoldable pub set_in_dt : Hw → Hw
unfolding set_ep
set_in_dt hw =
    let p = hw.ep 0 in
    set_ep 0 (record p { inp = record (p.inp) { status = bit_or ep_type_ctrl ep_dt_bit } }) hw
