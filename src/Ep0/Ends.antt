-- ===== src/Ep0/Ends.antt =====
-- `usb_ep0_poll` comes to an end within six rounds.
use no2usb.Base.{◌-◌, ◌≢◌, Run-cases, spin, inl, inr, arith}
use no2usb.Hw.{bd_len}
use no2usb.Hw.Data.{data_read}
use no2usb.Stack.{Usb}
use no2usb.Stack.Memory.{load-ends, store-ends}
use no2usb.Ep0.Regs.{out_csr}
use no2usb.Ep0.Transfer.{
  packet_len, fill_packet, handle_data_in, take_packet, store_packet, handle_data_out, when_data_in,
  when_data_out, handle_control_data,
}

module _ {A : Type 0} where
  data_in-ends : (s : Usb A) → handle_data_in s ≢ spin
  unfolding handle_data_in fill_packet
  data_in-ends s =
      ground (arith, load-ends s.xfer.bytes s.xfer.ofs (packet_len (s.xfer.len - s.xfer.ofs)) s)

  data_out-ends : (s : Usb A) → handle_data_out s ≢ spin
  unfolding handle_data_out take_packet store_packet
  data_out-ends s = ground (
    arith,
    store-ends s.xfer.bytes s.xfer.ofs (data_read s.hw.rx 0 (bd_len (out_csr s.hw) - 2)) s,
  )

  pub control_data-ends : (s : Usb A) → handle_control_data s ≢ spin
  unfolding handle_control_data when_data_in when_data_out
  control_data-ends s = elim (Run-cases (handle_data_in s)) [
    | inl (t, done) ↦ ground (arith, data_out-ends s, data_out-ends t)
    | inr (inl bad) ↦ ground (arith, data_out-ends s)
    | inr (inr bad) ↦ absurd (data_in-ends s bad)
  ]
