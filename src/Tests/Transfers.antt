-- ===== src/Tests/Transfers.antt =====
-- Transfers on the control endpoint.
use no2usb.Base.{
  ℕ, suc, ◌/◌, ◌<◌, ◌≡◌, inr, refl, List, [], ◌∷◌, length, take, All, ok, fault, Returns, arith,
}
use no2usb.Hw.{bd_len, bd_state}
use no2usb.Hw.Data.{data_read, data_write, packet_bytes, data_copy}
use no2usb.Stack.{Usb, Services, success, data_out, ram, rom, no_callback, is_read}
use no2usb.Ep0.Transfer.{handle_control_data}
use no2usb.Ep0.Poll.{setup_begin, handle_setup}
use no2usb.Ep0.Host.{host_reads}
use no2usb.Ep0.Read.{Delivered}
use no2usb.Ep0.ReadRequest.{Answers, reply_len, handle_setup-Delivered}
use no2usb.Ep0.Write.{
  out_packet, Receives, Took, handle_control_data-Took, handle_control_data-overrun,
}
use no2usb.Std.Address.{out_csr-asked}
use no2usb.Tests.Fixture.{device, hw_with}

-- Four bytes for every request.
abbrev four : List ℕ
four = 1 ∷ 2 ∷ 3 ∷ 4 ∷ []

abbrev giving : Services Unit
giving = record {
  ctrl_req = λ r s. ok (
    success,
    record s { xfer = record { bytes = rom four; ofs = 0; len = 4; cb_done = no_callback } },
  );
  callback = λ c s. ok s;
}

abbrev reading : Usb Unit
reading = device (hw_with 0x8000 0 0 0x000001c0 0x00400000)

abbrev given_four : Usb Unit
given_four = record (setup_begin reading) {
  xfer = record { bytes = rom four; ofs = 0; len = 4; cb_done = no_callback };
}

four-Answers : Answers four given_four
unfolding setup_begin data_read is_read
four-Answers = record {
  read = refl;
  source = refl;
  start = refl;
  fits = omega arith;
  out = out_csr-asked reading;
}

four-small : All (λ b. b < 256) four
four-small = ground arith

handle_setup-Delivered_example :
    Returns
      (λ t.
        Returns
          (Delivered (take (reply_len given_four) four))
          (host_reads giving (suc (reply_len given_four / 64)) t))
      (handle_setup giving reading)
handle_setup-Delivered_example =
    handle_setup-Delivered giving four reading given_four four-small refl four-Answers

-- A packet of four bytes at an offset of the endpoint's buffer.
abbrev writing : ℕ → Usb Unit
writing ofs = record (device (hw_with 0x4000 0x8006 0 0 0)) {
  ctrl_state = data_out;
  xfer = record { bytes = ram 0; ofs = ofs; len = 64; cb_done = no_callback };
}

writing-Receives : (ofs : ℕ) → Receives 0 (writing ofs)
unfolding bd_len bd_state
writing-Receives ofs = record { state = refl; done = refl; checksum = omega arith; into = refl }

length-out_packet : (ofs : ℕ) → length (out_packet (writing ofs)) ≡ 4
unfolding out_packet bd_len data_read
length-out_packet ofs = refl

handle_control_data-Took_example :
    Returns (Took 0 (out_packet (writing 8)) (writing 8)) (handle_control_data (writing 8))
handle_control_data-Took_example =
    handle_control_data-Took 0 (writing 8) (writing-Receives 8) (omega (arith, length-out_packet 8))

handle_control_data-overrun_example : handle_control_data (writing 62) ≡ fault
handle_control_data-overrun_example =
    handle_control_data-overrun 0 (writing 62) (writing-Receives 62) (omega arith)
      (omega (arith, length-out_packet 62))

data_copy_example :
    (packet_bytes (data_write (λ n. 0) 64 four) 64 4 ≡ four)
    × (data_write (λ n. 0) 64 four 17 ≡ 0)
    × (data_read (λ n. 0x04030201) 64 6 ≡ 1 ∷ 2 ∷ 3 ∷ 4 ∷ 1 ∷ 2 ∷ [])
data_copy_example = data_copy (λ n. 0) (λ n. 0x04030201) 64 6 four 17 four-small (inr (omega arith))
