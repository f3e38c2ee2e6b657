-- ===== src/Dcd/Reached.antt =====
-- What holds of the port, fw/tinyusb/dcd_no2usb.c, between the calls of the TinyUSB stack.
use no2usb.Hw.{Hw}
use no2usb.Dcd.State.{Dcd}
