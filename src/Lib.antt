-- ===== src/Lib.antt =====
-- The no2usb firmware stack, fw/v0: a USB device stack for the no2usb core.
--
-- The firmware keeps one global state, `g_usb`, and talks to the core through its registers and a
-- packet memory. `usb_poll` looks at the bus state, handles a bus reset, suspend and resume, counts
-- frames, and polls the control endpoint; `usb_ep0_poll` runs control transfers there, and asks a
-- chain of drivers for the answer to each request. The last driver of the chain answers the standard
-- requests. The model has a module for each part:
--
--   * Base: shared names, tests on numbers, lists measured by native numbers, tables for bit masks,
--     and `Run`, the outcome of C code: a value, undefined behaviour (`fault`), or a loop that was
--     given too few rounds (`spin`).
--   * Hw: the registers, fw/v0/include/no2usb/usb_hw.h; Hw.Data: `usb_data_write` and
--     `usb_data_read` of fw/v0/src/usb.c.
--   * Desc: the search through descriptors, `usb_desc_find`, `usb_desc_next`, `usb_desc_find_intf`.
--   * Stack: `struct usb_stack` and its types, fw/v0/include/no2usb/usb_priv.h, usb.h and usb_proto.h;
--     Stack.Memory: accesses through a transfer's pointer.
--   * Ep0: the control endpoint, fw/v0/src/usb_ctrl_ep0.c: Regs, Transfer and Poll are the code; Host
--     is the other side of the bus; the other modules are proofs.
--   * Driver: the chain of drivers and its dispatch functions, fw/v0/src/usb.c.
--   * Ep: the endpoints other than the control endpoint, `usb_ep_halt` to `usb_ep_boot`; Settings is a
--     configuration by its interfaces' settings, which the proofs about `usb_ep_boot` compare with.
--   * Device: `usb_init`, `usb_poll`, `usb_set_state`, `usb_connect`, `usb_disconnect`, the bus reset.
--   * Std: the standard requests, fw/v0/src/usb_ctrl_std.c: Status, Config and Handle are the code.
--   * Dfu: the driver for firmware updates, fw/v0/src/usb_dfu.c, and its vendor requests,
--     fw/v0/src/usb_dfu_vendor.c.
--   * DfuRt: the run-time part of firmware updates, fw/v0/src/usb_dfu_rt.c.
--   * Msos20: the driver for Microsoft OS 2.0 descriptors, fw/v0/src/usb_msos20.c.
--   * Dcd: the port for the TinyUSB stack, fw/tinyusb/dcd_no2usb.c: State, Memory, Transfer, Device
--     and Endpoint are the code; Stream is a transfer to the host as steps of the core and of the
--     port, Calls the stack's calls of the port with the core's work between them, and the other
--     modules are proofs.
--   * Proto: the protocol headers beside usb.h. Layout says what a structure is and which bytes an
--     object of it has; Usb, Ac, AcStreams, Vc, VcStreams and Cdc are the headers' structures, Codes
--     their enumerations and Requests their requests; the other modules are proofs.
--   * Tests: the theorems at concrete inputs.
--
-- A function of the source that changes the state is a function from the state to a `Run` of it, or
-- to the state where nothing can go wrong. Bytes and register words are natural numbers; a counter
-- that wraps around has `% 2 ^ 32` written out. A pointer to a transfer's bytes is null, a constant
-- descriptor or a buffer by its number; a pointer into a configuration is an offset into its bytes.
-- The port moves the bytes of a transfer between addresses of memory, which is a map of bytes there.
-- An access outside of an object is a fault. Callbacks of drivers, and of the flash, are parameters.
--
-- Loops have fuel. `desc_find` is given `eod - sod + 1` rounds and the walks over interfaces one round
-- for each byte of the configuration and one more, which is enough when every descriptor has a
-- length of at least 2. Each loop of the port has 4 rounds: a round uses up one of two
-- descriptors, and so the third one stops, on an endpoint whose indices are in order. `ep0_poll` runs
-- on a list of what the hardware does before each round, and within a round the registers stand
-- still.
--
-- Not modelled: log and debug output; and the core itself, rtl, whose effect on the registers is
-- stated where it is used.
pub mod Base
pub mod Hw
pub mod Desc
pub mod Stack
pub mod Ep0
pub mod Driver
pub mod Ep
pub mod Device
pub mod Std
pub mod Dfu
pub mod Dcd
pub mod Msos20
pub mod DfuRt
pub mod Proto
pub mod Tests
