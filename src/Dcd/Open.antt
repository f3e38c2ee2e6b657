-- ===== src/Dcd/Open.antt =====
-- An endpoint that `dcd_edpt_open` sets up is one that transfers to the host can use.
use no2usb.Base.{
  ℕ, ◌+◌, ◌*◌, ◌%◌, ◌<◌, ◌≤◌, ◌^◌, ◌≡◌, ◌==◌, lt→ltb, refl, Bool, true, false, if◌then◌else◌, [],
  some, ok, inr, arith,
}
use no2usb.Hw.{bd_len, ep_type_bulk, set_ep}
use no2usb.Hw.Words.{bd_state-zero}
use no2usb.Dcd.State.{dir_in, no_ep, Dcd, TinyUsb, bd_at, put_regs, put_state}
use no2usb.Dcd.Transfer.{View, view}
use no2usb.Dcd.Device.{hw_buf_alloc}
use no2usb.Dcd.Endpoint.{
  EndpointDesc, type_of, opened_regs, opened_state, open_typed, dcd_edpt_open,
}
use no2usb.Dcd.Slots.{ready, InSync}
use no2usb.Dcd.Copy.{Apart}
use no2usb.Dcd.Stream.{Line}
use no2usb.Dcd.Stream.Turn.{IsTurn, InTurn}

-- The endpoint of the port's state, of which the host has received nothing.
abbrev pub line_of : {A : Type 0} → ℕ → Dcd A → Line A
line_of n s = record { view = view n dir_in s; bdi = false; sent = [] }

-- The port's memory can hold two buffers more, each of whole words.
pub record HasRoom {A : Type 0} (mps : ℕ) (s : Dcd A) : Type 0 where
  pub mps_pos : 0 < mps
  pub mps_max : mps < 1024
  pub whole : mps % 4 ≡ 0
  pub aligned : s.mem_in % 4 ≡ 0
  pub room : s.mem_in + 2 * mps < 2 ^ 16
  pub bytes : (k : ℕ) → s.ram k < 256

module _ {A : Type 0} (n type mps : ℕ) (s : Dcd A) (h : HasRoom mps s) where
  opened : Dcd A
  unfolding open_typed
  opened = open_typed n dir_in type mps s

  opened-eps : (view n dir_in opened).eps ≡ record no_ep { mps = mps; dual = type == ep_type_bulk }
  unfolding opened open_typed hw_buf_alloc put_state put_regs opened_state set_ep
  opened-eps = ground arith

  opened-regs :
      (view n dir_in opened).regs
      ≡ opened_regs dir_in type mps s.mem_in
          (if type == ep_type_bulk then s.mem_in + mps else 0)
          (type == ep_type_bulk)
          (s.hw.ep n).inp
  unfolding opened open_typed hw_buf_alloc put_state put_regs opened_state opened_regs set_ep
  opened-regs = ground (arith, h.room)

  opened-mem : (opened.mem_in % 4 ≡ 0) × (opened.ram ≡ s.ram)
  unfolding opened open_typed hw_buf_alloc put_state put_regs
  opened-mem = ground (arith, h.room, h.aligned, h.whole)

  abbrev view_of : Bool → View A
  view_of dual = record {
    regs =
        opened_regs dir_in type mps s.mem_in (if dual then s.mem_in + mps else 0) dual
          (s.hw.ep n).inp;
    eps = record no_ep { mps = mps; dual = dual };
    tx = s.hw.tx;
    rx = s.hw.rx;
    ram = s.ram;
    app = s.app;
  }

  view-opened : view n dir_in opened ≡ view_of (type == ep_type_bulk)
  unfolding opened open_typed hw_buf_alloc put_state put_regs
  view-opened = ground (arith, opened-eps, opened-regs)

  in_order :
      (dual : Bool)
      → InSync dual false false (view_of dual).regs × InTurn dual false false (view_of dual).regs
  unfolding opened_regs
  in_order false = ((refl, refl), (refl, refl))
  in_order true = (refl, refl)

  unused :
      (dual i : Bool)
      → ready (view_of dual).regs i ≡ true
      → bd_len (bd_at i (view_of dual).regs).csr ≤ mps
  unfolding opened_regs
  unused dual false r = ground (arith, bd_state-zero, r)
  unused dual true r = ground (arith, bd_state-zero, r)

  apart :
      (dual : Bool)
      → dual ≡ true
      → Apart (view_of dual).regs.bd0.ptr mps (view_of dual).regs.bd1.ptr mps
  unfolding opened_regs
  apart false d = ground (arith, d)
  apart true d = inr (omega (arith, h.whole, h.aligned))

  view_of-IsTurn : (dual : Bool) → IsTurn (record { view = view_of dual; bdi = false; sent = [] })
  unfolding opened_regs
  view_of-IsTurn dual = record {
    line = record {
      mps_pos = h.mps_pos;
      mps_max = h.mps_max;
      bytes = h.bytes;
      sync = (in_order dual).0;
      fits = unused dual;
      apart = apart dual;
      ofs = omega arith;
      len = omega arith;
      null = λ e. (refl, refl);
    };
    turn = (in_order dual).1;
    states = (ground (arith, bd_state-zero), ground (arith, bd_state-zero));
  }

  -- `dcd_edpt_open` for a direction to the host.
  open_typed-IsTurn : IsTurn (line_of n opened)
  open_typed-IsTurn = rw view-opened (view_of-IsTurn (type == ep_type_bulk))

  pub open_typed-ready :
      IsTurn (line_of n (open_typed n dir_in type mps s))
      × ((open_typed n dir_in type mps s).mem_in % 4 ≡ 0)
  unfolding opened
  open_typed-ready = (open_typed-IsTurn, opened-mem.0)

-- Where the memory for two more buffers is there, and buffers start at whole words and are made of
-- whole words, `dcd_edpt_open` for a direction to the host and a type that is supported succeeds,
-- and leaves an endpoint that transfers to the host can use, with nothing queued and its buffers
-- apart from each other; the next buffer starts at a whole word again.
pub dcd_edpt_open-IsTurn :
    {A : Type 0} (tu : TinyUsb A) (d : EndpointDesc) (s : Dcd A) (type : ℕ)
    → type_of d.xfer ≡ some type
    → tu.edpt_number d.endpoint_address < 16
    → tu.edpt_dir d.endpoint_address ≡ dir_in
    → HasRoom d.max_packet_size s
    → (t : Dcd A) × (dcd_edpt_open tu d s ≡ ok (true, t))
      × IsTurn (line_of (tu.edpt_number d.endpoint_address) t)
      × (t.mem_in % 4 ≡ 0)
unfolding dcd_edpt_open
dcd_edpt_open-IsTurn tu d s type e n dir h =
    let mps = d.max_packet_size in
    let num = tu.edpt_number d.endpoint_address in
    let (turn, mem) = open_typed-ready num type mps s h in
    (open_typed num dir_in type mps s, rw e (rw dir (rw (lt→ltb num 16 n) refl)), turn, mem)
