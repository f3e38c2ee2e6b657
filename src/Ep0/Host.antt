-- ===== src/Ep0/Host.antt =====
-- The host's side of a control transfer, as changes that the core makes to its registers.
use no2usb.Base.{ℕ, zero, suc, ◌≡◌, ◌⊎◌, false, List, [], ◌∷◌, Run, ok, ◌>>=◌, arith}
use no2usb.Hw.{Hw, bd_state, bd_len, bd_state_done_ok}
use no2usb.Hw.Data.{data_read}
use no2usb.Stack.{Usb, Services, data_in, status_done_out}
use no2usb.Ep0.Regs.{in_csr, out_csr, setup_csr, set_in_csr}
use no2usb.Ep0.Poll.{state_stage, status_out_stage, event_stage, ep0_round, ep0_poll}

-- The hardware has changed nothing.
abbrev pub quiet : Hw → Hw
quiet hw = hw

-- The host has taken the packet that was queued for it.
unfoldable pub ack_in : Hw → Hw
unfolding set_in_csr
ack_in = set_in_csr bd_state_done_ok

-- The packet that the core would send.
unfoldable pub in_packet : {A : Type 0} → Usb A → List ℕ
in_packet s = data_read s.hw.tx 0 (bd_len (in_csr s.hw))

-- The host takes `n` packets, and the endpoint is polled behind each.
unfoldable pub host_reads : {A : Type 0} → Services A → ℕ → Usb A → Run (List (List ℕ) × Usb A)
unfolding ack_in in_packet
host_reads sv zero s = ok ([], s)
host_reads sv (suc n) s = do
  t ← ep0_poll sv (ack_in ∷ quiet ∷ []) s
  (ps, u) ← host_reads sv n t
  ok (in_packet s ∷ ps, u)

-- Nothing is to be done: no descriptor is used, and no stall has to be set again.
pub record IsQuiet {A : Type 0} (s : Usb A) : Type 0 where
  pub state : (s.ctrl_state ≡ data_in) ⊎ (s.ctrl_state ≡ status_done_out)
  pub setup : bd_state (setup_csr s.hw) ≡ 0x4000
  pub inp : bd_state (in_csr s.hw) ≡ 0x4000
  pub out : (bd_state (out_csr s.hw) ≡ 0) ⊎ (bd_state (out_csr s.hw) ≡ 0x4000)

pub ep0_round-quiet :
    {A : Type 0} (sv : Services A) (s : Usb A) → IsQuiet s → ep0_round sv s ≡ ok (false, s)
unfolding ep0_round state_stage status_out_stage event_stage
ep0_round-quiet sv s q = ground arith
