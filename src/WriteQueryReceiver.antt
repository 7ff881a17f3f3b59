-- ===== src/WriteQueryReceiver.antt =====
-- UserTools/WriteQueryReceiver/WriteQueryReceiver.cpp: the thread that receives write queries from
-- a SUB socket. The wait for the socket manager and the log lines are left out.
pub mod Delivery
use services_backend.Common.{ℕ, zero, suc, List, Outcome, ok, ◌>>=◌}
use services_backend.DataModel.{DataModel}
use services_backend.Receiver.{Receiver, ReceiverConfig, Input, round}

-- `part_order` {2,0,1,3}: the parts come as [topic, client, msg_id, query].
unfoldable pub part_order : ℕ → ℕ
part_order zero = 2
part_order (suc zero) = 0
part_order (suc (suc zero)) = 1
part_order (suc (suc (suc k))) = 3

-- `transfer_period_ms` and `local_buffer_size`.
unfoldable pub config : ℕ → ℕ → ReceiverConfig
unfolding part_order
config period size = record {
  transfer_period_ms = period;
  local_buffer_size = size;
  part_order = part_order;
}

-- `Thread`, one call.
unfoldable pub thread : ℕ → ℕ → Input → Receiver × DataModel → Outcome (Receiver × DataModel)
thread period size input (r, d) = round (config period size) input (r, d.write_msg_queue) >>= λ s.
    ok (s.0, record d { write_msg_queue = s.1 })
