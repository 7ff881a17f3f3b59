-- ===== src/ReadQueryReceiverReplySender.antt =====
-- UserTools/ReadQueryReceiverReplySender/ReadQueryReceiverReplySender.cpp: the thread that receives
-- read queries from a ROUTER socket and sends the replies to read and write queries over it. The
-- waits for the socket manager, the pauses after a failed poll and the log lines are left out.
pub mod Delivery
pub mod Replies
pub mod Drain
use services_backend.Common.{
  ℕ, zero, suc, ◌+◌, Bool, true, false, Option, none, some, List, [], ◌∷◌, ◌++◌, Bytes, get_elem?,
  set, is_empty, take, pop_back, ◌>>=◌, if◌then◌else◌, Outcome, ok, fault, index_out_of_range,
}
use services_backend.ZmqQuery.{ZmqQuery}
use services_backend.QueryBatch.{QueryBatch}
use services_backend.DataModel.{DataModel}
use services_backend.Receiver.{
  Receiver, ReceiverConfig, Input, Poll, readable, idle, RecvEnd, recv_interrupted, round,
}

-- `part_order` {0,2,1,3}: the parts come as [client, topic, msg_id, query].
unfoldable pub part_order : ℕ → ℕ
part_order zero = 0
part_order (suc zero) = 2
part_order (suc (suc zero)) = 1
part_order (suc (suc (suc k))) = 3

-- `transfer_period_ms` and `local_buffer_size`.
unfoldable pub config : ℕ → ℕ → ReceiverConfig
unfolding part_order
config period size = record {
  transfer_period_ms = period;
  local_buffer_size = size;
  part_order = part_order;
}

-- The `_args` struct and its counters. `socket` is what went out over the socket, message by
-- message, and `unfinished` the parts that were sent with ZMQ_SNDMORE since the last message ended:
-- the next part that is sent continues their message.
pub record ReplySender : Type 0 where
  pub receiver : Receiver
  pub out_local_queue : Option QueryBatch
  pub out_i : ℕ
  pub send_fails : ℕ
  pub msgs_sent : ℕ
  pub out_buffer_transfers : ℕ
  pub socket : List (List Bytes)
  pub unfinished : List Bytes

-- The second `zmq::poll`: the socket takes a message, or not; a negative result; or an exception by
-- its errno.
pub data OutPoll : Type 0 where
  writable busy out_negative out_interrupted out_threw : OutPoll

-- How the loop over `send` ends: with all parts sent, or, when some have been sent, with a `send` that
-- fails or an exception.
pub data SendEnd : Type 0 where
  all_sent : SendEnd
  send_failed send_interrupted send_threw : ℕ → SendEnd

pub record SendInput : Type 0 where
  pub out_polled : OutPoll
  pub send : SendEnd

-- Whether the thread function goes on behind its reading half.
unfoldable pub reads_on : Poll → RecvEnd → Bool
reads_on readable recv_interrupted = false
reads_on readable e = true
reads_on idle e = true
reads_on p e = false

abbrev pub failed_poll : ReplySender → ReplySender
failed_poll s = record s {
  receiver = record (s.receiver) { polls_failed = s.receiver.polls_failed + 1 };
}

-- What went out of a message whose send did not end: its last part is not among it.
unfoldable pub sent_parts : ℕ → ZmqQuery → List Bytes
sent_parts n rep = take n (pop_back rep.parts)

-- The end of a send of the reply `rep`, the one at `out_i` of the batch `b`.
unfoldable pub send_end : SendEnd → QueryBatch → ZmqQuery → ReplySender → ReplySender
unfolding sent_parts
send_end all_sent b rep s = record s {
  out_local_queue = some (record b { queries = set b.queries s.out_i (record rep { parts = [] }) });
  out_i = s.out_i + 1;
  msgs_sent = s.msgs_sent + 1;
  socket = s.socket ++ (s.unfinished ++ rep.parts) ∷ [];
  unfinished = [];
}
send_end (send_interrupted n) b rep s = record s {
  out_i = s.out_i + 1;
  unfinished = s.unfinished ++ sent_parts n rep;
}
send_end (send_failed n) b rep s = record s {
  out_i = s.out_i + 1;
  send_fails = s.send_fails + 1;
  unfinished = s.unfinished ++ sent_parts n rep;
}
send_end (send_threw n) b rep s = record s {
  out_i = s.out_i + 1;
  send_fails = s.send_fails + 1;
  unfinished = s.unfinished ++ sent_parts n rep;
}

-- A reply without parts is read out of range, since `rep.size()-1` wraps.
unfoldable pub send_reply : SendInput → QueryBatch → ZmqQuery → ReplySender → Outcome ReplySender
send_reply input b rep s = elim input.out_polled [
  | writable ↦
      if is_empty rep.parts then fault index_out_of_range else ok (send_end input.send b rep s)
  | busy ↦ ok s
  | out_interrupted ↦ ok s
  | _ ↦ ok (failed_poll s)
]

-- The batch that was sent goes back to the pool, without its queries.
abbrev pub give_back : Option QueryBatch → List QueryBatch → List QueryBatch
give_back none pool = pool
give_back (some b) pool = record b { queries = [] } ∷ pool

-- "no responses to send - see if there's any in the DataModel"
unfoldable pub fetch : List QueryBatch → ReplySender → DataModel → ReplySender × DataModel
fetch [] s d = (s, d)
fetch (b ∷ bs) s d = (
  record s {
    out_local_queue = some b;
    out_i = 0;
    out_buffer_transfers = s.out_buffer_transfers + 1;
  },
  record d { query_replies = bs; querybatch_pool = give_back s.out_local_queue d.querybatch_pool },
)

-- The reply at `out_i`, with its batch, if there is one.
unfoldable pub next_reply : Option QueryBatch → ℕ → Option (QueryBatch × ZmqQuery)
next_reply none i = none
next_reply (some b) i = elim (get_elem? b.queries i) [ none ↦ none | some rep ↦ some (b, rep) ]

-- "write"
unfoldable pub write : SendInput → ReplySender → DataModel → Outcome (ReplySender × DataModel)
write input s d = elim (next_reply s.out_local_queue s.out_i) [
  | none ↦ ok (fetch d.query_replies s d)
  | some found ↦ elim (send_reply input found.0 found.1 s) [
    | ok s' ↦ ok (s', d)
    | fault e ↦ fault e
  ]
]

-- `Thread`, one call.
unfoldable pub sender_thread :
    ℕ → ℕ → Input → SendInput → ReplySender → DataModel → Outcome (ReplySender × DataModel)
sender_thread period size input out s d =
    round (config period size) input (s.receiver, d.read_msg_queue) >>= λ r.
    let s' = record s { receiver = r.0 } in
    let d' = record d { read_msg_queue = r.1 } in
    if reads_on input.polled input.recv.ending then write out s' d' else ok (s', d')
