-- ===== src/Receiver.antt =====
-- The receiving half of two threads, `WriteQueryReceiver::Thread` and
-- `ReadQueryReceiverReplySender::Thread`, which run the same code over different sockets: the
-- transfer of the local batch to the data model, the poll, and the receipt of one message.
-- The environment's part in one round (clock, pool, poll, socket) is an argument.
pub mod Parts
pub mod Delivery
pub mod Flush
use services_backend.Common.{
  ℕ, zero, suc, ◌+◌, ◌-◌, Bool, true, false, List, [], ◌∷◌, ◌++◌, Bytes, length, is_empty, set,
  resize, pop_back, ◌||◌, ltb, leb, ◌==◌, if◌then◌else◌, not, Outcome, ok, fault,
  index_out_of_range, ◌>>=◌,
}
use services_backend.ZmqQuery.{ZmqQuery, new_query}
use services_backend.QueryBatch.{QueryBatch}

-- The members of the two `_args` structs that the receiving half uses, and its counters.
pub record Receiver : Type 0 where
  pub make_new : Bool
  pub in_local_queue : QueryBatch
  pub last_transfer : ℕ
  pub running : Bool
  pub polls_failed : ℕ
  pub rcv_fails : ℕ
  pub msgs_rcvd : ℕ
  pub bad_msgs : ℕ
  pub in_buffer_transfers : ℕ

pub record ReceiverConfig : Type 0 where
  pub transfer_period_ms : ℕ
  pub local_buffer_size : ℕ
  pub part_order : ℕ → ℕ

-- `zmq::poll`: a message is there, none is, a negative result, or an exception by its errno.
pub data Poll : Type 0 where
  readable idle negative interrupted terminated threw : Poll

-- How the loop over `recv` ends: with a part that is the last, with a `recv` that fails, or with an
-- exception by its errno.
pub data RecvEnd : Type 0 where
  complete failed recv_interrupted recv_terminated recv_threw : RecvEnd

-- The parts that `recv` delivers in order, and the loop's end. A complete message has a part.
pub record Recv : Type 0 where
  pub frames : List Bytes
  pub ending : RecvEnd

-- One round's input: two readings of the clock, the batch that the pool gives, and the socket.
pub record Input : Type 0 where
  pub now : ℕ
  pub later : ℕ
  pub get_new : QueryBatch
  pub polled : Poll
  pub recv : Recv

unfoldable pub is_due : ReceiverConfig → ℕ → Receiver → Bool
is_due cfg now r =
    leb cfg.local_buffer_size (length r.in_local_queue.queries)
    || ltb cfg.transfer_period_ms (now - r.last_transfer)

-- The batch that is handed on: a query that is still being received is taken off.
unfoldable pub outgoing : Receiver → QueryBatch
outgoing r =
    if r.make_new
    then r.in_local_queue
    else record (r.in_local_queue) { queries = pop_back r.in_local_queue.queries }

-- "transfer to datamodel". `queue` is `write_msg_queue` or `read_msg_queue`.
unfoldable pub transfer :
    ReceiverConfig → Input → Receiver × List QueryBatch → Receiver × List QueryBatch
transfer cfg input (r, queue) =
    if is_due cfg input.now r
    then (if is_empty r.in_local_queue.queries
        then (record r { last_transfer = input.later }, queue)
        else (
          record r {
            in_local_queue = input.get_new;
            make_new = true;
            in_buffer_transfers = r.in_buffer_transfers + 1;
            last_transfer = input.later;
          },
          queue ++ outgoing r ∷ [],
        ))
    else (r, queue)

-- The poll's error paths; each returns from the thread function.
unfoldable pub poll_error : Poll → Receiver → Receiver
poll_error negative r = record r { polls_failed = r.polls_failed + 1 }
poll_error terminated r = record r { polls_failed = r.polls_failed + 1; running = false }
poll_error threw r = record r { polls_failed = r.polls_failed + 1 }
poll_error _ r = r

-- `part_order[std::min(3, k)]` for the parts from the `k`-th on.
unfoldable pub place : (ℕ → ℕ) → ℕ → List Bytes → List Bytes → List Bytes
place order k [] parts = parts
place order k (f ∷ fs) parts =
    place order (k + 1) fs (set parts (order (if ltb 3 k then 3 else k)) f)

abbrev pub update_back : (ZmqQuery → ZmqQuery) → List ZmqQuery → List ZmqQuery
update_back f [] = []
update_back f (q ∷ []) = f q ∷ []
update_back f (q ∷ p ∷ qs) = q ∷ update_back f (p ∷ qs)

unfoldable pub fill : ReceiverConfig → List Bytes → ZmqQuery → ZmqQuery
fill cfg frames q = record q { parts = place cfg.part_order 0 frames (resize 4 [] q.parts) }

-- The query that is received into stands last; a new one is made unless one was left unfinished.
unfoldable pub received_into : ReceiverConfig → List Bytes → Receiver → List ZmqQuery
unfolding fill
received_into cfg frames r =
    update_back (fill cfg frames)
      (if r.make_new then r.in_local_queue.queries ++ new_query ∷ [] else r.in_local_queue.queries)

-- "read": the receipt of one message. The parts of a message that has not four of them are logged
-- one by one, and `parts` has but four, so a fifth is read out of range.
unfoldable pub receive : ReceiverConfig → Recv → Receiver → Outcome Receiver
receive cfg v r =
    let r' = record r {
      make_new = false;
      in_local_queue = record (r.in_local_queue) { queries = received_into cfg v.frames r };
    } in
    elim v.ending [
      | complete ↦
          if length v.frames == 4
          then ok (record r' { make_new = true; msgs_rcvd = r.msgs_rcvd + 1 })
          else if ltb 4 (length v.frames)
          then fault index_out_of_range
          else ok (record r' { bad_msgs = r.bad_msgs + 1 })
      | failed ↦ ok (record r' { rcv_fails = r.rcv_fails + 1 })
      | recv_interrupted ↦ ok r'
      | recv_terminated ↦ ok (record r' { rcv_fails = r.rcv_fails + 1; running = false })
      | recv_threw ↦ ok (record r' { rcv_fails = r.rcv_fails + 1 })
    ]

-- Poll and receipt.
unfoldable pub poll_receive : ReceiverConfig → Input → Receiver → Outcome Receiver
poll_receive cfg input r = elim input.polled [
  | readable ↦ receive cfg input.recv r
  | idle ↦ ok r
  | other ↦ ok (poll_error other r)
]

unfoldable pub round :
    ReceiverConfig → Input → Receiver × List QueryBatch → Outcome (Receiver × List QueryBatch)
round cfg input s =
    let s' = transfer cfg input s in poll_receive cfg input s'.0 >>= λ r. ok (r, s'.1)
