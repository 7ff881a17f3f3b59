-- ===== src/Tests/Send.antt =====
-- ReadQueryReceiverReplySender at concrete inputs.
use services_backend.Common.{
  ◌≤◌, ◌≡◌, refl, arith, true, some, List, [], ◌∷◌, ◌++◌, codes, ok, All, length,
}
use services_backend.ZmqQuery.{ZmqQuery}
use services_backend.DataModel.{DataModel}
use services_backend.Receiver.{Input, readable, complete}
use services_backend.Receiver.Delivery.{Held, IsShort, finished, all_queries}
use services_backend.ReadQueryReceiverReplySender.{
  ReplySender, SendInput, writable, all_sent, sender_thread, reads_on,
}
use services_backend.ReadQueryReceiverReplySender.Delivery.{received, sender_thread-Held}
use services_backend.ReadQueryReceiverReplySender.Replies.{
  pending, HasParts, wire_state, Attempt, sender_thread-Attempt,
}
use services_backend.ReadQueryReceiverReplySender.Drain.{
  IsReady, calls_needed, run, wire_of, run-sends,
}
use services_backend.Tests.Data.{query, batch, no_data}

abbrev reply_a : ZmqQuery
reply_a = query (codes "1") (codes "{}")

abbrev reply_b : ZmqQuery
reply_b = query (codes "0") (codes "error")

abbrev sender : ReplySender
sender = record {
  receiver = record {
    make_new = true;
    in_local_queue = batch [];
    last_transfer = 100;
    running = true;
    polls_failed = 0;
    rcv_fails = 0;
    msgs_rcvd = 0;
    bad_msgs = 0;
    in_buffer_transfers = 0;
  };
  out_local_queue = some (batch (reply_a ∷ reply_a ∷ []));
  out_i = 1;
  send_fails = 0;
  msgs_sent = 0;
  out_buffer_transfers = 0;
  socket = [];
  unfinished = [];
}

abbrev with_replies : DataModel
with_replies = record no_data { query_replies = batch (reply_b ∷ []) ∷ [] }

abbrev a_query : Input
a_query = record {
  now = 105;
  later = 106;
  get_new = batch [];
  polled = readable;
  recv = record {
    frames = codes "client" ∷ codes "R_ALARM" ∷ codes "id" ∷ codes "select 1" ∷ [];
    ending = complete;
  };
}

abbrev sends_out : SendInput
sends_out = record { out_polled = writable; send = all_sent }

waiting_have_parts : All HasParts (pending sender with_replies)
unfolding all_queries
waiting_have_parts = (refl, (refl, tt))

query-IsShort : IsShort a_query.recv
query-IsShort e = omega arith

sender_thread-Attempt_example :
    (s' : ReplySender) × (d' : DataModel) × (sender_thread 10 100 a_query sends_out sender
        with_replies
      ≡ ok (s', d'))
    × Attempt sends_out
        (pending sender with_replies)
        (pending s' d')
        (wire_state sender)
        (wire_state s')
sender_thread-Attempt_example =
    sender_thread-Attempt 10 100 a_query sends_out sender with_replies waiting_have_parts
      query-IsShort

sender_thread-Held_example :
    (s' : ReplySender) × (d' : DataModel) × (fin' : List ZmqQuery) × (sender_thread 10 100 a_query
        sends_out sender with_replies
      ≡ ok (s', d'))
    × Held s'.receiver fin'
    × (all_queries d'.read_msg_queue ++ fin'
        ≡ (all_queries with_replies.read_msg_queue ++ [])
          ++ received 10 100 a_query.polled a_query.recv)
sender_thread-Held_example =
    sender_thread-Held 10 100 a_query sends_out sender with_replies [] waiting_have_parts
      query-IsShort refl (finished refl refl)

abbrev three_calls : List (Input × SendInput)
three_calls = (a_query, sends_out) ∷ (a_query, sends_out) ∷ (a_query, sends_out) ∷ []

calls-IsReady : All IsReady three_calls
unfolding reads_on
calls-IsReady =
    let now : IsReady (a_query, sends_out) = (refl, query-IsShort, refl, refl) in
    (now, (now, (now, tt)))

three_enough : calls_needed sender with_replies ≤ length three_calls
unfolding all_queries
three_enough = omega arith

run-sends_example :
    (s' : ReplySender) × (d' : DataModel) × (run 10 100 three_calls sender with_replies
      ≡ ok (s', d'))
    × (pending s' d' ≡ [])
    × (d'.query_replies ≡ [])
    × (s'.unfinished ≡ [])
    × (s'.socket ≡ sender.socket ++ wire_of (pending sender with_replies))
run-sends_example =
    run-sends 10 100 three_calls sender with_replies calls-IsReady waiting_have_parts refl
      three_enough
