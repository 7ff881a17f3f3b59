-- ===== src/Tests/Receive.antt =====
-- WriteQueryReceiver at concrete inputs.
use services_backend.Common.{◌≡◌, refl, arith, true, false, List, [], ◌∷◌, ◌++◌, codes, ok}
use services_backend.ZmqQuery.{ZmqQuery}
use services_backend.QueryBatch.{QueryBatch}
use services_backend.DataModel.{DataModel}
use services_backend.Receiver.{Receiver, Input, readable, complete}
use services_backend.Receiver.Delivery.{Held, IsShort, finished, all_queries}
use services_backend.WriteQueryReceiver.{thread}
use services_backend.WriteQueryReceiver.Delivery.{received, thread-Held, thread-empty_batch}
use services_backend.Tests.Data.{query, batch, no_data}

abbrev stored : ZmqQuery
stored = query (codes "W_ALARM") (codes "{}")

abbrev receiver : Receiver
receiver = record {
  make_new = true;
  in_local_queue = batch (stored ∷ []);
  last_transfer = 100;
  running = true;
  polls_failed = 0;
  rcv_fails = 0;
  msgs_rcvd = 0;
  bad_msgs = 0;
  in_buffer_transfers = 0;
}

abbrev one_message : Input
one_message = record {
  now = 150;
  later = 151;
  get_new = batch [];
  polled = readable;
  recv = record {
    frames = codes "W_ALARM" ∷ codes "client" ∷ codes "id" ∷ codes "{}" ∷ [];
    ending = complete;
  };
}

message-IsShort : IsShort one_message.recv
message-IsShort e = omega arith

thread-Held_example :
    (r' : Receiver) × (d' : DataModel) × (fin' : List ZmqQuery) × (thread 10 100 one_message
        (receiver, no_data)
      ≡ ok (r', d'))
    × Held r' fin'
    × (all_queries d'.write_msg_queue ++ fin'
        ≡ (all_queries [] ++ stored ∷ []) ++ received 10 100 one_message.polled one_message.recv)
thread-Held_example =
    thread-Held 10 100 one_message receiver no_data (stored ∷ []) message-IsShort refl
      (finished refl refl)

abbrev unfinished : Receiver
unfinished = record receiver { make_new = false }

thread-empty_batch_example :
    (r' : Receiver) × (d' : DataModel) × (b : QueryBatch) × (thread 10 100 one_message
        (unfinished, no_data)
      ≡ ok (r', d'))
    × (d'.write_msg_queue ≡ [] ++ b ∷ [])
    × (b.queries ≡ [])
thread-empty_batch_example =
    thread-empty_batch 10 100 one_message unfinished no_data stored refl refl (omega arith)
      message-IsShort

abbrev long_message : Input
long_message = record one_message {
  recv = record { frames = [] ∷ [] ∷ [] ∷ [] ∷ [] ∷ []; ending = complete };
}
