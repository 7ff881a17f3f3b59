-- ===== src/WriteQueryReceiver/Delivery.antt =====
-- The write receiver delivers what it receives, and hands an empty batch on in one case.
use services_backend.Common.{
  ℕ, ◌-◌, ◌<◌, ◌≡◌, refl, false, List, [], ◌∷◌, ◌++◌, Bytes, length, arith, ok,
}
use services_backend.ZmqQuery.{ZmqQuery}
use services_backend.QueryBatch.{QueryBatch}
use services_backend.DataModel.{DataModel}
use services_backend.Receiver.{Receiver, Input, Poll, Recv, place}
use services_backend.Receiver.Delivery.{Held, IsShort, all_queries, delivered, round-Held}
use services_backend.Receiver.Flush.{round-empty_batch}
use services_backend.WriteQueryReceiver.{part_order, config, thread}

-- [topic, client, msg_id, query] is stored as [client, msg_id, topic, query].
abbrev pub arrange : Bytes → Bytes → Bytes → Bytes → List Bytes
arrange topic client id query = client ∷ id ∷ topic ∷ query ∷ []

pub place-arrange :
    (period size : ℕ) (a b c d : Bytes) (parts : List Bytes)
    → length parts ≡ 4
    → place (config period size).part_order 0 (a ∷ b ∷ c ∷ d ∷ []) parts ≡ arrange a b c d
unfolding place config part_order
place-arrange period size a b c d [] h = ground arith
place-arrange period size a b c d (w ∷ []) h = ground arith
place-arrange period size a b c d (w ∷ x ∷ []) h = ground arith
place-arrange period size a b c d (w ∷ x ∷ y ∷ []) h = ground arith
place-arrange period size a b c d (w ∷ x ∷ y ∷ z ∷ []) h = refl
place-arrange period size a b c d (w ∷ x ∷ y ∷ z ∷ v ∷ vs) h = ground arith

-- The query of a round: for the parts [topic, client, msg_id, query] it is stored as
-- [client, msg_id, topic, query].
abbrev pub received : ℕ → ℕ → Poll → Recv → List ZmqQuery
received period size = delivered (config period size) arrange (place-arrange period size)

-- One call of the thread does not fault if a message that comes whole has at most four parts. It
-- loses no query and makes none up: the queue `write_msg_queue` and the complete queries of the local
-- batch are after it what they were before, followed by the message that the call received, if it
-- came whole and in four parts. The local batch stays in order. The pool gives a batch with no
-- queries.
pub thread-Held :
    (period size : ℕ) (input : Input) (r : Receiver) (d : DataModel) (fin : List ZmqQuery)
    → IsShort input.recv
    → input.get_new.queries ≡ []
    → Held r fin
    → (r' : Receiver) × (d' : DataModel) × (fin' : List ZmqQuery) × (thread period size input (r, d)
        ≡ ok (r', d'))
      × Held r' fin'
      × (all_queries d'.write_msg_queue ++ fin'
          ≡ (all_queries d.write_msg_queue ++ fin) ++ received period size input.polled input.recv)
unfolding thread
thread-Held period size input r d fin short fresh h =
    let (r', queue', fin', done, held, same) =
      round-Held (config period size) arrange (place-arrange period size) input r d.write_msg_queue
        fin short fresh h in
    (r', record d { write_msg_queue = queue' }, fin', rw done refl, held, same)

-- If the local batch holds nothing but a query whose receipt failed, the transfer period has passed,
-- and a message that comes whole has at most four parts, then the thread puts a batch with no queries
-- at the end of `write_msg_queue`.
pub thread-empty_batch :
    (period size : ℕ) (input : Input) (r : Receiver) (d : DataModel) (q : ZmqQuery)
    → r.make_new ≡ false
    → r.in_local_queue.queries ≡ q ∷ []
    → period < input.now - r.last_transfer
    → IsShort input.recv
    → (r' : Receiver) × (d' : DataModel) × (b : QueryBatch) × (thread period size input (r, d)
        ≡ ok (r', d'))
      × (d'.write_msg_queue ≡ d.write_msg_queue ++ b ∷ [])
      × (b.queries ≡ [])
unfolding thread
thread-empty_batch period size input r d q m e late short =
    let (r', b, run, bare) =
      round-empty_batch (config period size) input r d.write_msg_queue q m e (unfold config in late)
        short in
    (r', record d { write_msg_queue = d.write_msg_queue ++ b ∷ [] }, b, rw run refl, refl, bare)
