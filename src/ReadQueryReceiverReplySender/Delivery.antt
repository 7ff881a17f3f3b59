-- ===== src/ReadQueryReceiverReplySender/Delivery.antt =====
-- The receiving half delivers what it receives.
use services_backend.Common.{
  ℕ, ◌≡◌, refl, List, [], ◌∷◌, ◌++◌, Bytes, length, arith, Outcome, ok, inl, inr, Bool-cases,
  Option-cases, fault, All, is_empty, ap,
}
use services_backend.ZmqQuery.{ZmqQuery}
use services_backend.QueryBatch.{QueryBatch}
use services_backend.DataModel.{DataModel}
use services_backend.Receiver.{Input, Poll, Recv, place}
use services_backend.Receiver.Delivery.{
  Held, IsShort, Held-same, all_queries, delivered, round-Held,
}
use services_backend.ReadQueryReceiverReplySender.{
  ReplySender, SendInput, part_order, config, sender_thread, reads_on, OutPoll, writable, busy,
  out_interrupted, SendEnd, all_sent, send_failed, send_interrupted, send_threw, send_end,
  send_reply, fetch, next_reply, write,
}
use services_backend.ReadQueryReceiverReplySender.Replies.{pending, HasParts, write-Writes}

-- [client, topic, msg_id, query] is stored as [client, msg_id, topic, query].
abbrev pub arrange : Bytes → Bytes → Bytes → Bytes → List Bytes
arrange client topic id query = client ∷ id ∷ topic ∷ query ∷ []

pub place-arrange :
    (period size : ℕ) (a b c d : Bytes) (parts : List Bytes)
    → length parts ≡ 4
    → place (config period size).part_order 0 (a ∷ b ∷ c ∷ d ∷ []) parts ≡ arrange a b c d
unfolding place config part_order
place-arrange period size a b c d (w ∷ x ∷ y ∷ z ∷ []) h = refl
place-arrange period size a b c d parts h = ground arith

abbrev pub received : ℕ → ℕ → Poll → Recv → List ZmqQuery
received period size = delivered (config period size) arrange (place-arrange period size)

-- The writing half leaves the local batch and `read_msg_queue` as they are.
abbrev Keeps : ReplySender → DataModel → Outcome (ReplySender × DataModel) → Type 0
Keeps s d (ok r) =
    (r.0.receiver.make_new ≡ s.receiver.make_new)
    × (r.0.receiver.in_local_queue ≡ s.receiver.in_local_queue)
    × (r.1.read_msg_queue ≡ d.read_msg_queue)
Keeps s d (fault e) = Unit

fetch-Keeps :
    (bs : List QueryBatch) (s : ReplySender) (d : DataModel) → Keeps s d (ok (fetch bs s d))
unfolding fetch
fetch-Keeps [] s d = (refl, refl, refl)
fetch-Keeps (b ∷ bs) s d = (refl, refl, refl)

send_end-receiver :
    (en : SendEnd) (b : QueryBatch) (q : ZmqQuery) (s : ReplySender)
    → (send_end en b q s).receiver ≡ s.receiver
unfolding send_end
send_end-receiver all_sent b q s = refl
send_end-receiver (send_failed n) b q s = refl
send_end-receiver (send_interrupted n) b q s = refl
send_end-receiver (send_threw n) b q s = refl

send_reply-Keeps :
    (out : SendInput) (p : OutPoll) (s : ReplySender) (d : DataModel) (b : QueryBatch)
    (q : ZmqQuery)
    → out.out_polled ≡ p
    → Keeps s d (elim (send_reply out b q s) [ ok s' ↦ ok (s', d) | fault e ↦ fault e ])
unfolding send_reply
send_reply-Keeps out writable s d b q e =
    rw (e, send_reply)
      (elim (Bool-cases (is_empty q.parts)) [
        | inl bare ↦ rw bare tt
        | inr full ↦ rw (full, send_end-receiver out.send b q s) (refl, refl, refl)
      ])
send_reply-Keeps out busy s d b q e = rw (e, send_reply) (refl, refl, refl)
send_reply-Keeps out out_interrupted s d b q e = rw (e, send_reply) (refl, refl, refl)
send_reply-Keeps out p s d b q e = rw (e, send_reply) (refl, refl, refl)

write-Keeps : (out : SendInput) (s : ReplySender) (d : DataModel) → Keeps s d (write out s d)
unfolding write
write-Keeps out s d = elim (Option-cases (next_reply s.out_local_queue s.out_i)) [
  | inl e ↦ rw (e, write) (fetch-Keeps d.query_replies s d)
  | inr (found, e) ↦ rw (e, write) (send_reply-Keeps out out.out_polled s d found.0 found.1 refl)
]

-- If every reply that waits has a part, and a message that comes whole has at most four parts, then
-- one call of the thread does not fault, and loses no read query and makes none up: the queue
-- `read_msg_queue` and the complete queries of the local batch are after it what they were before,
-- followed by the message that the call received, if it came whole and in four parts. The pool gives
-- a batch with no queries.
pub sender_thread-Held :
    (period size : ℕ) (input : Input) (out : SendInput) (s : ReplySender) (d : DataModel)
    (fin : List ZmqQuery)
    → All HasParts (pending s d)
    → IsShort input.recv
    → input.get_new.queries ≡ []
    → Held s.receiver fin
    → (s' : ReplySender) × (d' : DataModel) × (fin' : List ZmqQuery) × (sender_thread period size
          input out s d
        ≡ ok (s', d'))
      × Held s'.receiver fin'
      × (all_queries d'.read_msg_queue ++ fin'
          ≡ (all_queries d.read_msg_queue ++ fin) ++ received period size input.polled input.recv)
unfolding sender_thread
sender_thread-Held period size input out s d fin full short fresh h =
    let (r, queue, fin', run, held, same) =
      round-Held (config period size) arrange (place-arrange period size) input s.receiver
        d.read_msg_queue fin short fresh h in
    let s1 = record s { receiver = r } in
    let d1 = record d { read_msg_queue = queue } in
    rw run (elim (Bool-cases (reads_on input.polled input.recv.ending)) [
      | inl on ↦
          let (s', d', done, tried) = write-Writes out s1 d1 full in
          let kept : Keeps s1 d1 (ok (s', d')) = rw done at (write-Keeps out s1 d1) in
          rw on (
            s',
            d',
            fin',
            done,
            Held-same r s'.receiver fin' kept.0 (ap (λ b. b.queries) kept.1) held,
            rw (kept.2) same,
          )
      | inr off ↦ rw off (s1, d1, fin', refl, held, same)
    ])
