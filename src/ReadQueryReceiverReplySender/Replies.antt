-- ===== src/ReadQueryReceiverReplySender/Replies.antt =====
-- Each reply is sent at most once, in the order in which the replies came.
use services_backend.Common.{
  ℕ, zero, suc, ◌+◌, ◌≡◌, refl, false, Option, none, some, List, [], ◌∷◌, ◌++◌, Bytes, arith,
  get_elem?, set, drop, take, pop_back, drop-next, drop-end, is_empty, All, Outcome, ok, fault, inl,
  inr, Option-cases, Bool-cases,
}
use services_backend.ZmqQuery.{ZmqQuery}
use services_backend.QueryBatch.{QueryBatch}
use services_backend.DataModel.{DataModel}
use services_backend.Receiver.{Input}
use services_backend.Receiver.Delivery.{all_queries, IsShort}
use services_backend.Receiver.Flush.{round-ok}
use services_backend.ReadQueryReceiverReplySender.{
  ReplySender, OutPoll, writable, busy, out_interrupted, SendEnd, all_sent, send_failed,
  send_interrupted, send_threw, SendInput, reads_on, sent_parts, send_end, send_reply, failed_poll,
  fetch, next_reply, write, sender_thread, config,
}

drop-set : (qs : List ZmqQuery) (i : ℕ) (v : ZmqQuery) → drop (suc i) (set qs i v) ≡ drop (suc i) qs
drop-set [] i v = refl
drop-set (x ∷ qs) zero v = refl
drop-set (x ∷ qs) (suc i) v = drop-set qs i v

-- The replies of the batch that are not sent yet.
abbrev pub waiting : Option QueryBatch → ℕ → List ZmqQuery
waiting none i = []
waiting (some b) i = drop i b.queries

-- All replies that are not sent yet, in order.
abbrev pub pending : ReplySender → DataModel → List ZmqQuery
pending s d = waiting s.out_local_queue s.out_i ++ all_queries d.query_replies

abbrev pub HasParts : ZmqQuery → Type 0
HasParts q = is_empty q.parts ≡ false

-- The messages that went out, and the parts of one that is not ended.
abbrev pub Wire : Type 0
Wire = List (List Bytes) × List Bytes

abbrev pub wire_state : ReplySender → Wire
wire_state s = (s.socket, s.unfinished)

-- A send that stops when `n` parts are sent.
pub data StopsAfter (n : ℕ) : SendEnd → Type 0 where
  at_failure : StopsAfter n (send_failed n)
  at_interrupt : StopsAfter n (send_interrupted n)
  at_exception : StopsAfter n (send_threw n)

-- What a call does to the replies `before` it, with what went out.
pub data Attempt (out : SendInput) (before after : List ZmqQuery) (wire wire' : Wire) : Type 0 where
  waits : after ≡ before → wire' ≡ wire → Attempt out before after wire wire'
  sent :
      (q : ZmqQuery)
      → out.out_polled ≡ writable
      → out.send ≡ all_sent
      → before ≡ q ∷ after
      → wire' ≡ (wire.0 ++ (wire.1 ++ q.parts) ∷ [], [])
      → Attempt out before after wire wire'
  lost :
      (q : ZmqQuery) (n : ℕ)
      → out.out_polled ≡ writable
      → StopsAfter n out.send
      → before ≡ q ∷ after
      → wire' ≡ (wire.0, wire.1 ++ take n (pop_back q.parts))
      → Attempt out before after wire wire'

pub next_reply-none : (o : Option QueryBatch) (i : ℕ) → next_reply o i ≡ none → waiting o i ≡ []
unfolding next_reply
next_reply-none none i h = refl
next_reply-none (some b) i h = elim (Option-cases (get_elem? b.queries i)) [
  | inl e ↦ drop-end b.queries i e
  | inr (q, e) ↦ ground arith
]

pub next_reply-some :
    (o : Option QueryBatch) (i : ℕ) (b : QueryBatch) (q : ZmqQuery)
    → next_reply o i ≡ some (b, q)
    → (o ≡ some b) × (drop i b.queries ≡ q ∷ drop (suc i) b.queries)
unfolding next_reply
next_reply-some none i b q h = ground arith
next_reply-some (some c) i b q h = elim (Option-cases (get_elem? c.queries i)) [
  | inl e ↦ ground arith
  | inr (r, e) ↦ ground (arith, drop-next c.queries i r e)
]

next_index : (i : ℕ) → i + 1 ≡ suc i
next_index i = omega arith

-- The replies that wait when a send has ended.
pub send_end-waiting :
    (en : SendEnd) (b : QueryBatch) (q : ZmqQuery) (s : ReplySender)
    → s.out_local_queue ≡ some b
    → waiting (send_end en b q s).out_local_queue (send_end en b q s).out_i
      ≡ drop (suc s.out_i) b.queries
unfolding send_end
send_end-waiting all_sent b q s h = rw (next_index s.out_i) (drop-set b.queries s.out_i _)
send_end-waiting en b q s h = rw (next_index s.out_i, h) refl

send_end-Attempt :
    (out : SendInput) (en : SendEnd) (b : QueryBatch) (q : ZmqQuery) (s : ReplySender)
    (before after : List ZmqQuery)
    → out.out_polled ≡ writable
    → out.send ≡ en
    → before ≡ q ∷ after
    → Attempt out before after (wire_state s) (wire_state (send_end en b q s))
unfolding send_end sent_parts
send_end-Attempt out all_sent b q s before after w e h = sent q w e h refl
send_end-Attempt out (send_failed n) b q s before after w e h = lost q n w (rw e at_failure) h refl
send_end-Attempt out (send_interrupted n) b q s before after w e h =
    lost q n w (rw e at_interrupt) h refl
send_end-Attempt out (send_threw n) b q s before after w e h = lost q n w (rw e at_exception) h refl

-- The outcome of `write`: no fault, and an attempt at the first reply.
abbrev pub Writes : SendInput → ReplySender → DataModel → Outcome (ReplySender × DataModel) → Type 0
Writes out s d r =
    (s' : ReplySender) × (d' : DataModel) × (r ≡ ok (s', d'))
    × Attempt out (pending s d) (pending s' d') (wire_state s) (wire_state s')

send_reply-Writes :
    (out : SendInput) (p : OutPoll) (s : ReplySender) (d : DataModel) (b : QueryBatch)
    (q : ZmqQuery)
    → out.out_polled ≡ p
    → s.out_local_queue ≡ some b
    → drop s.out_i b.queries ≡ q ∷ drop (suc s.out_i) b.queries
    → HasParts q
    → Writes out s d (elim (send_reply out b q s) [ ok s' ↦ ok (s', d) | fault e ↦ fault e ])
unfolding send_reply
send_reply-Writes out writable s d b q e h next full = (
  send_end out.send b q s,
  d,
  rw (e, send_reply) (rw full refl),
  send_end-Attempt out out.send b q s (pending s d) (pending (send_end out.send b q s) d) e refl
      (rw (send_end-waiting out.send b q s h) (rw (h, next) refl)),
)
send_reply-Writes out busy s d b q e h next full = (s, d, rw (e, send_reply) refl, waits refl refl)
send_reply-Writes out out_interrupted s d b q e h next full =
    (s, d, rw (e, send_reply) refl, waits refl refl)
send_reply-Writes out p s d b q e h next full =
    (failed_poll s, d, rw (e, send_reply) refl, waits refl refl)

-- Fetching a batch leaves the replies that wait as they are.
fetch-pending :
    (bs : List QueryBatch) (s : ReplySender) (d : DataModel)
    → bs ≡ d.query_replies
    → waiting s.out_local_queue s.out_i ≡ []
    → pending (fetch bs s d).0 (fetch bs s d).1 ≡ pending s d
unfolding fetch
fetch-pending [] s d e h = refl
fetch-pending (b ∷ bs) s d e h = rw (h, ← e) (unfold all_queries in refl)

fetch-wire :
    (bs : List QueryBatch) (s : ReplySender) (d : DataModel)
    → wire_state (fetch bs s d).0 ≡ wire_state s
unfolding fetch
fetch-wire [] s d = refl
fetch-wire (b ∷ bs) s d = refl

pub write-Writes :
    (out : SendInput) (s : ReplySender) (d : DataModel)
    → All HasParts (pending s d)
    → Writes out s d (write out s d)
unfolding write
write-Writes out s d full = elim (Option-cases (next_reply s.out_local_queue s.out_i)) [
  | inl e ↦ (
    (fetch d.query_replies s d).0,
    (fetch d.query_replies s d).1,
    rw (e, write) refl,
    waits (fetch-pending d.query_replies s d refl (next_reply-none s.out_local_queue s.out_i e))
        (fetch-wire d.query_replies s d),
  )
  | inr ((b, q), e) ↦
      let (h, next) = next_reply-some s.out_local_queue s.out_i b q e in
      let first : pending s d ≡ q ∷ (drop (suc s.out_i) b.queries ++ all_queries d.query_replies) =
        rw (h, next) refl in
      rw (e, write) (send_reply-Writes out out.out_polled s d b q refl h next (rw first at full).0)
]

-- If every reply that waits has a part, and a message that comes whole has at most four parts, then
-- one call of the thread does not fault, and the replies that wait after it are those that waited
-- before, or these without the first. The first reply leaves only when the socket is ready: if all of
-- its parts are sent they end a message, which begins with the parts that an earlier send left
-- unfinished, and if the send stops before the last part the reply is dropped, and the parts that were
-- sent are left unfinished behind these.
pub sender_thread-Attempt :
    (period size : ℕ) (input : Input) (out : SendInput) (s : ReplySender) (d : DataModel)
    → All HasParts (pending s d)
    → IsShort input.recv
    → (s' : ReplySender) × (d' : DataModel) × (sender_thread period size input out s d
        ≡ ok (s', d'))
      × Attempt out (pending s d) (pending s' d') (wire_state s) (wire_state s')
unfolding sender_thread
sender_thread-Attempt period size input out s d full short =
    let ((r, queue), run) =
      round-ok (config period size) input (s.receiver, d.read_msg_queue) short in
    let s' = record s { receiver = r } in
    let d' = record d { read_msg_queue = queue } in
    rw run (elim (Bool-cases (reads_on input.polled input.recv.ending)) [
      | inl on ↦ rw on (write-Writes out s' d' full)
      | inr off ↦ rw off (s', d', refl, waits refl refl)
    ])
