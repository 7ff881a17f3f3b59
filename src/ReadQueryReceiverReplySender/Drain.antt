-- ===== src/ReadQueryReceiverReplySender/Drain.antt =====
-- Enough calls of the thread send all replies that wait.
use services_backend.Common.{
  ℕ, suc, ◌+◌, ◌-◌, ◌≤◌, ◌≡◌, refl, sym, ◌∙◌, true, some, List, [], ◌∷◌, ◌++◌, map, append_assoc,
  append-nil, Bytes, arith, drop, All, Outcome, ok, fault, inl, inr, Option-cases, length,
  length-nil, ◌>>=◌,
}
use services_backend.ZmqQuery.{ZmqQuery}
use services_backend.QueryBatch.{QueryBatch}
use services_backend.DataModel.{DataModel}
use services_backend.Receiver.{Input}
use services_backend.Receiver.Delivery.{all_queries, IsShort}
use services_backend.Receiver.Flush.{round-ok}
use services_backend.ReadQueryReceiverReplySender.{
  ReplySender, writable, all_sent, SendInput, reads_on, send_reply, fetch, next_reply, write,
  sender_thread, config,
}
use services_backend.ReadQueryReceiverReplySender.Replies.{
  waiting, pending, HasParts, Wire, wire_state, StopsAfter, Attempt, waits, sent, lost,
  next_reply-none, next_reply-some, send_end-waiting, sender_thread-Attempt,
}

-- A call in which the thread reaches its writing half, a message that comes whole has at most four
-- parts, and the socket takes a whole message.
abbrev pub IsReady : Input × SendInput → Type 0
IsReady x =
    (reads_on x.0.polled x.0.recv.ending ≡ true)
    × IsShort x.0.recv
    × (x.1.out_polled ≡ writable)
    × (x.1.send ≡ all_sent)

-- The calls that a thread needs: one for each reply that waits, and one for each batch to fetch.
abbrev pub calls_needed : ReplySender → DataModel → ℕ
calls_needed s d = length (pending s d) + length d.query_replies

abbrev needed_after : Outcome (ReplySender × DataModel) → ℕ
needed_after (ok r) = calls_needed r.0 r.1
needed_after (fault e) = 0

fetch-needed :
    (bs : List QueryBatch) (s : ReplySender) (d : DataModel)
    → bs ≡ d.query_replies
    → waiting s.out_local_queue s.out_i ≡ []
    → calls_needed (fetch bs s d).0 (fetch bs s d).1 ≤ calls_needed s d - 1
unfolding fetch
fetch-needed [] s d e h = rw (h, ← e) (unfold all_queries in omega arith)
fetch-needed (b ∷ bs) s d e h = rw (h, ← e) (unfold all_queries in omega arith)

send_reply-needed :
    (out : SendInput) (s : ReplySender) (d : DataModel) (b : QueryBatch) (q : ZmqQuery)
    → out.out_polled ≡ writable
    → s.out_local_queue ≡ some b
    → drop s.out_i b.queries ≡ q ∷ drop (suc s.out_i) b.queries
    → HasParts q
    → needed_after (elim (send_reply out b q s) [ ok s' ↦ ok (s', d) | fault e ↦ fault e ])
      ≤ calls_needed s d - 1
unfolding send_reply
send_reply-needed out s d b q w h next full =
    rw (w, send_reply) (rw full (rw (send_end-waiting out.send b q s h, h, next) (omega arith)))

write-needed :
    (out : SendInput) (s : ReplySender) (d : DataModel)
    → out.out_polled ≡ writable
    → All HasParts (pending s d)
    → needed_after (write out s d) ≤ calls_needed s d - 1
unfolding write
write-needed out s d w full = elim (Option-cases (next_reply s.out_local_queue s.out_i)) [
  | inl e ↦
      rw (e, write)
        (fetch-needed d.query_replies s d refl (next_reply-none s.out_local_queue s.out_i e))
  | inr ((b, q), e) ↦
      let (h, next) = next_reply-some s.out_local_queue s.out_i b q e in
      let first : pending s d ≡ q ∷ (drop (suc s.out_i) b.queries ++ all_queries d.query_replies) =
        rw (h, next) refl in
      rw (e, write) (send_reply-needed out s d b q w h next (rw first at full).0)
]

sender_thread-needed :
    (period size : ℕ) (x : Input × SendInput) (s : ReplySender) (d : DataModel)
    → IsReady x
    → All HasParts (pending s d)
    → needed_after (sender_thread period size x.0 x.1 s d) ≤ calls_needed s d - 1
unfolding sender_thread
sender_thread-needed period size x s d ready full =
    let (r, run) = round-ok (config period size) x.0 (s.receiver, d.read_msg_queue) ready.1 in
    rw (run) (
      rw (ready.0) (
        write-needed x.1 (record s { receiver = r.0 }) (record d { read_msg_queue = r.1 }) ready.2
          full))

-- Several calls, one after the other.
unfoldable pub run :
    ℕ → ℕ → List (Input × SendInput) → ReplySender → DataModel → Outcome (ReplySender × DataModel)
run period size [] s d = ok (s, d)
run period size (x ∷ xs) s d =
    sender_thread period size x.0 x.1 s d >>= λ r. run period size xs r.0 r.1

-- The messages of replies.
abbrev pub wire_of : List ZmqQuery → List (List Bytes)
wire_of qs = map (λ q. q.parts) qs

all_sent-stops : (n : ℕ) → StopsAfter n all_sent → ⊥
all_sent-stops n h = elim h [ ]

-- What a call that sends leaves: the replies that wait still have parts, no message is unfinished,
-- and what went out and what waits make up the same messages.
Attempt-kept :
    (out : SendInput) (before after : List ZmqQuery) (wire wire' : Wire)
    → out.send ≡ all_sent
    → wire.1 ≡ []
    → Attempt out before after wire wire'
    → All HasParts before
    → All HasParts after × (wire'.1 ≡ []) × (wire'.0 ++ wire_of after ≡ wire.0 ++ wire_of before)
Attempt-kept out before after wire wire' e clear (waits a w) full = rw (a, w) (full, clear, refl)
Attempt-kept out before after wire wire' e clear (sent q p se b w) full = (
  (rw b at full).1,
  rw w refl,
  rw (b, w, clear) (append_assoc wire.0 (q.parts ∷ []) (wire_of after)),
)
Attempt-kept out before after wire wire' e clear (lost q n p stops b w) full =
    absurd (all_sent-stops n (rw e at stops))

-- As many calls as there are waiting replies and batches to fetch, or more, in which the thread
-- reaches its writing half, a message that comes whole has at most four parts, and the socket takes a
-- whole message, do not fault and send every reply that waits, each as one message and in order;
-- nothing waits then. Every waiting reply has a part, and no earlier send left a message unfinished.
pub run-sends :
    (period size : ℕ) (xs : List (Input × SendInput)) (s : ReplySender) (d : DataModel)
    → All IsReady xs
    → All HasParts (pending s d)
    → s.unfinished ≡ []
    → calls_needed s d ≤ length xs
    → (s' : ReplySender) × (d' : DataModel) × (run period size xs s d ≡ ok (s', d'))
      × (pending s' d' ≡ [])
      × (d'.query_replies ≡ [])
      × (s'.unfinished ≡ [])
      × (s'.socket ≡ s.socket ++ wire_of (pending s d))
unfolding run
run-sends period size [] s d ready full clear enough =
    let waiting_none : pending s d ≡ [] = length-nil (pending s d) (omega arith) in
    (
      s,
      d,
      refl,
      waiting_none,
      length-nil d.query_replies (omega arith),
      clear,
      rw waiting_none (sym (append-nil s.socket)),
    )
run-sends period size (x ∷ xs) s d (now, later) full clear enough =
    let (s1, d1, first, tried) = sender_thread-Attempt period size x.0 x.1 s d full now.1 in
    let (full1, clear1, same) =
      Attempt-kept x.1 (pending s d) (pending s1 d1) (wire_state s) (wire_state s1) now.3 clear
        tried full in
    let fewer : calls_needed s1 d1 ≤ calls_needed s d - 1 =
      rw first at (sender_thread-needed period size x s d now full) in
    let (s2, d2, rest, none_wait, none_come, none_left, out) =
      run-sends period size xs s1 d1 later full1 clear1 (omega arith) in
    (s2, d2, rw first rest, none_wait, none_come, none_left, out ∙ same)
