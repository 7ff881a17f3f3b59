-- ===== src/Receiver/Flush.antt =====
-- When the local batch is handed on, and with what, and when a round faults.
use services_backend.Common.{
  ℕ, ◌-◌, ◌<◌, ◌≡◌, refl, true, false, List, [], ◌∷◌, ◌++◌, arith, is_empty, ok, fault,
  index_out_of_range, ◌≤◌, ◌==◌, ltb, Bytes, length, Bool-cases, inl, inr,
}
use services_backend.ZmqQuery.{ZmqQuery}
use services_backend.QueryBatch.{QueryBatch}
use services_backend.Receiver.{
  Receiver, ReceiverConfig, Input, is_due, outgoing, transfer, Poll, readable, RecvEnd, complete,
  receive, poll_receive, round,
}
use services_backend.Receiver.Delivery.{IsShort}

pub is_due-late :
    (cfg : ReceiverConfig) (now : ℕ) (r : Receiver)
    → cfg.transfer_period_ms < now - r.last_transfer
    → is_due cfg now r ≡ true
unfolding is_due
is_due-late cfg now r h = ground arith

-- The receipt of a message that has not too many parts does not fault.
receive-ok :
    (cfg : ReceiverConfig) (fs : List Bytes) (en : RecvEnd) (r : Receiver)
    → (en ≡ complete → length fs ≤ 4)
    → (r' : Receiver) × (receive cfg (record { frames = fs; ending = en }) r ≡ ok r')
unfolding receive
receive-ok cfg fs complete r short = elim (Bool-cases (length fs == 4)) [
  | inl four ↦ rw four (_, refl)
  | inr other ↦
      let within : ltb 4 (length fs) ≡ false = ground (arith, short refl) in
      rw (other, within) (_, refl)
]
receive-ok cfg fs en r short = (_, refl)

poll_receive-ok :
    (cfg : ReceiverConfig) (input : Input) (p : Poll) (r : Receiver)
    → input.polled ≡ p
    → IsShort input.recv
    → (r' : Receiver) × (poll_receive cfg input r ≡ ok r')
unfolding poll_receive
poll_receive-ok cfg input readable r e short =
    rw (e, poll_receive) (receive-ok cfg input.recv.frames input.recv.ending r short)
poll_receive-ok cfg input p r e short = rw (e, poll_receive) (_, refl)

-- A round that receives no message with too many parts does not fault.
pub round-ok :
    (cfg : ReceiverConfig) (input : Input) (s : Receiver × List QueryBatch)
    → IsShort input.recv
    → (s' : Receiver × List QueryBatch) × (round cfg input s ≡ ok s')
unfolding round
round-ok cfg input s short =
    let (r', run) = poll_receive-ok cfg input input.polled (transfer cfg input s).0 refl short in
    ((r', (transfer cfg input s).1), rw run refl)

transfer-due :
    (cfg : ReceiverConfig) (input : Input) (r : Receiver) (queue : List QueryBatch)
    → is_due cfg input.now r ≡ true
    → is_empty r.in_local_queue.queries ≡ false
    → (transfer cfg input (r, queue)).1 ≡ queue ++ outgoing r ∷ []
unfolding transfer
transfer-due cfg input r queue due some = rw (due, some)

-- A local batch of one query that is still being received is handed on with no query at all, once
-- the transfer period has passed.
pub round-empty_batch :
    (cfg : ReceiverConfig) (input : Input) (r : Receiver) (queue : List QueryBatch) (q : ZmqQuery)
    → r.make_new ≡ false
    → r.in_local_queue.queries ≡ q ∷ []
    → cfg.transfer_period_ms < input.now - r.last_transfer
    → IsShort input.recv
    → (r' : Receiver) × (b : QueryBatch) × (round cfg input (r, queue) ≡ ok (r', queue ++ b ∷ []))
      × (b.queries ≡ [])
unfolding round
round-empty_batch cfg input r queue q m e late short =
    let (r', run) =
      poll_receive-ok cfg input input.polled (transfer cfg input (r, queue)).0 refl short in
    let out : (transfer cfg input (r, queue)).1 ≡ queue ++ outgoing r ∷ [] =
      transfer-due cfg input r queue (is_due-late cfg input.now r late) (rw e) in
    (r', outgoing r, rw (run, out) refl, unfold outgoing in rw (m, outgoing) (rw e refl))

-- The log of a message with more than four parts reads past the end of the parts.
pub round-long_message :
    (cfg : ReceiverConfig) (input : Input) (r : Receiver) (queue : List QueryBatch)
    → input.polled ≡ readable
    → input.recv.ending ≡ complete
    → 4 < length input.recv.frames
    → round cfg input (r, queue) ≡ fault index_out_of_range
unfolding round
round-long_message cfg input r queue p e long =
    let five : (length input.recv.frames == 4) ≡ false = ground arith in
    let over : ltb 4 (length input.recv.frames) ≡ true = ground arith in
    let ends : poll_receive cfg input (transfer cfg input (r, queue)).0 ≡ fault index_out_of_range =
      unfold poll_receive receive in
      rw (p, poll_receive) (rw (e, receive) (rw (five, over) refl)) in
    rw ends refl
