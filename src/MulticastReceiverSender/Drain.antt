-- ===== src/MulticastReceiverSender/Drain.antt =====
-- Enough calls of the multicast thread send all messages that wait.
use services_backend.Common.{
  ℕ, suc, ◌+◌, ◌-◌, ◌≤◌, ◌≡◌, refl, sym, ◌∙◌, Option, none, some, List, [], ◌∷◌, ◌++◌, append_assoc,
  append-nil, Bytes, length, length-nil, get_elem?, drop, drop-next, drop-end, is_empty,
  is_empty-nil, All, arith, Bool-cases, inl, inr, Option-cases, if◌then◌else◌,
}
use services_backend.DataModel.{DataModel}
use services_backend.MulticastReceiverSender.{
  PortType, MulticastPort, PortPoll, readable, idle, negative, interrupted, threw, PortInput,
  out_queue, transfer, receive, send, fetch, write, poll_on, port_thread,
}
use services_backend.MulticastReceiverSender.Halves.{
  pending, Attempt, waits, goes, fails_once, transfer-held, emptied,
}
use services_backend.MulticastReceiverSender.Delivery.{port_thread-Passes}

-- A call in which the poll does not fail and the socket takes a message.
abbrev pub IsPolled : PortPoll → Type 0
IsPolled readable = Unit
IsPolled idle = Unit
IsPolled p = ⊥

abbrev pub IsReady : PortInput → Type 0
IsReady input = IsPolled input.polled × ((n : ℕ) × (input.sent ≡ some n))

-- One call for each message that waits, and one to fetch those of the data model.
abbrev pub calls_needed : PortType → MulticastPort → DataModel → ℕ
calls_needed port s d = length (pending port s d) + (if is_empty (out_queue port d) then 0 else 1)

-- Several calls, one after the other, with nothing new to send in between.
unfoldable pub run :
    PortType → ℕ → ℕ → List PortInput → MulticastPort → DataModel → MulticastPort × DataModel
run port period size [] s d = (s, d)
run port period size (x ∷ xs) s d =
    let r = port_thread port period size x s d in run port period size xs r.0 r.1

fetch-needed :
    (port : PortType) (s : MulticastPort) (d : DataModel)
    → drop s.out_i s.out_local_queue ≡ []
    → calls_needed port (fetch port s d).0 (fetch port s d).1 ≤ calls_needed port s d - 1
unfolding fetch
fetch-needed port s d e = elim (Bool-cases (is_empty (out_queue port d))) [
  | inl none_wait ↦
      let nothing = is_empty-nil (out_queue port d) none_wait in
      rw (none_wait, fetch) (rw (nothing, e) (omega arith))
  | inr some_wait ↦
      rw (some_wait, fetch) (rw (e, emptied port d, append-nil (out_queue port d)) (omega arith))
]

send-needed :
    (port : PortType) (n : ℕ) (message : Bytes) (s : MulticastPort) (d : DataModel)
    → drop s.out_i s.out_local_queue ≡ message ∷ drop (suc s.out_i) s.out_local_queue
    → calls_needed port (send (some n) message s) d ≤ calls_needed port s d - 1
unfolding send
send-needed port n message s d e = rw e (omega arith)

write-needed :
    (port : PortType) (n : ℕ) (s : MulticastPort) (d : DataModel)
    → let r = write port (some n) s d in calls_needed port r.0 r.1 ≤ calls_needed port s d - 1
unfolding write
write-needed port n s d = elim (Option-cases (get_elem? s.out_local_queue s.out_i)) [
  | inl e ↦ rw (e, write) (fetch-needed port s d (drop-end s.out_local_queue s.out_i e))
  | inr (message, e) ↦
      rw (e, write) (send-needed port n message s d (drop-next s.out_local_queue s.out_i message e))
]

receive-needed :
    (port : PortType) (o : Option Bytes) (s : MulticastPort) (d : DataModel)
    → calls_needed port (receive o s) d ≡ calls_needed port s d
unfolding receive
receive-needed port none s d = refl
receive-needed port (some text) s d = refl

poll_on-needed :
    (port : PortType) (p : PortPoll) (input : PortInput) (n : ℕ) (s : MulticastPort) (d : DataModel)
    → IsPolled p
    → input.sent ≡ some n
    → let r = poll_on port p input s d in calls_needed port r.0 r.1 ≤ calls_needed port s d - 1
unfolding poll_on
poll_on-needed port readable input n s d polled e = rw e (
    rw (← receive-needed port input.received s d)
      (write-needed port n (receive input.received s) d))
poll_on-needed port idle input n s d polled e = rw e (write-needed port n s d)
poll_on-needed port negative input n s d polled e = absurd polled
poll_on-needed port interrupted input n s d polled e = absurd polled
poll_on-needed port threw input n s d polled e = absurd polled

transfer-needed :
    (port : PortType) (period size : ℕ) (input : PortInput) (s : MulticastPort) (d : DataModel)
    → let t = transfer period size input s d in calls_needed port t.0 t.1 ≡ calls_needed port s d
transfer-needed port period size input s d =
    let moved = transfer-held period size input s d in rw (moved.2, moved.3, moved.1 port) refl

port_thread-needed :
    (port : PortType) (period size : ℕ) (input : PortInput) (s : MulticastPort) (d : DataModel)
    → IsReady input
    → let r = port_thread port period size input s d in
      calls_needed port r.0 r.1 ≤ calls_needed port s d - 1
unfolding port_thread
port_thread-needed port period size input s d ready =
    let t = transfer period size input s d in
    omega (
      arith,
      transfer-needed port period size input s d,
      poll_on-needed port input.polled input ready.1.0 t.0 t.1 ready.0 ready.1.1,
    )

-- A call whose send works loses nothing.
Attempt-kept :
    (n : ℕ) {sent : Option ℕ} {before after wire wire' : List Bytes} {fails fails' : ℕ}
    → sent ≡ some n
    → Attempt sent before after wire wire' fails fails'
    → wire' ++ after ≡ wire ++ before
Attempt-kept n e (waits a w f) = rw (a, w) refl
Attempt-kept n {after = after} {wire = wire} e (goes message k s b w f) =
    rw (b, w) (append_assoc wire (message ∷ []) after)
Attempt-kept n e (fails_once message s b w f) = cc

-- As many calls as messages wait, and one more if some of them wait in the data model, or more calls,
-- in which the poll does not fail and the socket takes a message, send every message that waits, each
-- once and in order; nothing waits then. Nothing new is queued in between.
pub run-drains :
    (port : PortType) (period size : ℕ) (xs : List PortInput) (s : MulticastPort) (d : DataModel)
    → All IsReady xs
    → calls_needed port s d ≤ length xs
    → let r = run port period size xs s d in
      (pending port r.0 r.1 ≡ []) × (r.0.socket ≡ s.socket ++ pending port s d)
unfolding run
run-drains port period size [] s d ready enough =
    let none_wait : pending port s d ≡ [] = length-nil (pending port s d) (omega arith) in
    (none_wait, rw none_wait (sym (append-nil s.socket)))
run-drains port period size (x ∷ xs) s d ready enough =
    let r = port_thread port period size x s d in
    let same =
      Attempt-kept ready.0.1.0 ready.0.1.1 (port_thread-Passes port period size x s d).outgoing in
    let fewer = port_thread-needed port period size x s d ready.0 in
    let (none_wait, sent) = run-drains port period size xs r.0 r.1 ready.1 (omega (arith, fewer)) in
    (none_wait, sent ∙ same)
