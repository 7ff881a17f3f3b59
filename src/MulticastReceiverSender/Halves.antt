-- ===== src/MulticastReceiverSender/Halves.antt =====
-- What the two halves of a call of the multicast thread do to the messages that come in and go out.
use services_backend.Common.{
  ℕ, suc, ◌+◌, ◌≡◌, refl, sym, ap, Option, none, some, List, [], ◌∷◌, ◌++◌, append_assoc,
  append-nil, Bytes, length, get_elem?, drop, drop-next, drop-end, is_empty, arith, Bool-cases, inl,
  inr, Option-cases,
}
use services_backend.DataModel.{DataModel}
use services_backend.MulticastReceiverSender.{
  PortType, logging_port, monitoring_port, MulticastPort, PortPoll, readable, PortInput, out_queue,
  with_out_queue, is_due, transfer, send, fetch, write,
}

-- The messages of vectors of messages, in order.
unfoldable pub concat : List (List Bytes) → List Bytes
concat [] = []
concat (m ∷ ms) = m ++ concat ms

pub concat-snoc : (ms : List (List Bytes)) (m : List Bytes) → concat (ms ++ m ∷ []) ≡ concat ms ++ m
unfolding concat
concat-snoc [] m = append-nil m
concat-snoc (n ∷ ms) m = rw (concat-snoc ms m) (sym (append_assoc n (concat ms) m))

-- The messages that came in and are not with a job yet.
abbrev pub held : MulticastPort → DataModel → List Bytes
held s d = concat d.in_multicast_msg_queue ++ s.in_local_queue

-- What a call receives.
abbrev pub received : PortPoll → Option Bytes → List Bytes
received readable (some text) = text ∷ []
received p o = []

-- The messages that are still to go out.
abbrev pub pending : PortType → MulticastPort → DataModel → List Bytes
pending port s d = drop s.out_i s.out_local_queue ++ out_queue port d

-- The outgoing half of a call: either nothing is tried, or the first message that waits is sent, or
-- it fails and is passed over.
pub data Attempt (sent : Option ℕ) (before after wire wire' : List Bytes) (fails fails' : ℕ)
    : Type 0 where
  waits :
      after ≡ before
      → wire' ≡ wire
      → fails' ≡ fails
      → Attempt sent before after wire wire' fails fails'
  goes :
      (message : Bytes) (n : ℕ)
      → sent ≡ some n
      → before ≡ message ∷ after
      → wire' ≡ wire ++ message ∷ []
      → fails' ≡ fails
      → Attempt sent before after wire wire' fails fails'
  fails_once :
      (message : Bytes)
      → sent ≡ none
      → before ≡ message ∷ after
      → wire' ≡ wire
      → fails' ≡ suc fails
      → Attempt sent before after wire wire' fails fails'

pub same_out :
    (d : DataModel) (queue : List (List Bytes)) (port : PortType)
    → out_queue port (record d { in_multicast_msg_queue = queue }) ≡ out_queue port d
same_out d queue logging_port = refl
same_out d queue monitoring_port = refl

-- One call: what came in before and what is received now is held, in order; what waits to go out is
-- tried one message at a time, in order, each once.
pub record Passes (port : PortType) (texts : List Bytes) (sent : Option ℕ) (s s' : MulticastPort)
    (d d' : DataModel) : Type 0 where
  pub incoming : held s' d' ≡ held s d ++ texts
  pub counted : s'.msgs_rcvd ≡ s.msgs_rcvd + length texts
  pub outgoing :
      Attempt sent
        (pending port s d)
        (pending port s' d')
        s.socket
        s'.socket
        s.send_fails
        s'.send_fails

-- The outgoing half of a call.
abbrev pub Writes :
    PortType → Option ℕ → MulticastPort → DataModel → MulticastPort × DataModel → Type 0
Writes port sent s d r =
    Attempt sent (pending port s d) (pending port r.0 r.1) s.socket r.0.socket s.send_fails
      r.0.send_fails

-- The incoming half: what came in with `texts`.
pub record Receives (texts : List Bytes) (s s' : MulticastPort) (d d' : DataModel) : Type 0 where
  pub incoming : held s' d' ≡ held s d ++ texts
  pub counted : s'.msgs_rcvd ≡ s.msgs_rcvd + length texts

pub transfer-held :
    (period size : ℕ) (input : PortInput) (s : MulticastPort) (d : DataModel)
    → let r = transfer period size input s d in
      Receives [] s r.0 d r.1
      × ((port : PortType) → out_queue port r.1 ≡ out_queue port d)
      × (r.0.out_local_queue ≡ s.out_local_queue)
      × (r.0.out_i ≡ s.out_i)
      × (r.0.socket ≡ s.socket)
      × (r.0.send_fails ≡ s.send_fails)
unfolding transfer
transfer-held period size input s d = elim (Bool-cases (is_due period size input.now s)) [
  | inl e ↦ rw e (
    record {
      incoming = ap (λ x. x ++ []) (concat-snoc d.in_multicast_msg_queue s.in_local_queue);
      counted = omega arith;
    },
    same_out d _,
    refl,
    refl,
    refl,
    refl,
  )
  | inr e ↦ rw e (
    record { incoming = sym (append-nil (held s d)); counted = omega arith },
    λ port. refl,
    refl,
    refl,
    refl,
    refl,
  )
]

pub emptied : (port : PortType) (d : DataModel) → out_queue port (with_out_queue port [] d) ≡ []
emptied logging_port d = refl
emptied monitoring_port d = refl

pub fetch-Writes :
    (port : PortType) (sent : Option ℕ) (s : MulticastPort) (d : DataModel)
    → drop s.out_i s.out_local_queue ≡ []
    → Writes port sent s d (fetch port s d)
unfolding fetch
fetch-Writes port sent s d e = elim (Bool-cases (is_empty (out_queue port d))) [
  | inl none_wait ↦ rw none_wait (waits refl refl refl)
  | inr some_wait ↦
      rw some_wait (waits (rw (e, emptied port d) (append-nil (out_queue port d))) refl refl)
]

send-Writes :
    (port : PortType) (sent : Option ℕ) (message : Bytes) (s : MulticastPort) (d : DataModel)
    → drop s.out_i s.out_local_queue ≡ message ∷ drop (suc s.out_i) s.out_local_queue
    → Writes port sent s d (send sent message s, d)
unfolding send
send-Writes port none message s d e = fails_once message refl (rw e refl) refl (omega arith)
send-Writes port (some n) message s d e = goes message n refl (rw e refl) refl refl

pub write-Writes :
    (port : PortType) (sent : Option ℕ) (s : MulticastPort) (d : DataModel)
    → Writes port sent s d (write port sent s d)
unfolding write
write-Writes port sent s d = elim (Option-cases (get_elem? s.out_local_queue s.out_i)) [
  | inl e ↦ rw (e, write) (fetch-Writes port sent s d (drop-end s.out_local_queue s.out_i e))
  | inr (message, e) ↦
      rw (e, write)
        (send-Writes port sent message s d (drop-next s.out_local_queue s.out_i message e))
]

-- The incoming half is not touched by the outgoing one.
same_held :
    (port : PortType) (s : MulticastPort) (d : DataModel)
    → held s (with_out_queue port [] d) ≡ held s d
same_held logging_port s d = refl
same_held monitoring_port s d = refl

pub send-held :
    (sent : Option ℕ) (message : Bytes) (s : MulticastPort) (d : DataModel)
    → (held (send sent message s) d ≡ held s d) × ((send sent message s).msgs_rcvd ≡ s.msgs_rcvd)
unfolding send
send-held none message s d = (refl, refl)
send-held (some n) message s d = (refl, refl)

pub write-Receives :
    (port : PortType) (sent : Option ℕ) (s : MulticastPort) (d : DataModel)
    → (held (write port sent s d).0 (write port sent s d).1 ≡ held s d)
      × ((write port sent s d).0.msgs_rcvd ≡ s.msgs_rcvd)
unfolding write fetch
write-Receives port sent s d = elim (Option-cases (get_elem? s.out_local_queue s.out_i)) [
  | inl e ↦ elim (Bool-cases (is_empty (out_queue port d))) [
    | inl none_wait ↦ rw (e, write) (rw (none_wait, fetch) (refl, refl))
    | inr some_wait ↦ rw (e, write) (rw (some_wait, fetch) (same_held port s d, refl))
  ]
  | inr (message, e) ↦ rw (e, write) (send-held sent message s d)
]
