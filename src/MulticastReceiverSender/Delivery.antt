-- ===== src/MulticastReceiverSender/Delivery.antt =====
-- One call of the multicast thread.
use services_backend.Common.{
  ℕ, suc, ◌≡◌, refl, sym, ap, ◌∙◌, Option, none, some, List, [], ◌∷◌, ◌++◌, append_assoc,
  append-nil, Bytes, arith,
}
use services_backend.DataModel.{DataModel}
use services_backend.MulticastReceiverSender.{
  PortType, MulticastPort, PortPoll, readable, idle, negative, interrupted, threw, PortInput,
  transfer, poll_failed, receive, write, poll_on, port_thread,
}
use services_backend.MulticastReceiverSender.Halves.{
  concat, held, received, Attempt, waits, goes, fails_once, Passes, transfer-held, write-Writes,
  write-Receives,
}

not_polled :
    (port : PortType) (sent : Option ℕ) (s : MulticastPort) (d : DataModel) (s' : MulticastPort)
    → held s' d ≡ held s d
    → s'.msgs_rcvd ≡ s.msgs_rcvd
    → (s'.out_i ≡ s.out_i)
      × (s'.out_local_queue ≡ s.out_local_queue)
      × (s'.socket ≡ s.socket)
      × (s'.send_fails ≡ s.send_fails)
    → Passes port [] sent s s' d d
not_polled port sent s d s' e f (g, h, k, l) = record {
  incoming = e ∙ sym (append-nil (held s d));
  counted = omega (arith, f);
  outgoing = waits (rw (g, h) refl) k l;
}

read-Passes :
    (port : PortType) (sent : Option ℕ) (o : Option Bytes) (s : MulticastPort) (d : DataModel)
    → let r = write port sent (receive o s) d in Passes port (received readable o) sent s r.0 d r.1
unfolding receive
read-Passes port sent none s d =
    let s1 = receive none s in
    let w = write-Receives port sent s1 d in
    record {
      incoming = w.0 ∙ sym (append-nil (held s d));
      counted = omega (arith, w.1);
      outgoing = write-Writes port sent s1 d;
    }
read-Passes port sent (some text) s d =
    let s1 = receive (some text) s in
    let w = write-Receives port sent s1 d in
    record {
      incoming =
          w.0 ∙ sym (append_assoc (concat d.in_multicast_msg_queue) s.in_local_queue (text ∷ []));
      counted = omega (arith, w.1);
      outgoing = write-Writes port sent s1 d;
    }

poll_on-Passes :
    (port : PortType) (p : PortPoll) (input : PortInput) (s : MulticastPort) (d : DataModel)
    → let r = poll_on port p input s d in
      Passes port (received p input.received) input.sent s r.0 d r.1
unfolding poll_on poll_failed receive
poll_on-Passes port readable input s d = read-Passes port input.sent input.received s d
poll_on-Passes port idle input s d =
    let w = write-Receives port input.sent s d in
    record {
      incoming = w.0 ∙ sym (append-nil (held s d));
      counted = omega (arith, w.1);
      outgoing = write-Writes port input.sent s d;
    }
poll_on-Passes port negative input s d =
    not_polled port input.sent s d _ refl refl (refl, refl, refl, refl)
poll_on-Passes port interrupted input s d =
    not_polled port input.sent s d _ refl refl (refl, refl, refl, refl)
poll_on-Passes port threw input s d =
    not_polled port input.sent s d _ refl refl (refl, refl, refl, refl)

same_attempt :
    (sent : Option ℕ) {before before' after wire wire0 wire' : List Bytes} {fails fails0 fails' : ℕ}
    → before' ≡ before
    → wire0 ≡ wire
    → fails0 ≡ fails
    → Attempt sent before' after wire0 wire' fails0 fails'
    → Attempt sent before after wire wire' fails fails'
same_attempt sent e f g (waits h k l) = waits (h ∙ e) (k ∙ f) (l ∙ g)
same_attempt sent e f g (goes message n a h k l) =
    goes message n a (sym e ∙ h) (k ∙ ap (λ x. x ++ message ∷ []) f) (l ∙ g)
same_attempt sent e f g (fails_once message a h k l) =
    fails_once message a (sym e ∙ h) (k ∙ f) (l ∙ ap suc g)

-- One call of the multicast thread, for either port. What it received so far and did not hand to a
-- job yet, in the data model and in its own vector, stays as it is, in order, and gains the datagram
-- that the call receives, if it receives one, which is counted. Of the messages that wait to go out,
-- in its own vector and then in the data model, either none is tried, or the first is sent, or its
-- failure is counted and it is passed over; the others still wait, in order.
pub port_thread-Passes :
    (port : PortType) (period size : ℕ) (input : PortInput) (s : MulticastPort) (d : DataModel)
    → let r = port_thread port period size input s d in
      Passes port (received input.polled input.received) input.sent s r.0 d r.1
unfolding port_thread
port_thread-Passes port period size input s d =
    let t = transfer period size input s d in
    let moved = transfer-held period size input s d in
    let p = poll_on-Passes port input.polled input t.0 t.1 in
    record {
      incoming =
          p.incoming
          ∙ (rw (moved.0.incoming)
              (ap (λ x. x ++ received input.polled input.received) (append-nil (held s d))));
      counted = omega (arith, p.counted, moved.0.counted);
      outgoing =
          same_attempt input.sent (rw (moved.2, moved.3, moved.1 port) refl) moved.4 moved.5
            p.outgoing;
    }
