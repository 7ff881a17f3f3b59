-- ===== src/MulticastReceiverSender.antt =====
-- UserTools/MulticastReceiverSender/MulticastReceiverSender.cpp: the thread that receives log and
-- monitoring messages by multicast and sends those that wait in the data model. The clock, the poll
-- and the calls on the socket are an argument; log lines are left out.
pub mod Halves
pub mod Delivery
pub mod Drain
use services_backend.Common.{
  ℕ, suc, ◌+◌, ◌-◌, Bool, true, false, Option, none, some, List, [], ◌∷◌, ◌++◌, Bytes, length,
  get_elem?, is_empty, not, ◌&&◌, ◌||◌, ltb, if◌then◌else◌,
}
use services_backend.DataModel.{DataModel}

-- `type_str`, which Initialise admits no other value of.
pub data PortType : Type 0 where
  logging_port monitoring_port : PortType

-- `MulticastReceive_args` and the counters. `socket` is what went out, message by message.
pub record MulticastPort : Type 0 where
  pub in_local_queue : List Bytes
  pub out_local_queue : List Bytes
  pub out_i : ℕ
  pub last_transfer : ℕ
  pub running : Bool
  pub polls_failed : ℕ
  pub rcv_fails : ℕ
  pub send_fails : ℕ
  pub msgs_rcvd : ℕ
  pub msgs_sent : ℕ
  pub bytes_received : ℕ
  pub bytes_sent : ℕ
  pub in_buffer_transfers : ℕ
  pub out_buffer_transfers : ℕ
  pub socket : List Bytes

-- `zmq::poll`: a datagram is there, none is, a negative result, an interrupt by a signal, or another
-- exception.
pub data PortPoll : Type 0 where
  readable idle negative interrupted threw : PortPoll

-- One call's input: two readings of the clock, the poll, what `recvfrom` writes (`none` if it returns
-- nothing or fails), and what `sendto` returns (`none` if that is negative).
pub record PortInput : Type 0 where
  pub now : ℕ
  pub later : ℕ
  pub polled : PortPoll
  pub received : Option Bytes
  pub sent : Option ℕ

-- `out_queue`
abbrev pub out_queue : PortType → DataModel → List Bytes
out_queue logging_port d = d.out_log_msg_queue
out_queue monitoring_port d = d.out_mon_msg_queue

abbrev pub with_out_queue : PortType → List Bytes → DataModel → DataModel
with_out_queue logging_port queue d = record d { out_log_msg_queue = queue }
with_out_queue monitoring_port queue d = record d { out_mon_msg_queue = queue }

unfoldable pub is_due : ℕ → ℕ → ℕ → MulticastPort → Bool
is_due period size now s =
    not (is_empty s.in_local_queue)
    && (ltb size (length s.in_local_queue) || ltb period (now - s.last_transfer))

-- "transfer to datamodel"
unfoldable pub transfer : ℕ → ℕ → PortInput → MulticastPort → DataModel → MulticastPort × DataModel
transfer period size input s d =
    if is_due period size input.now s
    then (
      record s {
        in_local_queue = [];
        last_transfer = input.later;
        in_buffer_transfers = s.in_buffer_transfers + 1;
      },
      record d { in_multicast_msg_queue = d.in_multicast_msg_queue ++ s.in_local_queue ∷ [] },
    )
    else (s, d)

-- Every failure of the poll but an interrupt stops the thread.
unfoldable pub poll_failed : PortPoll → MulticastPort → MulticastPort
poll_failed interrupted s = s
poll_failed p s = record s { polls_failed = s.polls_failed + 1; running = false }

-- "read", if there is a datagram.
unfoldable pub receive : Option Bytes → MulticastPort → MulticastPort
receive none s = record s { rcv_fails = s.rcv_fails + 1 }
receive (some text) s = record s {
  msgs_rcvd = s.msgs_rcvd + 1;
  bytes_received = s.bytes_received + length text;
  in_local_queue = s.in_local_queue ++ text ∷ [];
}

-- The message is passed over whether or not it could be sent.
unfoldable pub send : Option ℕ → Bytes → MulticastPort → MulticastPort
send none message s = record s { out_i = suc s.out_i; send_fails = s.send_fails + 1 }
send (some n) message s = record s {
  out_i = suc s.out_i;
  msgs_sent = s.msgs_sent + 1;
  bytes_sent = s.bytes_sent + n;
  socket = s.socket ++ message ∷ [];
}

-- "see if there are any in datamodel to grab"
unfoldable pub fetch : PortType → MulticastPort → DataModel → MulticastPort × DataModel
fetch port s d = if is_empty (out_queue port d) then (s, d) else (
  record s {
    out_local_queue = out_queue port d;
    out_i = 0;
    out_buffer_transfers = s.out_buffer_transfers + 1;
  },
  with_out_queue port [] d,
)

-- "write"
unfoldable pub write : PortType → Option ℕ → MulticastPort → DataModel → MulticastPort × DataModel
write port sent s d = elim (get_elem? s.out_local_queue s.out_i) [
  | some message ↦ (send sent message s, d)
  | none ↦ fetch port s d
]

-- From the poll on.
unfoldable pub poll_on :
    PortType → PortPoll → PortInput → MulticastPort → DataModel → MulticastPort × DataModel
poll_on port readable input s d = write port input.sent (receive input.received s) d
poll_on port idle input s d = write port input.sent s d
poll_on port p input s d = (poll_failed p s, d)

-- `Thread`, one call.
unfoldable pub port_thread :
    PortType → ℕ → ℕ → PortInput → MulticastPort → DataModel → MulticastPort × DataModel
port_thread port period size input s d =
    let r = transfer period size input s d in poll_on port input.polled input r.0 r.1

-- The queues that Finalise empties.
unfoldable pub finalise : PortType → DataModel → DataModel
finalise port d = with_out_queue port [] (record d { in_multicast_msg_queue = [] })
