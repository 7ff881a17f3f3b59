-- ===== src/Tests/Port.antt =====
-- MulticastReceiverSender at concrete inputs.
use services_backend.Common.{◌≡◌, refl, true, none, some, [], ◌∷◌, codes, arith}
use services_backend.DataModel.{DataModel}
use services_backend.MulticastReceiverSender.{
  logging_port, MulticastPort, readable, idle, PortInput, port_thread, transfer, is_due, poll_on,
  receive, write, send,
}
use services_backend.MulticastReceiverSender.Halves.{pending, Passes}
use services_backend.MulticastReceiverSender.Delivery.{port_thread-Passes}
use services_backend.MulticastReceiverSender.Drain.{run, run-drains}
use services_backend.Tests.Data.{no_data}

abbrev port : MulticastPort
port = record {
  in_local_queue = codes "L1" ∷ [];
  out_local_queue = codes "old" ∷ codes "next" ∷ [];
  out_i = 1;
  last_transfer = 100;
  running = true;
  polls_failed = 0;
  rcv_fails = 0;
  send_fails = 0;
  msgs_rcvd = 1;
  msgs_sent = 1;
  bytes_received = 2;
  bytes_sent = 3;
  in_buffer_transfers = 0;
  out_buffer_transfers = 1;
  socket = [];
}

abbrev with_logs : DataModel
with_logs = record no_data { out_log_msg_queue = codes "log" ∷ [] }

abbrev datagram : PortInput
datagram = record {
  now = 130;
  later = 131;
  polled = readable;
  received = some (codes "L2");
  sent = some 4;
}

abbrev quiet : PortInput
quiet = record { now = 132; later = 133; polled = idle; received = none; sent = some 3 }

port_thread-Passes_example :
    let r = port_thread logging_port 20 100 datagram port with_logs in
    Passes logging_port (codes "L2" ∷ []) (some 4) port r.0 with_logs r.1
port_thread-Passes_example = port_thread-Passes logging_port 20 100 datagram port with_logs

run-drains_example :
    let r = run logging_port 20 100 (datagram ∷ quiet ∷ quiet ∷ []) port with_logs in
    (pending logging_port r.0 r.1 ≡ []) × (r.0.socket ≡ codes "next" ∷ codes "log" ∷ [])
run-drains_example =
    run-drains logging_port 20 100 (datagram ∷ quiet ∷ quiet ∷ []) port with_logs
      ((tt, (4, refl)), ((tt, (3, refl)), ((tt, (3, refl)), tt))) (omega arith)

-- The vector that is due is handed on before the datagram is received.
handed_on :
    (port_thread logging_port 20 100 datagram port with_logs).1.in_multicast_msg_queue
    ≡ (codes "L1" ∷ []) ∷ []
unfolding port_thread transfer is_due poll_on receive write send
handed_on = refl
