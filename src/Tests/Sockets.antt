-- ===== src/Tests/Sockets.antt =====
-- SocketManager at concrete inputs.
use services_backend.Common.{
  ◌≡◌, refl, true, none, some, List, [], ◌∷◌, Bytes, codes, bytes_eq, arith,
}
use services_backend.ResultWorkers.Reply.{find_config}
use services_backend.SocketManager.{
  Service, ManagedSocket, SocketManager, client_key, client_conn, emplace, append_conn, add_client,
  add_socket, rebuild, disconnect_client, disconnect_all_clients, execute,
}
use services_backend.SocketManager.Clients.{AreDifferent, after_sockets, find_config-rebuild}
use services_backend.SocketManager.Disconnect.{
  Dropped, disconnect_client-Dropped, execute-disconnect_all_clients,
}

abbrev service : Bytes → Bytes → Service
service name port = record {
  client_name = name;
  client_ip = codes "10.0.0.1";
  client_port = port;
  client_uuid = codes "u";
}

abbrev socket : Bytes → List (Bytes × Service) → ManagedSocket
socket port_name connections = record {
  remote_port_name = port_name;
  connections = connections;
  disconnects = [];
}

abbrev write_socket : ManagedSocket
write_socket = socket (codes "pub") (
    (codes "a", service (codes "pmt") (codes "1"))
    ∷ (codes "b", service (codes "hv") (codes "2"))
    ∷ [])

abbrev read_socket : ManagedSocket
read_socket = socket (codes "dlr") ((codes "a", service (codes "pmt") (codes "3")) ∷ [])

abbrev manager : SocketManager
manager = record {
  managed_sockets = (codes "w", write_socket) ∷ (codes "x", read_socket) ∷ [];
  new_clients = true;
  clientsmap = [];
  last_exec = 0;
  clients_shown = codes "old";
}

different : AreDifferent write_socket.connections
unfolding client_key
different = ((refl, tt), (tt, tt))

find_config-rebuild_example :
    find_config (codes "pmt[u]@10.0.0.1") (rebuild true manager.managed_sockets [])
    ≡ after_sockets (codes "pmt[u]@10.0.0.1") manager.managed_sockets none
find_config-rebuild_example =
    find_config-rebuild (codes "w") write_socket ((codes "x", read_socket) ∷ [])
      (codes "pmt[u]@10.0.0.1") different

two_connections :
    find_config (codes "pmt[u]@10.0.0.1") (rebuild true manager.managed_sockets [])
    ≡ some (codes "pub (1); dlr (3)")
unfolding find_config rebuild add_socket add_client emplace append_conn client_key client_conn
two_connections = refl

-- Two connections of one application to the first socket: the second is not in the list.
left_out :
    rebuild true
      ((
        codes "w",
        socket (codes "pub") (
            (codes "a", service (codes "pmt") (codes "1"))
            ∷ (codes "b", service (codes "pmt") (codes "2"))
            ∷ []),
      )
        ∷ [])
      []
    ≡ (codes "pmt[u]@10.0.0.1", codes "pub (1)") ∷ []
unfolding find_config rebuild add_socket add_client emplace append_conn client_key client_conn
left_out = refl

disconnect_client-Dropped_example :
    Dropped
      (λ c. bytes_eq c.client_name (codes "pmt"))
      manager.managed_sockets
      (disconnect_client (codes "pmt") manager).managed_sockets
    × ((disconnect_client (codes "pmt") manager).new_clients ≡ true)
disconnect_client-Dropped_example = disconnect_client-Dropped (codes "pmt") manager

execute-disconnect_all_clients_example :
    ((execute 1000 (disconnect_all_clients manager)).clientsmap ≡ [])
    × ((execute 1000 (disconnect_all_clients manager)).clients_shown ≡ codes "old")
execute-disconnect_all_clients_example = execute-disconnect_all_clients 1000 manager (omega arith)
