-- ===== src/SocketManager.antt =====
-- UserTools/SocketManager/SocketManager.cpp: the list of connected clients that Execute keeps, the
-- thread that looks for new connections, and the slow controls that drop connections. The search
-- itself, `DAQUtilities::UpdateConnections`, is an argument. Restarts of the thread, the waits for the
-- locks and log lines are left out. The calls of `disconnect` are taken not to throw.
pub mod Clients
pub mod Disconnect
use services_backend.Common.{
  ℕ, ◌+◌, ◌-◌, Bool, true, false, Option, none, some, List, [], ◌∷◌, ◌++◌, map, Bytes, codes,
  length, is_empty, not, ◌||◌, ltb, ◌==◌, bytes_eq, bytes_lt, if◌then◌else◌,
}
use services_backend.ResultWorkers.Reply.{find_config}

-- A connection: what its store gives for "msg_value", "ip", "uuid" and the name of the remote port.
pub record Service : Type 0 where
  pub client_name : Bytes
  pub client_ip : Bytes
  pub client_port : Bytes
  pub client_uuid : Bytes

-- DataModel/ManagedSocket.h. `connections` is a `std::map`, so its keys are in order. `disconnects`
-- is what `socket->disconnect` was called with.
pub record ManagedSocket : Type 0 where
  pub remote_port_name : Bytes
  pub connections : List (Bytes × Service)
  pub disconnects : List Bytes

-- The members of the tool, `DataModel::managed_sockets`, and the slow control "Clients".
pub record SocketManager : Type 0 where
  pub managed_sockets : List (Bytes × ManagedSocket)
  pub new_clients : Bool
  pub clientsmap : List (Bytes × Bytes)
  pub last_exec : ℕ
  pub clients_shown : Bytes

-- "group by application"
unfoldable pub client_key : Service → Bytes
client_key c = c.client_name ++ codes "[" ++ c.client_uuid ++ codes "]@" ++ c.client_ip

unfoldable pub client_conn : Bytes → Service → Bytes
client_conn port_name c = port_name ++ codes " (" ++ c.client_port ++ codes ")"

-- `std::map::emplace`: a key that is there keeps its value.
unfoldable pub emplace : Bytes → Bytes → List (Bytes × Bytes) → List (Bytes × Bytes)
emplace key value [] = (key, value) ∷ []
emplace key value ((k, v) ∷ m) =
    if bytes_eq k key
    then (k, v) ∷ m
    else if bytes_lt key k
    then (key, value) ∷ (k, v) ∷ m
    else (k, v) ∷ emplace key value m

-- `it->second += "; "+client_conn`
unfoldable pub append_conn : Bytes → Bytes → List (Bytes × Bytes) → List (Bytes × Bytes)
append_conn key conn [] = []
append_conn key conn ((k, v) ∷ m) =
    if bytes_eq k key then (k, v ++ (codes "; " ++ conn)) ∷ m else (k, v) ∷ append_conn key conn m

-- One connection. The map is not searched while `first` holds.
unfoldable pub add_client : Bool → Bytes → Service → List (Bytes × Bytes) → List (Bytes × Bytes)
add_client true port_name c m = emplace (client_key c) (client_conn port_name c) m
add_client false port_name c m = elim (find_config (client_key c) m) [
  | none ↦ emplace (client_key c) (client_conn port_name c) m
  | some conns ↦ append_conn (client_key c) (client_conn port_name c) m
]

unfoldable pub add_socket :
    Bool → Bytes → List (Bytes × Service) → List (Bytes × Bytes) → List (Bytes × Bytes)
add_socket first port_name [] m = m
add_socket first port_name ((name, c) ∷ cs) m =
    add_socket first port_name cs (add_client first port_name c m)

-- The loop over the sockets; `first` is cleared behind the first of them.
unfoldable pub rebuild :
    Bool → List (Bytes × ManagedSocket) → List (Bytes × Bytes) → List (Bytes × Bytes)
rebuild first [] m = m
rebuild first ((name, sock) ∷ socks) m =
    rebuild false socks (add_socket first sock.remote_port_name sock.connections m)

unfoldable pub client_list : List (Bytes × Bytes) → Bytes → Bytes
client_list [] text = text
client_list ((k, v) ∷ m) text =
    client_list m ((if is_empty text then text else text ++ codes "\n") ++ (k ++ (codes ": " ++ v)))

-- `Execute`, at the time `now`, while the thread runs.
unfoldable pub execute : ℕ → SocketManager → SocketManager
execute now s =
    if ltb (now - s.last_exec) 1000
    then s
    else if s.new_clients
    then (let m = rebuild true s.managed_sockets [] in
        let text = client_list m [] in
        record s {
          last_exec = now;
          new_clients = false;
          clientsmap = m;
          clients_shown = if is_empty text then s.clients_shown else text;
        })
    else record s { last_exec = now }

-- What `UpdateConnections` gives for a socket: the connections that it leaves, and the number that it
-- returns.
pub record Update : Type 0 where
  pub connections : List (Bytes × Service)
  pub returned : ℕ

abbrev distance : ℕ → ℕ → ℕ
distance a b = (a - b) + (b - a)

-- One socket of the thread's loop. Whether `connections.size()` is read before or after the update is
-- not specified: `before` says it.
unfoldable pub update_socket : Bool → Update → ManagedSocket → ManagedSocket × Bool
update_socket before u sock =
    let size = length (if before then sock.connections else u.connections) in
    (record sock { connections = u.connections }, not (distance size u.returned == 0))

-- `Thread`, one call; the updates are found by the position of the socket.
unfoldable pub update_sockets :
    Bool → (ℕ → Update) → ℕ → List (Bytes × ManagedSocket) → List (Bytes × ManagedSocket) × Bool
update_sockets before u i [] = ([], false)
update_sockets before u i ((name, sock) ∷ socks) =
    let r = update_socket before (u i) sock in
    let rest = update_sockets before u (i + 1) socks in ((name, r.0) ∷ rest.0, r.1 || rest.1)

unfoldable pub socket_thread : Bool → (ℕ → Update) → SocketManager → SocketManager
socket_thread before u s =
    let r = update_sockets before u 0 s.managed_sockets in
    record s { managed_sockets = r.0; new_clients = r.1 || s.new_clients }

-- `ClearClients`
abbrev without_connections : Bytes × ManagedSocket → Bytes × ManagedSocket
without_connections (name, sock) = (name, record sock { connections = [] })

unfoldable pub clear_clients : SocketManager → SocketManager
clear_clients s = record s {
  managed_sockets = map without_connections s.managed_sockets;
  clientsmap = [];
}

unfoldable pub endpoint : Service → Bytes
endpoint c = codes "tcp://" ++ c.client_ip ++ codes ":" ++ c.client_port

-- The loop of the two functions below over the connections of a socket.
unfoldable pub disconnect : (Service → Bool) → List (Bytes × Service) → List Bytes → List Bytes
disconnect chosen [] calls = calls
disconnect chosen ((name, c) ∷ cs) calls =
    disconnect chosen cs (if chosen c then calls ++ endpoint c ∷ [] else calls)

-- Every socket forgets all of its connections, chosen or not.
unfoldable pub disconnect_sockets :
    (Service → Bool) → List (Bytes × ManagedSocket) → List (Bytes × ManagedSocket)
disconnect_sockets chosen [] = []
disconnect_sockets chosen ((name, sock) ∷ socks) =
    (
      name,
      record sock {
        disconnects = disconnect chosen sock.connections sock.disconnects;
        connections = [];
      },
    )
    ∷ disconnect_sockets chosen socks

-- `DisconnectAllClients`
unfoldable pub disconnect_all_clients : SocketManager → SocketManager
disconnect_all_clients s = record s {
  managed_sockets = disconnect_sockets (λ c. true) s.managed_sockets;
  new_clients = true;
}

-- `DisconnectClient`
unfoldable pub disconnect_client : Bytes → SocketManager → SocketManager
disconnect_client client s = record s {
  managed_sockets = disconnect_sockets (λ c. bytes_eq c.client_name client) s.managed_sockets;
  new_clients = true;
}
