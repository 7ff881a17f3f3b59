-- ===== src/SocketManager/Disconnect.antt =====
-- What the slow controls that drop connections leave.
use services_backend.Common.{
  ℕ, ◌+◌, ◌-◌, ◌≤◌, ◌≡◌, refl, ◌∙◌, Bool, true, false, List, [], ◌∷◌, ◌++◌, append_assoc,
  append-nil, sym, Bytes, bytes_eq, ltb, arith, Bool-cases, inl, inr, if◌then◌else◌,
}
use services_backend.SocketManager.{
  Service, ManagedSocket, SocketManager, endpoint, disconnect, disconnect_sockets,
  disconnect_all_clients, disconnect_client, add_socket, rebuild, client_list, execute,
}

-- The endpoints of the connections that are chosen.
unfoldable pub chosen_endpoints : (Service → Bool) → List (Bytes × Service) → List Bytes
chosen_endpoints chosen [] = []
chosen_endpoints chosen ((name, c) ∷ cs) =
    (if chosen c then endpoint c ∷ [] else []) ++ chosen_endpoints chosen cs

disconnect-calls :
    (chosen : Service → Bool) (cs : List (Bytes × Service)) (calls : List Bytes)
    → disconnect chosen cs calls ≡ calls ++ chosen_endpoints chosen cs
unfolding disconnect chosen_endpoints
disconnect-calls chosen [] calls = sym (append-nil calls)
disconnect-calls chosen ((name, c) ∷ cs) calls = elim (Bool-cases (chosen c)) [
  | inl e ↦ rw e (
      disconnect-calls chosen cs (calls ++ endpoint c ∷ [])
      ∙ append_assoc calls (endpoint c ∷ []) (chosen_endpoints chosen cs))
  | inr e ↦ rw e (disconnect-calls chosen cs calls)
]

-- Each socket is disconnected from the chosen connections, in order, and has no connection left.
pub data Dropped (chosen : Service → Bool)
    : List (Bytes × ManagedSocket) → List (Bytes × ManagedSocket) → Type 0 where
  nil : Dropped chosen [] []
  cons :
      {name : Bytes} {sock sock' : ManagedSocket} {socks socks' : List (Bytes × ManagedSocket)}
      → sock'.remote_port_name ≡ sock.remote_port_name
      → sock'.connections ≡ []
      → sock'.disconnects ≡ sock.disconnects ++ chosen_endpoints chosen sock.connections
      → Dropped chosen socks socks'
      → Dropped chosen ((name, sock) ∷ socks) ((name, sock') ∷ socks')

disconnect_sockets-Dropped :
    (chosen : Service → Bool) (socks : List (Bytes × ManagedSocket))
    → Dropped chosen socks (disconnect_sockets chosen socks)
unfolding disconnect_sockets
disconnect_sockets-Dropped chosen [] = nil
disconnect_sockets-Dropped chosen ((name, sock) ∷ socks) =
    cons refl refl (disconnect-calls chosen sock.connections sock.disconnects)
      (disconnect_sockets-Dropped chosen socks)

-- `DisconnectClient` disconnects each socket from exactly the connections of that client, in order,
-- but each socket then has no connection left at all: those of the other clients, from which it is
-- not disconnected, are forgotten too. The list of clients is to be rebuilt.
pub disconnect_client-Dropped :
    (client : Bytes) (s : SocketManager)
    → Dropped
        (λ c. bytes_eq c.client_name client)
        s.managed_sockets
        (disconnect_client client s).managed_sockets
      × ((disconnect_client client s).new_clients ≡ true)
unfolding disconnect_client
disconnect_client-Dropped client s = (disconnect_sockets-Dropped _ s.managed_sockets, refl)

-- Sockets without connections have no clients.
rebuild-nothing :
    (first : Bool) (chosen : Service → Bool) (socks : List (Bytes × ManagedSocket))
    → rebuild first (disconnect_sockets chosen socks) [] ≡ []
unfolding rebuild disconnect_sockets add_socket
rebuild-nothing first chosen [] = refl
rebuild-nothing first chosen ((name, sock) ∷ socks) = rebuild-nothing false chosen socks

-- After `DisconnectAllClients` the next `Execute` that is due empties the list of clients, but the
-- slow control goes on showing the clients that it showed before.
pub execute-disconnect_all_clients :
    (now : ℕ) (s : SocketManager)
    → s.last_exec + 1000 ≤ now
    → ((execute now (disconnect_all_clients s)).clientsmap ≡ [])
      × ((execute now (disconnect_all_clients s)).clients_shown ≡ s.clients_shown)
unfolding execute disconnect_all_clients client_list
execute-disconnect_all_clients now s late =
    let due : ltb (now - s.last_exec) 1000 ≡ false = ground arith in
    rw (due, rebuild-nothing true (λ c. true) s.managed_sockets) (refl, refl)
