-- ===== src/SocketManager/Clients.antt =====
-- The list of clients against the connections that it is made from.
use services_backend.Common.{
  bytes_lt, two_keys, ◌≡◌, refl, sym, ap, ◌∙◌, Bool, true, false, Option, none, some, List, [], ◌∷◌,
  ◌++◌, Bytes, codes, bytes_eq, bytes_eq→eq, All, arith, Bool-cases, inl, inr, Option-cases,
  if◌then◌else◌,
}
use services_backend.ResultWorkers.Reply.{find_config}
use services_backend.SocketManager.{
  Service, ManagedSocket, client_key, client_conn, emplace, append_conn, add_client, add_socket,
  rebuild,
}

-- Looking up a key that was added, or another one.
find_config-emplace :
    (key value : Bytes) (m : List (Bytes × Bytes)) (k : Bytes)
    → find_config key m ≡ none
    → find_config k (emplace key value m) ≡ (if bytes_eq key k then some value else find_config k m)
unfolding find_config emplace
find_config-emplace key value [] k e = refl
find_config-emplace key value ((k0, v0) ∷ m) k e = elim (Bool-cases (bytes_eq k0 key)) [
  | inl same ↦ let found : some v0 ≡ none = rw same at e in cc
  | inr other ↦ elim (Bool-cases (bytes_lt key k0)) [
    | inl front ↦ rw (other, front) refl
    | inr later ↦
        let rest : find_config key m ≡ none = rw other at e in
        rw (other, later)
          (rw (find_config-emplace key value m k rest)
            (two_keys key k0 k (some v0) (some value) (find_config k m) other))
  ]
]

-- A connection behind those that a key has already.
abbrev pub joined : Option Bytes → Bytes → Bytes
joined none conn = conn
joined (some conns) conn = conns ++ (codes "; " ++ conn)

find_config-append_conn :
    (key conn conns : Bytes) (m : List (Bytes × Bytes)) (k : Bytes)
    → find_config key m ≡ some conns
    → find_config k (append_conn key conn m)
      ≡ (if bytes_eq key k then some (joined (some conns) conn) else find_config k m)
unfolding find_config append_conn
find_config-append_conn key conn conns [] k e = cc
find_config-append_conn key conn conns ((k0, v0) ∷ m) k e = elim (Bool-cases (bytes_eq k0 key)) [
  | inl same ↦
      let found : some v0 ≡ some conns = rw same at e in
      let here : k0 ≡ key = bytes_eq→eq k0 key same in
      rw same (ground (arith, ap (λ x. bytes_eq x k) here))
  | inr other ↦
      let rest : find_config key m ≡ some conns = rw other at e in
      rw other (
        rw (find_config-append_conn key conn conns m k rest)
          (two_keys key k0 k (some v0) (some (joined (some conns) conn)) (find_config k m) other))
]

-- What a key has after one more connection.
abbrev pub then_conn : Bytes → Bytes → Service → Option Bytes → Option Bytes
then_conn k port_name c o =
    if bytes_eq (client_key c) k then some (joined o (client_conn port_name c)) else o

agree :
    (conn : Bytes) (found known : Option Bytes) (b : Bool)
    → (b ≡ true → found ≡ known)
    → (if b then some (joined known conn) else found)
      ≡ (if b then some (joined found conn) else found)
agree conn found known true h = rw (h refl) refl
agree conn found known false h = refl

find_config-add_client :
    (port_name : Bytes) (c : Service) (m : List (Bytes × Bytes)) (k : Bytes)
    → find_config k (add_client false port_name c m) ≡ then_conn k port_name c (find_config k m)
unfolding add_client
find_config-add_client port_name c m k =
    let key = client_key c in
    let conn = client_conn port_name c in
    let same : bytes_eq key k ≡ true → find_config k m ≡ find_config key m =
      λ h. ap (λ x. find_config x m) (sym (bytes_eq→eq key k h)) in
    elim (Option-cases (find_config key m)) [
      | inl e ↦
          rw (e, add_client)
            (find_config-emplace key conn m k e
              ∙ agree conn (find_config k m) none (bytes_eq key k) (λ h. same h ∙ e))
      | inr (conns, e) ↦
          rw (e, add_client)
            (find_config-append_conn key conn conns m k e
              ∙ agree conn (find_config k m) (some conns) (bytes_eq key k) (λ h. same h ∙ e))
    ]

-- The connections of a socket, one after the other, and of all sockets.
unfoldable pub after_socket : Bytes → Bytes → List (Bytes × Service) → Option Bytes → Option Bytes
after_socket k port_name [] o = o
after_socket k port_name ((name, c) ∷ cs) o =
    after_socket k port_name cs (then_conn k port_name c o)

unfoldable pub after_sockets : Bytes → List (Bytes × ManagedSocket) → Option Bytes → Option Bytes
after_sockets k [] o = o
after_sockets k ((name, sock) ∷ socks) o =
    after_sockets k socks (after_socket k sock.remote_port_name sock.connections o)

find_config-add_socket :
    (port_name : Bytes) (cs : List (Bytes × Service)) (m : List (Bytes × Bytes)) (k : Bytes)
    → find_config k (add_socket false port_name cs m)
      ≡ after_socket k port_name cs (find_config k m)
unfolding add_socket after_socket
find_config-add_socket port_name [] m k = refl
find_config-add_socket port_name ((name, c) ∷ cs) m k =
    find_config-add_socket port_name cs (add_client false port_name c m) k
    ∙ ap (after_socket k port_name cs) (find_config-add_client port_name c m k)

find_config-sockets :
    (socks : List (Bytes × ManagedSocket)) (m : List (Bytes × Bytes)) (k : Bytes)
    → find_config k (rebuild false socks m) ≡ after_sockets k socks (find_config k m)
unfolding rebuild after_sockets
find_config-sockets [] m k = refl
find_config-sockets ((name, sock) ∷ socks) m k =
    find_config-sockets socks (add_socket false sock.remote_port_name sock.connections m) k
    ∙ ap (after_sockets k socks) (find_config-add_socket sock.remote_port_name sock.connections m k)

-- The connections of a socket belong to different applications.
abbrev pub AreDifferent : List (Bytes × Service) → Type 0
AreDifferent [] = Unit
AreDifferent (r ∷ cs) =
    All (λ t. bytes_eq (client_key r.1) (client_key t.1) ≡ false) cs × AreDifferent cs

abbrev AreNew : List (Bytes × Service) → List (Bytes × Bytes) → Type 0
AreNew cs m = All (λ t. find_config (client_key t.1) m ≡ none) cs

AreNew-emplace :
    (key conn : Bytes) (cs : List (Bytes × Service)) (m : List (Bytes × Bytes))
    → find_config key m ≡ none
    → All (λ t. bytes_eq key (client_key t.1) ≡ false) cs
    → AreNew cs m
    → AreNew cs (emplace key conn m)
AreNew-emplace key conn [] m e apart h = tt
AreNew-emplace key conn (t ∷ cs) m e apart h = (
  find_config-emplace key conn m (client_key t.1) e ∙ (rw (apart.0) h.0),
  AreNew-emplace key conn cs m e apart.1 h.1,
)

-- While `first` holds the map is not searched, which makes no difference for new applications.
first_socket :
    (port_name : Bytes) (cs : List (Bytes × Service)) (m : List (Bytes × Bytes))
    → AreDifferent cs
    → AreNew cs m
    → add_socket true port_name cs m ≡ add_socket false port_name cs m
unfolding add_socket add_client
first_socket port_name [] m d h = refl
first_socket port_name (r ∷ cs) m d h =
    let key = client_key r.1 in
    let conn = client_conn port_name r.1 in
    rw (h.0, add_client)
      (first_socket port_name cs (emplace key conn m) d.1
        (AreNew-emplace key conn cs m h.0 d.0 h.1))

AreNew-nothing : (cs : List (Bytes × Service)) → AreNew cs []
unfolding find_config
AreNew-nothing [] = tt
AreNew-nothing (r ∷ cs) = (refl, AreNew-nothing cs)

-- If the connections of the first socket belong to different applications, then the rebuilt list
-- gives for every application, the ones without a connection included, what the connections of all
-- sockets say, one after the other: its connections in the order of the sockets, joined by "; ".
pub find_config-rebuild :
    (name : Bytes) (sock : ManagedSocket) (socks : List (Bytes × ManagedSocket)) (k : Bytes)
    → AreDifferent sock.connections
    → find_config k (rebuild true ((name, sock) ∷ socks) [])
      ≡ after_sockets k ((name, sock) ∷ socks) none
unfolding rebuild after_sockets
find_config-rebuild name sock socks k d =
    let port_name = sock.remote_port_name in
    let same = first_socket port_name sock.connections [] d (AreNew-nothing sock.connections) in
    rw same (
      find_config-sockets socks (add_socket false port_name sock.connections []) k
      ∙ ap (after_sockets k socks)
          (find_config-add_socket port_name sock.connections [] k ∙ (unfold find_config in refl)))
