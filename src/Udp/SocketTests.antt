-- ===== src/Udp/SocketTests.antt =====
-- Runs of the socket set-up, and its theorems at concrete inputs.
use cezfuzzer.Base.{
  ℕ, suc, ◌+◌, ◌<◌, ◌≡◌, ◌≢◌, refl, ℤ, pos, minus_one, true, List, [], ◌∷◌, none, some, elem,
  get_elem?, arith, ◌==◌, not, zero, ap, sym, if◌then◌else◌, inl,
}
use cezfuzzer.Udp.Connection.{Connection, UdpConnection, udp_connection}
use cezfuzzer.Udp.Route.{recv_route}
use cezfuzzer.Udp.Sockets.{
  System, Net, UdpHandler, start_send_threads, empty_handler, lookup, create_and_bind_socket,
  build_connection, build_from_connections, register, start_recv_threads,
}
use cezfuzzer.Udp.Opened.{IsFresh}
use cezfuzzer.Udp.Routed.{build_from_connections-recv_route}
use cezfuzzer.Udp.Threads.{with_ports}
use cezfuzzer.Udp.Directed.{IsNamed, IsDynamic, Crosses, start_send_threads-Crosses}
use cezfuzzer.Udp.Leaked.{IsAllOrNone, build_connection_cases}

-- A descriptor above the open ones.
abbrev next_socket : List ℕ → ℕ
next_socket [] = 3
next_socket (x ∷ xs) = suc (x + next_socket xs)

next_socket_above : (s : ℕ) (xs : List ℕ) → elem s xs ≡ true → s < next_socket xs
next_socket_above s [] e = cc
next_socket_above s (x ∷ xs) e = ground (arith, next_socket_above s xs)

-- The call of number `bad` cannot bind.
abbrev system : ℕ → System
system bad = record {
  socket = λ n socks. some (next_socket socks);
  set_option = λ n transparent. true;
  bind = λ n port. not (n == bad);
  create_thread = λ sock. true;
  bound_port = λ sock. some (if sock == 31 then pos 20002 else pos 20004);
}

system-IsFresh : (bad : ℕ) → IsFresh (system bad)
system-IsFresh bad = record { fresh = λ n socks s e. ground (arith, next_socket_above s socks) }

abbrev config : Connection
config = record {
  entity_a_ip = "10.0.0.1";
  entity_a_port = minus_one;
  entity_a_proxy_port_recv = pos 20001;
  entity_a_proxy_port_send = pos 20002;
  entity_b_ip = "10.0.0.2";
  entity_b_port = pos 9000;
  entity_b_proxy_port_recv = pos 20003;
  entity_b_proxy_port_send = pos 20004;
}

abbrev no_sockets : Net
no_sockets = record { calls = 0; open_sockets = [] }

threads_test :
    start_recv_threads
      (system 9)
      (build_from_connections (system 9) empty_handler no_sockets (config ∷ [])).0
    ≡ (3, 0) ∷ (15, 0) ∷ []
unfolding start_recv_threads build_from_connections build_connection create_and_bind_socket register
    udp_connection
threads_test = refl

-- The third bind fails: no connection is made, and three sockets stay open.
leak_test :
    build_from_connections (system 2) empty_handler no_sockets (config ∷ [])
    ≡ (empty_handler, record { calls = 4; open_sockets = 15 ∷ 7 ∷ 3 ∷ [] })
unfolding build_from_connections build_connection create_and_bind_socket register udp_connection
leak_test = refl

build_from_connections-recv_route_example :
    (i : ℕ) × (c : UdpConnection) × (lookup 15
        (build_from_connections
          (system 9)
          empty_handler
          no_sockets
          (config ∷ [])).0.sock_to_connection
      ≡ some i)
    × (get_elem?
          (build_from_connections (system 9) empty_handler no_sockets (config ∷ [])).0.connections
          i
        ≡ some c)
    × ((ports : List ℤ) (src : ℤ)
        → recv_route (record c { dynamic_ports = ports }) (pos 15) src ≢ none)
unfolding build_from_connections build_connection create_and_bind_socket register udp_connection
build_from_connections-recv_route_example =
    build_from_connections-recv_route (system 9) (system-IsFresh 9) no_sockets (config ∷ []) 15 refl

build_connection_cases_example :
    let (h, net) = build_connection (system 2) empty_handler no_sockets config in
    IsAllOrNone (udp_connection config) empty_handler h [] net.open_sockets
build_connection_cases_example =
    build_connection_cases (system 2) (system-IsFresh 2) empty_handler no_sockets config

-- The handler for one connection, whose entity A has a port of its own choice.
abbrev one_connection : UdpHandler
one_connection = (build_from_connections (system 9) empty_handler no_sockets (config ∷ [])).0

abbrev registered : UdpConnection
registered = record (udp_connection config) {
  recv_sock_from_entity_a = pos 3;
  send_sock_to_entity_b = pos 7;
  recv_sock_from_entity_b = pos 15;
  send_sock_to_entity_a = pos 31;
}

only_connection : one_connection.connections ≡ registered ∷ []
unfolding build_from_connections build_connection create_and_bind_socket register udp_connection
only_connection = refl

the_connection :
    (i : ℕ) (c : UdpConnection) → get_elem? (registered ∷ []) i ≡ some c → registered ≡ c
the_connection zero c e = cc
the_connection (suc i) c e = cc

named :
    (i s port : ℕ) (c : UdpConnection)
    → get_elem? one_connection.connections i ≡ some c
    → (field : UdpConnection → ℤ) → field registered ≡ pos port
    → field c ≡ pos s
    → (s ≡ port) × (registered ≡ c)
named i s port c found field e own =
    let same : registered ≡ c = the_connection i c (rw only_connection at found) in
    let equal : pos s ≡ pos port = cc in (cc, same)

one_connection-IsNamed : IsNamed (system 9) one_connection
unfolding udp_connection
one_connection-IsNamed = record {
  to_a = λ i s c found own.
      let (port, same) = named i s 31 c found (λ x. x.send_sock_to_entity_a) refl own in
      rw port (ap (λ x. some x.port_entity_a_send) same);
  to_b = λ i s c found own.
      let (port, same) = named i s 7 c found (λ x. x.send_sock_to_entity_b) refl own in
      rw port (ap (λ x. some x.port_entity_b_send) same);
  differ = λ i c found.
      let same : registered ≡ c = the_connection i c (rw only_connection at found) in
      rw (sym same) (λ h. ground arith);
}

start_send_threads-Crosses_example :
    (c : UdpConnection) × (get_elem? one_connection.connections 0 ≡ some c)
    × IsDynamic c
    × Crosses (with_ports c []) 31 true (pos 5555)
unfolding start_send_threads build_from_connections build_connection create_and_bind_socket register
    udp_connection
start_send_threads-Crosses_example =
    start_send_threads-Crosses (system 9) (system-IsFresh 9) no_sockets (config ∷ []) 31 0 true []
      (pos 5555) one_connection-IsNamed (inl refl)
