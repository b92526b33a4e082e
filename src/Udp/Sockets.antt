-- ===== src/Udp/Sockets.antt =====
-- proxy/src/UDPHandler.cpp: createAndBindSocket, buildFromConnections and the start of the threads.
-- The system's calls are a parameter. A pointer to a connection is its place in `connections`.
use cezfuzzer.Base.{
  ℕ, suc, ℤ, pos, minus_one, eq_ℤ, Bool, true, false, List, [], ◌∷◌, ◌++◌, Option, none, some,
  if◌then◌else◌, ◌==◌, length, get_elem?, delete, not, ◌&&◌,
}
use cezfuzzer.Udp.Connection.{Connection, UdpConnection, udp_connection}

-- The calls of one createAndBindSocket: socket(), which sees the open descriptors, setsockopt() of
-- IP_TRANSPARENT or IP_RECVORIGDSTADDR, and bind() to a port of the proxy's address. The first
-- argument counts the calls of createAndBindSocket, so each may go otherwise.
pub record System : Type 0 where
  pub socket : ℕ → List ℕ → Option ℕ
  pub set_option : ℕ → Bool → Bool
  pub bind : ℕ → ℤ → Bool
  pub create_thread : ℕ → Bool
  pub bound_port : ℕ → Option ℤ

pub record Net : Type 0 where
  pub calls : ℕ
  pub open_sockets : List ℕ

pub record UdpHandler : Type 0 where
  pub recv_sockets : List ℕ
  pub send_sockets : List ℕ
  pub sock_to_connection : List (ℕ × ℕ)
  pub connections : List UdpConnection

abbrev pub empty_handler : UdpHandler
empty_handler = record {
  recv_sockets = [];
  send_sockets = [];
  sock_to_connection = [];
  connections = [];
}

-- sock_to_connection_.find(); the latest entry of a socket is the first of the list.
abbrev pub lookup : ℕ → List (ℕ × ℕ) → Option ℕ
lookup s [] = none
lookup s ((k, v) ∷ kvs) = if s == k then some v else lookup s kvs

-- The connection with its four sockets, put into the handler.
unfoldable pub register : UdpConnection → UdpHandler → ℕ → ℕ → ℕ → ℕ → UdpHandler
register conn h recv_a send_b recv_b send_a =
    let n : ℕ = length h.connections in
    record {
      recv_sockets = h.recv_sockets ++ recv_a ∷ recv_b ∷ [];
      send_sockets = h.send_sockets ++ send_a ∷ send_b ∷ [];
      sock_to_connection =
          (send_b, n) ∷ (send_a, n) ∷ (recv_b, n) ∷ (recv_a, n) ∷ h.sock_to_connection;
      connections =
          h.connections
          ++ record conn {
            recv_sock_from_entity_a = pos recv_a;
            send_sock_to_entity_b = pos send_b;
            recv_sock_from_entity_b = pos recv_b;
            send_sock_to_entity_a = pos send_a;
          }
            ∷ [];
    }

abbrev pub register_all :
    UdpConnection → UdpHandler → Option ℕ → Option ℕ → Option ℕ → Option ℕ → UdpHandler
register_all conn h (some recv_a) (some send_b) (some recv_b) (some send_a) =
    register conn h recv_a send_b recv_b send_a
register_all conn h none send_b recv_b send_a = h
register_all conn h (some recv_a) none recv_b send_a = h
register_all conn h (some recv_a) (some send_b) none send_a = h
register_all conn h (some recv_a) (some send_b) (some recv_b) none = h

-- `bound_port == conn->getEntityASendPort()`; false if getsockname() fails.
abbrev pub is_from_a : UdpConnection → Option ℤ → Bool
is_from_a conn none = false
is_from_a conn (some port) = eq_ℤ port conn.port_entity_a_send

module _ (sys : System) where
  -- From setsockopt() on; a socket that cannot be set up is closed.
  abbrev pub set_up : ℤ → Bool → ℕ → ℕ → List ℕ → Net × Option ℕ
  set_up port use_transparent n sock open_sockets =
      if sys.set_option n use_transparent && sys.bind n port
      then (record { calls = suc n; open_sockets = sock ∷ open_sockets }, some sock)
      else (record { calls = suc n; open_sockets = delete sock (sock ∷ open_sockets) }, none)

  abbrev pub opened : ℤ → Bool → Net → Option ℕ → Net × Option ℕ
  opened port use_transparent net none = (record net { calls = suc net.calls }, none)
  opened port use_transparent net (some sock) =
      set_up port use_transparent net.calls sock net.open_sockets

  -- The socket, or none for -1.
  unfoldable pub create_and_bind_socket : ℤ → Bool → Net → Net × Option ℕ
  create_and_bind_socket port use_transparent net =
      opened port use_transparent net (sys.socket net.calls net.open_sockets)

  unfoldable pub build_connection : UdpHandler → Net → Connection → UdpHandler × Net
  build_connection h net conn_struct =
      let conn : UdpConnection = udp_connection conn_struct in
      let (net_1, recv_a) = create_and_bind_socket conn.port_entity_a_recv false net in
      let (net_2, send_b) = create_and_bind_socket conn.port_entity_b_send true net_1 in
      let (net_3, recv_b) = create_and_bind_socket conn.port_entity_b_recv false net_2 in
      let (net_4, send_a) = create_and_bind_socket conn.port_entity_a_send true net_3 in
      (register_all conn h recv_a send_b recv_b send_a, net_4)

  unfoldable pub build_from_connections : UdpHandler → Net → List Connection → UdpHandler × Net
  build_from_connections h net [] = (h, net)
  build_from_connections h net (conn ∷ conns) =
      let (h', net') = build_connection h net conn in build_from_connections h' net' conns

  -- The receiving threads: each has its socket and its connection.
  abbrev pub recv_thread : ℕ → Option ℕ → List (ℕ × ℕ)
  recv_thread sock none = []
  recv_thread sock (some conn) = if sys.create_thread sock then (sock, conn) ∷ [] else []

  abbrev pub recv_threads : List (ℕ × ℕ) → List ℕ → List (ℕ × ℕ)
  recv_threads table [] = []
  recv_threads table (sock ∷ socks) =
      recv_thread sock (lookup sock table) ++ recv_threads table socks

  unfoldable pub start_recv_threads : UdpHandler → List (ℕ × ℕ)
  start_recv_threads h = recv_threads h.sock_to_connection h.recv_sockets

  -- The sending threads, of the connections with a dynamic port.
  abbrev pub send_thread : ℕ → ℕ → Option UdpConnection → List (ℕ × ℕ × Bool)
  send_thread sock i none = []
  send_thread sock i (some conn) =
      if not (eq_ℤ conn.entity_a_port minus_one) && not (eq_ℤ conn.entity_b_port minus_one)
      then []
      else if sys.create_thread sock
      then (sock, i, is_from_a conn (sys.bound_port sock)) ∷ []
      else []

  abbrev pub mapped_send_thread : List UdpConnection → ℕ → Option ℕ → List (ℕ × ℕ × Bool)
  mapped_send_thread conns sock none = []
  mapped_send_thread conns sock (some i) = send_thread sock i (get_elem? conns i)

  abbrev pub send_threads : UdpHandler → List ℕ → List (ℕ × ℕ × Bool)
  send_threads h [] = []
  send_threads h (sock ∷ socks) =
      mapped_send_thread h.connections sock (lookup sock h.sock_to_connection)
      ++ send_threads h socks

  unfoldable pub start_send_threads : UdpHandler → List (ℕ × ℕ × Bool)
  start_send_threads h = send_threads h h.send_sockets
