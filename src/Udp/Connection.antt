-- ===== src/Udp/Connection.antt =====
-- proxy/inc/UDPConnection.hpp: one bidirectional channel, with its queue of dynamic ports. Each
-- method holds the mutex from its first to its last line, so it is one step.
use cezfuzzer.Base.{ℤ, minus_one, Bool, true, false, List, [], ◌∷◌, ◌++◌, String}

-- struct Connection of proxy/lib/ConfigurationManager.hpp, without the socket fields, which nothing
-- reads.
pub record Connection : Type 0 where
  pub entity_a_ip : String
  pub entity_a_port : ℤ
  pub entity_a_proxy_port_recv : ℤ
  pub entity_a_proxy_port_send : ℤ
  pub entity_b_ip : String
  pub entity_b_port : ℤ
  pub entity_b_proxy_port_recv : ℤ
  pub entity_b_proxy_port_send : ℤ

-- The front of the queue is the head of the list.
pub record UdpConnection : Type 0 where
  pub entity_a_ip : String
  pub entity_a_port : ℤ
  pub port_entity_a_recv : ℤ
  pub port_entity_a_send : ℤ
  pub entity_b_ip : String
  pub entity_b_port : ℤ
  pub port_entity_b_recv : ℤ
  pub port_entity_b_send : ℤ
  pub send_sock_to_entity_a : ℤ
  pub send_sock_to_entity_b : ℤ
  pub recv_sock_from_entity_a : ℤ
  pub recv_sock_from_entity_b : ℤ
  pub dynamic_ports : List ℤ

unfoldable pub udp_connection : Connection → UdpConnection
udp_connection conn = record {
  entity_a_ip = conn.entity_a_ip;
  entity_a_port = conn.entity_a_port;
  port_entity_a_recv = conn.entity_a_proxy_port_recv;
  port_entity_a_send = conn.entity_a_proxy_port_send;
  entity_b_ip = conn.entity_b_ip;
  entity_b_port = conn.entity_b_port;
  port_entity_b_recv = conn.entity_b_proxy_port_recv;
  port_entity_b_send = conn.entity_b_proxy_port_send;
  send_sock_to_entity_a = minus_one;
  send_sock_to_entity_b = minus_one;
  recv_sock_from_entity_a = minus_one;
  recv_sock_from_entity_b = minus_one;
  dynamic_ports = [];
}

-- The constructor from eight arguments.
abbrev pub udp_connection_of : String → ℤ → ℤ → ℤ → String → ℤ → ℤ → ℤ → UdpConnection
udp_connection_of a_ip a_port a_recv a_send b_ip b_port b_recv b_send = record {
  entity_a_ip = a_ip;
  entity_a_port = a_port;
  port_entity_a_recv = a_recv;
  port_entity_a_send = a_send;
  entity_b_ip = b_ip;
  entity_b_port = b_port;
  port_entity_b_recv = b_recv;
  port_entity_b_send = b_send;
  send_sock_to_entity_a = minus_one;
  send_sock_to_entity_b = minus_one;
  recv_sock_from_entity_a = minus_one;
  recv_sock_from_entity_b = minus_one;
  dynamic_ports = [];
}

unfoldable pub push_dynamic_port : UdpConnection → ℤ → UdpConnection
push_dynamic_port c port = record c { dynamic_ports = c.dynamic_ports ++ port ∷ [] }

abbrev pub pop_from : UdpConnection → ℤ → List ℤ → UdpConnection × ℤ × Bool
pop_from c port [] = (c, port, false)
pop_from c port (x ∷ xs) = (record c { dynamic_ports = xs }, x, true)

-- The connection, the reference parameter `port` and the result.
unfoldable pub pop_dynamic_port : UdpConnection → ℤ → UdpConnection × ℤ × Bool
pop_dynamic_port c port = pop_from c port c.dynamic_ports
