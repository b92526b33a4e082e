-- ===== src/Udp/Route.antt =====
-- proxy/src/UDPHandler.cpp: where recvThreadEntry and sendThreadEntry forward a datagram to.
use cezfuzzer.Base.{ℤ, minus_one, eq_ℤ, Bool, Option, none, some, String, if◌then◌else◌}
use cezfuzzer.Udp.Connection.{UdpConnection, push_dynamic_port, pop_dynamic_port}

-- send_sock, target_ip and target_port; the port is an int, -1 where none was found.
pub record Target : Type 0 where
  pub sock : ℤ
  pub ip : String
  pub port : ℤ

-- `if (target_port == -1) conn->popDynamicPort(target_port);`
abbrev pub fill_port : UdpConnection → ℤ → UdpConnection × ℤ
fill_port c port =
    if eq_ℤ port minus_one
    then (let (c', port', found) = pop_dynamic_port c port in (c', port'))
    else (c, port)

-- `if (conn->getEntityXPort() == -1) conn->pushDynamicPort(src_port);`
abbrev pub store_port : UdpConnection → ℤ → ℤ → UdpConnection
store_port c own_port src_port = if eq_ℤ own_port minus_one then push_dynamic_port c src_port else c

abbrev pub a_to_b : UdpConnection → ℤ → UdpConnection × Target
a_to_b c src_port =
    let (c', port) = fill_port c c.entity_b_port in
    (
      store_port c' c'.entity_a_port src_port,
      record { sock = c.send_sock_to_entity_b; ip = c.entity_b_ip; port = port },
    )

abbrev pub b_to_a : UdpConnection → ℤ → UdpConnection × Target
b_to_a c src_port =
    let (c', port) = fill_port c c.entity_a_port in
    (
      store_port c' c'.entity_b_port src_port,
      record { sock = c.send_sock_to_entity_a; ip = c.entity_a_ip; port = port },
    )

-- A datagram on a receiving socket; `none` is the `continue` of a socket that is not the connection's.
unfoldable pub recv_route : UdpConnection → ℤ → ℤ → Option (UdpConnection × Target)
unfolding push_dynamic_port pop_dynamic_port
recv_route c recv_sock src_port =
    if eq_ℤ recv_sock c.recv_sock_from_entity_a
    then some (a_to_b c src_port)
    else if eq_ℤ recv_sock c.recv_sock_from_entity_b
    then some (b_to_a c src_port)
    else none

-- `if (!conn->popDynamicPort(dst_port)) dst_port = src_port;`, where the port is not static.
abbrev pop_or_source : UdpConnection → ℤ → ℤ → UdpConnection × ℤ
pop_or_source c port src_port =
    if eq_ℤ port minus_one
    then (let (c', port', found) = pop_dynamic_port c minus_one in
        (c', (if found then port' else src_port)))
    else (c, port)

-- A datagram on a sending socket.
unfoldable pub send_route : UdpConnection → Bool → ℤ → UdpConnection × Target
unfolding pop_dynamic_port
send_route c is_from_a src_port =
    if is_from_a
    then (let (c', port) = pop_or_source c c.entity_b_port src_port in
        (c', record { sock = c.recv_sock_from_entity_b; ip = c.entity_b_ip; port = port }))
    else (let (c', port) = pop_or_source c c.entity_a_port src_port in
        (c', record { sock = c.recv_sock_from_entity_a; ip = c.entity_a_ip; port = port }))
