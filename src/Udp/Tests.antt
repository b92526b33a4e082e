-- ===== src/Udp/Tests.antt =====
-- The theorems about the UDP side at concrete inputs, and small runs.
use cezfuzzer.Base.{
  drop, ℕ, ◌≡◌, refl, pos, minus_one, List, [], ◌∷◌, ◌++◌, none, some, true, arith, replicate,
}
use cezfuzzer.Fuzzer.Memory.{World}
use cezfuzzer.Fuzzer.Core.{Env, wrote, shipped}
use cezfuzzer.Udp.Connection.{UdpConnection}
use cezfuzzer.Udp.Ports.{pushed, popped, handed_out, run, stored_ports, handed_out_fifo}
use cezfuzzer.Udp.Route.{Target, recv_route}
use cezfuzzer.Udp.Replies.{
  Datagram, from_a, from_b, from_a_late, from_b_late, reply_ports, turns, request_ports,
  IsClientServer, replies_in_order,
}
use cezfuzzer.Udp.Threads.{Round, datagram, failed}

-- A client at 10.0.0.1 with a port of its own choice, a server at 10.0.0.2 with port 9000.
abbrev conn : UdpConnection
conn = record {
  entity_a_ip = "10.0.0.1";
  entity_a_port = minus_one;
  port_entity_a_recv = pos 20001;
  port_entity_a_send = pos 20002;
  entity_b_ip = "10.0.0.2";
  entity_b_port = pos 9000;
  port_entity_b_recv = pos 20003;
  port_entity_b_send = pos 20004;
  send_sock_to_entity_a = pos 6;
  send_sock_to_entity_b = pos 4;
  recv_sock_from_entity_a = pos 3;
  recv_sock_from_entity_b = pos 5;
  dynamic_ports = [];
}

abbrev to_server : Target
to_server = record { sock = pos 4; ip = "10.0.0.2"; port = pos 9000 }

abbrev env : Env
env = shipped (λ k n. true) (λ args k stdin. wrote (7 ∷ []))

abbrev zeros : List ℕ
zeros = replicate 4096 0

abbrev world : World
world = record {
  next = 1;
  blocks = (0, record { cap = 4096; bytes = zeros }) ∷ [];
  runs = 0;
  fds = 9;
}

conn-IsClientServer : IsClientServer conn
conn-IsClientServer = record { dynamic = refl; fixed = λ h. cc; two_socks = λ h. ground arith }

route_test :
    recv_route conn (pos 3) (pos 5555)
    ≡ some (record conn { dynamic_ports = pos 5555 ∷ [] }, to_server)
unfolding recv_route
route_test = refl

unknown_socket_test : recv_route conn (pos 4) (pos 5555) ≡ none
unfolding recv_route
unknown_socket_test = refl

two_clients_test :
    reply_ports conn (from_a (pos 5) ∷ from_a (pos 6) ∷ from_b (pos 9000) ∷ from_b (pos 9000) ∷ [])
    ≡ pos 5 ∷ pos 6 ∷ []
unfolding reply_ports recv_route
two_clients_test = refl

handed_out_fifo_example :
    handed_out conn (pushed (pos 5) ∷ popped ∷ popped ∷ pushed (pos 6) ∷ [])
      ++ (run conn (pushed (pos 5) ∷ popped ∷ popped ∷ pushed (pos 6) ∷ [])).dynamic_ports
    ≡ stored_ports (pushed (pos 5) ∷ popped ∷ popped ∷ pushed (pos 6) ∷ [])
handed_out_fifo_example =
    handed_out_fifo conn (pushed (pos 5) ∷ popped ∷ popped ∷ pushed (pos 6) ∷ [])

abbrev talk : List Datagram
talk =
    from_a (pos 5)
    ∷ from_a (pos 6)
    ∷ from_b (pos 9000)
    ∷ from_a_late (pos 7)
    ∷ from_b_late (pos 9000)
    ∷ []

replies_in_order_example :
    reply_ports conn talk ++ (turns conn talk).dynamic_ports ≡ request_ports talk
replies_in_order_example = replies_in_order conn talk conn-IsClientServer (omega arith)

-- Meanwhile another thread takes a port; then an empty datagram ends the thread.
abbrev rounds : List Round
rounds =
    (λ q. q, datagram (1 ∷ 2 ∷ []) (pos 5555))
    ∷ (drop 1, datagram (3 ∷ []) (pos 5556))
    ∷ (λ q. q, datagram [] (pos 1))
    ∷ (λ q. q, datagram (1 ∷ []) (pos 1))
    ∷ []

abbrev send_rounds : List Round
send_rounds = (λ q. q, datagram (1 ∷ 2 ∷ []) (pos 5555)) ∷ (λ q. q, failed) ∷ []
