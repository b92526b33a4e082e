-- ===== src/Proxy/Tests.antt =====
-- The proxy for a file with two entities and a fuzzer, and the theorem at it.
use cezfuzzer.Base.{
  ℕ, suc, ◌+◌, ◌<◌, ◌≡◌, ◌⊎◌, inl, inr, get_elem?, refl, pos, minus_one, true, false, List, [], ◌∷◌,
  Option, none, some, String, elem, arith,
}
use cezfuzzer.Config.Yaml.{each}
use cezfuzzer.Config.Entity.{read_entity, read_connection, read_connect_to}
use cezfuzzer.Config.Manager.{parse, parse_entities, add_entity, get_fuzzer, split_entities}
use cezfuzzer.Config.Sample.{
  Node, yaml, dict, str, number, flag, list, with_field, no_fields, with_node, no_nodes,
  entity_node, server,
}
use cezfuzzer.Udp.Sockets.{
  System, empty_handler, build_from_connections, build_connection, create_and_bind_socket, register,
  start_recv_threads,
}
use cezfuzzer.Udp.Opened.{IsFresh}
use cezfuzzer.Tcp.Channel.{TcpSystem}
use cezfuzzer.Proxy.Base.{ProxyBase, UdpSide, proxy_base, new_manager}
use cezfuzzer.Proxy.Started.{IsStarted, proxy_base_cases}
use cezfuzzer.Proxy.Main.{MainEnd, proxy_main}
use cezfuzzer.Fuzzer.Memory.{Block, World, Outcome, done, fresh}
use cezfuzzer.Fuzzer.Core.{Env, shipped, wrote}
use cezfuzzer.Udp.Connection.{UdpConnection, udp_connection}
use cezfuzzer.Udp.Route.{recv_route}
use cezfuzzer.Udp.Threads.{Round, Effect, datagram, failed, with_ports, recv_thread_entry}
use cezfuzzer.Udp.Payload.{IsRoomy}
use cezfuzzer.Udp.Serving.{Serves}
use cezfuzzer.Udp.Kept.{sent_count}
use cezfuzzer.Proxy.Served.{recv_thread_entry-proxy_base}

abbrev next_socket : List ℕ → ℕ
next_socket [] = 3
next_socket (x ∷ xs) = suc (x + next_socket xs)

next_socket_above : (s : ℕ) (xs : List ℕ) → elem s xs ≡ true → s < next_socket xs
next_socket_above s [] e = cc
next_socket_above s (x ∷ xs) e = ground (arith, next_socket_above s xs)

abbrev udp_system : String → System
udp_system ip = record {
  socket = λ n socks. some (next_socket socks);
  set_option = λ n transparent. true;
  bind = λ n port. true;
  create_thread = λ sock. true;
  bound_port = λ sock. some (pos 20004);
}

udp_system-IsFresh : (ip : String) → IsFresh (udp_system ip)
udp_system-IsFresh ip = record { fresh = λ n socks s e. ground (arith, next_socket_above s socks) }

abbrev tcp_system : TcpSystem
tcp_system = record {
  socket = λ n fds. some (next_socket fds);
  bind = λ n port. true;
  listen = λ n. true;
  accept = λ n l fds. none;
  connect = λ n fd ip port. true;
  create_thread = λ n. pos 0;
}

abbrev connection_node : Node
connection_node = dict (
    with_field "entityA_ip" (str "10.0.0.1") (
      with_field "entityA_port" (number minus_one) (
        with_field "entityA_proxy_port_recv" (number (pos 20001)) (
          with_field "entityA_proxy_port_send" (number (pos 20002)) (
            with_field "entityB_ip" (str "10.0.0.2") (
              with_field "entityB_port" (number (pos 9000)) (
                with_field "entityB_proxy_port_recv" (number (pos 20003))
                  (with_field "entityB_proxy_port_send" (number (pos 20004)) no_fields))))))))

abbrev fuzzer_node : Node
fuzzer_node = dict (
    with_field "role" (str "fuzzer") (
      with_field "ip" (str "10.0.0.9") (
        with_field "port" (number minus_one) (
          with_field "fuzzed" (flag false) (
            with_field "binary_path" (str "bin/proxy") (
              with_field "exec_with" (str "") (
                with_field "connections" (list (with_node connection_node no_nodes))
                  no_fields)))))))

abbrev document : Node
document = dict (
    with_field "entities"
      (dict (
        with_field "server" (entity_node "server" "10.0.0.2")
          (with_field "fuzzer" fuzzer_node no_fields)))
      no_fields)

-- One connection, with a receiving thread for each of its sides, and no TCP handler.
abbrev side_threads : Option UdpSide → List (ℕ × ℕ)
side_threads none = []
side_threads (some side) = side.recv_thread_list

abbrev threads_of : Option ProxyBase → List (ℕ × ℕ)
threads_of none = []
threads_of (some p) = side_threads p.udp_handler

proxy_base_test :
    threads_of (proxy_base udp_system tcp_system server [] yaml (some document))
    ≡ (3, 0) ∷ (15, 0) ∷ []
unfolding proxy_base parse parse_entities add_entity get_fuzzer split_entities read_entity
    read_connection read_connect_to each build_from_connections build_connection
    create_and_bind_socket register start_recv_threads udp_connection
proxy_base_test = refl

proxy_base_cases_example :
    (((parse yaml (some document) new_manager).1 ≡ false)
      × (proxy_base udp_system tcp_system server [] yaml (some document) ≡ none))
    ⊎ (((parse yaml (some document) new_manager).1 ≡ true)
        × ((p : ProxyBase) × (proxy_base udp_system tcp_system server [] yaml (some document)
              ≡ some p)
            × IsStarted tcp_system (parse yaml (some document) new_manager).0.entities p))
proxy_base_cases_example =
    proxy_base_cases udp_system udp_system-IsFresh tcp_system server [] yaml (some document)

abbrev handler_block : ℕ × Block
handler_block = (0, fresh 1)

-- The handler's block.
abbrev world : World
world = record { next = 1; blocks = handler_block ∷ []; runs = 0; fds = 9 }

abbrev whole_main : Outcome MainEnd
whole_main = proxy_main udp_system tcp_system server [] 2 yaml (some document) false true world

-- The proxy that is made, and its UDP side.
abbrev no_proxy : ProxyBase
no_proxy = record { udp_handler = none; tcp_handler = none }

abbrev made_proxy : Option ProxyBase → ProxyBase
made_proxy none = no_proxy
made_proxy (some p) = p

abbrev no_side : UdpSide
no_side = record { handler = empty_handler; recv_thread_list = []; send_thread_list = [] }

abbrev made_side : Option UdpSide → UdpSide
made_side none = no_side
made_side (some side) = side

abbrev proxy : ProxyBase
proxy = made_proxy (proxy_base udp_system tcp_system server [] yaml (some document))

abbrev side : UdpSide
side = made_side proxy.udp_handler

abbrev env : Env
env = shipped (λ k n. true) (λ args k stdin. wrote (7 ∷ []))

env-IsRoomy : IsRoomy env
env-IsRoomy = record { sane = omega arith; wide = omega arith }

abbrev rounds : List Round
rounds = (λ q. q, datagram (1 ∷ 2 ∷ []) (pos 5555)) ∷ (λ q. q, failed) ∷ []

recv_thread_entry-proxy_base_example :
    (c : UdpConnection) × (effs : List Effect) × (w : World) × (get_elem? side.handler.connections 0
      ≡ some c)
    × (recv_thread_entry env [] 0 (pos 15) (with_ports c []) rounds world ≡ done effs w)
    × Serves env [] (λ c' src. recv_route c' (pos 15) src) (with_ports c []) rounds effs
    × (sent_count effs ≡ 1)
unfolding proxy_base parse parse_entities add_entity get_fuzzer split_entities read_entity
    read_connection read_connect_to each build_from_connections build_connection
    create_and_bind_socket register start_recv_threads udp_connection
recv_thread_entry-proxy_base_example =
    recv_thread_entry-proxy_base udp_system udp_system-IsFresh tcp_system server [] yaml
      (some document) proxy side refl refl 15 0 (inr (inl refl)) env env-IsRoomy (λ k n. refl) [] []
      rounds 0 world refl
