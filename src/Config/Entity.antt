-- ===== src/Config/Entity.antt =====
-- The structs of proxy/lib/ConfigurationManager.hpp, and how parse() reads one entity.
use cezfuzzer.Base.{ℕ, ℤ, to_u16, Bool, List, Option, none, some, String}
use cezfuzzer.Udp.Connection.{Connection}
use cezfuzzer.Config.Yaml.{Yaml, ◌>>=◌, pure, string_at, int_at, bool_at, list_at}

pub record Destination : Type 0 where
  pub ip : String
  pub port : ℤ

pub record ConnectTo : Type 0 where
  pub ip : String
  pub port : ℤ

pub record TcpRedirection : Type 0 where
  pub server_ip : String
  pub server_port : ℕ
  pub proxy_port : ℕ

pub record EntityConfig : Type 0 where
  pub name : String
  pub role : String
  pub protocol : String
  pub ip : String
  pub port : ℤ
  pub fuzzed : Bool
  pub binary_path : String
  pub exec_with : String
  pub args : List String
  pub destinations : List Destination
  pub connect_to : Option ConnectTo
  pub connections : List Connection
  pub tcp_redirections : List TcpRedirection

module _ {N : Type 0} (y : Yaml N) where
  -- `data["protocol"] ? data["protocol"].as<std::string>() : ""`
  abbrev pub read_protocol : Option N → Option String
  read_protocol none = some ""
  read_protocol (some n) = y.as_string n

  unfoldable pub read_destination : N → Option Destination
  read_destination dst = do
    ip ← string_at y dst "ip"
    port ← int_at y dst "port"
    pure (record { ip = ip; port = port })

  unfoldable pub read_connect_to : Option N → Option (Option ConnectTo)
  read_connect_to none = some none
  read_connect_to (some n) = do
    ip ← string_at y n "ip"
    port ← int_at y n "port"
    pure (some (record { ip = ip; port = port }))

  unfoldable pub read_connection : N → Option Connection
  read_connection cnode = do
    entity_a_ip ← string_at y cnode "entityA_ip"
    entity_a_port ← int_at y cnode "entityA_port"
    entity_a_proxy_port_recv ← int_at y cnode "entityA_proxy_port_recv"
    entity_a_proxy_port_send ← int_at y cnode "entityA_proxy_port_send"
    entity_b_ip ← string_at y cnode "entityB_ip"
    entity_b_port ← int_at y cnode "entityB_port"
    entity_b_proxy_port_recv ← int_at y cnode "entityB_proxy_port_recv"
    entity_b_proxy_port_send ← int_at y cnode "entityB_proxy_port_send"
    pure (record {
      entity_a_ip = entity_a_ip;
      entity_a_port = entity_a_port;
      entity_a_proxy_port_recv = entity_a_proxy_port_recv;
      entity_a_proxy_port_send = entity_a_proxy_port_send;
      entity_b_ip = entity_b_ip;
      entity_b_port = entity_b_port;
      entity_b_proxy_port_recv = entity_b_proxy_port_recv;
      entity_b_proxy_port_send = entity_b_proxy_port_send;
    })

  -- The ports are of type uint16_t.
  unfoldable pub read_redirection : N → Option TcpRedirection
  read_redirection cnode = do
    server_ip ← string_at y cnode "server_ip"
    server_port ← int_at y cnode "server_port"
    proxy_port ← int_at y cnode "proxy_port"
    pure (record {
      server_ip = server_ip;
      server_port = to_u16 server_port;
      proxy_port = to_u16 proxy_port;
    })

  -- One round of the loop over config["entities"], up to the push_back.
  unfoldable pub read_entity : N × N → Option EntityConfig
  read_entity (key, node) = do
    name ← y.as_string key
    role ← string_at y node "role"
    protocol_node ← y.at node "protocol"
    protocol ← read_protocol protocol_node
    ip ← string_at y node "ip"
    port ← int_at y node "port"
    fuzzed ← bool_at y node "fuzzed"
    binary_path ← string_at y node "binary_path"
    exec_with ← string_at y node "exec_with"
    args ← list_at y y.as_string node "args"
    destinations ← list_at y read_destination node "destinations"
    connect_node ← y.at node "connect_to"
    connect_to ← read_connect_to connect_node
    connections ← list_at y read_connection node "connections"
    tcp_redirections ← list_at y read_redirection node "tcp_redirections"
    pure (record {
      name = name;
      role = role;
      protocol = protocol;
      ip = ip;
      port = port;
      fuzzed = fuzzed;
      binary_path = binary_path;
      exec_with = exec_with;
      args = args;
      destinations = destinations;
      connect_to = connect_to;
      connections = connections;
      tcp_redirections = tcp_redirections;
    })
