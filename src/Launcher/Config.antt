-- ===== src/Launcher/Config.antt =====
-- luncher/utils/ConfigurationManager.hpp and luncher/utils/ConfigurationManager.cpp: the launchers'
-- reading of the file that the proxy reads too. The structs that both have are taken from Config.
use text.Mathlib.Text.{◌==◌}
use cezfuzzer.Base.{
  ℕ, ℤ, Bool, true, false, List, [], ◌∷◌, ◌++◌, Option, none, some, String, if◌then◌else◌, codes,
  strcmp_eq,
}
use cezfuzzer.Config.Yaml.{Yaml, ◌>>=◌, pure, string_at, int_at, bool_at, list_at}
use cezfuzzer.Config.Entity.{
  Destination, ConnectTo, read_protocol, read_destination, read_connect_to,
}
use cezfuzzer.Config.Manager.{GeneralConfig, NetworkConfig}
use cezfuzzer.Config.Steps.{Step, ◌and_then◌, assign, if_defined}

pub record EntityConfig : Type 0 where
  pub name : String
  pub role : String
  pub protocol : String
  pub ip : String
  pub port : ℤ
  pub fuzzed : Bool
  pub binary_path : String
  pub exec_with : String
  pub args : List String
  pub destinations : List Destination
  pub connect_to : Option ConnectTo

pub record ConfigurationManager : Type 0 where
  pub general : GeneralConfig
  pub network : NetworkConfig
  pub entities : List EntityConfig
  pub fuzzer : Option EntityConfig

-- entities_.push_back(entity), and fuzzer_ = entity for a fuzzer.
unfoldable pub add_entity : EntityConfig → ConfigurationManager → ConfigurationManager
add_entity entity m = record m {
  entities = m.entities ++ entity ∷ [];
  fuzzer = if entity.role == "fuzzer" then some entity else m.fuzzer;
}

module _ {N : Type 0} (y : Yaml N) where
  -- One round of the loop over config["entities"], up to the push_back.
  unfoldable pub read_entity : N × N → Option EntityConfig
  read_entity (key, node) = do
    name ← y.as_string key
    role ← string_at y node "role"
    protocol_node ← y.at node "protocol"
    protocol ← read_protocol y protocol_node
    ip ← string_at y node "ip"
    port ← int_at y node "port"
    fuzzed ← bool_at y node "fuzzed"
    binary_path ← string_at y node "binary_path"
    exec_with ← string_at y node "exec_with"
    args ← list_at y y.as_string node "args"
    destinations ← list_at y (read_destination y) node "destinations"
    connect_node ← y.at node "connect_to"
    connect_to ← read_connect_to y connect_node
    pure (record {
      name = name;
      role = role;
      protocol = protocol;
      ip = ip;
      port = port;
      fuzzed = fuzzed;
      binary_path = binary_path;
      exec_with = exec_with;
      args = args;
      destinations = destinations;
      connect_to = connect_to;
    })

  unfoldable pub parse_general : N → Step ConfigurationManager
  parse_general n =
      assign (string_at y n "log_level")
        (λ s m. record m { general = record m.general { log_level = s } })
      and_then assign (string_at y n "log_dir")
          (λ s m. record m { general = record m.general { log_dir = s } })

  unfoldable pub parse_network : N → Step ConfigurationManager
  parse_network n =
      assign (string_at y n "docker_network_name")
        (λ s m. record m { network = record m.network { docker_network_name = s } })
      and_then assign (string_at y n "subnet")
          (λ s m. record m { network = record m.network { subnet = s } })
      and_then assign (string_at y n "gateway")
          (λ s m. record m { network = record m.network { gateway = s } })

  abbrev pub parse_entity :
      Option EntityConfig → Step ConfigurationManager → Step ConfigurationManager
  parse_entity none rest m = (m, false)
  parse_entity (some entity) rest m = rest (add_entity entity m)

  unfoldable pub parse_entities : List (N × N) → Step ConfigurationManager
  parse_entities [] m = (m, true)
  parse_entities (it ∷ its) m = parse_entity (read_entity it) (parse_entities its) m

  -- parse(), where the argument is the result of YAML::LoadFile.
  unfoldable pub parse : Option N → Step ConfigurationManager
  parse none m = (m, false)
  parse (some config) m =
      (if_defined (y.at config "general") parse_general
          and_then if_defined (y.at config "network") parse_network
          and_then if_defined (y.at config "entities") (λ n. parse_entities (y.fields n)))
        m

-- getEntities(IP); `address` are the bytes at the pointer.
unfoldable pub get_entities : List ℕ → List EntityConfig → List EntityConfig
get_entities address [] = []
get_entities address (entity ∷ entities) =
    let rest = get_entities address entities in
    if strcmp_eq (codes entity.ip) address then entity ∷ rest else rest

-- getFuzzer(); `unset` is the local variable, of which nothing but the texts and lists is set.
unfoldable pub get_fuzzer : EntityConfig → List EntityConfig → EntityConfig
get_fuzzer unset [] = unset
get_fuzzer unset (entity ∷ entities) =
    let rest = get_fuzzer unset entities in if entity.role == "fuzzer" then entity else rest
