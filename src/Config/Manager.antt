-- ===== src/Config/Manager.antt =====
-- proxy/lib/ConfigurationManager.cpp: parse() and the getters, and how proxy/src/ProxyBase.cpp sorts
-- the entities. An exception leaves what was assigned before it.
use text.Mathlib.Text.{◌==◌}
use cezfuzzer.Base.{true, false, List, [], ◌∷◌, ◌++◌, Option, none, some, String, if◌then◌else◌}
use cezfuzzer.Config.Yaml.{Yaml, string_at}
use cezfuzzer.Config.Steps.{Step, ◌and_then◌, assign, if_defined}
use cezfuzzer.Config.Entity.{EntityConfig, read_entity}

pub record GeneralConfig : Type 0 where
  pub log_level : String
  pub log_dir : String

pub record NetworkConfig : Type 0 where
  pub docker_network_name : String
  pub subnet : String
  pub gateway : String

pub record ConfigurationManager : Type 0 where
  pub general : GeneralConfig
  pub network : NetworkConfig
  pub entities : List EntityConfig
  pub fuzzer : Option EntityConfig

-- entities_.push_back(entity), and fuzzer_ = entity for a fuzzer.
unfoldable pub add_entity : EntityConfig → ConfigurationManager → ConfigurationManager
add_entity entity m = record m {
  entities = m.entities ++ entity ∷ [];
  fuzzer = if entity.role == "fuzzer" then some entity else m.fuzzer;
}

module _ {N : Type 0} (y : Yaml N) where
  unfoldable pub parse_general : N → Step ConfigurationManager
  parse_general n =
      assign (string_at y n "log_level")
        (λ s m. record m { general = record m.general { log_level = s } })
      and_then assign (string_at y n "log_dir")
          (λ s m. record m { general = record m.general { log_dir = s } })

  unfoldable pub parse_network : N → Step ConfigurationManager
  parse_network n =
      assign (string_at y n "docker_network_name")
        (λ s m. record m { network = record m.network { docker_network_name = s } })
      and_then assign (string_at y n "subnet")
          (λ s m. record m { network = record m.network { subnet = s } })
      and_then assign (string_at y n "gateway")
          (λ s m. record m { network = record m.network { gateway = s } })

  abbrev pub parse_entity :
      Option EntityConfig → Step ConfigurationManager → Step ConfigurationManager
  parse_entity none rest m = (m, false)
  parse_entity (some entity) rest m = rest (add_entity entity m)

  unfoldable pub parse_entities : List (N × N) → Step ConfigurationManager
  parse_entities [] m = (m, true)
  parse_entities (it ∷ its) m = parse_entity (read_entity y it) (parse_entities its) m

  -- parse(), where the argument is the result of YAML::LoadFile.
  unfoldable pub parse : Option N → Step ConfigurationManager
  parse none m = (m, false)
  parse (some config) m =
      (if_defined (y.at config "general") parse_general
          and_then if_defined (y.at config "network") parse_network
          and_then if_defined (y.at config "entities") (λ n. parse_entities (y.fields n)))
        m

-- getEntities(IP)
unfoldable pub get_entities : String → List EntityConfig → List EntityConfig
get_entities address [] = []
get_entities address (entity ∷ entities) =
    let rest = get_entities address entities in if entity.ip == address then entity ∷ rest else rest

-- getFuzzer(); `unset` is the local variable, of which nothing but the texts and lists is set.
unfoldable pub get_fuzzer : EntityConfig → List EntityConfig → EntityConfig
get_fuzzer unset [] = unset
get_fuzzer unset (entity ∷ entities) =
    let rest = get_fuzzer unset entities in if entity.role == "fuzzer" then entity else rest

-- ProxyBase::ProxyBase: tcp_entities and udp_entities.
unfoldable pub split_entities :
    List EntityConfig
    → List EntityConfig × List EntityConfig
    → List EntityConfig × List EntityConfig
split_entities [] (tcp, udp) = (tcp, udp)
split_entities (entity ∷ entities) (tcp, udp) = split_entities entities (
    if entity.protocol == "tcp"
    then (tcp ++ entity ∷ [], udp)
    else if entity.protocol == "udp"
    then (tcp, udp ++ entity ∷ [])
    else (tcp, udp))
