-- ===== src/Config/Tests.antt =====
-- A document read by parse(), and the theorems at concrete inputs.
use cezfuzzer.Base.{◌≡◌, ◌⊎◌, refl, true, false, [], ◌∷◌, some}
use cezfuzzer.Config.Yaml.{each}
use cezfuzzer.Config.Entity.{read_entity, read_connect_to}
use cezfuzzer.Config.Manager.{add_entity, parse_entities, parse, get_entities, split_entities}
use cezfuzzer.Config.Sample.{
  yaml, document, server_node, proxy_node, broken_node, server, proxy, manager,
}
use cezfuzzer.Config.Parsed.{IsRead, IsCut, parse_entities_cases}

parse_test :
    parse yaml (some document) manager
    ≡ (record manager { entities = server ∷ proxy ∷ []; fuzzer = some proxy }, true)
unfolding parse parse_entities add_entity read_entity each read_connect_to
parse_test = refl

-- What was read before the broken entity stays.
broken_test :
    parse_entities yaml (server_node ∷ broken_node ∷ proxy_node ∷ []) manager
    ≡ (record manager { entities = server ∷ [] }, false)
unfolding parse_entities add_entity read_entity each read_connect_to
broken_test = refl

get_entities_test : get_entities "10.0.0.9" (server ∷ proxy ∷ []) ≡ proxy ∷ []
unfolding get_entities
get_entities_test = refl

split_test : split_entities (server ∷ proxy ∷ []) ([], []) ≡ ([], server ∷ proxy ∷ [])
unfolding split_entities
split_test = refl

parse_entities_cases_example :
    ((parse_entities yaml (server_node ∷ broken_node ∷ []) manager).1 ≡ true)
      × IsRead yaml
          (server_node ∷ broken_node ∷ [])
          []
          (parse_entities yaml (server_node ∷ broken_node ∷ []) manager).0.entities
    ⊎ ((parse_entities yaml (server_node ∷ broken_node ∷ []) manager).1 ≡ false)
      × IsCut yaml
          (server_node ∷ broken_node ∷ [])
          []
          (parse_entities yaml (server_node ∷ broken_node ∷ []) manager).0.entities
parse_entities_cases_example = parse_entities_cases yaml (server_node ∷ broken_node ∷ []) manager
