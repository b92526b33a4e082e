-- ===== src/Launcher/StartTests.antt =====
-- The launchers on one file, and the theorem about their start at it.
use cezfuzzer.Base.{◌≡◌, refl, pos, minus_one, true, [], ◌∷◌, none, some, replicate, arith, codes}
use cezfuzzer.Wire.Stream.{Sender, finished}
use cezfuzzer.Config.Yaml.{each}
use cezfuzzer.Config.Entity.{read_connect_to}
use cezfuzzer.Config.Sample.{yaml, document}
use cezfuzzer.Launcher.Sample.{threes, threes_offers, threes_accepts}
use cezfuzzer.Launcher.Config.{
  EntityConfig, ConfigurationManager, parse, parse_entities, add_entity, read_entity, get_fuzzer,
}
use cezfuzzer.Launcher.Clients.{add_new_client, send_client_ip}
use cezfuzzer.Launcher.Processes.{new_client}
use cezfuzzer.Launcher.Session.{Session, greet_client, client_turn}
use cezfuzzer.Launcher.Welcome.{Starts}
use cezfuzzer.Launcher.Startup.{
  new_manager, ServerCalls, ClientCalls, init_server, init_client, server_main, client_main,
}
use cezfuzzer.Launcher.Started.{IsServing, client_main-server_main}

abbrev server_calls : ServerCalls
server_calls = record { socket = some 4; bind = true; listen = true; create_thread = true }

abbrev client_calls : ClientCalls
client_calls = record { socket = some 3; connect = true }

-- What is read from the file.
abbrev server_entity : EntityConfig
server_entity = record {
  name = "server";
  role = "server";
  protocol = "udp";
  ip = "10.0.0.2";
  port = minus_one;
  fuzzed = true;
  binary_path = "bin/ping";
  exec_with = "";
  args = "-v" ∷ [];
  destinations = [];
  connect_to = none;
}

abbrev proxy_entity : EntityConfig
proxy_entity = record server_entity { name = "proxy"; role = "fuzzer"; ip = "10.0.0.9" }

abbrev manager : ConfigurationManager
manager = record new_manager {
  entities = server_entity ∷ proxy_entity ∷ [];
  fuzzer = some proxy_entity;
}

document_test : parse yaml (some document) new_manager ≡ (manager, true)
unfolding parse parse_entities add_entity read_entity read_connect_to each
document_test = refl

client_main-server_main_example :
    IsServing
      (get_fuzzer server_entity manager.entities)
      60
      (server_main yaml (some document) server_entity server_calls (some 60) true)
    × ((t : Sender) × (d : Session) × (greet_client threes 72
            (pos 5)
            (add_new_client true (replicate 64 170) (pos 5) (codes "10.0.0.2") 4000 []).0
            (record { calls = 0; output = [] })
          ≡ some (finished t))
        × (client_main threes yaml
              (some document)
              client_calls
              (new_client 100)
              (record { calls = 0; input = t.output })
            ≡ some (some d))
        × Starts
            (λ n. true)
            manager.entities
            (new_client 100)
            (codes "10.0.0.2")
            (client_turn threes (λ n. true) d))
unfolding init_server init_client send_client_ip
client_main-server_main_example =
    client_main-server_main yaml (some document) manager document_test server_entity server_calls
      client_calls 4 3 60 threes threes 72 100 0 4000 (λ n. true) [] (replicate 64 170)
      (codes "10.0.0.2") (pos 5) (record { calls = 0; output = [] }) refl refl threes_accepts
      threes_offers (omega arith) refl refl (omega arith) (omega arith) refl
