-- ===== src/Launcher/SessionTests.antt =====
-- A client and a server on sockets that split what they move, and the theorems at them.
use cezfuzzer.Base.{
  ◌+◌, ℕ, ◌≡◌, ◌↔◌, refl, minus_one, true, List, [], ◌∷◌, ◌++◌, none, some, replicate, arith, codes,
  c_string, String,
}
use cezfuzzer.Wire.Stream.{Sender}
use cezfuzzer.Wire.Sending.{frame}
use cezfuzzer.Config.Sample.{yaml, document, manager}
use cezfuzzer.Config.Manager
use cezfuzzer.Config.Yaml.{each}
use cezfuzzer.Config.Entity.{read_entity, read_connect_to}
use cezfuzzer.Launcher.Sample.{threes, threes_offers}
use cezfuzzer.Launcher.Messages.{start_text, restart_text, literal}
use cezfuzzer.Launcher.Config.{EntityConfig, parse, get_entities}
use cezfuzzer.Launcher.Agreement.{view_manager, parse-Follows}
use cezfuzzer.Launcher.Client.{Client}
use cezfuzzer.Launcher.Session.{Session, set_entities_list, client_rounds}
use cezfuzzer.Launcher.Rounds.{frames, act_on_all, after, client_rounds-stream}
use cezfuzzer.Launcher.Welcome.{IsTooLong, set_entities_list_overflow}

abbrev entity : String → EntityConfig
entity ip = record {
  name = "peer";
  role = "server";
  protocol = "udp";
  ip = ip;
  port = minus_one;
  fuzzed = true;
  binary_path = "peer";
  exec_with = "";
  args = [];
  destinations = [];
  connect_to = none;
}

abbrev all : List EntityConfig
all = entity "10.0.0.1" ∷ entity "10.0.0.2" ∷ entity "10.0.0.1" ∷ []

abbrev idle : Client
idle = record { process_list = []; index = 0; watched = []; live = []; forks = 100 }

abbrev start : Sender
start = record { calls = 0; output = [] }

own_test : get_entities (codes "10.0.0.1") all ≡ entity "10.0.0.1" ∷ entity "10.0.0.1" ∷ []
unfolding get_entities c_string
own_test = refl

abbrev session : List ℕ → Session
session input = record {
  ip = codes "10.0.0.1";
  entities = entity "10.0.0.1" ∷ [];
  processes = idle;
  stream = record { calls = 0; input = input };
}

abbrev orders : List (List ℕ)
orders = start_text ∷ literal restart_text ∷ []

-- Nine rounds after the server has gone.
client_rounds-stream_example :
    (calls : ℕ) × (client_rounds threes (2 + 9) (λ n. true) (session (frames orders))
      ≡ after (session (frames orders)) (act_on_all (λ n. true) 1 orders idle) calls [])
client_rounds-stream_example =
    client_rounds-stream threes threes_offers (λ n. true) orders 9 (session (frames orders))
      (omega arith) refl

set_entities_list_overflow_example :
    (set_entities_list threes all idle (record { calls = 0; input = frame (replicate 65 49) ++ [] })
      ≡ none)
    ↔ IsTooLong (replicate 65 49)
set_entities_list_overflow_example =
    set_entities_list_overflow threes all idle (replicate 65 49) [] 0 threes_offers (omega arith)

parse-Follows_example :
    parse yaml (some document) (view_manager manager)
    ≡ (view_manager (Manager.parse yaml (some document) manager).0, true)
unfolding Manager.parse Manager.parse_entities Manager.add_entity read_entity each read_connect_to
parse-Follows_example = parse-Follows yaml (some document) manager refl
