-- ===== src/Execution/Tests.antt =====
-- Launches of two entities, and the theorems at them.
use cezfuzzer.Base.{◌≡◌, refl, pos, minus_one, true, List, [], ◌∷◌, Option, none, some, String}
use cezfuzzer.Fuzzer.Args.{argv}
use cezfuzzer.Launcher.Config.{EntityConfig}
use cezfuzzer.Execution.Decimal.{to_string, digits}
use cezfuzzer.Execution.Launch.{
  build_argv, exec_argv, executes, log_path, launched_child, launch_entity,
}
use cezfuzzer.Execution.Command.{IsCommand, argv-launch_entity}

abbrev client : EntityConfig
client = record {
  name = "tcp_client";
  role = "client";
  protocol = "tcp";
  ip = "192.168.1.20";
  port = minus_one;
  fuzzed = true;
  binary_path = "tests/client.py";
  exec_with = "python3";
  args = "-v" ∷ [];
  destinations = [];
  connect_to = some (record { ip = "192.168.1.10"; port = pos 12345 });
}

client_test :
    launch_entity (some 77) true client (pos 2)
    ≡ some (
      77,
      executes "/tmp/logs/tcp_client_2.log" (
          some "stdbuf"
          ∷ some "-o0"
          ∷ some "-e0"
          ∷ some "python3"
          ∷ some "/app/tests/client.py"
          ∷ some "-v"
          ∷ some "192.168.1.10"
          ∷ some "12345"
          ∷ none
          ∷ none
          ∷ []),
    )
unfolding launch_entity launched_child exec_argv build_argv to_string digits
client_test = refl

-- A server is given no address, even if it has one.
server_test :
    argv (exec_argv (record client { role = "server"; exec_with = "" }))
    ≡ some ("stdbuf" ∷ "-o0" ∷ "-e0" ∷ "/app/tests/client.py" ∷ "-v" ∷ [])
unfolding argv exec_argv build_argv
server_test = refl

argv-launch_entity_example :
    (words : List String) × (vector : List (Option String)) × (launch_entity
        (some 77)
        true
        client
        minus_one
      ≡ some (77, executes (log_path client minus_one) vector))
    × (argv vector ≡ some ("stdbuf" ∷ "-o0" ∷ "-e0" ∷ words))
    × IsCommand client words
argv-launch_entity_example = argv-launch_entity client minus_one 77
