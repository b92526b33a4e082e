-- ===== src/Launcher/Started.antt =====
-- The launchers from their configuration to the running programs.
use cezfuzzer.Base.{
  ℕ, ◌≤◌, ◌≡◌, refl, ap, ℤ, minus_one, Bool, true, List, [], ◌∷◌, Option, none, some, String,
  length, NoZero,
}
use cezfuzzer.Config.Yaml.{Yaml}
use cezfuzzer.Fuzzer.Args.{argv}
use cezfuzzer.Wire.Stream.{Kernel, Sender, finished}
use cezfuzzer.Wire.Total.{IsWilling}
use cezfuzzer.Wire.Receiving.{IsOffering}
use cezfuzzer.Execution.Launch.{Child, executes, log_path}
use cezfuzzer.Execution.Command.{IsCommand, argv-launch_entity}
use cezfuzzer.Launcher.Config.{EntityConfig, ConfigurationManager, parse, get_fuzzer}
use cezfuzzer.Launcher.Clients.{ClientInfo, add_new_client, send_client_ip}
use cezfuzzer.Launcher.Server.{Server}
use cezfuzzer.Launcher.Turns.{Reachable, begin, fresh_server}
use cezfuzzer.Launcher.Processes.{new_client}
use cezfuzzer.Launcher.Session.{Session, greet_client, client_turn}
use cezfuzzer.Launcher.Welcome.{Starts, client_turn-greet_client}
use cezfuzzer.Launcher.Startup.{
  new_manager, ServerCalls, ClientCalls, init_server, init_client, server_main, client_main,
}

-- The server waits for its clients, and the proxy's command runs.
pub record IsServing (entity : EntityConfig) (pid : ℕ)
    (started : Option (Server × Option (ℕ × Child))) : Type 0 where
  pub server : Server
  pub vector : List (Option String)
  pub words : List String
  pub result : started ≡ some (server, some (pid, executes (log_path entity minus_one) vector))
  pub reachable : Reachable server
  pub known : server.proxy_pid ≡ some pid
  pub command : argv vector ≡ some ("stdbuf" ∷ "-o0" ∷ "-e0" ∷ words)
  pub own : IsCommand entity words

module _ {N : Type 0} (y : Yaml N) (doc : Option N) (cm : ConfigurationManager)
    (read : parse y doc new_manager ≡ (cm, true)) where
  server_main-IsServing :
      (unset : EntityConfig) (sys : ServerCalls) (sockfd pid : ℕ)
      → init_server sys ≡ some sockfd
      → IsServing (get_fuzzer unset cm.entities) pid (server_main y doc unset sys (some pid) true)
  unfolding server_main
  server_main-IsServing unset sys sockfd pid listening =
      let (words, vector, launched, command, own) =
        argv-launch_entity (get_fuzzer unset cm.entities) minus_one pid in
      record {
        server = fresh_server (some pid);
        vector = vector;
        words = words;
        result = rw (read, listening, launched) refl;
        reachable = begin (some pid);
        known = refl;
        command = command;
        own = own;
      }

  -- On one file that parse() reads without an exception, with the calls of init_server and
  -- init_client and the fork() and open() for the proxy all successful: the server comes to its
  -- loop in a reachable state that knows the proxy's process, which runs the command of
  -- getFuzzer's entity. A new client, as its descriptor is in no list, with an address of at most
  -- 15 bytes and none 0, and with memory granted, is greeted on an empty stream, with fuel for 72
  -- bytes; its main comes to its loop, and after the first round it knows its address and its
  -- entities, has started them, and has used up the stream. Every send() is taken to take a byte
  -- or more, recv() to give a byte or more while there are some.
  pub client_main-server_main :
      (unset : EntityConfig) (server_calls : ServerCalls) (client_calls : ClientCalls)
      (server_fd client_fd pid : ℕ) (sends takes : Kernel) (fuel forks calls port : ℕ)
      (forks_ok : ℕ → Bool) (clients : List ClientInfo) (junk ip : List ℕ) (fd : ℤ) (out : Sender)
      → init_server server_calls ≡ some server_fd
      → init_client client_calls ≡ some client_fd
      → IsWilling sends
      → IsOffering takes
      → 72 ≤ fuel
      → send_client_ip fd clients ≡ none
      → length junk ≡ 64
      → NoZero ip
      → length ip ≤ 15
      → out.output ≡ []
      → IsServing
          (get_fuzzer unset cm.entities)
          pid
          (server_main y doc unset server_calls (some pid) true)
        × ((t : Sender) × (d : Session) × (greet_client sends fuel fd
                (add_new_client true junk fd ip port clients).0
                out
              ≡ some (finished t))
            × (client_main takes y doc client_calls
                  (new_client forks)
                  (record { calls = calls; input = t.output })
                ≡ some (some d))
            × Starts forks_ok cm.entities (new_client forks) ip (client_turn takes forks_ok d))
  unfolding client_main
  client_main-server_main unset server_calls client_calls server_fd client_fd pid sends takes fuel
        forks calls port forks_ok clients junk ip fd out listening connected w off enough new size
        plain short empty =
      let (t, d, greeted, set, starts) =
        client_turn-greet_client sends takes fuel forks_ok clients junk ip fd port calls out
          cm.entities (new_client forks) w off enough new size plain short empty in
      (
        server_main-IsServing unset server_calls server_fd pid listening,
        (t, d, greeted, rw (read, connected) (ap some set), starts),
      )
