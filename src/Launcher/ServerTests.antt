-- ===== src/Launcher/ServerTests.antt =====
-- The restart of the clients, and clients that are accepted one after the other, at concrete inputs.
use cezfuzzer.Base.{
  ◌+◌, ℕ, ◌≡◌, refl, inl, inr, ℤ, pos, true, false, List, [], ◌∷◌, Option, none, some, map, arith,
  replicate, codes, c_string,
}
use cezfuzzer.Wire.Stream.{Sender, finished, send_message}
use cezfuzzer.Launcher.Sample.{threes, threes_offers, threes_accepts}
use cezfuzzer.Launcher.Messages.{
  crash_text, start_text, restart_text, literal, buffer_of, strncmp_eq,
}
use cezfuzzer.Launcher.Client.{Client, start_entity, start_loop, start_entities, multiplex_message}
use cezfuzzer.Launcher.Server.{Server, restart, main_turn, restarted, cleared}
use cezfuzzer.Launcher.Session.{Session, client_turn}
use cezfuzzer.Launcher.Processes.{Reachable, begin, receive, new_client, IsExact, restart-IsExact}
use cezfuzzer.Launcher.Relaunch.{client_turn-main_turn}
use cezfuzzer.Launcher.Accepting.{
  NewClient, Acceptor, accepts, fails, begins, happen, accept_client, accept_fails, begin_thread,
  run,
}
use cezfuzzer.Launcher.Rounds.{frames}
use cezfuzzer.Launcher.Handling.{handle_rounds}
use cezfuzzer.Launcher.Reports.{handle_all, left, handle_rounds-frames}
use cezfuzzer.Launcher.Overtaken.{IsLost, run-IsLost_overtaken}

-- Two processes, started by START.
abbrev running : Client
running = multiplex_message (λ n. true) 2 (buffer_of start_text) (new_client 100)

running-Reachable : Reachable running
running-Reachable = receive (new_client 100) (λ n. true) 2 (buffer_of start_text) (begin 100)

running_test : running.live ≡ 100 ∷ 101 ∷ []
unfolding multiplex_message strncmp_eq buffer_of start_entities start_loop start_entity
running_test = refl

restart-IsExact_example :
    IsExact running.forks
      (multiplex_message (λ n. true) 2 (buffer_of (literal restart_text)) running)
unfolding c_string
restart-IsExact_example =
    restart-IsExact running (λ n. true) 2 (literal restart_text) running-Reachable refl

abbrev server : Server
server = record {
  notification = true;
  message = restart;
  client_fd_list = pos 5 ∷ pos 6 ∷ [];
  proxy_pid = some 50;
}

abbrev sent : List (ℤ × List ℕ)
sent = (pos 5, literal restart_text) ∷ (pos 6, literal restart_text) ∷ []

abbrev calm : Server
calm = record server { notification = false; message = cleared; proxy_pid = some 60 }

server_test : main_turn (λ fd. true) (some 60) server ≡ restarted calm sent
unfolding main_turn
server_test = refl

abbrev session : Session
session = record {
  ip = [];
  entities = [];
  processes = running;
  stream = record { calls = 0; input = [] };
}

client_turn-main_turn_example :
    (map (λ m. m.0) sent ≡ pos 5 ∷ pos 6 ∷ [])
    × ((t : Sender) × (send_message threes 16
            (literal restart_text)
            (record { calls = 0; output = [] })
          ≡ finished t)
        × IsExact running.forks
            (client_turn threes
              (λ n. true)
              (record session { stream = record { calls = 0; input = t.output } })).processes)
client_turn-main_turn_example =
    client_turn-main_turn threes threes 16 0 (λ n. true) (λ fd. true) (some 60) server calm sent
      (pos 6) (literal restart_text) (record { calls = 0; output = [] }) session threes_accepts
      threes_offers (omega arith) server_test (inr (inl refl)) refl running-Reachable

abbrev arrival : ℤ → NewClient
arrival fd = record {
  fd = fd;
  ip = codes "10.0.0.1";
  port = 4000;
  granted = true;
  junk = replicate 64 170;
  thread_starts = true;
}

abbrev idle : Acceptor
idle = record {
  listening = true;
  client_fd = pos 0;
  client_list = [];
  client_fd_list = [];
  starting = 0;
  serving = [];
}

-- Both threads serve the second client; had the first begun in between, each would serve its own.
abbrev serving_of : Option Acceptor → List ℤ
serving_of none = []
serving_of (some s) = s.serving

overtaken_test :
    serving_of
      (run (accepts (arrival (pos 5)) ∷ accepts (arrival (pos 6)) ∷ begins ∷ begins ∷ []) idle)
    ≡ pos 6 ∷ pos 6 ∷ []
unfolding run happen accept_client begin_thread
overtaken_test = refl

in_turn_test :
    serving_of
      (run (accepts (arrival (pos 5)) ∷ begins ∷ accepts (arrival (pos 6)) ∷ begins ∷ []) idle)
    ≡ pos 5 ∷ pos 6 ∷ []
unfolding run happen accept_client begin_thread
in_turn_test = refl

-- The thread begins after listen_thread_func has returned.
late_test : run (accepts (arrival (pos 5)) ∷ fails ∷ begins ∷ []) idle ≡ none
unfolding run happen accept_client accept_fails begin_thread
late_test = refl

run-IsLost_overtaken_example :
    (s : Acceptor) × (run
        (accepts (arrival (pos 5)) ∷ accepts (arrival (pos 6)) ∷ begins ∷ begins ∷ [])
        idle
      ≡ some s)
    × IsLost (pos 5) s
run-IsLost_overtaken_example =
    run-IsLost_overtaken idle (arrival (pos 5)) (arrival (pos 6)) (begins ∷ begins ∷ []) refl refl
      refl ((λ e. cc e), refl, tt)

-- A report, and five rounds after the client has gone.
handle_rounds-frames_example :
    (calls : ℕ) × (handle_rounds threes (2 + 5) (left server 0 (frames (crash_text ∷ [] ∷ [])))
      ≡ left (handle_all (crash_text ∷ [] ∷ []) server) calls [])
handle_rounds-frames_example =
    handle_rounds-frames threes threes_offers (crash_text ∷ [] ∷ []) 5 server 0 (omega arith)
