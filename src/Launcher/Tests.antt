-- ===== src/Launcher/Tests.antt =====
-- Runs of the launcher, and the theorems at concrete inputs.
use cezfuzzer.Base.{
  eq_ℤ, c_string, List, ℕ, replicate, length, ◌≡◌, ◌≢◌, ◌↔◌, ◌⊎◌, refl, pos, true, false, [], ◌∷◌,
  ◌++◌, none, some, arith,
}
use cezfuzzer.Launcher.Messages.{
  start_text, restart_text, crash_text, literal, buffer_of, strncmp_eq,
}
use cezfuzzer.Launcher.Client.{
  Client, start_entity, start_loop, start_entities, stop_loop, stop_processes, multiplex_message,
}
use cezfuzzer.Launcher.Server.{
  Server, cleared, waiting, locked, thrown, restarted, exited, handle_message, add_client,
  main_turn,
}
use cezfuzzer.Launcher.Clients.{add_new_client, send_client_ip, send_client_ip-add_new_client}
use cezfuzzer.Launcher.Restart.{IsWatched, FeedsItself, restart-FeedsItself}
use cezfuzzer.Launcher.Turns.{Reachable, begin, receive, accept, fresh_server, main_turn-Reachable}

abbrev fresh : Client
fresh = record { process_list = []; index = 0; watched = []; live = []; forks = 100 }

-- Two entities run.
abbrev running : Client
running = record {
  process_list = 100 ∷ 101 ∷ [];
  index = 1;
  watched = 100 ∷ 101 ∷ [];
  live = 100 ∷ 101 ∷ [];
  forks = 102;
}

start_test : multiplex_message (λ n. true) 2 (buffer_of start_text) fresh ≡ running
unfolding multiplex_message strncmp_eq buffer_of start_entities start_loop start_entity
start_test = refl

restart_test : multiplex_message (λ n. true) 2 (buffer_of (literal restart_text)) running ≡ record {
  process_list = 102 ∷ 103 ∷ [];
  index = 2;
  watched = 100 ∷ 101 ∷ 102 ∷ 103 ∷ [];
  live = 102 ∷ 103 ∷ [];
  forks = 104;
}
unfolding multiplex_message strncmp_eq buffer_of start_entities start_loop start_entity
    stop_processes stop_loop
restart_test = refl

-- A text that begins with RESTART is not RESTART.
other_test :
    multiplex_message (λ n. true) 2 (buffer_of (restart_text ++ b'!' ∷ [])) running ≡ running
unfolding multiplex_message strncmp_eq buffer_of
other_test = refl

running-IsWatched : IsWatched running 101
running-IsWatched = record { listed = refl; watched = refl; started = omega arith }

-- A server with one client, which has sent CRASH.
abbrev crashed : Server
crashed = handle_message (add_client (fresh_server (some 50)) (pos 7)) (buffer_of crash_text)

crashed-Reachable : Reachable crashed
crashed-Reachable =
    receive (add_client (fresh_server (some 50)) (pos 7)) (buffer_of crash_text)
      (accept (fresh_server (some 50)) (pos 7) (begin (some 50)))

crash_test :
    main_turn (λ fd. true) (some 51) crashed
    ≡ restarted
        (record {
          notification = false;
          message = cleared;
          client_fd_list = pos 7 ∷ [];
          proxy_pid = some 51;
        })
        ((pos 7, literal restart_text) ∷ [])
unfolding main_turn handle_message add_client strncmp_eq buffer_of
crash_test = refl

restart-FeedsItself_example : FeedsItself (λ n. true) 2 running 101 (λ fd. true) (some 51) crashed
unfolding handle_message add_client strncmp_eq buffer_of
restart-FeedsItself_example =
    restart-FeedsItself (λ n. true) 1 running 101 (λ fd. true) (some 51) crashed 50
      running-IsWatched refl refl refl

main_turn-Reachable_example :
    (main_turn (λ fd. true) (some 51) crashed ≢ locked)
    × ((main_turn (λ fd. true) (some 51) crashed ≡ thrown)
        ↔ ((crashed.notification ≡ true) × (crashed.proxy_pid ≡ none)))
    × ((main_turn (λ fd. true) (some 51) crashed ≡ waiting) ↔ (crashed.notification ≡ false))
main_turn-Reachable_example = main_turn-Reachable (λ fd. true) (some 51) crashed crashed-Reachable

-- The first client of two has gone.
gone_test : main_turn (λ fd. eq_ℤ fd (pos 8)) (some 51) (add_client crashed (pos 8)) ≡ exited []
unfolding main_turn handle_message add_client strncmp_eq buffer_of
gone_test = refl

-- 64 bytes of memory.
abbrev memory : List ℕ
memory = replicate 64 170

-- The text 10.0.0.1
abbrev address : List ℕ
address = b'1' ∷ b'0' ∷ b'.' ∷ b'0' ∷ b'.' ∷ b'0' ∷ b'.' ∷ b'1' ∷ []

send_client_ip-add_new_client_example :
    ((true ≡ true)
      × ((bytes : List ℕ) × (send_client_ip
              (pos 7)
              (add_new_client true memory (pos 7) address 4000 []).0
            ≡ some bytes)
          × (length bytes ≡ 64)
          × (c_string bytes ≡ address)))
    ⊎ ((true ≡ false)
        × (send_client_ip (pos 7) (add_new_client true memory (pos 7) address 4000 []).0 ≡ none))
unfolding send_client_ip
send_client_ip-add_new_client_example =
    send_client_ip-add_new_client true memory address (pos 7) 4000 [] refl refl (omega arith)
      (omega arith)
