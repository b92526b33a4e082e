-- ===== src/Tcp/ListenTests.antt =====
-- Runs of the TCP handler, and the theorems at concrete systems.
use cezfuzzer.Base.{
  ℕ, suc, ◌+◌, ◌<◌, ◌≡◌, ◌≢◌, ◌⊎◌, ◌&&◌, inl, refl, pos, true, false, List, [], ◌∷◌, some, elem,
  arith, ◌==◌, not,
}
use cezfuzzer.Config.Entity.{TcpRedirection}
use cezfuzzer.Tcp.Channel.{
  TcpConnection, Listener, TcpHandler, TcpSystem, continued, start_connection_thread,
  start_channel_threads,
}
use cezfuzzer.Tcp.Listen.{
  no_channels, listen_on, start_listener, tcp_handler, start_channel, add_channel_pair, listen_turn,
}
use cezfuzzer.Tcp.Reached.{
  Reachable, begin, redirect, accepted, IsFresh, IsPaired, Reachable-IsPaired,
}
use cezfuzzer.Tcp.Rounds.{Reaches, IsRound, listen_turn_cases}
use cezfuzzer.Tcp.Failures.{AddsListener, AddsNothing, IsStale, listen_on_cases}

-- A descriptor above the open ones.
abbrev next_fd : List ℕ → ℕ
next_fd [] = 3
next_fd (x ∷ xs) = suc (x + next_fd xs)

next_fd_above : (s : ℕ) (xs : List ℕ) → elem s xs ≡ true → s < next_fd xs
next_fd_above s [] e = cc
next_fd_above s (x ∷ xs) e = ground (arith, next_fd_above s xs)

-- pthread_create() gives `ret`.
abbrev system : ℕ → TcpSystem
system ret = record {
  socket = λ n fds. some (next_fd fds);
  bind = λ n port. not (port == 1);
  listen = λ n. true;
  accept = λ n l fds. some (next_fd fds, "10.0.0.7", 40000);
  connect = λ n fd ip port. true;
  create_thread = λ n. pos ret;
}

system-IsFresh : (ret : ℕ) → IsFresh (system ret)
system-IsFresh ret = record {
  socket_fresh = λ n fds fd e. ground (arith, next_fd_above fd fds);
  accept_fresh = λ n l fds fd ip port e. ground (arith, next_fd_above fd fds);
}

abbrev web : TcpRedirection
web = record { server_ip = "10.0.0.9"; server_port = 80; proxy_port = 8080 }

abbrev unbound : TcpRedirection
unbound = record web { proxy_port = 1 }

abbrev start : TcpHandler
start = no_channels 0 []

-- The redirection that cannot be bound has no listener.
listeners_test :
    (tcp_handler (system 0) (web ∷ unbound ∷ []) start).listeners
    ≡ record { port = 80; ip = "10.0.0.9"; proxy_port = 8080; listen_fd = 3 } ∷ []
unfolding tcp_handler listen_on start_listener
listeners_test = refl

abbrev listener : Listener
listener = record { port = 80; ip = "10.0.0.9"; proxy_port = 8080; listen_fd = 3 }

abbrev client : TcpConnection
client = record { socket_fd = pos 7; ip = "10.0.0.7"; port = 40000 }

abbrev server : TcpConnection
server = record { socket_fd = pos 15; ip = "10.0.0.9"; port = 80 }

abbrev listening : TcpHandler
listening = record {
  calls = 1;
  open_fds = 3 ∷ [];
  listen_sockets = 3 ∷ [];
  channel_pairs = [];
  listeners = listener ∷ [];
  channel_threads = [];
}

abbrev relaying : TcpHandler
relaying = record {
  calls = 4;
  open_fds = 15 ∷ 7 ∷ 3 ∷ [];
  listen_sockets = 3 ∷ [];
  channel_pairs = record { client_side = client; server_side = server } ∷ [];
  listeners = listener ∷ [];
  channel_threads = (pos 7, pos 15) ∷ (pos 15, pos 7) ∷ [];
}

listen_turn_test : listen_turn (system 0) listener listening ≡ continued relaying
unfolding listen_turn start_channel start_channel_threads start_connection_thread add_channel_pair
listen_turn_test = refl

listening_test : listen_on (system 0) web start ≡ listening
unfolding listen_on start_listener
listening_test = refl

listening-Reachable : Reachable (system 0) listening
listening-Reachable =
    let reached : Reachable (system 0) (listen_on (system 0) web start) =
      redirect start web (begin 0 []) in
    rw listening_test at reached

relaying-Reachable : Reachable (system 0) relaying
relaying-Reachable =
    accepted listening relaying listener (inl refl) listen_turn_test listening-Reachable

Reachable-IsPaired_example : (cs : List (ℕ × ℕ)) × IsPaired relaying cs
Reachable-IsPaired_example =
    Reachable-IsPaired (system 0) (system-IsFresh 0) (λ n. refl) relaying relaying-Reachable

listen_on_cases_example :
    (AddsListener web [] (listen_on (system 11) web start)
      × (true && true ≡ true)
      × (pos 11 ≡ pos 0))
    ⊎ (AddsNothing [] [] (listen_on (system 11) web start)
        × ((true && true ≡ false)
            ⊎ ((pos 11 ≢ pos 0) × IsStale 3 (listen_on (system 11) web start))))
listen_on_cases_example = listen_on_cases (system 11) web 3 start refl refl

-- Both threads fail, and the round goes on.
listen_turn_cases_example :
    (r : Reaches (system 11) listener listening) × IsRound (system 11) listener listening r
listen_turn_cases_example = listen_turn_cases (system 11) (λ n. refl) listener listening

abbrev threadless : TcpHandler
threadless = record relaying { channel_threads = [] }

threadless_test : listen_turn (system 11) listener listening ≡ continued threadless
unfolding listen_turn start_channel start_channel_threads start_connection_thread add_channel_pair
threadless_test = refl
