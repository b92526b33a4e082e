-- ===== src/Launcher/Restart.antt =====
-- The restart protocol: what a RESTART does to the processes of a client, and to the server again.
use cezfuzzer.Base.{
  ℤ, elem, delete, elem-delete, elem-append, ℕ, zero, suc, ◌<◌, ◌≡◌, refl, Bool, true, false, List,
  [], ◌∷◌, inl, inr, Option, some, ◌==◌, arith, map, Bool-cases,
}
use cezfuzzer.Launcher.Messages.{restart_text, literal, buffer_of, strncmp_eq}
use cezfuzzer.Launcher.Client.{
  Client, start_entity, start_loop, start_entities, stop_loop, stop_processes, multiplex_message,
  reports, monitor_child,
}
use cezfuzzer.Launcher.Turns.{sent_texts_all}
use cezfuzzer.Launcher.Server.{all_sent, Server, restarted, handle_message, main_turn, cleared}

-- A process that was started, and that a thread waits for.
pub record IsWatched (c : Client) (p : ℕ) : Type 0 where
  pub listed : elem p c.process_list ≡ true
  pub watched : elem p c.watched ≡ true
  pub started : p < c.forks

-- A process that is dead and that a thread still waits for.
pub record IsDead (c : Client) (p : ℕ) : Type 0 where
  pub dead : elem p c.live ≡ false
  pub watched : elem p c.watched ≡ true
  pub started : p < c.forks

module _ (forks_ok : ℕ → Bool) where
  start_entity-IsDead : (c : Client) (p : ℕ) → IsDead c p → IsDead (start_entity forks_ok c) p
  unfolding start_entity
  start_entity-IsDead c p h = ground (
    arith,
    h.dead,
    h.watched,
    h.started,
    elem-append p c.forks c.live,
    elem-append p c.forks c.watched,
  )

  start_loop-IsDead : (n : ℕ) (c : Client) (p : ℕ) → IsDead c p → IsDead (start_loop forks_ok n c) p
  unfolding start_loop
  start_loop-IsDead zero c p h = h
  start_loop-IsDead (suc n) c p h =
      start_loop-IsDead n (start_entity forks_ok c) p (start_entity-IsDead c p h)

  start_entity-IsWatched :
      (c : Client) (p : ℕ) → IsWatched c p → IsWatched (start_entity forks_ok c) p
  unfolding start_entity
  start_entity-IsWatched c p h = ground (
    arith,
    h.listed,
    h.watched,
    h.started,
    elem-append p c.forks c.process_list,
    elem-append p c.forks c.watched,
  )

  start_loop-IsWatched :
      (n : ℕ) (c : Client) (p : ℕ) → IsWatched c p → IsWatched (start_loop forks_ok n c) p
  unfolding start_loop
  start_loop-IsWatched zero c p h = h
  start_loop-IsWatched (suc n) c p h =
      start_loop-IsWatched n (start_entity forks_ok c) p (start_entity-IsWatched c p h)

  start_entity-new :
      (c : Client) (p : ℕ) → c.forks ≡ p → forks_ok p ≡ true → IsWatched (start_entity forks_ok c) p
  unfolding start_entity
  start_entity-new c p next ok =
      ground (arith, elem-append p c.forks c.process_list, elem-append p c.forks c.watched)

stop_loop_same :
    (pids : List ℕ) (c : Client)
    → ((stop_loop pids c).watched ≡ c.watched) × ((stop_loop pids c).forks ≡ c.forks)
unfolding stop_loop
stop_loop_same [] c = (refl, refl)
stop_loop_same (pid ∷ pids) c = stop_loop_same pids (record c { live = delete pid c.live })

stop_loop_dead :
    (pids : List ℕ) (c : Client) (p : ℕ)
    → elem p c.live ≡ false
    → elem p (stop_loop pids c).live ≡ false
unfolding stop_loop
stop_loop_dead [] c p h = h
stop_loop_dead (pid ∷ pids) c p h =
    stop_loop_dead pids (record c { live = delete pid c.live }) p
      (ground (arith, elem-delete p pid c.live))

stop_loop_kills :
    (pids : List ℕ) (c : Client) (p : ℕ)
    → elem p pids ≡ true
    → elem p (stop_loop pids c).live ≡ false
unfolding stop_loop
stop_loop_kills [] c p h = cc
stop_loop_kills (pid ∷ pids) c p h =
    let c' : Client = record c { live = delete pid c.live } in
    elim (Bool-cases (p == pid)) [
      | inl same ↦ stop_loop_dead pids c' p (ground (arith, elem-delete p pid c.live))
      | inr other ↦ stop_loop_kills pids c' p (ground arith)
    ]

-- Stopping the processes kills each of the list, and the threads that wait for them stay.
stop_processes-IsDead : (c : Client) (p : ℕ) → IsWatched c p → IsDead (stop_processes c) p
unfolding stop_processes
stop_processes-IsDead c p h =
    let (same_watched, same_forks) = stop_loop_same c.process_list c in
    record {
      dead = stop_loop_kills c.process_list c p h.listed;
      watched = ground (arith, same_watched, h.watched);
      started = ground (arith, same_forks, h.started);
    }

stop_processes_forks : (c : Client) → (stop_processes c).forks ≡ c.forks
unfolding stop_processes
stop_processes_forks c = (stop_loop_same c.process_list c).1

-- The client after the server's message RESTART.
abbrev pub after_restart : (ℕ → Bool) → ℕ → Client → Client
after_restart forks_ok n c = multiplex_message forks_ok n (buffer_of (literal restart_text)) c

module _ (forks_ok : ℕ → Bool) where
  after_restart_eq :
      (n : ℕ) (c : Client)
      → after_restart forks_ok n c ≡ start_entities forks_ok n (stop_processes c)
  unfolding multiplex_message strncmp_eq buffer_of
  after_restart_eq n c = refl

  after_restart-IsDead :
      (n : ℕ) (c : Client) (p : ℕ) → IsWatched c p → IsDead (after_restart forks_ok n c) p
  unfolding start_entities
  after_restart-IsDead n c p h =
      let dead = stop_processes-IsDead c p h in
      rw (after_restart_eq n c) (
        start_loop-IsDead forks_ok n
          (record (stop_processes c) { index = suc (stop_processes c).index }) p
          (record { dead = dead.dead; watched = dead.watched; started = dead.started }))

  after_restart-IsWatched :
      (n : ℕ) (c : Client)
      → forks_ok c.forks ≡ true
      → IsWatched (after_restart forks_ok (suc n) c) c.forks
  unfolding start_entities start_loop
  after_restart-IsWatched n c ok =
      let c' : Client = record (stop_processes c) { index = suc (stop_processes c).index } in
      let same_forks : c'.forks ≡ c.forks = stop_processes_forks c in
      rw (after_restart_eq (suc n) c) (
        start_loop-IsWatched forks_ok n (start_entity forks_ok c') c.forks
          (start_entity-new forks_ok c' c.forks same_forks ok))

-- One round of the protocol, from the server's RESTART: the server's next turn is again a restart.
pub record FeedsItself (forks_ok : ℕ → Bool) (n : ℕ) (c : Client) (p : ℕ) (delivers : ℤ → Bool)
    (launched : Option ℕ) (s : Server) : Type 0 where
  pub reported : reports (after_restart forks_ok n c) p ≡ true
  pub next_watched : IsWatched (monitor_child (after_restart forks_ok n c) p).0 c.forks
  pub next_turn :
      main_turn delivers launched
        (handle_message s (buffer_of (monitor_child (after_restart forks_ok n c) p).1))
      ≡ restarted
          (record s { proxy_pid = launched; message = cleared; notification = false })
          (map (λ fd. (fd, literal restart_text)) s.client_fd_list)

-- A client with one entity or more, a thread of which waits for a process of its list, receives
-- RESTART, and its next fork() succeeds. Then the process is dead and its thread goes on; a thread
-- waits for a new process in the same way; and the message that the first thread sends makes the
-- next turn of main of the server restart the proxy and send RESTART to every client. The server
-- is taken to know the proxy's process, and its send_message() to return for every client of its
-- list.
pub restart-FeedsItself :
    (forks_ok : ℕ → Bool) (n : ℕ) (c : Client) (p : ℕ) (delivers : ℤ → Bool) (launched : Option ℕ)
    (s : Server) (pid : ℕ)
    → IsWatched c p
    → forks_ok c.forks ≡ true
    → s.proxy_pid ≡ some pid
    → all_sent delivers s.client_fd_list ≡ true
    → FeedsItself forks_ok (suc n) c p delivers launched s
unfolding monitor_child handle_message main_turn strncmp_eq buffer_of
restart-FeedsItself forks_ok n c p delivers launched s pid h ok known told =
    let dead = after_restart-IsDead forks_ok (suc n) c p h in
    let next = after_restart-IsWatched forks_ok n c ok in
    record {
      reported = rw (dead.watched, dead.dead);
      next_watched = record {
        listed = next.listed;
        watched = ground (
          arith,
          next.watched,
          h.started,
          elem-delete c.forks p (after_restart forks_ok (suc n) c).watched,
        );
        started = next.started;
      };
      next_turn = rw (known, told, sent_texts_all delivers s.client_fd_list told) refl;
    }
