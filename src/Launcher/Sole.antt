-- ===== src/Launcher/Sole.antt =====
-- luncher/server/src/Server.cpp: the server has at most one proxy at a time, through any restarts.
use mathlib.Core.Path.{subst}
use cezfuzzer.Base.{
  ℕ, ◌<◌, ◌≡◌, ◌⊎◌, inl, inr, refl, ap, ℤ, Bool, true, false, List, [], ◌∷◌, Option, none, some,
  arith, Bool-cases, ◌==◌,
}
use cezfuzzer.Execution.Launch.{launch_entity}
use cezfuzzer.Launcher.Config.{EntityConfig}
use cezfuzzer.Launcher.Server.{
  Server, Message, cleared, restart, Turn, waiting, locked, thrown, restarted, exited, all_sent,
  handle_message, add_client, main_turn,
}
use cezfuzzer.Launcher.Status.{WaitStatus, terminated, report_of}
use cezfuzzer.Launcher.Proxies.{
  Children, ends, stop_process, start_host, relaunch, after_turn, Host, host_turn,
}

-- The server's only child is the proxy of its variable proxyPid, running or ended; if the variable
-- is empty, it has no child.
pub data IsOnlyChild : Option ℕ → Children → Type 0 where
  absent : {n : ℕ} → IsOnlyChild none (record { live = []; zombies = []; forks = n })
  running :
      {pid n : ℕ}
      → pid < n
      → IsOnlyChild (some pid) (record { live = pid ∷ []; zombies = []; forks = n })
  ended :
      {pid status n : ℕ}
      → pid < n
      → IsOnlyChild (some pid) (record { live = []; zombies = (pid, status) ∷ []; forks = n })

abbrev pub IsSole : Host → Type 0
IsSole h = IsOnlyChild h.server.proxy_pid h.children

abbrev pub no_children : ℕ → Children
no_children n = record { live = []; zombies = []; forks = n }

-- A turn of main that restarts knows a process id, and stores that of the new launch.
main_turn_restarts :
    (delivers : ℤ → Bool) (launched : Option ℕ) (s : Server) (b : Bool) (text : Message)
    (known : Option ℕ)
    → s.notification ≡ b
    → s.message ≡ text
    → s.proxy_pid ≡ known
    → (s' : Server) (sent : List (ℤ × List ℕ)) → main_turn delivers launched s ≡ restarted s' sent
    → (pid : ℕ) × (s.proxy_pid ≡ some pid) × (s'.proxy_pid ≡ launched)
unfolding main_turn
main_turn_restarts delivers launched s false text known hb hm hk s' sent e = cc
main_turn_restarts delivers launched s true cleared known hb hm hk s' sent e = cc
main_turn_restarts delivers launched s true restart none hb hm hk s' sent e = cc
main_turn_restarts delivers launched s true restart (some pid) hb hm hk s' sent e =
    elim (Bool-cases (all_sent delivers s.client_fd_list)) [
      | inl done_all ↦ (pid, hk, cc)
      | inr failed ↦ cc
    ]

handle_message_pid :
    (s : Server) (buffer : List ℕ) → (handle_message s buffer).proxy_pid ≡ s.proxy_pid
unfolding handle_message
handle_message_pid s buffer = ground arith

-- What sys/wait.h says of a process that SIGKILL has ended.
pub record IsKilled (m : WaitStatus) : Type 0 where
  pub not_exited : m.wifexited (m.killed m.sigkill) ≡ false
  pub signaled : m.wifsignaled (m.killed m.sigkill) ≡ true
  pub by_sigkill : m.wtermsig (m.killed m.sigkill) ≡ m.sigkill

module _ (m : WaitStatus) where
  killed_report : IsKilled m → report_of m (m.killed m.sigkill) ≡ terminated m.sigkill
  unfolding report_of
  killed_report law = rw (law.not_exited, law.signaled, law.by_sigkill) refl

  -- The states of the server and its children: the first launch, messages, new clients, ends of
  -- processes, and rounds of main, each with its own outcomes of fork() and open().
  pub data Reachable : Host → Type 0 where
    begin :
        (fork_ok log_opens : Bool) (config : EntityConfig) (n : ℕ)
        → Reachable (start_host fork_ok log_opens config n)
    receive :
        (h : Host) (buffer : List ℕ)
        → Reachable h
        → Reachable (record h { server = handle_message h.server buffer })
    accept :
        (h : Host) (fd : ℤ) → Reachable h → Reachable (record h { server = add_client h.server fd })
    child_ends :
        (h : Host) (pid status : ℕ)
        → Reachable h
        → Reachable (record h { children = ends pid status h.children })
    turn :
        (h h' : Host) (fork_ok log_opens : Bool) (config : EntityConfig) (delivers : ℤ → Bool)
        → host_turn m fork_ok log_opens config delivers h ≡ some h'
        → Reachable h
        → Reachable h'

  start_host-IsSole :
      (fork_ok log_opens : Bool) (config : EntityConfig) (n : ℕ)
      → IsSole (start_host fork_ok log_opens config n)
  unfolding launch_entity
  start_host-IsSole true log_opens config n = running (omega arith)
  start_host-IsSole false log_opens config n = absent

  ends-IsOnlyChild :
      (known : Option ℕ) (c : Children) (pid status : ℕ)
      → IsOnlyChild known c
      → IsOnlyChild known (ends pid status c)
  ends-IsOnlyChild _ _ pid status absent = absent
  ends-IsOnlyChild _ _ pid status (ended h) = ended h
  ends-IsOnlyChild _ _ pid status (running {pid = p} h) = elim (Bool-cases (pid == p)) [
    | inl same ↦ let equal : pid ≡ p = ground arith in rw (same, equal) (ended h)
    | inr other ↦ rw other (running h)
  ]

  -- stop_process on the only child: it was found, it is gone, and the status that is printed is that
  -- of its death by SIGKILL, or of how it had ended before.
  stop_process_cases :
      (pid : ℕ) (c : Children)
      → IsOnlyChild (some pid) c
      → ((c.live ≡ pid ∷ [])
          × (stop_process m pid c
              ≡ (no_children c.forks, true, some (report_of m (m.killed m.sigkill)))))
        ⊎ ((status : ℕ) × (c.zombies ≡ (pid, status) ∷ [])
            × (stop_process m pid c ≡ (no_children c.forks, true, some (report_of m status))))
  unfolding stop_process
  stop_process_cases pid _ (running h) = inl (refl, ground arith)
  stop_process_cases pid _ (ended {status = s} h) = inr (s, refl, ground arith)

  pub stop_process_left :
      (pid : ℕ) (c : Children)
      → IsOnlyChild (some pid) c
      → (stop_process m pid c).0 ≡ no_children c.forks
  stop_process_left pid c h = elim (stop_process_cases pid c h) [
    | inl (run, e) ↦ ap (λ r. r.0) e
    | inr (s, z, e) ↦ ap (λ r. r.0) e
  ]

  module _ (fork_ok log_opens : Bool) (config : EntityConfig) where
    relaunch-IsOnlyChild :
        (pid : ℕ) (c : Children)
        → IsOnlyChild (some pid) c
        → let (c', launched) = relaunch m fork_ok log_opens config (some pid) c in
          IsOnlyChild launched c'
    relaunch-IsOnlyChild pid c h =
        rw (stop_process_left pid c h) (start_host-IsSole fork_ok log_opens config c.forks)

    after_turn-IsSole :
        (h h' : Host) (c : Children) (t : Turn)
        → IsSole h
        → ((s : Server) (sent : List (ℤ × List ℕ))
            → t ≡ restarted s sent
            → IsOnlyChild s.proxy_pid c)
        → after_turn m fork_ok log_opens config h c t ≡ some h'
        → IsSole h'
    after_turn-IsSole h h' c waiting sole new e = let same : h ≡ h' = cc in rw same at sole
    after_turn-IsSole h h' c locked sole new e = let same : h ≡ h' = cc in rw same at sole
    after_turn-IsSole h h' c thrown sole new e = absurd cc
    after_turn-IsSole h h' c (exited sent) sole new e = absurd cc
    after_turn-IsSole h h' c (restarted s sent) sole new e =
        let same : record { server = s; children = c } ≡ h' = cc in
        subst IsSole same (new s sent refl)

    host_turn-IsSole :
        (delivers : ℤ → Bool) (h h' : Host)
        → IsSole h
        → host_turn m fork_ok log_opens config delivers h ≡ some h'
        → IsSole h'
    unfolding host_turn
    host_turn-IsSole delivers h h' sole e =
        let s : Server = h.server in
        let (c, launched) = relaunch m fork_ok log_opens config s.proxy_pid h.children in
        after_turn-IsSole h h' c (main_turn delivers launched s) sole
          (λ s' sent t.
            let (pid, known, stored) =
              main_turn_restarts delivers launched s s.notification s.message s.proxy_pid refl refl
                refl s' sent t in
            rw (stored, known) (relaunch-IsOnlyChild pid h.children (rw known at sole)))
          e

  -- In every state that the server reaches from its launch of the proxy by messages, new clients,
  -- ends of its children and rounds of main, whatever fork() and open() do: if proxyPid holds a
  -- process id, that process, running or ended and not waited for, is the server's only child; if
  -- proxyPid is empty, the server has no child. Process ids are taken not to be used again.
  pub Reachable-IsSole : (h : Host) → Reachable h → IsSole h
  unfolding handle_message add_client
  Reachable-IsSole _ (begin fork_ok log_opens config n) =
      start_host-IsSole fork_ok log_opens config n
  Reachable-IsSole _ (receive h buffer r) =
      rw (handle_message_pid h.server buffer) (Reachable-IsSole h r)
  Reachable-IsSole _ (accept h fd r) = Reachable-IsSole h r
  Reachable-IsSole _ (child_ends h pid status r) =
      ends-IsOnlyChild h.server.proxy_pid h.children pid status (Reachable-IsSole h r)
  Reachable-IsSole _ (turn h h' fork_ok log_opens config delivers e r) =
      host_turn-IsSole fork_ok log_opens config delivers h h' (Reachable-IsSole h r) e

  -- In every state that the server reaches from its launch of the proxy by messages, new clients,
  -- ends of its children and rounds of main, if proxyPid holds a process id, stop_process finds
  -- the process and leaves no child, running or ended. What it prints of the status is the end by
  -- SIGKILL if the process was running, else how it had ended before. The macros of sys/wait.h are
  -- taken to tell a status of SIGKILL as such.
  pub stop_process-Reachable :
      (h : Host) (pid : ℕ)
      → IsKilled m
      → Reachable h
      → h.server.proxy_pid ≡ some pid
      → ((h.children.live ≡ pid ∷ [])
          × (stop_process m pid h.children
              ≡ (no_children h.children.forks, true, some (terminated m.sigkill))))
        ⊎ ((status : ℕ) × (h.children.zombies ≡ (pid, status) ∷ [])
            × (stop_process m pid h.children
                ≡ (no_children h.children.forks, true, some (report_of m status))))
  stop_process-Reachable h pid law r known =
      elim (stop_process_cases pid h.children (rw known at (Reachable-IsSole h r))) [
        | inl (run, e) ↦ inl (run, rw (killed_report law) at e)
        | inr (s, z, e) ↦ inr (s, z, e)
      ]
