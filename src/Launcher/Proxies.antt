-- ===== src/Launcher/Proxies.antt =====
-- luncher/server/src/Server.cpp: the proxy's processes. stop_process of the server waits for the process
-- that it kills, and main starts another; the state is the server's and its children's.
use cezfuzzer.Base.{
  elem, delete, ℕ, suc, minus_one, Bool, true, false, List, [], ◌∷◌, ◌++◌, ℤ, Option, none, some,
  if◌then◌else◌, ◌==◌,
}
use cezfuzzer.Execution.Launch.{launch_entity}
use cezfuzzer.Launcher.Config.{EntityConfig}
use cezfuzzer.Launcher.Server.{Server, Turn, waiting, locked, thrown, restarted, exited, main_turn}
use cezfuzzer.Launcher.Startup.{pid_of}
use cezfuzzer.Launcher.Turns.{fresh_server}
use cezfuzzer.Launcher.Status.{WaitStatus, Report, report_of}

-- The children of the server: those that run, and those that have ended with a status and have not
-- been waited for. `forks` is the next process id; none is used again.
pub record Children : Type 0 where
  pub live : List ℕ
  pub zombies : List (ℕ × ℕ)
  pub forks : ℕ

-- waitpid() for a child that has ended.
abbrev pub status_of : ℕ → List (ℕ × ℕ) → Option ℕ
status_of pid [] = none
status_of pid ((p, status) ∷ zs) = if pid == p then some status else status_of pid zs

abbrev pub reaped : ℕ → List (ℕ × ℕ) → List (ℕ × ℕ)
reaped pid [] = []
reaped pid ((p, status) ∷ zs) = if pid == p then reaped pid zs else (p, status) ∷ reaped pid zs

-- The end of a child.
abbrev pub ends : ℕ → ℕ → Children → Children
ends pid status c =
    if elem pid c.live
    then record c { live = delete pid c.live; zombies = c.zombies ++ (pid, status) ∷ [] }
    else c

abbrev pub is_some : Option ℕ → Bool
is_some none = false
is_some (some status) = true

module _ (m : WaitStatus) where
  -- kill(pid, SIGKILL), which finds a child until it was waited for.
  abbrev pub kill_process : ℕ → Children → Children × Bool
  kill_process pid c = (
    ends pid (m.killed m.sigkill) c,
    (if elem pid c.live then true else is_some (status_of pid c.zombies)),
  )

  abbrev pub report_waited : Option ℕ → Option Report
  report_waited none = none
  report_waited (some status) = some (report_of m status)

  -- stop_process: the children that are left, whether kill() succeeded, and what is printed of the
  -- status, if waitpid() gave one.
  unfoldable pub stop_process : ℕ → Children → Children × Bool × Option Report
  stop_process pid c =
      let (killed, found) = kill_process pid c in
      (
        record killed { zombies = reaped pid killed.zombies },
        found,
        report_waited (status_of pid killed.zombies),
      )

-- fork() in launchEntity.
abbrev pub forked : Bool → Children → Children × Option ℕ
forked ok c =
    if ok
    then (record c { live = c.live ++ c.forks ∷ []; forks = suc c.forks }, some c.forks)
    else (record c { forks = suc c.forks }, none)

-- `launchEntity(proxyConfig, -1)`, with the success of fork() and of open() for the log.
abbrev pub launch_proxy : Bool → Bool → EntityConfig → Children → Children × Option ℕ
launch_proxy fork_ok log_opens config c =
    let (c', pid) = forked fork_ok c in (c', pid_of (launch_entity pid log_opens config minus_one))

pub record Host : Type 0 where
  pub server : Server
  pub children : Children

-- main before its loop, where `n` is the first process id: the launch of the proxy.
abbrev pub start_host : Bool → Bool → EntityConfig → ℕ → Host
start_host fork_ok log_opens config n =
    let (c, launched) =
      launch_proxy fork_ok log_opens config (record { live = []; zombies = []; forks = n }) in
    record { server = fresh_server launched; children = c }

module _ (m : WaitStatus) (fork_ok log_opens : Bool) (config : EntityConfig) where
  -- The two lines of main that replace the proxy.
  abbrev pub relaunch : Option ℕ → Children → Children × Option ℕ
  relaunch none c = (c, none)
  relaunch (some pid) c = launch_proxy fork_ok log_opens config (stop_process m pid c).0

  abbrev pub after_turn : Host → Children → Turn → Option Host
  after_turn h c waiting = some h
  after_turn h c locked = some h
  after_turn h c thrown = none
  after_turn h c (exited sent) = none
  after_turn h c (restarted s sent) = some (record { server = s; children = c })

  -- A round of the loop of main; none if the exception of value() or a send_message() ends the
  -- server.
  unfoldable pub host_turn : (ℤ → Bool) → Host → Option Host
  host_turn delivers h =
      let (c, launched) = relaunch h.server.proxy_pid h.children in
      after_turn h c (main_turn delivers launched h.server)
