-- ===== src/Launcher/Client.antt =====
-- luncher/client/src/Client.cpp: the processes that the client starts, stops and watches.
use cezfuzzer.Base.{
  elem, delete, ℕ, zero, suc, Bool, false, List, [], ◌∷◌, ◌++◌, if◌then◌else◌, length, not,
}
use cezfuzzer.Launcher.Messages.{start_text, restart_text, crash_text, literal, strncmp_eq}

-- `process_list` and `index` are the program's variables. `watched` are the processes for which a
-- thread of monitor_child waits. Of the system: the live processes, and the number of fork() calls,
-- which is the next process id. A process id is not used again.
pub record Client : Type 0 where
  pub process_list : List ℕ
  pub index : ℕ
  pub watched : List ℕ
  pub live : List ℕ
  pub forks : ℕ

module _ (forks_ok : ℕ → Bool) where
  -- launchEntity and the thread that waits for the process, for one entity.
  unfoldable pub start_entity : Client → Client
  start_entity c =
      if forks_ok c.forks
      then record c {
        process_list = c.process_list ++ c.forks ∷ [];
        watched = c.watched ++ c.forks ∷ [];
        live = c.live ++ c.forks ∷ [];
        forks = suc c.forks;
      }
      else record c { forks = suc c.forks }

  -- The loop over the entities; `n` of them are left.
  unfoldable pub start_loop : ℕ → Client → Client
  start_loop zero c = c
  start_loop (suc n) c = start_loop n (start_entity c)

  unfoldable pub start_entities : ℕ → Client → Client
  start_entities n c = start_loop n (record c { index = suc c.index })

-- kill(pid, SIGKILL)
abbrev pub stop_process : Client → ℕ → Client
stop_process c pid = record c { live = delete pid c.live }

unfoldable pub stop_loop : List ℕ → Client → Client
stop_loop [] c = c
stop_loop (pid ∷ pids) c = stop_loop pids (stop_process c pid)

unfoldable pub stop_processes : Client → Client
stop_processes c = let c' : Client = stop_loop c.process_list c in record c' { process_list = [] }

-- `n` entities belong to this client.
unfoldable pub multiplex_message : (ℕ → Bool) → ℕ → List ℕ → Client → Client
multiplex_message forks_ok n buffer c =
    if strncmp_eq (suc (length start_text)) buffer (literal start_text)
    then start_entities forks_ok n c
    else if strncmp_eq (suc (length restart_text)) buffer (literal restart_text)
    then start_entities forks_ok n (stop_processes c)
    else c

-- Whether the thread that waits for a process goes on: waitpid() returns once it is dead.
abbrev pub reports : Client → ℕ → Bool
reports c pid = if elem pid c.watched then not (elem pid c.live) else false

-- monitor_child after waitpid(): the message that it sends, whatever the exit status was.
unfoldable pub monitor_child : Client → ℕ → Client × List ℕ
monitor_child c pid = (record c { watched = delete pid c.watched }, crash_text)
