-- ===== src/Execution/Launch.antt =====
-- ExecutionManager::launchEntity and ExecutionManager::buildArgv. A vector for execvp() is a list of
-- pointers to texts, with none for the null pointer.
use text.Mathlib.Text.{◌==◌}
use Prim.Native.String.{String, ◌++◌ as ◌+++◌}
use cezfuzzer.Base.{ℕ, ℤ, Bool, List, [], ◌∷◌, ◌++◌, Option, none, some, map, if◌then◌else◌}
use cezfuzzer.Config.Entity.{ConnectTo}
use cezfuzzer.Launcher.Config.{EntityConfig}
use cezfuzzer.Execution.Decimal.{to_string}

-- The address that a client is given behind its arguments.
abbrev pub target_args : Option ConnectTo → List (Option String)
target_args none = []
target_args (some target) = some target.ip ∷ some (to_string target.port) ∷ []

unfoldable pub build_argv : EntityConfig → List (Option String)
build_argv entity =
    (if entity.exec_with == "" then [] else some entity.exec_with ∷ [])
    ++ (some ("/app/" +++ entity.binary_path)
        ∷ (map some entity.args
            ++ ((if entity.role == "client" then target_args entity.connect_to else [])
                ++ (none ∷ []))))

abbrev pub log_path : EntityConfig → ℤ → String
log_path entity index = "/tmp/logs/" +++ (entity.name +++ ("_" +++ (to_string index +++ ".log")))

-- new_argv, where buildArgv's null pointer stands in front of another.
unfoldable pub exec_argv : EntityConfig → List (Option String)
exec_argv entity = some "stdbuf" ∷ some "-o0" ∷ some "-e0" ∷ (build_argv entity ++ (none ∷ []))

-- The child process: it writes to the log file and runs a program, or it ends.
pub data Child : Type 0 where
  executes : String → List (Option String) → Child
  ended : Child

-- `log_opens` is the success of open() for the log file. execvp() is taken to find stdbuf.
unfoldable pub launched_child : Bool → EntityConfig → ℤ → Child
launched_child log_opens entity index =
    if log_opens then executes (log_path entity index) (exec_argv entity) else ended

-- launchEntity, with the result of fork() in the launcher: none for a failure. The process id, and
-- what the child does.
unfoldable pub launch_entity : Option ℕ → Bool → EntityConfig → ℤ → Option (ℕ × Child)
launch_entity none log_opens entity index = none
launch_entity (some pid) log_opens entity index = some (pid, launched_child log_opens entity index)
