-- ===== src/Launcher/Startup.antt =====
-- The launchers up to their loops: init_server and main of luncher/server/src/Server.cpp, init_client
-- and main of luncher/client/src/Client.cpp. The system's calls are parameters. none is the end of
-- the process.
use cezfuzzer.Base.{
  ℕ, minus_one, Bool, true, false, List, [], Option, none, some, if◌then◌else◌, ◌&&◌,
}
use cezfuzzer.Config.Yaml.{Yaml}
use cezfuzzer.Wire.Stream.{Kernel, Receiver}
use cezfuzzer.Execution.Launch.{Child, launch_entity}
use cezfuzzer.Launcher.Config.{EntityConfig, ConfigurationManager, parse, get_fuzzer}
use cezfuzzer.Launcher.Client.{Client}
use cezfuzzer.Launcher.Server.{Server}
use cezfuzzer.Launcher.Turns.{fresh_server}
use cezfuzzer.Launcher.Session.{Session, set_entities_list}

-- ConfigurationManager(path)
abbrev pub new_manager : ConfigurationManager
new_manager = record {
  general = record { log_level = ""; log_dir = "" };
  network = record { docker_network_name = ""; subnet = ""; gateway = "" };
  entities = [];
  fuzzer = none;
}

-- What the calls of init_server give; none or false for a failure.
pub record ServerCalls : Type 0 where
  pub socket : Option ℕ
  pub bind : Bool
  pub listen : Bool
  pub create_thread : Bool

abbrev pub listening_socket : ServerCalls → Option ℕ → Option ℕ
listening_socket sys none = none
listening_socket sys (some sockfd) =
    if sys.bind && (sys.listen && sys.create_thread) then some sockfd else none

unfoldable pub init_server : ServerCalls → Option ℕ
init_server sys = listening_socket sys sys.socket

-- What the calls of init_client give.
pub record ClientCalls : Type 0 where
  pub socket : Option ℕ
  pub connect : Bool

abbrev pub connected_socket : ClientCalls → Option ℕ → Option ℕ
connected_socket sys none = none
connected_socket sys (some sockfd) = if sys.connect then some sockfd else none

unfoldable pub init_client : ClientCalls → Option ℕ
init_client sys = connected_socket sys sys.socket

-- proxyPid
abbrev pub pid_of : Option (ℕ × Child) → Option ℕ
pid_of none = none
pid_of (some (pid, child)) = some pid

-- The launch of the proxy; `forked` and `log_opens` are the outcomes of its fork() and open().
abbrev pub with_socket :
    EntityConfig → Option ℕ → Bool → Option ℕ → Option (Server × Option (ℕ × Child))
with_socket proxy_config forked log_opens none = none
with_socket proxy_config forked log_opens (some sockfd) =
    let launched : Option (ℕ × Child) = launch_entity forked log_opens proxy_config minus_one in
    some (fresh_server (pid_of launched), launched)

abbrev pub with_manager :
    EntityConfig
    → ServerCalls
    → Option ℕ
    → Bool
    → ConfigurationManager × Bool
    → Option (Server × Option (ℕ × Child))
with_manager unset sys forked log_opens (cm, false) = none
with_manager unset sys forked log_opens (cm, true) =
    with_socket (get_fuzzer unset cm.entities) forked log_opens (init_server sys)

-- main of the server before its loop: the state that the loop starts from, and the proxy's process.
unfoldable pub server_main :
    {N : Type 0}
    → Yaml N
    → Option N
    → EntityConfig
    → ServerCalls
    → Option ℕ
    → Bool
    → Option (Server × Option (ℕ × Child))
server_main y doc unset sys forked log_opens =
    with_manager unset sys forked log_opens (parse y doc new_manager)

abbrev pub with_server :
    Kernel → Client → Receiver → List EntityConfig → Option ℕ → Option (Option Session)
with_server k processes r all none = none
with_server k processes r all (some sockfd) = some (set_entities_list k all processes r)

abbrev pub with_configuration :
    Kernel → ClientCalls → Client → Receiver → ConfigurationManager × Bool → Option (Option Session)
with_configuration k sys processes r (cm, false) = none
with_configuration k sys processes r (cm, true) =
    with_server k processes r cm.entities (init_client sys)

-- main of the client before its loop, up to set_entities_list; `r` is the stream from the server.
unfoldable pub client_main :
    {N : Type 0}
    → Kernel
    → Yaml N
    → Option N
    → ClientCalls
    → Client
    → Receiver
    → Option (Option Session)
client_main k y doc sys processes r = with_configuration k sys processes r (parse y doc new_manager)
