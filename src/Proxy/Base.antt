-- ===== src/Proxy/Base.antt =====
-- The constructor of ProxyBase. The UDP sockets are bound to the fuzzer's own address, so the
-- system's calls for them are given for each address.
use cezfuzzer.Base.{ℕ, Bool, true, false, List, [], ◌∷◌, Option, none, some, String}
use cezfuzzer.Config.Yaml.{Yaml}
use cezfuzzer.Config.Entity.{EntityConfig}
use cezfuzzer.Config.Manager.{ConfigurationManager, parse, get_fuzzer, split_entities}
use cezfuzzer.Udp.Sockets.{
  System, Net, UdpHandler, empty_handler, build_from_connections, start_recv_threads,
  start_send_threads,
}
use cezfuzzer.Tcp.Channel.{TcpHandler, TcpSystem}
use cezfuzzer.Tcp.Listen.{no_channels, tcp_handler}

-- The UDP handler with the threads that were started.
pub record UdpSide : Type 0 where
  pub handler : UdpHandler
  pub recv_thread_list : List (ℕ × ℕ)
  pub send_thread_list : List (ℕ × ℕ × Bool)

pub record ProxyBase : Type 0 where
  pub udp_handler : Option UdpSide
  pub tcp_handler : Option TcpHandler

-- ConfigurationManager(path)
abbrev pub new_manager : ConfigurationManager
new_manager = record {
  general = record { log_level = ""; log_dir = "" };
  network = record { docker_network_name = ""; subnet = ""; gateway = "" };
  entities = [];
  fuzzer = none;
}

-- The handler, and the descriptors that are open then.
abbrev pub udp_side : System → EntityConfig → Net → UdpSide × Net
udp_side sys fuzzer net =
    let (handler, net') = build_from_connections sys empty_handler net fuzzer.connections in
    (
      record {
        handler = handler;
        recv_thread_list = start_recv_threads sys handler;
        send_thread_list = start_send_threads sys handler;
      },
      net',
    )

-- `if (udp_entities.size() > 0)`
abbrev pub start_udp : System → List EntityConfig → EntityConfig → Net → Option UdpSide × Net
start_udp sys [] fuzzer net = (none, net)
start_udp sys (entity ∷ entities) fuzzer net =
    let (side, net') = udp_side sys fuzzer net in (some side, net')

-- `if (tcp_entities.size() > 0)`
abbrev pub start_tcp : TcpSystem → List EntityConfig → EntityConfig → List ℕ → Option TcpHandler
start_tcp sys [] fuzzer open_fds = none
start_tcp sys (entity ∷ entities) fuzzer open_fds =
    some (tcp_handler sys fuzzer.tcp_redirections (no_channels 0 open_fds))

module _ (udp_system : String → System) (tcp_system : TcpSystem) (unset : EntityConfig)
    (open_fds : List ℕ) where
  abbrev pub start_handlers : EntityConfig → List EntityConfig × List EntityConfig → ProxyBase
  start_handlers fuzzer (tcp, udp) =
      let (udp_handler, net) =
        start_udp (udp_system fuzzer.ip) udp fuzzer
          (record { calls = 0; open_sockets = open_fds }) in
      record {
        udp_handler = udp_handler;
        tcp_handler = start_tcp tcp_system tcp fuzzer net.open_sockets;
      }

  abbrev pub after_parse : ConfigurationManager × Bool → Option ProxyBase
  after_parse (cm, false) = none
  after_parse (cm, true) =
      some (start_handlers (get_fuzzer unset cm.entities) (split_entities cm.entities ([], [])))

  -- ProxyBase::ProxyBase, on what YAML::LoadFile gives; none if the process ends.
  unfoldable pub proxy_base : {N : Type 0} → Yaml N → Option N → Option ProxyBase
  proxy_base y doc = after_parse (parse y doc new_manager)
