-- ===== src/Launcher/ProxyTests.antt =====
-- The proxy's processes through a restart, at concrete inputs.
use cezfuzzer.Base.{
  ℕ, arith, minus_one, false, ◌≡◌, refl, true, not, [], ◌∷◌, none, some, ◌==◌, ◌%◌, ◌/◌,
}
use cezfuzzer.Execution.Launch.{launch_entity}
use cezfuzzer.Launcher.Config.{EntityConfig}
use cezfuzzer.Launcher.Messages.{crash_text, buffer_of, strncmp_eq}
use cezfuzzer.Launcher.Server.{Server, handle_message, main_turn, cleared}
use cezfuzzer.Launcher.Status.{
  WaitStatus, segmentation_fault, child_terminated, analyze_child_exit_status,
}
use cezfuzzer.Launcher.Proxies.{Host, ends, start_host, stop_process, host_turn}
use cezfuzzer.Wire.Stream.{Sender, finished, send_message}
use cezfuzzer.Launcher.Sample.{threes, threes_offers, threes_accepts}
use cezfuzzer.Launcher.Client.{Client, monitor_child}
use cezfuzzer.Launcher.Handling.{handle_turn}
use cezfuzzer.Launcher.Reports.{left}
use cezfuzzer.Launcher.Replaced.{IsReplaced, host_turn-monitor_child}
use cezfuzzer.Launcher.Sole.{
  Reachable, begin, receive, child_ends, turn, IsSole, Reachable-IsSole, IsKilled,
}

-- The numbers of Linux.
abbrev linux : WaitStatus
linux = record {
  wifexited = λ s. s % 128 == 0;
  wifsignaled = λ s. not (s % 128 == 0);
  wifstopped = λ s. s % 256 == 127;
  wifcontinued = λ s. s == 65535;
  wexitstatus = λ s. s / 256;
  wtermsig = λ s. s % 128;
  wstopsig = λ s. s / 256;
  sigkill = 9;
  sigsegv = 11;
  sigfpe = 8;
  sigabrt = 6;
  killed = λ n. n;
}

linux-IsKilled : IsKilled linux
linux-IsKilled = record { not_exited = refl; signaled = refl; by_sigkill = refl }

abbrev config : EntityConfig
config = record {
  name = "proxy";
  role = "fuzzer";
  protocol = "udp";
  ip = "10.0.0.9";
  port = minus_one;
  fuzzed = false;
  binary_path = "bin/proxy";
  exec_with = "";
  args = [];
  destinations = [];
  connect_to = none;
}

-- The proxy has ended by SIGSEGV, and a client reports a crash.
abbrev crashed : Host
crashed =
    let h : Host = start_host true true config 100 in
    let h' : Host = record h { children = ends 100 11 h.children } in
    record h' { server = handle_message h'.server (buffer_of crash_text) }

abbrev replaced : Host
replaced = record {
  server = record crashed.server { notification = false; message = cleared; proxy_pid = some 101 };
  children = record { live = 101 ∷ []; zombies = []; forks = 102 };
}

crash_test : host_turn linux true true config (λ fd. true) crashed ≡ some replaced
unfolding host_turn main_turn handle_message strncmp_eq buffer_of stop_process launch_entity
crash_test = refl

diagnosis_test :
    analyze_child_exit_status linux (linux.killed 11) ≡ child_terminated 11 segmentation_fault
unfolding analyze_child_exit_status
diagnosis_test = refl

crashed-Reachable : Reachable linux crashed
unfolding launch_entity
crashed-Reachable =
    let h : Host = start_host true true config 100 in
    receive (record h { children = ends 100 11 h.children }) (buffer_of crash_text)
      (child_ends h 100 11 (begin true true config 100))

Reachable-IsSole_example : IsSole replaced
Reachable-IsSole_example =
    Reachable-IsSole linux replaced
      (turn crashed replaced true true config (λ fd. true) crash_test crashed-Reachable)

-- A client's only process has ended; the proxy still runs.
abbrev client : Client
client = record { process_list = 7 ∷ []; index = 1; watched = 7 ∷ []; live = []; forks = 8 }

abbrev started : Host
started = start_host true true config 100

abbrev unsent : Sender
unsent = record { calls = 0; output = [] }

host_turn-monitor_child_example :
    (t : Sender) × (calls : ℕ) × (s : Server) × (h : Host) × (send_message threes 13
        (monitor_child client 7).1
        unsent
      ≡ finished t)
    × (handle_turn threes (left started.server 0 t.output) ≡ left s calls [])
    × (host_turn linux true true config (λ fd. true) (record started { server = s }) ≡ some h)
    × IsReplaced started h
unfolding launch_entity
host_turn-monitor_child_example =
    host_turn-monitor_child linux true config threes threes 13 0 (λ fd. true) client 7 started 100
      unsent threes_accepts threes_offers (omega arith) refl (begin true true config 100) refl refl
