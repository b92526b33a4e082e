-- ===== src/Launcher/Replaced.antt =====
-- The crash of an entity, from the client's thread that waits for it to the proxy's next process:
-- monitor_child of luncher/client/src/Client.cpp, handle_client_connection and main of
-- luncher/server/src/Server.cpp.
use mathlib.Core.List.{append-nil}
use cezfuzzer.Base.{
  ℕ, ◌≤◌, ◌≡◌, refl, ap, ◌∙◌, sym, ℤ, Bool, true, false, [], ◌∷◌, ◌++◌, some, arith,
}
use cezfuzzer.Execution.Launch.{launch_entity}
use cezfuzzer.Wire.Stream.{Kernel, Sender, finished, send_message}
use cezfuzzer.Wire.Sending.{frame}
use cezfuzzer.Wire.Total.{IsWilling, send_message_returns}
use cezfuzzer.Wire.Receiving.{IsOffering}
use cezfuzzer.Launcher.Config.{EntityConfig}
use cezfuzzer.Launcher.Messages.{crash_text, buffer_of, strncmp_eq}
use cezfuzzer.Launcher.Client.{Client, monitor_child}
use cezfuzzer.Launcher.Server.{Server, restart, all_sent, handle_message, main_turn}
use cezfuzzer.Launcher.Status.{WaitStatus}
use cezfuzzer.Launcher.Proxies.{Host, host_turn}
use cezfuzzer.Launcher.Sole.{Reachable, Reachable-IsSole, IsOnlyChild, stop_process_left}
use cezfuzzer.Launcher.Handling.{handle_turn}
use cezfuzzer.Launcher.Reports.{left, handle_turn-frame}

crash_notifies :
    (s : Server)
    → handle_message s (buffer_of crash_text) ≡ record s { message = restart; notification = true }
unfolding handle_message buffer_of strncmp_eq
crash_notifies s = refl

-- The host once the proxy was replaced: one child, which the server knows, and no notification.
pub record IsReplaced (h h' : Host) : Type 0 where
  pub live : h'.children.live ≡ h.children.forks ∷ []
  pub zombies : h'.children.zombies ≡ []
  pub known : h'.server.proxy_pid ≡ some h.children.forks
  pub reset : h'.server.notification ≡ false

module _ (m : WaitStatus) (log_opens : Bool) (config : EntityConfig) where
  host_turn-IsReplaced :
      (delivers : ℤ → Bool) (h : Host) (pid : ℕ)
      → h.server.proxy_pid ≡ some pid
      → IsOnlyChild (some pid) h.children
      → all_sent delivers h.server.client_fd_list ≡ true
      → (h' : Host) × (host_turn m true log_opens config delivers
            (record h { server = record h.server { message = restart; notification = true } })
          ≡ some h')
        × IsReplaced h h'
  unfolding host_turn main_turn launch_entity
  host_turn-IsReplaced delivers h pid known sole told =
      rw (known, told, stop_process_left m pid h.children sole)
        (_, refl, record { live = refl; zombies = refl; known = refl; reset = refl })

  -- The server is in a state that it reaches, and knows its proxy's process. When monitor_child of
  -- a client sends its message whole on an empty stream, with fuel for 13 bytes, a round of the
  -- server's thread for the client reads it, and the next round of main, if its fork() succeeds
  -- and its send_message() returns for every client of its list, replaces the proxy: the server's
  -- only child, running or not, is the new process, proxyPid holds it, and the notification is
  -- reset. Every send() of the client is taken to take a byte or more, recv() to give a byte or
  -- more while there are some.
  pub host_turn-monitor_child :
      (sends takes : Kernel) (fuel calls : ℕ) (delivers : ℤ → Bool) (c : Client) (p : ℕ) (h : Host)
      (pid : ℕ) (out : Sender)
      → IsWilling sends
      → IsOffering takes
      → 13 ≤ fuel
      → out.output ≡ []
      → Reachable m h
      → h.server.proxy_pid ≡ some pid
      → all_sent delivers h.server.client_fd_list ≡ true
      → (t : Sender) × (calls' : ℕ) × (s : Server) × (h' : Host) × (send_message sends fuel
            (monitor_child c p).1
            out
          ≡ finished t)
        × (handle_turn takes (left h.server calls t.output) ≡ left s calls' [])
        × (host_turn m true log_opens config delivers (record h { server = s }) ≡ some h')
        × IsReplaced h h'
  unfolding monitor_child
  host_turn-monitor_child sends takes fuel calls delivers c p h pid out w off enough empty r known
        told =
      let (t, sent, q) =
        send_message_returns sends fuel crash_text out w (omega arith) (omega arith) in
      let stream : t.output ≡ frame crash_text ++ [] =
        q ∙ ap (λ o. o ++ frame crash_text) empty ∙ sym (append-nil (frame crash_text)) in
      let (calls', turn) = handle_turn-frame takes off h.server calls crash_text [] (omega arith) in
      let (h', replaced, is) =
        host_turn-IsReplaced delivers h pid known (rw known at (Reachable-IsSole m h r)) told in
      (
        t,
        calls',
        record h.server { message = restart; notification = true },
        h',
        sent,
        ap (λ o. handle_turn takes (left h.server calls o)) stream
            ∙ turn
            ∙ ap (λ s. left s calls' []) (crash_notifies h.server),
        replaced,
        is,
      )
