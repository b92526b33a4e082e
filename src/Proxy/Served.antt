-- ===== src/Proxy/Served.antt =====
-- The proxy from its file to its datagrams: proxy/src/ProxyBase.cpp and proxy/src/UDPHandler.cpp.
use cezfuzzer.Base.{
  Among, ℕ, ◌≡◌, inl, inr, ℤ, pos, Option, true, none, some, String, List, get_elem?, refl, ap,
}
use cezfuzzer.Config.Yaml.{Yaml}
use cezfuzzer.Config.Entity.{EntityConfig}
use cezfuzzer.Fuzzer.Memory.{World, done, is_live}
use cezfuzzer.Fuzzer.Yields.{Grants}
use cezfuzzer.Fuzzer.Core.{Env}
use cezfuzzer.Udp.Connection.{UdpConnection}
use cezfuzzer.Udp.Route.{recv_route}
use cezfuzzer.Udp.Sockets.{System}
use cezfuzzer.Udp.Opened.{IsFresh}
use cezfuzzer.Udp.Threads.{Round, Effect, with_ports, recv_thread_entry}
use cezfuzzer.Udp.Payload.{IsRoomy}
use cezfuzzer.Udp.Serving.{Serves}
use cezfuzzer.Udp.Loops.{recv_thread_entry-Serves}
use cezfuzzer.Udp.Kept.{served, sent_count, Serves-served}
use cezfuzzer.Tcp.Channel.{TcpSystem}
use cezfuzzer.Proxy.Base.{UdpSide, ProxyBase, proxy_base}
use cezfuzzer.Proxy.Started.{AreRouted, proxy_base_cases}

module _ (udp_system : String → System) (f : (ip : String) → IsFresh (udp_system ip))
    (tcp_system : TcpSystem) (unset : EntityConfig) (open_fds : List ℕ) where
  proxy_base-AreRouted :
      {N : Type 0} (y : Yaml N) (doc : Option N) (p : ProxyBase)
      → proxy_base udp_system tcp_system unset open_fds y doc ≡ some p
      → AreRouted p.udp_handler
  proxy_base-AreRouted y doc p made =
      elim (proxy_base_cases udp_system f tcp_system unset open_fds y doc) [
        | inl (bad, q) ↦ absurd (none_made q)
        | inr (good, (p', q, started)) ↦
            let same : p' ≡ p = cc (q, made) in rw (ap (λ r. r.udp_handler) same) at started.routed
      ]
    where
      none_made : proxy_base udp_system tcp_system unset open_fds y doc ≡ none → ⊥
      none_made q = cc (q, made)

  -- Whatever the file holds: if the constructor of ProxyBase ends with a UDP handler, then each of
  -- its receiving threads has a connection, and the thread's run, whatever arrives and whatever
  -- the other threads do to the connection's queue between its rounds, is without undefined
  -- behaviour or an endless call and sends on every datagram of one byte or more that comes before
  -- the first error or empty datagram, each to the target of its route, as the first 65499 bytes
  -- of the bytes received (at most 4096) with a fuzz behind them. This is as long as the handler
  -- lives: it is taken to live at the start of the run and not to be deleted by another thread
  -- meanwhile. For every address, socket() is taken to give only descriptors that are not open;
  -- malloc is taken to refuse nothing, and the least size of a fuzzed buffer to be 65500 or more.
  pub recv_thread_entry-proxy_base :
      {N : Type 0} (y : Yaml N) (doc : Option N) (p : ProxyBase) (side : UdpSide)
      → proxy_base udp_system tcp_system unset open_fds y doc ≡ some p
      → p.udp_handler ≡ some side
      → (sock i : ℕ) → Among (sock, i) side.recv_thread_list
      → (e : Env) → IsRoomy e
      → Grants e
      → (args : List String) (ports : List ℤ) (xs : List Round) (handler : ℕ) (w : World)
      → is_live handler w.blocks ≡ true
      → (c : UdpConnection) × (effs : List Effect) × (w' : World) × (get_elem?
            side.handler.connections i
          ≡ some c)
        × (recv_thread_entry e args handler (pos sock) (with_ports c ports) xs w ≡ done effs w')
        × Serves e args (λ c' src. recv_route c' (pos sock) src) (with_ports c ports) xs effs
        × (sent_count effs ≡ served xs)
  recv_thread_entry-proxy_base y doc p side made known sock i started e r grants args ports xs
        handler w live =
      let all : AreRouted p.udp_handler = proxy_base-AreRouted y doc p made in
      let (c, found, routed) = (rw known at all) sock i started in
      let (effs, w', held, q, size, same, s) =
        recv_thread_entry-Serves e r grants args handler (pos sock) (with_ports c ports) xs w
          live in
      (
        c,
        effs,
        w',
        found,
        q,
        s,
        Serves-served (pos sock) c xs effs routed (with_ports c ports) (ports, refl) s,
      )
