-- ===== src/Proxy/Started.antt =====
-- What the constructor of ProxyBase has started.
use text.Mathlib.Text.{◌==◌}
use text.Mathlib.TextEquality.{eq_iff}
use mathlib.Core.List.{append-nil, append_assoc}
use cezfuzzer.Base.{
  ℕ, ◌≡◌, ◌≢◌, ◌⊎◌, ◌↔◌, inl, inr, refl, ap, sym, ℤ, pos, Bool, true, false, List, [], ◌∷◌, ◌++◌,
  Option, none, some, String, elem, get_elem?, if◌then◌else◌, arith, Bool-cases, Among,
  Among-append,
}
use cezfuzzer.Config.Yaml.{Yaml}
use cezfuzzer.Config.Entity.{EntityConfig, TcpRedirection}
use cezfuzzer.Config.Manager.{ConfigurationManager, parse, get_fuzzer, split_entities}
use cezfuzzer.Udp.Connection.{UdpConnection}
use cezfuzzer.Udp.Route.{recv_route}
use cezfuzzer.Udp.Sockets.{System, Net, lookup, recv_thread, recv_threads, start_recv_threads}
use cezfuzzer.Udp.Opened.{IsFresh}
use cezfuzzer.Udp.Routed.{build_from_connections-recv_route}
use cezfuzzer.Tcp.Channel.{TcpHandler, TcpSystem}
use cezfuzzer.Tcp.Listen.{listen_on, tcp_handler, no_channels}
use cezfuzzer.Tcp.Reached.{Reachable, begin, redirect}
use cezfuzzer.Proxy.Base.{
  UdpSide, ProxyBase, new_manager, udp_side, start_udp, start_tcp, start_handlers, after_parse,
  proxy_base,
}

module _ (sys : System) where
  recv_thread_own :
      (s : ℕ) (o : Option ℕ) (sock i : ℕ)
      → Among (sock, i) (recv_thread sys s o)
      → (sock ≡ s) × (o ≡ some i)
  recv_thread_own s none sock i h = absurd h
  recv_thread_own s (some n) sock i h = elim (Bool-cases (sys.create_thread s)) [
    | inl started ↦ the_thread (rw started at h)
    | inr refused ↦ absurd (rw refused at h)
  ]
    where
      the_thread : (◌≡◌ {A = ℕ × ℕ} (sock, i) (s, n)) ⊎ ⊥ → (sock ≡ s) × (some n ≡ some i)
      the_thread (inl e) = (ap (λ t. t.0) e, ap (λ t. some t.1) (sym e))
      the_thread (inr e) = absurd e

  -- A receiving thread has one of the sockets, and the connection that the socket is mapped to.
  recv_threads_own :
      (table : List (ℕ × ℕ)) (socks : List ℕ) (sock i : ℕ)
      → Among (sock, i) (recv_threads sys table socks)
      → (elem sock socks ≡ true) × (lookup sock table ≡ some i)
  recv_threads_own table [] sock i h = absurd h
  recv_threads_own table (s ∷ socks) sock i h =
      elim (Among-append (sock, i) (recv_thread sys s (lookup s table)) _ h) [
        | inl first ↦
            let (same, mapped) = recv_thread_own s (lookup s table) sock i first in
            (ground (arith, same), rw same mapped)
        | inr later ↦
            let (there, mapped) = recv_threads_own table socks sock i later in
            (ground (arith, there), mapped)
      ]

-- Every receiving thread has a connection that says where to send what arrives.
abbrev pub AreRouted : Option UdpSide → Type 0
AreRouted none = Unit {0}
AreRouted (some side) =
    (sock i : ℕ)
    → Among (sock, i) side.recv_thread_list
    → (c : UdpConnection) × (get_elem? side.handler.connections i ≡ some c)
      × ((ports : List ℤ) (src : ℤ)
          → recv_route (record c { dynamic_ports = ports }) (pos sock) src ≢ none)

udp_side-AreRouted :
    (sys : System) (f : IsFresh sys) (fuzzer : EntityConfig) (net : Net)
    → AreRouted (some (udp_side sys fuzzer net).0)
unfolding start_recv_threads
udp_side-AreRouted sys f fuzzer net sock i h =
    let (there, mapped) = recv_threads_own sys _ _ sock i h in
    let (j, c, mapped', found, routed) =
      build_from_connections-recv_route sys f net fuzzer.connections sock there in
    let same : i ≡ j = cc (mapped, mapped') in (c, rw same found, routed)

-- The entities with the protocol.
abbrev pub with_protocol : String → List EntityConfig → List EntityConfig
with_protocol protocol [] = []
with_protocol protocol (entity ∷ entities) =
    let rest = with_protocol protocol entities in
    if entity.protocol == protocol then entity ∷ rest else rest

append_one : {A : Type 0} (xs : List A) (x : A) (ys : List A) → (xs ++ x ∷ []) ++ ys ≡ xs ++ x ∷ ys
append_one xs x ys = append_assoc xs (x ∷ []) ys

split_entities_lem :
    (entities tcp udp : List EntityConfig)
    → split_entities entities (tcp, udp)
      ≡ (tcp ++ with_protocol "tcp" entities, udp ++ with_protocol "udp" entities)
unfolding split_entities
split_entities_lem [] tcp udp = rw (append-nil tcp, append-nil udp) refl
split_entities_lem (entity ∷ entities) tcp udp = elim (Bool-cases (entity.protocol == "tcp")) [
  | inl is_tcp ↦
      let name : entity.protocol ≡ "tcp" = (eq_iff entity.protocol "tcp").0 is_tcp in
      let not_udp : (entity.protocol == "udp") ≡ false = ap (λ s. s == "udp") name in
      rw (is_tcp, not_udp, split_entities_lem entities (tcp ++ entity ∷ []) udp)
        (ap (λ xs. (xs, udp ++ with_protocol "udp" entities))
          (append_one tcp entity (with_protocol "tcp" entities)))
  | inr other ↦ elim (Bool-cases (entity.protocol == "udp")) [
    | inl is_udp ↦
        rw (other, is_udp, split_entities_lem entities tcp (udp ++ entity ∷ []))
          (ap (λ xs. (tcp ++ with_protocol "tcp" entities, xs))
            (append_one udp entity (with_protocol "udp" entities)))
    | inr neither ↦ rw (other, neither) (split_entities_lem entities tcp udp)
  ]
]

tcp_handler-Reachable :
    (sys : TcpSystem) (redirs : List TcpRedirection) (h : TcpHandler)
    → Reachable sys h
    → Reachable sys (tcp_handler sys redirs h)
unfolding tcp_handler
tcp_handler-Reachable sys [] h r = r
tcp_handler-Reachable sys (redir ∷ redirs) h r =
    tcp_handler-Reachable sys redirs (listen_on sys redir h) (redirect h redir r)

-- The states that the listening threads go on from.
abbrev pub IsReached : TcpSystem → Option TcpHandler → Type 0
IsReached sys none = Unit {0}
IsReached sys (some h) = Reachable sys h

start_tcp_cases :
    (sys : TcpSystem) (entities : List EntityConfig) (fuzzer : EntityConfig) (fds : List ℕ)
    → ((start_tcp sys entities fuzzer fds ≡ none) ↔ (entities ≡ []))
      × IsReached sys (start_tcp sys entities fuzzer fds)
start_tcp_cases sys [] fuzzer fds = ((λ e. refl, λ e. refl), tt)
start_tcp_cases sys (entity ∷ entities) fuzzer fds = (
  (λ e. cc, λ e. cc),
  tcp_handler-Reachable sys fuzzer.tcp_redirections (no_channels 0 fds) (begin 0 fds),
)

start_udp_cases :
    (sys : System) (f : IsFresh sys) (entities : List EntityConfig) (fuzzer : EntityConfig)
    (net : Net)
    → (((start_udp sys entities fuzzer net).0 ≡ none) ↔ (entities ≡ []))
      × AreRouted (start_udp sys entities fuzzer net).0
start_udp_cases sys f [] fuzzer net = ((λ e. refl, λ e. refl), tt)
start_udp_cases sys f (entity ∷ entities) fuzzer net =
    ((λ e. cc, λ e. cc), udp_side-AreRouted sys f fuzzer net)

-- The proxy for a configuration: the handlers that its entities call for, each working.
pub record IsStarted (tcp_system : TcpSystem) (entities : List EntityConfig) (p : ProxyBase)
    : Type 0 where
  pub udp_iff : (p.udp_handler ≡ none) ↔ (with_protocol "udp" entities ≡ [])
  pub tcp_iff : (p.tcp_handler ≡ none) ↔ (with_protocol "tcp" entities ≡ [])
  pub routed : AreRouted p.udp_handler
  pub reached : IsReached tcp_system p.tcp_handler

module _ (udp_system : String → System) (f : (ip : String) → IsFresh (udp_system ip))
    (tcp_system : TcpSystem) (unset : EntityConfig) (open_fds : List ℕ) where
  start_handlers-IsStarted :
      (fuzzer : EntityConfig) (entities : List EntityConfig)
      → IsStarted tcp_system entities (
          start_handlers udp_system tcp_system unset open_fds fuzzer
            (with_protocol "tcp" entities, with_protocol "udp" entities))
  start_handlers-IsStarted fuzzer entities =
      let (udp_iff, routed) =
        start_udp_cases (udp_system fuzzer.ip) (f fuzzer.ip) (with_protocol "udp" entities) fuzzer
          _ in
      let (tcp_iff, reached) = start_tcp_cases tcp_system (with_protocol "tcp" entities) fuzzer _ in
      record { udp_iff = udp_iff; tcp_iff = tcp_iff; routed = routed; reached = reached }

  -- Whatever the file holds: if parse() throws, the constructor of ProxyBase ends the process.
  -- Else it ends with a UDP handler exactly if an entity has the protocol udp, and with a TCP
  -- handler exactly if one has tcp; each receiving thread of the UDP handler has a connection with
  -- a target for what arrives on its socket, whatever dynamic ports it holds by then; and the TCP
  -- handler is in a state that its threads go on from. For every address, socket() is taken to
  -- give the UDP handler only descriptors that are not open.
  pub proxy_base_cases :
      {N : Type 0} (y : Yaml N) (doc : Option N)
      → (((parse y doc new_manager).1 ≡ false)
          × (proxy_base udp_system tcp_system unset open_fds y doc ≡ none))
        ⊎ (((parse y doc new_manager).1 ≡ true)
            × ((p : ProxyBase) × (proxy_base udp_system tcp_system unset open_fds y doc ≡ some p)
                × IsStarted tcp_system (parse y doc new_manager).0.entities p))
  unfolding proxy_base
  proxy_base_cases y doc = by_result (parse y doc new_manager)
    where
      by_result :
          (r : ConfigurationManager × Bool)
          → ((r.1 ≡ false) × (after_parse udp_system tcp_system unset open_fds r ≡ none))
            ⊎ ((r.1 ≡ true)
                × ((p : ProxyBase) × (after_parse udp_system tcp_system unset open_fds r ≡ some p)
                    × IsStarted tcp_system r.0.entities p))
      by_result (cm, false) = inl (refl, refl)
      by_result (cm, true) = inr (
        refl,
        (
          _,
          refl,
          rw (split_entities_lem cm.entities [] [])
              (start_handlers-IsStarted (get_fuzzer unset cm.entities) cm.entities),
        ),
      )
