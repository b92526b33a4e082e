-- ===== src/Udp/Directed.antt =====
-- proxy/src/UDPHandler.cpp: the threads that startSendThreads starts, and their directions.
use cezfuzzer.Base.{
  ℕ, ◌≡◌, ◌≢◌, ◌⊎◌, inl, inr, refl, sym, ap, ◌∙◌, ℤ, pos, minus_one, eq_ℤ, eq_ℤ_iff, Bool, true,
  false, List, [], ◌∷◌, Option, none, some, elem, get_elem?, not, ◌&&◌, arith, Bool-cases, Among,
  Among-append,
}
use cezfuzzer.Udp.Connection.{Connection, UdpConnection}
use cezfuzzer.Udp.Route.{send_route}
use cezfuzzer.Udp.Sockets.{
  System, Net, UdpHandler, empty_handler, lookup, is_from_a, build_from_connections, send_thread,
  mapped_send_thread, send_threads, start_send_threads,
}
use cezfuzzer.Udp.Opened.{IsFresh}
use cezfuzzer.Udp.Sides.{sending, IsRouted}
use cezfuzzer.Udp.Routed.{build_from_connections-IsWired}
use cezfuzzer.Udp.Threads.{with_ports}

-- A connection with a port that is not fixed.
abbrev pub IsDynamic : UdpConnection → Type 0
IsDynamic c = (c.entity_a_port ≡ minus_one) ⊎ (c.entity_b_port ≡ minus_one)

-- What a thread was started with: its socket's connection, which is dynamic, and the direction by
-- the socket's port.
abbrev IsStartedFor : System → List UdpConnection → ℕ → ℕ → Bool → Type 0
IsStartedFor sys conns sock i from_a =
    (c : UdpConnection) × (get_elem? conns i ≡ some c)
    × IsDynamic c
    × (from_a ≡ is_from_a c (sys.bound_port sock))

is_dynamic :
    (c : UdpConnection)
    → (not (eq_ℤ c.entity_a_port minus_one) && not (eq_ℤ c.entity_b_port minus_one)) ≡ false
    → IsDynamic c
is_dynamic c e = elim (Bool-cases (eq_ℤ c.entity_a_port minus_one)) [
  | inl a ↦ inl ((eq_ℤ_iff c.entity_a_port minus_one).0 a)
  | inr not_a ↦ elim (Bool-cases (eq_ℤ c.entity_b_port minus_one)) [
    | inl b ↦ inr ((eq_ℤ_iff c.entity_b_port minus_one).0 b)
    | inr not_b ↦ let bad : true ≡ false = rw (not_a, not_b) at e in cc
  ]
]

module _ (sys : System) where
  send_thread_own :
      (conns : List UdpConnection) (s j : ℕ) (o : Option UdpConnection) (sock i : ℕ) (from_a : Bool)
      → get_elem? conns j ≡ o
      → Among (sock, i, from_a) (send_thread sys s j o)
      → (sock ≡ s) × (i ≡ j) × IsStartedFor sys conns sock i from_a
  send_thread_own conns s j none sock i from_a e h = absurd h
  send_thread_own conns s j (some c) sock i from_a e h =
      elim (Bool-cases
        (not (eq_ℤ c.entity_a_port minus_one) && not (eq_ℤ c.entity_b_port minus_one))) [
          | inl fixed ↦ absurd (rw fixed at h)
          | inr dynamic ↦ elim (Bool-cases (sys.create_thread s)) [
            | inl created ↦ the_thread dynamic (rw (dynamic, created) at h)
            | inr refused ↦ absurd (rw (dynamic, refused) at h)
          ]
        ]
    where
      the_thread :
          (not (eq_ℤ c.entity_a_port minus_one) && not (eq_ℤ c.entity_b_port minus_one)) ≡ false
          → (◌≡◌ {A = ℕ × ℕ × Bool} (sock, i, from_a) (s, j, is_from_a c (sys.bound_port s))) ⊎ ⊥
          → (sock ≡ s) × (i ≡ j) × IsStartedFor sys conns sock i from_a
      the_thread dynamic (inr h) = absurd h
      the_thread dynamic (inl h) =
          let same : sock ≡ s = ap (λ t. t.0) h in
          let index : i ≡ j = ap (λ t. t.1) h in
          (same, index, (c, rw index e, is_dynamic c dynamic, rw same (ap (λ t. t.2) h)))

  mapped_send_thread_own :
      (conns : List UdpConnection) (s : ℕ) (o : Option ℕ) (sock i : ℕ) (from_a : Bool)
      → Among (sock, i, from_a) (mapped_send_thread sys conns s o)
      → (sock ≡ s) × (o ≡ some i) × IsStartedFor sys conns sock i from_a
  mapped_send_thread_own conns s none sock i from_a h = absurd h
  mapped_send_thread_own conns s (some j) sock i from_a h =
      let (same, index, started) =
        send_thread_own conns s j (get_elem? conns j) sock i from_a refl h in
      (same, ap some (sym index), started)

  send_threads_own :
      (h : UdpHandler) (socks : List ℕ) (sock i : ℕ) (from_a : Bool)
      → Among (sock, i, from_a) (send_threads sys h socks)
      → (elem sock socks ≡ true)
        × (lookup sock h.sock_to_connection ≡ some i)
        × IsStartedFor sys h.connections sock i from_a
  send_threads_own h [] sock i from_a t = absurd t
  send_threads_own h (s ∷ socks) sock i from_a t =
      elim (Among-append (sock, i, from_a)
        (mapped_send_thread sys h.connections s (lookup s h.sock_to_connection)) _ t) [
          | inl first ↦
              let (same, mapped, started) =
                mapped_send_thread_own h.connections s (lookup s h.sock_to_connection) sock i from_a
                  first in
              (ground (arith, same), rw same mapped, started)
          | inr later ↦
              let (there, mapped, started) = send_threads_own h socks sock i from_a later in
              (ground (arith, there), mapped, started)
        ]

-- getsockname() tells the port that a sending socket is bound to, and the two ports differ.
pub record IsNamed (sys : System) (h : UdpHandler) : Type 0 where
  pub to_a :
      (i s : ℕ) (c : UdpConnection)
      → get_elem? h.connections i ≡ some c
      → c.send_sock_to_entity_a ≡ pos s
      → sys.bound_port s ≡ some c.port_entity_a_send
  pub to_b :
      (i s : ℕ) (c : UdpConnection)
      → get_elem? h.connections i ≡ some c
      → c.send_sock_to_entity_b ≡ pos s
      → sys.bound_port s ≡ some c.port_entity_b_send
  pub differ :
      (i : ℕ) (c : UdpConnection)
      → get_elem? h.connections i ≡ some c
      → c.port_entity_b_send ≢ c.port_entity_a_send

-- Where a thread sends what comes from one entity: to the other, by the other's receiving socket.
abbrev pub Crosses : UdpConnection → ℕ → Bool → ℤ → Type 0
Crosses c sock from_a src =
    let target = (send_route c from_a src).1 in
    ((c.send_sock_to_entity_a ≡ pos sock)
      × (target.ip ≡ c.entity_b_ip)
      × (target.sock ≡ c.recv_sock_from_entity_b))
    ⊎ ((c.send_sock_to_entity_b ≡ pos sock)
        × (target.ip ≡ c.entity_a_ip)
        × (target.sock ≡ c.recv_sock_from_entity_a))

from_a-Crosses :
    (c : UdpConnection) (sock : ℕ) (src : ℤ)
    → c.send_sock_to_entity_a ≡ pos sock
    → Crosses c sock true src
unfolding send_route
from_a-Crosses c sock src own = inl (own, refl, refl)

from_b-Crosses :
    (c : UdpConnection) (sock : ℕ) (src : ℤ)
    → c.send_sock_to_entity_b ≡ pos sock
    → Crosses c sock false src
unfolding send_route
from_b-Crosses c sock src own = inr (own, refl, refl)

module _ (sys : System) (f : IsFresh sys) (net : Net) (conns : List Connection) where
  abbrev handler : UdpHandler
  handler = (build_from_connections sys empty_handler net conns).0

  directed :
      (sock i : ℕ) (from_a : Bool) (c : UdpConnection) (ports : List ℤ) (src : ℤ)
      → IsNamed sys handler
      → get_elem? handler.connections i ≡ some c
      → from_a ≡ is_from_a c (sys.bound_port sock)
      → (c.send_sock_to_entity_a ≡ pos sock) ⊎ (c.send_sock_to_entity_b ≡ pos sock)
      → Crosses (with_ports c ports) sock from_a src
  directed sock i from_a c ports src n found e (inl own) =
      let port : sys.bound_port sock ≡ some c.port_entity_a_send = n.to_a i sock c found own in
      let yes : from_a ≡ true =
        e ∙ ap (is_from_a c) port ∙ (eq_ℤ_iff c.port_entity_a_send c.port_entity_a_send).1 refl in
      rw yes (from_a-Crosses (with_ports c ports) sock src own)
  directed sock i from_a c ports src n found e (inr own) =
      let port : sys.bound_port sock ≡ some c.port_entity_b_send = n.to_b i sock c found own in
      let no : eq_ℤ c.port_entity_b_send c.port_entity_a_send ≡ false =
        elim (Bool-cases (eq_ℤ c.port_entity_b_send c.port_entity_a_send)) [
          | inl same ↦
              absurd
                (n.differ i c found ((eq_ℤ_iff c.port_entity_b_send c.port_entity_a_send).0 same))
          | inr other ↦ other
        ] in
      let not_a : from_a ≡ false = e ∙ ap (is_from_a c) port ∙ no in
      rw not_a (from_b-Crosses (with_ports c ports) sock src own)

  -- In the handler that buildFromConnections makes from nothing, whatever sockets and binds fail,
  -- each thread that startSendThreads starts has a connection with a dynamic port and one of this
  -- connection's sending sockets; and whatever dynamic ports there are, what comes from the entity
  -- that the socket sends to goes to the other entity, by the socket that receives from that one.
  -- getsockname() is taken to give the ports of the sending sockets, the two ports of a connection
  -- to differ, and socket() to give only descriptors that are not open.
  pub start_send_threads-Crosses :
      (sock i : ℕ) (from_a : Bool) (ports : List ℤ) (src : ℤ)
      → IsNamed sys (build_from_connections sys empty_handler net conns).0
      → Among
          (sock, i, from_a)
          (start_send_threads sys (build_from_connections sys empty_handler net conns).0)
      → (c : UdpConnection) × (get_elem?
            (build_from_connections sys empty_handler net conns).0.connections
            i
          ≡ some c)
        × IsDynamic c
        × Crosses (with_ports c ports) sock from_a src
  unfolding start_send_threads
  start_send_threads-Crosses sock i from_a ports src n t =
      let (there, mapped, (c, found, dynamic, e)) =
        send_threads_own sys handler handler.send_sockets sock i from_a t in
      let r : IsRouted sending handler sock =
        (build_from_connections-IsWired sending sys f net conns).routed sock there in
      let index : r.index ≡ i = cc (mapped, r.mapped) in
      let own_found : get_elem? handler.connections i ≡ some r.conn = rw index at r.found in
      let same : r.conn ≡ c = cc (own_found, found) in
      (c, found, dynamic, directed sock i from_a c ports src n found e (rw same at r.own))
