-- ===== src/Udp/Replies.antt =====
-- The choice of targets of recvThreadEntry and sendThreadEntry over a whole conversation.
use mathlib.Core.List.{append-nil, append_assoc}
use cezfuzzer.Base.{
  ℕ, suc, ◌-◌, ◌<◌, ◌≡◌, refl, sym, ap, ◌∙◌, ◌≢◌, ℤ, minus_one, eq_ℤ_iff, List, [], ◌∷◌, ◌++◌,
  arith, Option, true, false, none, some, length, length-append,
}
use mathlib.Core.Path.{subst}
use cezfuzzer.Udp.Connection.{UdpConnection}
use cezfuzzer.Udp.Route.{Target, recv_route, send_route}

-- A datagram of one side, with its source port: on the receiving socket of that side, or on the
-- sending socket whose thread passes on what comes from that side.
pub data Datagram : Type 0 where
  from_a from_b from_a_late from_b_late : ℤ → Datagram

abbrev pub arrival : UdpConnection → Datagram → Option (UdpConnection × Target)
arrival c (from_a port) = recv_route c c.recv_sock_from_entity_a port
arrival c (from_b port) = recv_route c c.recv_sock_from_entity_b port
arrival c (from_a_late port) = some (send_route c true port)
arrival c (from_b_late port) = some (send_route c false port)

abbrev pub after : UdpConnection → Option (UdpConnection × Target) → UdpConnection
after c none = c
after c (some (c', t)) = c'

pub turns : UdpConnection → List Datagram → UdpConnection
turns c [] = c
turns c (d ∷ ds) = turns (after c (arrival c d)) ds

abbrev port_of : Option (UdpConnection × Target) → List ℤ
port_of none = []
port_of (some (c', t)) = t.port ∷ []

-- The ports that the datagrams from B are sent to, in order.
unfoldable pub reply_ports : UdpConnection → List Datagram → List ℤ
reply_ports c [] = []
reply_ports c (from_a port ∷ ds) = reply_ports (after c (arrival c (from_a port))) ds
reply_ports c (from_b port ∷ ds) =
    port_of (arrival c (from_b port)) ++ reply_ports (after c (arrival c (from_b port))) ds
reply_ports c (from_a_late port ∷ ds) = reply_ports (after c (arrival c (from_a_late port))) ds
reply_ports c (from_b_late port ∷ ds) =
    port_of (arrival c (from_b_late port))
    ++ reply_ports (after c (arrival c (from_b_late port))) ds

-- The source ports of the datagrams from A on its receiving socket, in order.
pub request_ports : List Datagram → List ℤ
request_ports [] = []
request_ports (from_a port ∷ ds) = port ∷ request_ports ds
request_ports (from_b port ∷ ds) = request_ports ds
request_ports (from_a_late port ∷ ds) = request_ports ds
request_ports (from_b_late port ∷ ds) = request_ports ds

-- There are never more datagrams from B than `n` and the datagrams from A on its receiving socket
-- before them.
abbrev pub IsBalanced : ℕ → List Datagram → Type 0
IsBalanced n [] = Unit {0}
IsBalanced n (from_a port ∷ ds) = IsBalanced (suc n) ds
IsBalanced n (from_b port ∷ ds) = (0 < n) × IsBalanced (n - 1) ds
IsBalanced n (from_a_late port ∷ ds) = IsBalanced n ds
IsBalanced n (from_b_late port ∷ ds) = (0 < n) × IsBalanced (n - 1) ds

-- A client at A with a port of its own choice, a server at B with a fixed one.
pub record IsClientServer (c : UdpConnection) : Type 0 where
  pub dynamic : c.entity_a_port ≡ minus_one
  pub fixed : c.entity_b_port ≢ minus_one
  pub two_socks : c.recv_sock_from_entity_a ≢ c.recv_sock_from_entity_b

from_client :
    (c : UdpConnection) (port : ℤ)
    → IsClientServer c
    → recv_route c c.recv_sock_from_entity_a port
      ≡ some (
        record c { dynamic_ports = c.dynamic_ports ++ port ∷ [] },
        record { sock = c.send_sock_to_entity_b; ip = c.entity_b_ip; port = c.entity_b_port },
      )
unfolding recv_route
from_client c port h = ground (
  arith,
  eq_ℤ_iff c.recv_sock_from_entity_a c.recv_sock_from_entity_a,
  eq_ℤ_iff c.entity_b_port minus_one,
  eq_ℤ_iff c.entity_a_port minus_one,
  h.dynamic,
  h.fixed,
)

from_server :
    (c : UdpConnection) (port x : ℤ) (xs : List ℤ)
    → IsClientServer c
    → c.dynamic_ports ≡ x ∷ xs
    → recv_route c c.recv_sock_from_entity_b port
      ≡ some (
        record c { dynamic_ports = xs },
        record { sock = c.send_sock_to_entity_a; ip = c.entity_a_ip; port = x },
      )
unfolding recv_route
from_server c port x xs h q = ground (
  arith,
  eq_ℤ_iff c.recv_sock_from_entity_b c.recv_sock_from_entity_a,
  eq_ℤ_iff c.recv_sock_from_entity_b c.recv_sock_from_entity_b,
  eq_ℤ_iff c.entity_b_port minus_one,
  eq_ℤ_iff c.entity_a_port minus_one,
  h.dynamic,
  h.fixed,
  h.two_socks,
)

from_client_late :
    (c : UdpConnection) (port : ℤ) → IsClientServer c → (send_route c true port).0 ≡ c
unfolding send_route
from_client_late c port h = ground (arith, eq_ℤ_iff c.entity_b_port minus_one, h.fixed)

from_server_late :
    (c : UdpConnection) (port x : ℤ) (xs : List ℤ)
    → IsClientServer c
    → c.dynamic_ports ≡ x ∷ xs
    → send_route c false port ≡ (
      record c { dynamic_ports = xs },
      record { sock = c.recv_sock_from_entity_a; ip = c.entity_a_ip; port = x },
    )
unfolding send_route
from_server_late c port x xs h q = ground (arith, eq_ℤ_iff c.entity_a_port minus_one, h.dynamic, q)

abbrev queued : UdpConnection → List ℤ → UdpConnection
queued c q = record c { dynamic_ports = q }

queued-IsClientServer :
    (c : UdpConnection) (q : List ℤ) → IsClientServer c → IsClientServer (queued c q)
queued-IsClientServer c q h = record {
  dynamic = h.dynamic;
  fixed = h.fixed;
  two_socks = h.two_socks;
}

replies_from :
    (c : UdpConnection) (q : List ℤ) (ds : List Datagram)
    → IsClientServer c
    → IsBalanced (length q) ds
    → reply_ports (queued c q) ds ++ (turns (queued c q) ds).dynamic_ports ≡ q ++ request_ports ds
unfolding turns reply_ports request_ports
replies_from c q [] h bal = sym (append-nil q)
replies_from c q (from_a port ∷ ds) h bal =
    let longer : length (q ++ port ∷ []) ≡ suc (length q) =
      omega (arith, length-append q (port ∷ [])) in
    subst
      (λ r.
        reply_ports (after (queued c q) r) ds ++ (turns (after (queued c q) r) ds).dynamic_ports
        ≡ q ++ port ∷ request_ports ds)
      (sym (from_client (queued c q) port (queued-IsClientServer c q h)))
      (replies_from c (q ++ port ∷ []) ds h (rw longer bal)
        ∙ append_assoc q (port ∷ []) (request_ports ds))
replies_from c [] (from_b port ∷ ds) h bal = absurd (omega arith)
replies_from c (x ∷ xs) (from_b port ∷ ds) h bal =
    let shorter : suc (length xs) - 1 ≡ length xs = omega arith in
    subst
      (λ r.
        (port_of r ++ reply_ports (after (queued c (x ∷ xs)) r) ds)
          ++ (turns (after (queued c (x ∷ xs)) r) ds).dynamic_ports
        ≡ x ∷ xs ++ request_ports ds)
      (sym (from_server (queued c (x ∷ xs)) port x xs (queued-IsClientServer c (x ∷ xs) h) refl))
      (ap (◌∷◌ x) (replies_from c xs ds h (rw shorter at bal.1)))
replies_from c q (from_a_late port ∷ ds) h bal =
    subst (λ d. reply_ports d ds ++ (turns d ds).dynamic_ports ≡ q ++ request_ports ds)
      (sym (from_client_late (queued c q) port (queued-IsClientServer c q h)))
      (replies_from c q ds h bal)
replies_from c [] (from_b_late port ∷ ds) h bal = absurd (omega arith)
replies_from c (x ∷ xs) (from_b_late port ∷ ds) h bal =
    let shorter : suc (length xs) - 1 ≡ length xs = omega arith in
    subst
      (λ r.
        (r.1.port ∷ [] ++ reply_ports r.0 ds) ++ (turns r.0 ds).dynamic_ports
        ≡ x ∷ xs ++ request_ports ds)
      (sym
        (from_server_late (queued c (x ∷ xs)) port x xs (queued-IsClientServer c (x ∷ xs) h) refl))
      (ap (◌∷◌ x) (replies_from c xs ds h (rw shorter at bal.1)))

-- Entity A has a port of its own choice, entity B a fixed one, and their receiving sockets differ.
-- Datagrams come in, one handled after the other, on the two receiving sockets and on the sending
-- sockets, where one thread passes on what comes from A and one what comes from B; nothing else
-- changes the queue. If at no time there were more datagrams from B than the stored ports and the
-- datagrams on A's receiving socket allow, then the ports that the datagrams from B are sent to,
-- and then the ports left in the queue, are the stored ports followed by the source ports on A's
-- receiving socket, in order.
pub replies_in_order :
    (c : UdpConnection) (ds : List Datagram)
    → IsClientServer c
    → IsBalanced (length c.dynamic_ports) ds
    → reply_ports c ds ++ (turns c ds).dynamic_ports ≡ c.dynamic_ports ++ request_ports ds
replies_in_order c ds h bal = replies_from c c.dynamic_ports ds h bal
