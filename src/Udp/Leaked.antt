-- ===== src/Udp/Leaked.antt =====
-- proxy/src/UDPHandler.cpp: the sockets that buildFromConnections leaves open.
use mathlib.Core.List.{append_assoc}
use cezfuzzer.Base.{
  ℕ, ◌<◌, ◌≡◌, ◌⊎◌, inl, inr, refl, ap, ◌∙◌, ℤ, Bool, true, false, List, [], ◌∷◌, ◌++◌, Option,
  none, some, arith, length, elem, delete, ◌≤◌, ◌+◌, length-append, Bool-cases, ◌&&◌,
}
use cezfuzzer.Udp.Connection.{Connection, UdpConnection, udp_connection}
use cezfuzzer.Udp.Sockets.{
  System, Net, UdpHandler, register, register_all, create_and_bind_socket, build_connection, opened,
}
use cezfuzzer.Udp.Opened.{IsFresh}

-- The socket that was made, in front of those that were open.
abbrev made : Option ℕ → List ℕ
made none = []
made (some s) = s ∷ []

delete_absent : (s : ℕ) (xs : List ℕ) → elem s xs ≡ false → delete s xs ≡ xs
delete_absent s [] h = refl
delete_absent s (x ∷ xs) h = ground (arith, delete_absent s xs)

length-made : (o : Option ℕ) → length (made o) ≤ 1
length-made none = omega arith
length-made (some s) = omega arith

-- The sockets of a connection, the latest first.
abbrev all_made : Option ℕ → Option ℕ → Option ℕ → Option ℕ → List ℕ
all_made a b c d = made d ++ (made c ++ (made b ++ made a))

length-all_made :
    (a b c d : Option ℕ)
    → length (all_made a b c d)
      ≡ length (made a) + length (made b) + length (made c) + length (made d)
length-all_made a b c d = omega (
  arith,
  length-append (made d) (made c ++ (made b ++ made a)),
  length-append (made c) (made b ++ made a),
  length-append (made b) (made a),
)

all_made-append :
    (a b c d : Option ℕ) (before o_1 o_2 o_3 o_4 : List ℕ)
    → o_1 ≡ made a ++ before
    → o_2 ≡ made b ++ o_1
    → o_3 ≡ made c ++ o_2
    → o_4 ≡ made d ++ o_3
    → o_4 ≡ all_made a b c d ++ before
all_made-append a b c d before o_1 o_2 o_3 o_4 e_1 e_2 e_3 e_4 =
    rw
      (
        append_assoc (made d) (made c ++ (made b ++ made a)) before,
        append_assoc (made c) (made b ++ made a) before,
        append_assoc (made b) (made a) before,
      )
      (e_4 ∙ ap (λ t. made d ++ t) (e_3 ∙ ap (λ t. made c ++ t) (e_2 ∙ ap (λ t. made b ++ t) e_1)))

-- Registered with all four sockets, or not at all.
abbrev pub IsAllOrNone : UdpConnection → UdpHandler → UdpHandler → List ℕ → List ℕ → Type 0
IsAllOrNone c h h' open_before open_after =
    ((recv_a send_b recv_b send_a : ℕ) × (h' ≡ register c h recv_a send_b recv_b send_a)
      × (open_after ≡ send_a ∷ recv_b ∷ send_b ∷ recv_a ∷ open_before))
    ⊎ ((socks : List ℕ) × (h' ≡ h) × (length socks < 4) × (open_after ≡ socks ++ open_before))

register_all_cases :
    (c : UdpConnection) (h : UdpHandler) (ra sb rb sa : Option ℕ) (before after : List ℕ)
    → after ≡ all_made ra sb rb sa ++ before
    → IsAllOrNone c h (register_all c h ra sb rb sa) before after
register_all_cases c h (some ra) (some sb) (some rb) (some sa) before after e =
    inl (ra, sb, rb, sa, refl, e)
register_all_cases c h none sb rb sa before after e = inr (all_made none sb rb sa, refl, few, e)
  where
    few : length (all_made none sb rb sa) < 4
    few =
        omega (arith, length-all_made none sb rb sa, length-made sb, length-made rb, length-made sa)
register_all_cases c h (some ra) none rb sa before after e = inr (
  all_made (some ra) none rb sa,
  refl,
  omega (arith, length-all_made (some ra) none rb sa, length-made rb, length-made sa),
  e,
)
register_all_cases c h (some ra) (some sb) none sa before after e = inr (
  all_made (some ra) (some sb) none sa,
  refl,
  omega (arith, length-all_made (some ra) (some sb) none sa, length-made sa),
  e,
)
register_all_cases c h (some ra) (some sb) (some rb) none before after e =
    inr (all_made (some ra) (some sb) (some rb) none, refl, omega arith, e)

module _ (sys : System) (f : IsFresh sys) where
  create_and_bind_socket_open :
      (port : ℤ) (transparent : Bool) (net : Net)
      → let (net', o) = create_and_bind_socket sys port transparent net in
        net'.open_sockets ≡ made o ++ net.open_sockets
  unfolding create_and_bind_socket
  create_and_bind_socket_open port transparent net =
      by_socket (sys.socket net.calls net.open_sockets) refl
    where
      by_socket :
          (o : Option ℕ)
          → sys.socket net.calls net.open_sockets ≡ o
          → let (net', r) = opened sys port transparent net o in
            net'.open_sockets ≡ made r ++ net.open_sockets
      by_socket none e = refl
      by_socket (some s) e =
          elim (Bool-cases (sys.set_option net.calls transparent && sys.bind net.calls port)) [
            | inl bound ↦ rw bound refl
            | inr unbound ↦
                let new : elem s net.open_sockets ≡ false =
                  f.fresh net.calls net.open_sockets s e in
                rw unbound (ground (arith, delete_absent s net.open_sockets new))
          ]

  -- A connection is registered with four new sockets; or the handler stays as it was, and at most
  -- three sockets that were made for the connection stay open beside those that were, in none of
  -- its tables. socket() is taken to give only descriptors that are not open.
  pub build_connection_cases :
      (h : UdpHandler) (net : Net) (conn : Connection)
      → let (h', net') = build_connection sys h net conn in
        IsAllOrNone (udp_connection conn) h h' net.open_sockets net'.open_sockets
  unfolding build_connection
  build_connection_cases h net conn =
      let c : UdpConnection = udp_connection conn in
      let (net_1, ra) = create_and_bind_socket sys c.port_entity_a_recv false net in
      let (net_2, sb) = create_and_bind_socket sys c.port_entity_b_send true net_1 in
      let (net_3, rb) = create_and_bind_socket sys c.port_entity_b_recv false net_2 in
      let (net_4, sa) = create_and_bind_socket sys c.port_entity_a_send true net_3 in
      register_all_cases c h ra sb rb sa net.open_sockets net_4.open_sockets (
        all_made-append ra sb rb sa _ _ _ _ _
          (create_and_bind_socket_open c.port_entity_a_recv false net)
          (create_and_bind_socket_open c.port_entity_b_send true net_1)
          (create_and_bind_socket_open c.port_entity_b_recv false net_2)
          (create_and_bind_socket_open c.port_entity_a_send true net_3))
