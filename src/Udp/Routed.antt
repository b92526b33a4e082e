-- ===== src/Udp/Routed.antt =====
-- The sockets that buildFromConnections opens, and the connections that they lead to.
use cezfuzzer.Base.{
  ℕ, ◌≡◌, ◌≢◌, ◌⊎◌, inl, inr, ℤ, pos, eq_ℤ, eq_ℤ_iff, true, List, [], ◌∷◌, Option, none, some,
  get_elem?, elem, Bool-cases, refl, sym,
}
use cezfuzzer.Udp.Connection.{Connection, UdpConnection}
use cezfuzzer.Udp.Route.{recv_route}
use cezfuzzer.Udp.Opened.{IsFresh, Opens, create_and_bind_socket-Opens, Opens-other}
use cezfuzzer.Udp.Sockets.{
  System, Net, UdpHandler, empty_handler, lookup, register, register_all, build_connection,
  build_from_connections,
}
use cezfuzzer.Udp.Sides.{
  Side, receiving, sockets, IsRouted, two_sockets, elem-append_two, two_sockets_hold,
  register-IsRouted, register-sockets, register-old, sending,
}

-- Every socket of the side is open and leads to its connection.
pub record IsWired (side : Side) (h : UdpHandler) (net : Net) : Type 0 where
  pub routed : (s : ℕ) → elem s (sockets side h) ≡ true → IsRouted side h s
  pub still_open : (s : ℕ) → elem s (sockets side h) ≡ true → elem s net.open_sockets ≡ true

module _ (side : Side) (conn : UdpConnection) (h : UdpHandler) (net net_1 net_2 net_3 net_4 : Net)
    (w : IsWired side h net) where
  grown-IsWired :
      ((t : ℕ) → elem t net.open_sockets ≡ true → elem t net_4.open_sockets ≡ true)
      → IsWired side h net_4
  grown-IsWired grows = record { routed = w.routed; still_open = λ s e. grows s (w.still_open s e) }

  module _ (a b c d : ℕ) (wa : Opens net net_1 (some a)) (wb : Opens net_1 net_2 (some b))
      (wc : Opens net_2 net_3 (some c)) (wd : Opens net_3 net_4 (some d)) where
    new_open :
        (s : ℕ)
        → (let (p, q) = two_sockets side a b c d in (s ≡ p) ⊎ (s ≡ q))
        → elem s net_4.open_sockets ≡ true
    new_open s e =
        two_sockets_hold side a b c d s (λ t. elem t net_4.open_sockets)
          (wd.kept a (wc.kept a (wb.kept a (wa.open_now a refl))))
          (wd.kept b (wc.kept b (wb.open_now b refl))) (wd.kept c (wc.open_now c refl))
          (wd.open_now d refl) e

    register-IsWired : IsWired side (register conn h a b c d) net_4
    register-IsWired =
        let (p, q) = two_sockets side a b c d in
        record {
          routed = λ s e.
              elim (elem-append_two s p q (sockets side h)
                (rw (register-sockets side conn h a b c d) at e)) [
                  | inl old ↦
                      (let open_0 = w.still_open s old in
                        let open_1 = wa.kept s open_0 in
                        let open_2 = wb.kept s open_1 in
                        let open_3 = wc.kept s open_2 in
                        register-old side conn h a b c d s (Opens-other wa s a refl open_0)
                          (Opens-other wb s b refl open_1) (Opens-other wc s c refl open_2)
                          (Opens-other wd s d refl open_3) (w.routed s old))
                  | inr new ↦ register-IsRouted side conn h a b c d s new
                ];
          still_open = λ s e.
              elim (elem-append_two s p q (sockets side h)
                (rw (register-sockets side conn h a b c d) at e)) [
                  | inl old ↦ wd.kept s (wc.kept s (wb.kept s (wa.kept s (w.still_open s old))))
                  | inr new ↦ new_open s new
                ];
        }

  register_all-IsWired :
      (a b c d : Option ℕ)
      → Opens net net_1 a
      → Opens net_1 net_2 b
      → Opens net_2 net_3 c
      → Opens net_3 net_4 d
      → IsWired side (register_all conn h a b c d) net_4
  register_all-IsWired (some a) (some b) (some c) (some d) wa wb wc wd =
      register-IsWired a b c d wa wb wc wd
  register_all-IsWired none b c d wa wb wc wd =
      grown-IsWired (λ t e. wd.kept t (wc.kept t (wb.kept t (wa.kept t e))))
  register_all-IsWired (some a) none c d wa wb wc wd =
      grown-IsWired (λ t e. wd.kept t (wc.kept t (wb.kept t (wa.kept t e))))
  register_all-IsWired (some a) (some b) none d wa wb wc wd =
      grown-IsWired (λ t e. wd.kept t (wc.kept t (wb.kept t (wa.kept t e))))
  register_all-IsWired (some a) (some b) (some c) none wa wb wc wd =
      grown-IsWired (λ t e. wd.kept t (wc.kept t (wb.kept t (wa.kept t e))))

empty_handler-IsWired : (side : Side) (net : Net) → IsWired side empty_handler net
empty_handler-IsWired receiving net = record { routed = λ t h. cc; still_open = λ t h. cc }
empty_handler-IsWired sending net = record { routed = λ t h. cc; still_open = λ t h. cc }

module _ (side : Side) (sys : System) (f : IsFresh sys) where
  build_connection-IsWired :
      (h : UdpHandler) (net : Net) (conn : Connection)
      → IsWired side h net
      → IsWired side (build_connection sys h net conn).0 (build_connection sys h net conn).1
  unfolding build_connection
  build_connection-IsWired h net conn w =
      register_all-IsWired side _ h net _ _ _ _ w _ _ _ _ (create_and_bind_socket-Opens sys f _ _ _)
        (create_and_bind_socket-Opens sys f _ _ _) (create_and_bind_socket-Opens sys f _ _ _)
        (create_and_bind_socket-Opens sys f _ _ _)

  build-IsWired :
      (h : UdpHandler) (net : Net) (conns : List Connection)
      → IsWired side h net
      → IsWired side
          (build_from_connections sys h net conns).0
          (build_from_connections sys h net conns).1
  unfolding build_from_connections
  build-IsWired h net [] w = w
  build-IsWired h net (conn ∷ conns) w =
      let (h', net') = build_connection sys h net conn in
      build-IsWired h' net' conns (build_connection-IsWired h net conn w)

  -- If socket() gives only descriptors that are not open, then whatever sockets and binds fail, the
  -- handler that buildFromConnections leaves maps every socket to a connection that has it, and
  -- every socket is open.
  pub build_from_connections-IsWired :
      (net : Net) (conns : List Connection)
      → IsWired side
          (build_from_connections sys empty_handler net conns).0
          (build_from_connections sys empty_handler net conns).1
  build_from_connections-IsWired net conns =
      build-IsWired empty_handler net conns (empty_handler-IsWired side net)

recv_route-own :
    (s : ℕ) (c : UdpConnection) (ports : List ℤ) (src : ℤ)
    → (c.recv_sock_from_entity_a ≡ pos s) ⊎ (c.recv_sock_from_entity_b ≡ pos s)
    → recv_route (record c { dynamic_ports = ports }) (pos s) src ≢ none
unfolding recv_route
recv_route-own s c ports src (inl a) =
    rw ((eq_ℤ_iff (pos s) c.recv_sock_from_entity_a).1 (sym a)) (λ h. cc (h))
recv_route-own s c ports src (inr b) = elim (Bool-cases (eq_ℤ (pos s) c.recv_sock_from_entity_a)) [
  | inl first ↦ rw first (λ h. cc (h))
  | inr second ↦ rw (second, (eq_ℤ_iff (pos s) c.recv_sock_from_entity_b).1 (sym b)) (λ h. cc (h))
]

-- In the handler that buildFromConnections makes from nothing, whatever sockets and binds fail,
-- each receiving socket is mapped to a connection of the handler, and this connection has a target
-- for what arrives on the socket, whatever dynamic ports it holds by then. socket() is taken to
-- give only descriptors that are not open.
pub build_from_connections-recv_route :
    (sys : System) (f : IsFresh sys) (net : Net) (conns : List Connection) (s : ℕ)
    → elem s (build_from_connections sys empty_handler net conns).0.recv_sockets ≡ true
    → (i : ℕ) × (c : UdpConnection) × (lookup s
          (build_from_connections sys empty_handler net conns).0.sock_to_connection
        ≡ some i)
      × (get_elem? (build_from_connections sys empty_handler net conns).0.connections i ≡ some c)
      × ((ports : List ℤ) (src : ℤ)
          → recv_route (record c { dynamic_ports = ports }) (pos s) src ≢ none)
build_from_connections-recv_route sys f net conns s e =
    let r = (build_from_connections-IsWired receiving sys f net conns).routed s e in
    (r.index, r.conn, r.mapped, r.found, λ ports src. recv_route-own s r.conn ports src r.own)
