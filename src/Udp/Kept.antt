-- ===== src/Udp/Kept.antt =====
-- proxy/src/UDPHandler.cpp: a thread whose socket the connection knows sends on every datagram.
use mathlib.Core.Path.{subst}
use cezfuzzer.Base.{
  ℕ, suc, ◌≡◌, ◌≢◌, refl, ap, ◌∙◌, ℤ, minus_one, eq_ℤ, List, [], ◌∷◌, ◌++◌, Option, none, some,
  String, Bool-cases, inl, inr,
}
use cezfuzzer.Fuzzer.Core.{Env}
use cezfuzzer.Udp.Connection.{UdpConnection, pop_from, push_dynamic_port, pop_dynamic_port}
use cezfuzzer.Udp.Route.{Target, recv_route, a_to_b, b_to_a, fill_port, store_port}
use cezfuzzer.Udp.Threads.{
  Round, with_ports, changed, failed, datagram, Effect, sent, skipped, closed,
}
use cezfuzzer.Udp.Serving.{Serves, waits, fails, empties, forwards, skips}

-- The datagrams before the first error or empty datagram, and the calls of sendto().
abbrev pub served : List Round → ℕ
served [] = 0
served ((others, failed) ∷ xs) = 0
served ((others, datagram [] src) ∷ xs) = 0
served ((others, datagram (b ∷ bs) src) ∷ xs) = suc (served xs)

abbrev pub sent_count : List Effect → ℕ
sent_count [] = 0
sent_count (closed ∷ effs) = sent_count effs
sent_count (skipped ∷ effs) = sent_count effs
sent_count (sent t payload ∷ effs) = suc (sent_count effs)

abbrev Keeps : UdpConnection → UdpConnection → Type 0
Keeps c c' = (ports : List ℤ) × (c' ≡ with_ports c ports)

pop_dynamic_port-Keeps : (c : UdpConnection) (port : ℤ) → Keeps c (pop_dynamic_port c port).0
unfolding pop_dynamic_port
pop_dynamic_port-Keeps c port = by_ports c.dynamic_ports
  where
    by_ports : (ports : List ℤ) → Keeps c (pop_from c port ports).0
    by_ports [] = (c.dynamic_ports, refl)
    by_ports (x ∷ xs) = (xs, refl)

fill_port-Keeps : (c : UdpConnection) (port : ℤ) → Keeps c (fill_port c port).0
fill_port-Keeps c port = elim (Bool-cases (eq_ℤ port minus_one)) [
  | inl unknown ↦ rw unknown (pop_dynamic_port-Keeps c port)
  | inr known ↦ rw known (c.dynamic_ports, refl)
]

store_port-Keeps : (c : UdpConnection) (own src : ℤ) → Keeps c (store_port c own src)
unfolding push_dynamic_port
store_port-Keeps c own src = elim (Bool-cases (eq_ℤ own minus_one)) [
  | inl unknown ↦ rw unknown (c.dynamic_ports ++ src ∷ [], refl)
  | inr known ↦ rw known (c.dynamic_ports, refl)
]

Keeps-trans : (c d e : UdpConnection) → Keeps c d → Keeps d e → Keeps c e
Keeps-trans c d e (ps, h) (qs, k) = (qs, k ∙ ap (λ x. with_ports x qs) h)

recv_route-Keeps :
    (c c' : UdpConnection) (sock src : ℤ) (t : Target)
    → recv_route c sock src ≡ some (c', t)
    → Keeps c c'
unfolding recv_route
recv_route-Keeps c c' sock src t e = elim (Bool-cases (eq_ℤ sock c.recv_sock_from_entity_a)) [
  | inl a ↦ subst (Keeps c) (same (rw a at e)) (a_to_b-Keeps)
  | inr not_a ↦ elim (Bool-cases (eq_ℤ sock c.recv_sock_from_entity_b)) [
    | inl b ↦ subst (Keeps c) (same (rw (not_a, b) at e)) b_to_a-Keeps
    | inr not_b ↦ absurd (nothing (rw (not_a, not_b) at e))
  ]
]
  where
    same : {r : UdpConnection × Target} → some r ≡ some (c', t) → r.0 ≡ c'
    same h = cc

    nothing : ◌≡◌ {A = Option (UdpConnection × Target)} none (some (c', t)) → ⊥
    nothing h = cc

    a_to_b-Keeps : Keeps c (a_to_b c src).0
    a_to_b-Keeps =
        Keeps-trans c (fill_port c c.entity_b_port).0 (a_to_b c src).0
          (fill_port-Keeps c c.entity_b_port)
          (store_port-Keeps (fill_port c c.entity_b_port).0
            (fill_port c c.entity_b_port).0.entity_a_port src)

    b_to_a-Keeps : Keeps c (b_to_a c src).0
    b_to_a-Keeps =
        Keeps-trans c (fill_port c c.entity_a_port).0 (b_to_a c src).0
          (fill_port-Keeps c c.entity_a_port)
          (store_port-Keeps (fill_port c c.entity_a_port).0
            (fill_port c c.entity_a_port).0.entity_b_port src)

-- Where every queue has a route, every datagram before the end goes out.
pub Serves-served :
    {e : Env} {args : List String} (sock : ℤ) (c : UdpConnection) (xs : List Round)
    (effs : List Effect)
    → ((ports : List ℤ) (src : ℤ) → recv_route (with_ports c ports) sock src ≢ none)
    → (c' : UdpConnection) → Keeps c c'
    → Serves e args (λ c src. recv_route c sock src) c' xs effs
    → sent_count effs ≡ served xs
Serves-served sock c _ _ routed c' k waits = refl
Serves-served sock c _ _ routed c' k fails = refl
Serves-served sock c _ _ routed c' k empties = refl
Serves-served sock c _ _ routed c' k
      (forwards {c = d} {c' = d'} {others = f} {t = t} {src = src} e h s) =
    ap suc (
      Serves-served sock c _ _ routed d'
        (Keeps-trans c (changed f d) d' (Keeps-trans c d (changed f d) k (f d.dynamic_ports, refl))
          (recv_route-Keeps (changed f d) d' sock src t e))
        s)
Serves-served sock c _ _ routed c' (ports, k) (skips {c = d} {others = f} {src = src} e s) =
    absurd (routed (f d.dynamic_ports) src (rw (ap (λ x. with_ports x (f d.dynamic_ports)) k) at e))
