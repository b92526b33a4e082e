-- ===== src/Udp/Sides.antt =====
-- proxy/src/UDPHandler.cpp: the receiving and the sending sockets that a connection registers.
use cezfuzzer.Base.{
  ℕ, zero, suc, ◌≡◌, ◌≢◌, ◌⊎◌, inl, inr, pos, Bool, true, List, [], ◌∷◌, ◌++◌, some, ◌==◌, length,
  get_elem?, elem, arith, Bool-cases, refl,
}
use cezfuzzer.Udp.Connection.{UdpConnection}
use cezfuzzer.Udp.Sockets.{UdpHandler, lookup, register}

-- The two lists of sockets of a handler, and what it is for a connection to have a socket of one.
pub data Side : Type 0 where
  receiving sending : Side

abbrev pub sockets : Side → UdpHandler → List ℕ
sockets receiving h = h.recv_sockets
sockets sending h = h.send_sockets

abbrev pub Owns : Side → UdpConnection → ℕ → Type 0
Owns receiving c s = (c.recv_sock_from_entity_a ≡ pos s) ⊎ (c.recv_sock_from_entity_b ≡ pos s)
Owns sending c s = (c.send_sock_to_entity_a ≡ pos s) ⊎ (c.send_sock_to_entity_b ≡ pos s)

-- A socket leads to a connection that has it as one of its two.
pub record IsRouted (side : Side) (h : UdpHandler) (s : ℕ) : Type 0 where
  pub index : ℕ
  pub conn : UdpConnection
  pub mapped : lookup s h.sock_to_connection ≡ some index
  pub found : get_elem? h.connections index ≡ some conn
  pub own : Owns side conn s

get_elem?-last : {A : Type 0} (xs : List A) (a : A) → get_elem? (xs ++ a ∷ []) (length xs) ≡ some a
get_elem?-last [] a = refl
get_elem?-last (x ∷ xs) a = get_elem?-last xs a

get_elem?-first :
    {A : Type 0} (xs : List A) (a b : A) (i : ℕ)
    → get_elem? xs i ≡ some a
    → get_elem? (xs ++ b ∷ []) i ≡ some a
get_elem?-first [] a b i e = cc
get_elem?-first (x ∷ xs) a b zero e = e
get_elem?-first (x ∷ xs) a b (suc i) e = get_elem?-first xs a b i e

pub elem-append_two :
    (s a b : ℕ) (xs : List ℕ)
    → elem s (xs ++ a ∷ b ∷ []) ≡ true
    → (elem s xs ≡ true) ⊎ (s ≡ a) ⊎ (s ≡ b)
elem-append_two s a b [] e = ground arith
elem-append_two s a b (x ∷ xs) e = elim (Bool-cases (s == x)) [
  | inl same ↦ inl (rw same)
  | inr other ↦ rw other (elem-append_two s a b xs (rw other at e))
]

module _ (side : Side) (conn : UdpConnection) (h : UdpHandler) (a b c d : ℕ) where
  pub register-old :
      (s : ℕ)
      → s ≢ a
      → s ≢ b
      → s ≢ c
      → s ≢ d
      → IsRouted side h s
      → IsRouted side (register conn h a b c d) s
  unfolding register
  register-old s na nb nc nd r = record {
    index = r.index;
    conn = r.conn;
    mapped = ground (arith, r.mapped);
    found = get_elem?-first h.connections r.conn _ r.index r.found;
    own = r.own;
  }

  -- The connection as it is registered.
  abbrev registered : UdpConnection
  registered = record conn {
    recv_sock_from_entity_a = pos a;
    send_sock_to_entity_b = pos b;
    recv_sock_from_entity_b = pos c;
    send_sock_to_entity_a = pos d;
  }

  register-new :
      (s : ℕ)
      → lookup s (register conn h a b c d).sock_to_connection ≡ some (length h.connections)
      → Owns side registered s
      → IsRouted side (register conn h a b c d) s
  unfolding register
  register-new s mapped own = record {
    index = length h.connections;
    conn = registered;
    mapped = mapped;
    found = get_elem?-last h.connections registered;
    own = own;
  }

-- The two sockets of a side, of those that are registered.
abbrev pub two_sockets : Side → ℕ → ℕ → ℕ → ℕ → ℕ × ℕ
two_sockets receiving a b c d = (a, c)
two_sockets sending a b c d = (d, b)

pub two_sockets_hold :
    (side : Side) (a b c d s : ℕ) (test : ℕ → Bool)
    → test a ≡ true
    → test b ≡ true
    → test c ≡ true
    → test d ≡ true
    → (let (p, q) = two_sockets side a b c d in (s ≡ p) ⊎ (s ≡ q))
    → test s ≡ true
two_sockets_hold receiving a b c d s test ha hb hc hd (inl e) = rw e ha
two_sockets_hold receiving a b c d s test ha hb hc hd (inr e) = rw e hc
two_sockets_hold sending a b c d s test ha hb hc hd (inl e) = rw e hd
two_sockets_hold sending a b c d s test ha hb hc hd (inr e) = rw e hb

pub register-IsRouted :
    (side : Side) (conn : UdpConnection) (h : UdpHandler) (a b c d s : ℕ)
    → let (p, q) = two_sockets side a b c d in
      (s ≡ p) ⊎ (s ≡ q) → IsRouted side (register conn h a b c d) s
unfolding register
register-IsRouted receiving conn h a b c d s (inl e) =
    rw e (register-new receiving conn h a b c d a (ground arith) (inl refl))
register-IsRouted receiving conn h a b c d s (inr e) =
    rw e (register-new receiving conn h a b c d c (ground arith) (inr refl))
register-IsRouted sending conn h a b c d s (inl e) =
    rw e (register-new sending conn h a b c d d (ground arith) (inl refl))
register-IsRouted sending conn h a b c d s (inr e) =
    rw e (register-new sending conn h a b c d b (ground arith) (inr refl))

pub register-sockets :
    (side : Side) (conn : UdpConnection) (h : UdpHandler) (a b c d : ℕ)
    → let (p, q) = two_sockets side a b c d in
      sockets side (register conn h a b c d) ≡ sockets side h ++ p ∷ q ∷ []
unfolding register
register-sockets receiving conn h a b c d = refl
register-sockets sending conn h a b c d = refl
