-- ===== src/Launcher/Agreement.antt =====
-- The launchers and the proxy read the same file, the proxy with two keys more.
use text.Mathlib.Text.{◌==◌}
use mathlib.Core.List.{map-append}
use cezfuzzer.Base.{
  ◌≡◌, refl, ap, arith, true, false, Bool, List, [], ◌∷◌, Option, none, some, inl, inr, map,
  Bool-cases, Option-cases,
}
use cezfuzzer.Config.Yaml.{string_at, int_at, bool_at, list_at, Yaml, ◌>>=◌}
use cezfuzzer.Config.Entity
use cezfuzzer.Config.Manager
use cezfuzzer.Config.Steps.{Step, finish, ◌and_then◌, assign, if_defined}
use cezfuzzer.Launcher.Config.{
  EntityConfig, ConfigurationManager, add_entity, read_entity, parse_general, parse_network,
  parse_entities, parse,
}

-- What the launchers keep of an entity.
abbrev pub view : Entity.EntityConfig → EntityConfig
view c = record {
  name = c.name;
  role = c.role;
  protocol = c.protocol;
  ip = c.ip;
  port = c.port;
  fuzzed = c.fuzzed;
  binary_path = c.binary_path;
  exec_with = c.exec_with;
  args = c.args;
  destinations = c.destinations;
  connect_to = c.connect_to;
}

abbrev pub view_option : Option Entity.EntityConfig → Option EntityConfig
view_option none = none
view_option (some c) = some (view c)

abbrev pub view_manager : Manager.ConfigurationManager → ConfigurationManager
view_manager m = record {
  general = m.general;
  network = m.network;
  entities = map view m.entities;
  fuzzer = view_option m.fuzzer;
}

-- A step that both readers take.
both :
    {A B C : Type 0} (v : B → C) (b : B) (o : Option A) (f : A → Option B) (g : A → Option C)
    → ((a : A) → f a ≡ some b → g a ≡ some (v b))
    → (o >>= f) ≡ some b
    → (o >>= g) ≡ some (v b)
both v b none f g h e = cc
both v b (some a) f g h e = h a e

-- A step that the proxy's reader takes alone.
alone :
    {A B : Type 0} {G : Type 0} (b : B) (o : Option A) (f : A → Option B)
    → ((a : A) → f a ≡ some b → G)
    → (o >>= f) ≡ some b
    → G
alone b none f h e = cc
alone b (some a) f h e = h a e

module _ {N : Type 0} (y : Yaml N) where
  read_entity-view :
      (it : N × N) (c : Entity.EntityConfig)
      → Entity.read_entity y it ≡ some c
      → read_entity y it ≡ some (view c)
  unfolding Entity.read_entity read_entity
  read_entity-view (key, node) c = both view c (y.as_string key) _ _ λ name.
      both view c (string_at y node "role") _ _ λ role.
        both view c (y.at node "protocol") _ _ λ protocol_node.
          both view c (Entity.read_protocol y protocol_node) _ _ λ protocol.
            both view c (string_at y node "ip") _ _ λ ip.
              both view c (int_at y node "port") _ _ λ port.
                both view c (bool_at y node "fuzzed") _ _ λ fuzzed.
                  both view c (string_at y node "binary_path") _ _ λ binary_path.
                    both view c (string_at y node "exec_with") _ _ λ exec_with.
                      both view c (list_at y y.as_string node "args") _ _ λ args.
                        both view c (list_at y (Entity.read_destination y) node "destinations") _ _
                          λ destinations. both view c (y.at node "connect_to") _ _ λ connect_node.
                            both view c (Entity.read_connect_to y connect_node) _ _ λ connect_to.
                              alone c (list_at y (Entity.read_connection y) node "connections") _
                                λ connections.
                                  alone c
                                    (list_at y (Entity.read_redirection y) node "tcp_redirections")
                                    _ λ tcp_redirections e. ap view_option e

-- A step of the launchers' parse() that follows a step of the proxy's, where that does not throw.
abbrev pub Follows : Step ConfigurationManager → Step Manager.ConfigurationManager → Type 0
Follows step proxy_step =
    (m : Manager.ConfigurationManager)
    → (proxy_step m).1 ≡ true
    → step (view_manager m) ≡ (view_manager (proxy_step m).0, true)

finish-true :
    {S : Type 0} (p : S × Bool) (next : Step S)
    → (finish p next).1 ≡ true
    → (p.1 ≡ true) × (finish p next ≡ next p.0)
finish-true (m, true) next e = (refl, refl)
finish-true (m, false) next e = cc

and_then-Follows :
    (a b : Step ConfigurationManager) (a' b' : Step Manager.ConfigurationManager)
    → Follows a a'
    → Follows b b'
    → Follows (a and_then b) (a' and_then b')
and_then-Follows a b a' b' ha hb m e =
    let (first, second) = finish-true (a' m) b' e in
    rw (ha m first, second) (hb (a' m).0 (rw second at e))

assign-Follows :
    {A : Type 0} (o : Option A) (set : A → ConfigurationManager → ConfigurationManager)
    (set' : A → Manager.ConfigurationManager → Manager.ConfigurationManager)
    → ((a : A) (m : Manager.ConfigurationManager)
        → set a (view_manager m) ≡ view_manager (set' a m))
    → Follows (assign o set) (assign o set')
assign-Follows none set set' h m e = cc
assign-Follows (some a) set set' h m e = ap (λ t. (t, true)) (h a m)

if_defined-Follows :
    {N : Type 0} (o : Option (Option N)) (body : N → Step ConfigurationManager)
    (body' : N → Step Manager.ConfigurationManager)
    → ((n : N) → Follows (body n) (body' n))
    → Follows (if_defined o body) (if_defined o body')
if_defined-Follows none body body' h m e = cc
if_defined-Follows (some none) body body' h m e = refl
if_defined-Follows (some (some n)) body body' h m e = h n m e

add_entity-view :
    (c : Entity.EntityConfig) (m : Manager.ConfigurationManager)
    → add_entity (view c) (view_manager m) ≡ view_manager (Manager.add_entity c m)
unfolding add_entity Manager.add_entity
add_entity-view c m = elim (Bool-cases (c.role == "fuzzer")) [
  | inl same ↦ rw (same, map-append view m.entities (c ∷ []))
  | inr other ↦ rw (other, map-append view m.entities (c ∷ []))
]

module _ {N : Type 0} (y : Yaml N) where
  parse_general-Follows : (n : N) → Follows (parse_general y n) (Manager.parse_general y n)
  unfolding parse_general Manager.parse_general
  parse_general-Follows n m e = ground (arith, e)

  parse_network-Follows : (n : N) → Follows (parse_network y n) (Manager.parse_network y n)
  unfolding parse_network Manager.parse_network
  parse_network-Follows n m e = ground (arith, e)

  parse_entities-Follows :
      (its : List (N × N)) → Follows (parse_entities y its) (Manager.parse_entities y its)
  unfolding parse_entities Manager.parse_entities
  parse_entities-Follows [] m e = refl
  parse_entities-Follows (it ∷ its) m e = elim (Option-cases (Entity.read_entity y it)) [
    | inl throws ↦ cc (throws, e)
    | inr (c, q) ↦
        rw (q, read_entity-view y it c q, add_entity-view c m)
          (parse_entities-Follows its (Manager.add_entity c m) (rw q at e))
  ]

  -- Whatever the file holds: where the proxy's parse() does not throw, the launchers' parse() of
  -- the same file, from an object that agrees with the proxy's, does not throw and leaves an
  -- object that agrees with the proxy's, that is, has its values in all fields that the launchers
  -- keep.
  pub parse-Follows : (doc : Option N) → Follows (parse y doc) (Manager.parse y doc)
  unfolding parse Manager.parse
  parse-Follows none m e = cc
  parse-Follows (some config) m e =
      and_then-Follows (if_defined (y.at config "general") (parse_general y)) _
        (if_defined (y.at config "general") (Manager.parse_general y)) _
        (if_defined-Follows (y.at config "general") _ _ parse_general-Follows)
        (and_then-Follows (if_defined (y.at config "network") (parse_network y)) _
          (if_defined (y.at config "network") (Manager.parse_network y)) _
          (if_defined-Follows (y.at config "network") _ _ parse_network-Follows)
          (if_defined-Follows (y.at config "entities") _ _
            (λ n. parse_entities-Follows (y.fields n))))
        m e
