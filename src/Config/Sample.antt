-- ===== src/Config/Sample.antt =====
-- A document, as the type of nodes of a small YAML library, and what it describes.
use text.Mathlib.Text.{◌==◌}
use cezfuzzer.Base.{
  ℤ, minus_one, Bool, true, List, [], ◌∷◌, Option, none, some, String, if◌then◌else◌,
}
use cezfuzzer.Config.Yaml.{Yaml}
use cezfuzzer.Config.Entity.{EntityConfig}
use cezfuzzer.Config.Manager.{ConfigurationManager}

-- A document.
mutual
  pub data Node : Type 0 where
    str : String → Node
    number : ℤ → Node
    flag : Bool → Node
    list : Nodes → Node
    dict : Fields → Node

  pub data Nodes : Type 0 where
    no_nodes : Nodes
    with_node : Node → Nodes → Nodes

  pub data Fields : Type 0 where
    no_fields : Fields
    with_field : String → Node → Fields → Fields

abbrev pub find_key : String → Fields → Option Node
find_key key no_fields = none
find_key key (with_field k v kvs) = if k == key then some v else find_key key kvs

abbrev pub at_key : Node → String → Option (Option Node)
at_key (dict kvs) key = some (find_key key kvs)
at_key (list ns) key = some none
at_key (str s) key = none
at_key (number n) key = none
at_key (flag b) key = none

abbrev pub to_string : Node → Option String
to_string (str s) = some s
to_string (number n) = none
to_string (flag b) = none
to_string (list ns) = none
to_string (dict kvs) = none

abbrev pub to_int : Node → Option ℤ
to_int (number n) = some n
to_int (str s) = none
to_int (flag b) = none
to_int (list ns) = none
to_int (dict kvs) = none

abbrev pub to_bool : Node → Option Bool
to_bool (flag b) = some b
to_bool (str s) = none
to_bool (number n) = none
to_bool (list ns) = none
to_bool (dict kvs) = none

abbrev pub node_list : Nodes → List Node
node_list no_nodes = []
node_list (with_node n ns) = n ∷ node_list ns

abbrev pub field_list : Fields → List (Node × Node)
field_list no_fields = []
field_list (with_field k v kvs) = (str k, v) ∷ field_list kvs

abbrev pub items_of_list : Node → List Node
items_of_list (list ns) = node_list ns
items_of_list (str s) = []
items_of_list (number n) = []
items_of_list (flag b) = []
items_of_list (dict kvs) = []

abbrev pub fields_of_dict : Node → List (Node × Node)
fields_of_dict (dict kvs) = field_list kvs
fields_of_dict (str s) = []
fields_of_dict (number n) = []
fields_of_dict (flag b) = []
fields_of_dict (list ns) = []

abbrev pub yaml : Yaml Node
yaml = record {
  at = at_key;
  as_string = to_string;
  as_int = to_int;
  as_bool = to_bool;
  items = items_of_list;
  fields = fields_of_dict;
}

abbrev pub entity_node : String → String → Node
entity_node role address = dict (
    with_field "role" (str role) (
      with_field "protocol" (str "udp") (
        with_field "ip" (str address) (
          with_field "port" (number minus_one) (
            with_field "fuzzed" (flag true) (
              with_field "binary_path" (str "bin/ping") (
                with_field "exec_with" (str "")
                  (with_field "args" (list (with_node (str "-v") no_nodes)) no_fields))))))))

abbrev pub server_node : Node × Node
server_node = (str "server", entity_node "server" "10.0.0.2")

abbrev pub proxy_node : Node × Node
proxy_node = (str "proxy", entity_node "fuzzer" "10.0.0.9")

-- An entity without a role.
abbrev pub broken_node : Node × Node
broken_node = (str "broken", dict no_fields)

abbrev pub entity_of : String → String → String → EntityConfig
entity_of name role address = record {
  name = name;
  role = role;
  protocol = "udp";
  ip = address;
  port = minus_one;
  fuzzed = true;
  binary_path = "bin/ping";
  exec_with = "";
  args = "-v" ∷ [];
  destinations = [];
  connect_to = none;
  connections = [];
  tcp_redirections = [];
}

abbrev pub server : EntityConfig
server = entity_of "server" "server" "10.0.0.2"

abbrev pub proxy : EntityConfig
proxy = entity_of "proxy" "fuzzer" "10.0.0.9"

abbrev pub manager : ConfigurationManager
manager = record {
  general = record { log_level = ""; log_dir = "" };
  network = record { docker_network_name = ""; subnet = ""; gateway = "" };
  entities = [];
  fuzzer = none;
}

-- The file with both entities.
abbrev pub document : Node
document = dict (
    with_field "entities"
      (dict (
        with_field "server" (entity_node "server" "10.0.0.2")
          (with_field "proxy" (entity_node "fuzzer" "10.0.0.9") no_fields)))
      no_fields)
