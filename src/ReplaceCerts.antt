-- ===== src/ReplaceCerts.antt =====
-- resources/scripts/create_replace_certs_config_script.py: the configuration for replacing the
-- certificates of a manager, or of the nodes of a cluster.
pub mod Laws
use cloudify_system_tests.Prelude.{
  String, Bool, true, false, not, ◌&&◌, Option, none, some, List, [], ◌∷◌, if◌then◌else◌,
}
use cloudify_system_tests.Text.{concat, text_in}
use cloudify_system_tests.Dict.{Dict, get, put, contains}
use cloudify_system_tests.Value.{
  Value, text, sequence, table, Items, nil, cons, Fields, entries, mapping,
}
use cloudify_system_tests.Value.Update.{is_item}
use cloudify_system_tests.Act.{
  Act, Done, Reply, value, fault, key_error, type_error, result, pass, pure, ◌>>=◌, ◌>>◌,
}
use cloudify_system_tests.Config.Generate.{and_then}

abbrev certs_dir : String
certs_dir = "~/.cloudify-test-ca/"

-- The paths that are written for a node.
pub record Paths : Type 0 where
  pub ca_path : String
  pub ca_key_path : String
  pub cert_path : String
  pub key_path : String

abbrev pub paths_for : String → Paths
paths_for host_ip = record {
  ca_path = concat (certs_dir ∷ "ca.crt" ∷ []);
  ca_key_path = concat (certs_dir ∷ "ca.key" ∷ []);
  cert_path = concat (certs_dir ∷ host_ip ∷ ".crt" ∷ []);
  key_path = concat (certs_dir ∷ host_ip ∷ ".key" ∷ []);
}

-- What is written under a name, given which words occur in it, or nothing if the name is let be.
abbrev choose_path : Bool → Paths → Bool → Bool → Bool → Bool → Option String
choose_path replace_ca_key p has_ca has_cert has_key has_ca_key =
    if has_ca && not has_key
    then some p.ca_path
    else if has_cert
    then some p.cert_path
    else if has_key
    then (if replace_ca_key && has_ca_key
        then some p.ca_key_path
        else if not has_ca_key
        then some p.key_path
        else none)
    else none

abbrev pub path_for : Bool → Paths → String → Option String
path_for replace_ca_key p cert_name =
    choose_path replace_ca_key p (text_in "ca" cert_name) (text_in "cert" cert_name)
      (text_in "key" cert_name) (text_in "ca_key" cert_name)

abbrev pub replaced_by : Option String → Value → Value
replaced_by none old = old
replaced_by (some path) old = text path

-- the loop over the names of a dict; an assignment to a name that is there keeps the order
unfoldable pub replace_paths : (String → Option String) → Dict Value → Dict Value
replace_paths path_of [] = []
replace_paths path_of ((name, old) ∷ rest) =
    (name, replaced_by (path_of name) old) ∷ replace_paths path_of rest

-- `node['host_ip']`, put behind the name of the directory
abbrev host_of_node : Option Value → Reply String
host_of_node none = fault key_error
host_of_node (some (text host_ip)) = value host_ip
host_of_node (some v) = fault type_error

-- the body of the loop over the members of a cluster
unfoldable pub replace_node : Bool → Value → Reply Value
replace_node replace_ca_key (table fields) =
    and_then (host_of_node (get "host_ip" (entries fields))) λ host_ip. value (
      table
        (mapping (replace_paths (path_for replace_ca_key (paths_for host_ip)) (entries fields))))
replace_node replace_ca_key v = fault type_error

unfoldable pub replace_nodes : Bool → Items → Reply Items
replace_nodes replace_ca_key nil = value nil
replace_nodes replace_ca_key (cons node nodes) =
    and_then (replace_node replace_ca_key node)
      λ new. and_then (replace_nodes replace_ca_key nodes) λ rest. value (cons new rest)

-- `for node in members`: a text or a dict that is not empty gives texts, which are no nodes
unfoldable pub replace_members : Bool → Option Value → Reply Value
replace_members replace_ca_key none = fault key_error
replace_members replace_ca_key (some (sequence nodes)) =
    and_then (replace_nodes replace_ca_key nodes) λ new. value (sequence new)
replace_members replace_ca_key (some (table Fields.end)) = value (table Fields.end)
replace_members replace_ca_key (some (text String.[])) = value (text "")
replace_members replace_ca_key (some v) = fault type_error

-- the second loop over a part of a cluster: two tests, one after the other
abbrev shared_path : Bool → Paths → String → Option String
shared_path replace_ca_key p key =
    if replace_ca_key && text_in "ca_key" key
    then some p.ca_key_path
    else if text_in "ca" key && not (text_in "key" key)
    then some p.ca_path
    else none

abbrev replace_shared : Bool → Value → Reply Value
replace_shared replace_ca_key (table fields) =
    value
      (table (mapping (replace_paths (shared_path replace_ca_key (paths_for "")) (entries fields))))
replace_shared replace_ca_key v = fault type_error

-- one part of a cluster: its members, then its own entries
unfoldable pub replace_instance : Bool → Option Value → Reply Value
replace_instance replace_ca_key none = fault key_error
replace_instance replace_ca_key (some (table fields)) =
    and_then (replace_members replace_ca_key (get "cluster_members" (entries fields))) λ members.
      replace_shared replace_ca_key
        (table (mapping (put "cluster_members" members (entries fields))))
replace_instance replace_ca_key (some v) = fault type_error

unfoldable pub replace_instances : Bool → List String → Dict Value → Reply (Dict Value)
replace_instances replace_ca_key [] config = value config
replace_instances replace_ca_key (name ∷ names) config =
    and_then (replace_instance replace_ca_key (get name config))
      λ new. replace_instances replace_ca_key names (put name new config)

-- `certs_dir + host_ip`, where no address may have been given
abbrev given_paths : Option String → Reply Paths
given_paths none = fault type_error
given_paths (some host_ip) = value (paths_for host_ip)

-- `word in name`, for a name that need not be a text
abbrev occurs_in : String → Value → Reply Bool
occurs_in word (text name) = value (text_in word name)
occurs_in word (table fields) = value (contains word (entries fields))
occurs_in word (sequence items) = value (is_item word items)
occurs_in word v = fault type_error

-- whether a name that a list gives is assigned to, which a list refuses
abbrev named_by : Bool → Paths → Value → Reply (Option String)
named_by replace_ca_key p name = and_then (occurs_in "ca" name) λ has_ca.
    and_then (occurs_in "key" name) λ has_key. and_then (occurs_in "cert" name) λ has_cert.
      and_then (occurs_in "ca_key" name)
        λ has_ca_key. value (choose_path replace_ca_key p has_ca has_cert has_key has_ca_key)

abbrev refuse_path : Option String → Reply Done
refuse_path none = value tt
refuse_path (some path) = fault type_error

unfoldable pub refuse_items : Bool → Paths → Items → Reply Done
refuse_items replace_ca_key p nil = value tt
refuse_items replace_ca_key p (cons name names) =
    and_then (named_by replace_ca_key p name)
      λ path. and_then (refuse_path path) λ _. refuse_items replace_ca_key p names

-- The names of a text are its characters, none of which is a word that is looked for.
unfoldable pub replace_single : Bool → Paths → Value → Reply Value
replace_single replace_ca_key p (table fields) =
    value (table (mapping (replace_paths (path_for replace_ca_key p) (entries fields))))
replace_single replace_ca_key p (sequence items) =
    and_then (refuse_items replace_ca_key p items) λ _. value (sequence items)
replace_single replace_ca_key p (text t) = value (text t)
replace_single replace_ca_key p v = fault type_error

-- `for instance_name, instance_dict in replace_certs_config.items()`
unfoldable pub replace_all : Bool → Option String → Dict Value → Reply (Dict Value)
replace_all replace_ca_key host_ip [] = value []
replace_all replace_ca_key host_ip ((name, instance_dict) ∷ rest) =
    and_then (given_paths host_ip) λ p.
      and_then (replace_single replace_ca_key p instance_dict) λ new.
        and_then (replace_all replace_ca_key host_ip rest) λ others. value ((name, new) ∷ others)

unfoldable pub replace_config : Bool → Option String → Bool → Dict Value → Reply (Dict Value)
replace_config is_cluster host_ip replace_ca_key config =
    if is_cluster
    then replace_instances replace_ca_key ("manager" ∷ "postgresql_server" ∷ "rabbitmq" ∷ []) config
    else replace_all replace_ca_key host_ip config

-- What the script is given: the command line, and YAML files.
record ScriptSite (W : Type 0) : Type 0 where
  -- `subprocess.call`, whose return code is not looked at
  pub call : List String → W → Reply Done × W
  pub load_yaml : String → W → Reply (Dict Value) × W
  write_yaml : String → Dict Value → W → Reply Done × W

module _ {W : Type 0} (site : ScriptSite W) where
  abbrev call_site : {A : Type 0} → (W → Reply A × W) → Act W A
  call_site call w = let (r, w') = call w in (result r, w')

  unfoldable generate_replace_certs_config : String → Option String → Bool → Bool → Act W Done
  generate_replace_certs_config path host_ip is_cluster replace_ca_key = do
    call_site (site.call ("cfy" ∷ "certificates" ∷ "generate-replace-config" ∷ "-o" ∷ path ∷ []))
    config ← call_site (site.load_yaml path)
    new ← (λ w. (result (replace_config is_cluster host_ip replace_ca_key config), w))
    call_site (site.write_yaml path new)
