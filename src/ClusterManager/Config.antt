-- ===== src/ClusterManager/Config.antt =====
-- The configuration that `cfy_cluster_manager` is given: where the machines of the cluster are.
pub mod Laws
use cloudify_system_tests.Prelude.{
  ℕ, zero, suc, ◌+◌, String, Option, none, some, List, [], ◌∷◌, ltb, if◌then◌else◌,
}
use Prim.Native.Nat.{◌%◌}
use cloudify_system_tests.Text.{concat, str}
use cloudify_system_tests.Dict.{Dict, get, put, update}
use cloudify_system_tests.Value.{Value, text, table, Fields, entries, mapping}
use cloudify_system_tests.Act.{Reply, value, fault, key_error, type_error, attribute_error}
use cloudify_system_tests.Config.Generate.{and_then}
use cloudify_system_tests.Host.{Vm}

abbrev pub remote_cluster_config_path : String
remote_cluster_config_path = "/tmp/cfy_cluster_config.yaml"

abbrev pub remote_license_path : String
remote_license_path = "/tmp/cfy_cluster_manager_license.yaml"

abbrev pub remote_ssh_key_path : String
remote_ssh_key_path = "/tmp/cfy_cluster_manager_ssh_key.pem"

-- A machine of the cluster, with the fields of a `VM` that are read here.
pub record ClusterNode : Type 0 where
  pub vm : Vm
  pub ip_address : String
  pub private_ip_address : String

-- `d[key]`, for a value that need not be a dict; only its text keys are modelled
abbrev held_item : Option Value → Reply Value
held_item none = fault key_error
held_item (some v) = value v

unfoldable pub item : String → Value → Reply Value
item key (table fields) = held_item (get key (entries fields))
item key v = fault type_error

-- the dict that a node's entry is updated with
abbrev pub addresses : ClusterNode → Dict Value
addresses node =
    ("private_ip", text node.private_ip_address) ∷ ("public_ip", text node.ip_address) ∷ []

-- `entry.update({…})`
unfoldable pub update_entry : ClusterNode → Option Value → Reply Value
update_entry node none = fault key_error
update_entry node (some (table fields)) =
    value (table (mapping (update (entries fields) (addresses node))))
update_entry node (some v) = fault attribute_error

-- `existing_vms[name].update({…})`
unfoldable pub update_vms : String → ClusterNode → Option Value → Reply Value
update_vms name node none = fault key_error
update_vms name node (some (table fields)) =
    and_then (update_entry node (get name (entries fields)))
      (λ entry. value (table (mapping (put name entry (entries fields)))))
update_vms name node (some v) = fault type_error

unfoldable pub update_vm : String → ClusterNode → Dict Value → Reply (Dict Value)
update_vm name node config_dict =
    and_then (update_vms name node (get "existing_vms" config_dict))
      (λ vms. value (put "existing_vms" vms config_dict))

-- the loop, from the number of its next round
unfoldable pub update_from : (ℕ → String) → ℕ → List ClusterNode → Dict Value → Reply (Dict Value)
update_from name_of i [] config_dict = value config_dict
update_from name_of i (node ∷ nodes) config_dict =
    and_then (update_vm (name_of i) node config_dict)
      (λ updated. update_from name_of (suc i) nodes updated)

-- The rounds are counted from one.
abbrev three_node_name : ℕ → String
three_node_name i = concat ("node-" ∷ str i ∷ [])

abbrev pub nine_node_name : ℕ → String
nine_node_name i =
    let node_num = i % 3 + 1 in
    if ltb i 3
    then concat ("rabbitmq-" ∷ str node_num ∷ [])
    else if ltb i 6
    then concat ("postgresql-" ∷ str node_num ∷ [])
    else concat ("manager-" ∷ str node_num ∷ [])

abbrev pub update_three_nodes_config_dict_vms : List ClusterNode → Dict Value → Reply (Dict Value)
update_three_nodes_config_dict_vms existing_vms_list config_dict =
    update_from three_node_name 1 existing_vms_list config_dict

abbrev pub update_nine_nodes_config_dict_vms : List ClusterNode → Dict Value → Reply (Dict Value)
update_nine_nodes_config_dict_vms existing_vms_list config_dict =
    update_from nine_node_name 0 existing_vms_list config_dict
