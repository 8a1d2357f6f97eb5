-- ===== src/Hosts/Deploy.antt =====
-- The test machines of `Hosts.create`: a deployment for each, and what the machines are told of it.
pub mod Finish
use cloudify_system_tests.Prelude.{
  ◌*◌, ℕ, zero, String, Bool, true, false, ◌&&◌, Option, none, some, List, [], ◌∷◌, ◌++◌, ◌==◌, ltb,
  leb, or_else, is_in, if◌then◌else◌,
}
use cloudify_system_tests.Text.{concat, str, replace_from}
use cloudify_system_tests.Dict.{Dict, get, put, remove, update, contains, map_values}
use cloudify_system_tests.Value.{Value, text, number, table, sequence, cons, nil, field, Fields}
use cloudify_system_tests.Act.{
  Act, Done, Reply, key_error, other, pass, pure, raise, gets, modify, ◌>>=◌, ◌>>◌,
}
use cloudify_system_tests.Act.Retry.{Retrying}
use cloudify_system_tests.Client.{Api, Session, Execution, info}
use cloudify_system_tests.Deployment.{create_deployment, get_node_instances}
use cloudify_system_tests.Execution.{wait_for_execution}
use cloudify_system_tests.Host.{Host, Machine, run_command, sudo}
use cloudify_system_tests.Host.Bootstrap.{wait_for_ssh}
use cloudify_system_tests.Hosts.{Hosts, Instance, on_infra, log_hosts}
use cloudify_system_tests.Hosts.Instances.{Workplace, assign, at, on_instance}
use cloudify_system_tests.Hosts.Setup.{HostsConfig, SetupSite, infra_request, known, head, indexed}

-- The rest of the configuration, and what a node instance says of its machine.
pub record VmSite (W : Type 0) : Type 1 where
  pub server_flavor : String
  pub floating_network_id : String
  pub manager_image_owner : String
  pub ami_image_owner : String
  pub use_owners_for : List String
  -- the network of a machine, by its place
  pub vm_net_mappings : ℕ → Option ℕ
  pub workplace : Workplace W
  pub machine : Machine W
  pub host_retry : Retrying (Host W)
  -- the availability zone in the runtime properties of an instance on AWS
  pub zone : Dict String → Reply String
  -- `sorted(ip_address(a) for a in ipv4_addresses)`, as texts, and `ip in network`
  pub ipv4_addresses : Dict String → Reply (List String)
  pub in_network : String → String → Bool

abbrev pub replace_text : String → String → String → String
replace_text old new t = replace_from old new zero t

-- the name of a deployment, from the image and the place of its machine
unfoldable pub vm_id_of : String → ℕ → String
vm_id_of image_id index = concat (
    "vm_"
    ∷ replace_text "." "-"
        (replace_text ")" "_" (replace_text "(" "_" (replace_text " " "_" image_id)))
    ∷ "_"
    ∷ str index
    ∷ [])

-- `zone[:-1]`
abbrev pub without_last : String → String
without_last String.[] = ""
without_last (String.◌∷◌ c String.[]) = ""
without_last (String.◌∷◌ c s) = String.◌∷◌ c (without_last s)

module _ {W : Type 0} (api : Api W) (site : SetupSite W) (config : HostsConfig) (vms : VmSite W)
    (retry : Retrying (Session W)) where
  abbrev pub texts : Dict String → Dict Value
  texts d = map_values text d

  abbrev subnet_key : ℕ → String
  subnet_key use_net =
      if ltb 1 use_net then concat ("subnet_" ∷ str use_net ∷ "_id" ∷ []) else "subnet_id"

  -- the subnet of a machine, with several networks
  abbrev with_subnet : ℕ → Dict Value → Act (Hosts W) (Dict Value)
  with_subnet index inputs = do
    ids ← gets (λ h. h.platform_resource_ids)
    subnet ← known (get (subnet_key (or_else (vms.vm_net_mappings index) 1)) ids)
    pure (put "subnet_id" (text subnet) inputs)

  abbrev image_inputs : Bool → String → String → Dict Value → Dict Value
  image_inputs true image_id image_type inputs = put "image_owner" (text vms.manager_image_owner) (
      put "name_filter"
        (table (
          field "Name" (text "tag:Name")
            (field "Values" (sequence (cons (text image_id) nil)) Fields.end)))
        inputs)
  image_inputs false image_id image_type inputs =
      let with_image = put "image_id" (text image_id) inputs in
      if is_in image_type vms.use_owners_for
      then put "image_owner" (text vms.ami_image_owner) with_image
      else with_image

  unfoldable pub aws_inputs : String → ℕ → Bool → String → Dict Value → Act (Hosts W) (Dict Value)
  aws_inputs image_id index is_manager image_type inputs = do
    ids ← gets (λ h. h.platform_resource_ids)
    let with_ids = update inputs (texts ids)
    with_net ← (if config.multi_net then with_subnet index with_ids else pure with_ids)
    pure (image_inputs is_manager image_id image_type with_net)

  unfoldable pub platform_inputs :
      String → ℕ → Bool → String → Dict Value → Act (Hosts W) (Dict Value)
  platform_inputs image_id index is_manager image_type inputs =
      if config.target_platform == "openstack"
      then pure (
          put "image" (text image_id)
            (put "floating_network_id" (text vms.floating_network_id) inputs))
      else if config.target_platform == "aws"
      then aws_inputs image_id index is_manager image_type inputs
      else pure inputs

  -- `d.pop(key)`
  abbrev pop : String → Dict Value → Act (Hosts W) (Dict Value)
  pop key d = if contains key d then pure (remove key d) else raise key_error

  -- the blueprint of a machine and its last inputs, with several networks
  abbrev net_inputs : Option ℕ → Dict Value → Act (Hosts W) (String × Dict Value)
  net_inputs none inputs = pure ("test_vm-multi-net", inputs)
  net_inputs (some use_net) inputs = do
    let with_net = put "use_net" (number use_net) inputs
    if config.target_platform == "aws"
        then (do
          without_2 ← pop "subnet_2_id" with_net
          without_3 ← pop "subnet_3_id" without_2
          pure ("test_vm", without_3))
        else pure ("test_vm", with_net)

  -- `_start_deploy_test_vm`
  unfoldable pub start_deploy_test_vm : ℕ → String → ℕ → String → Bool → String → Act (Hosts W) Done
  start_deploy_test_vm fuel image_id index test_identifier is_manager image_type = do
    log_hosts info
        (concat ("Preparing to deploy instance " ∷ str index ∷ " of image " ∷ image_id ∷ []))
    let vm_id = vm_id_of image_id index
    log_hosts info (concat ("Creating test VM inputs for " ∷ image_id ∷ "_" ∷ str index ∷ []))
    found ← gets (λ h. at index h.instances)
    instance_ ← indexed found
    first_inputs ← platform_inputs image_id index is_manager image_type (
        ("test_infrastructure_name", text test_identifier)
        ∷ ("userdata", text instance_.userdata)
        ∷ ("flavor", text vms.server_flavor)
        ∷ [])
    made ←
        (if config.multi_net
          then net_inputs (vms.vm_net_mappings index) first_inputs
          else pure ("test_vm", first_inputs))
    infra_request (λ h.
        site.dump_inputs (concat (config.tmpdir ∷ "/" ∷ vm_id ∷ "_" ∷ str index ∷ ".yaml" ∷ []))
          made.1)
    log_hosts info (concat ("Deploying instance " ∷ str index ∷ " of " ∷ image_id ∷ []))
    on_infra (create_deployment api retry fuel made.0 vm_id (site.as_inputs made.1) false)
    modify (λ h. record h { deployments = h.deployments ++ vm_id ∷ [] })
    execution ← infra_request (λ h. api.start_execution h vm_id "install" [])
    modify (λ h. record h { test_vm_installs = put vm_id (execution, index) h.test_vm_installs })
