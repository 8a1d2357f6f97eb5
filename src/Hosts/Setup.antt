-- ===== src/Hosts/Setup.antt =====
-- The first steps of `Hosts.create`: what the infrastructure manager is given, and the infrastructure
-- that the test machines stand in.
use cloudify_system_tests.Prelude.{
  ◌*◌, ℕ, String, Bool, false, ◌&&◌, ◌||◌, Option, none, some, List, [], ◌∷◌, ◌++◌, ◌==◌, ltb,
  if◌then◌else◌,
}
use cloudify_system_tests.Text.{concat}
use cloudify_system_tests.Dict.{Dict, get, put}
use cloudify_system_tests.Value.{Value, text}
use cloudify_system_tests.Act.{
  Act, Done, Reply, key_error, runtime_error, other, pass, pure, raise, modify, ◌>>=◌, ◌>>◌,
}
use cloudify_system_tests.Act.Retry.{Retrying}
use cloudify_system_tests.Client.{Api, Session, Headers, info, request}
use cloudify_system_tests.Deployment.{
  wait_for_blueprint_upload, create_deployment, get_node_instances,
}
use cloudify_system_tests.Execution.{run_blocking_execution}
use cloudify_system_tests.Hosts.{Hosts, on_infra, log_hosts}

-- `self._test_config`, as far as it is read here, and what a host is made with.
pub record HostsConfig : Type 0 where
  pub target_platform : String
  -- `platform`, whose entries are looked up by names that the two mappings give
  pub platform : Dict String
  pub secrets_mapping : Dict String
  pub infrastructure_inputs_mapping : Dict String
  pub plugin_package_name : String
  pub plugin_version : String
  pub multi_net : Bool
  pub ipv6_net : Bool
  pub infra_mgr_version : ℕ
  pub tmpdir : String

-- The calls of the client library that setting up makes, and the files of the tester.
pub record SetupSite (W : Type 0) : Type 0 where
  pub create_secret : Headers → String → String → W → Reply Done × W
  pub public_key : W → Reply String × W
  -- `plugins.list`, over all tenants: names and versions
  pub all_plugins : Headers → W → Reply (List (String × String)) × W
  -- `re.match(pattern, version)`
  pub matches : String → String → Bool
  pub get_resource_path : String → String
  -- with the flag for old managers
  pub upload_blueprint : Headers → String → String → Bool → W → Reply Done × W
  -- `json.dumps`, to a file
  pub dump_inputs : String → Dict Value → W → Reply Done × W
  -- inputs as the client library is handed them
  pub as_inputs : Dict Value → Dict String
  -- an entry of the `resource_config` of a node of a deployment
  pub resource_config : Headers → String → String → String → W → Reply String × W
  -- `ip_network`
  pub network : String → Reply String
  -- `node_instance['runtime_properties'][key]`, for a text
  pub runtime_text : Dict String → String → Reply String

module _ {W : Type 0} where
  abbrev pub infra_request : {A : Type 0} → (Headers → W → Reply A × W) → Act (Hosts W) A
  infra_request call = on_infra (request call)

  abbrev pub known : {A : Type 0} → Option A → Act (Hosts W) A
  known none = raise key_error
  known (some v) = pure v

  -- `l[i]`
  abbrev pub indexed : {A : Type 0} → Option A → Act (Hosts W) A
  indexed none = raise (other 1)
  indexed (some x) = pure x

  abbrev pub head : {A : Type 0} → List A → Act (Hosts W) A
  head [] = raise (other 1)
  head (x ∷ xs) = pure x

module _ {W : Type 0} (api : Api W) (site : SetupSite W) (config : HostsConfig)
    (retry : Retrying (Session W)) where
  unfoldable pub create_secrets : Dict String → Act (Hosts W) Done
  create_secrets [] = pass
  create_secrets ((secret_name, mapping) ∷ rest) = do
    secret ← known (get mapping config.platform)
    infra_request (λ h. site.create_secret h secret_name secret)
    create_secrets rest

  -- `_upload_secrets_to_infrastructure_manager`
  unfoldable pub upload_secrets : Act (Hosts W) Done
  upload_secrets = do
    log_hosts info "Uploading secrets to infrastructure manager."
    create_secrets config.secrets_mapping
    ssh_pubkey ← infra_request (λ h. site.public_key)
    infra_request (λ h. site.create_secret h "ssh_public_key" ssh_pubkey)

  abbrev has_plugin : List (String × String) → Bool
  has_plugin [] = false
  has_plugin ((name, version) ∷ rest) =
      (name == config.plugin_package_name && site.matches config.plugin_version version)
      || has_plugin rest

  -- `_upload_plugins_to_infrastructure_manager`, which uploads none
  unfoldable pub check_plugins : Act (Hosts W) Done
  check_plugins = do
    current_plugins ← infra_request site.all_plugins
    if has_plugin current_plugins
        then log_hosts info "Plugin already present."
        else raise runtime_error

  unfoldable pub upload_infra_blueprint : String → String → Act (Hosts W) Done
  upload_infra_blueprint path blueprint_id = do
    infra_request (λ h.
        site.upload_blueprint h (site.get_resource_path path) blueprint_id
          (ltb config.infra_mgr_version 7))
    on_infra (wait_for_blueprint_upload api retry blueprint_id)
    modify (λ h. record h { blueprints = h.blueprints ++ blueprint_id ∷ [] })

  abbrev infrastructure_suffix : String
  infrastructure_suffix = concat (
      (if config.ipv6_net then "-ipv6" else "")
      ∷ (if config.multi_net then "-multi-net" else "")
      ∷ [])

  abbrev test_vm_suffixes : List String
  test_vm_suffixes =
      if config.ipv6_net
      then "" ∷ "-ipv6" ∷ []
      else if config.multi_net
      then "" ∷ "-multi-net" ∷ []
      else "" ∷ []

  unfoldable pub upload_vm_blueprints : List String → Act (Hosts W) Done
  upload_vm_blueprints [] = pass
  upload_vm_blueprints (suffix ∷ rest) = do
    upload_infra_blueprint
        (concat
          ("infrastructure_blueprints/" ∷ config.target_platform ∷ "/vm" ∷ suffix ∷ ".yaml" ∷ []))
        (concat ("test_vm" ∷ suffix ∷ []))
    upload_vm_blueprints rest

  -- `_upload_blueprints_to_infrastructure_manager`
  unfoldable pub upload_blueprints : Act (Hosts W) Done
  upload_blueprints = do
    log_hosts info "Uploading test blueprints to infrastructure manager."
    upload_infra_blueprint
        (concat (
          "infrastructure_blueprints/" ∷ config.target_platform ∷ "/infrastructure"
          ∷ infrastructure_suffix ∷ ".yaml" ∷ []))
        "infrastructure"
    upload_vm_blueprints test_vm_suffixes

  unfoldable pub map_inputs : Dict String → Dict Value → Act (Hosts W) (Dict Value)
  map_inputs [] inputs = pure inputs
  map_inputs ((blueprint_input, mapping) ∷ rest) inputs = do
    v ← known (get mapping config.platform)
    map_inputs rest (put blueprint_input (text v) inputs)

  -- the loop over the three subnets
  unfoldable pub map_networks : List (String × String) → Dict String → Act (Hosts W) (Dict String)
  map_networks [] mappings = pure mappings
  map_networks ((net_name, node_id) ∷ rest) mappings = do
    let cidr = if config.target_platform == "aws" then "CidrBlock" else "cidr"
    details ← infra_request (λ h. site.resource_config h "infrastructure" node_id cidr)
    network ← infra_request (λ h w. (site.network details, w))
    map_networks rest (put net_name network mappings)

  -- the first node instance of a node of the infrastructure: the name of its resource
  unfoldable pub resource_of : String → Act (Hosts W) String
  resource_of node_name = do
    found ← on_infra (get_node_instances api node_name "infrastructure")
    node_instance ← head found
    infra_request (λ h w. (site.runtime_text node_instance "aws_resource_id", w))

  unfoldable pub more_subnets : Dict String → Act (Hosts W) (Dict String)
  more_subnets ids = do
    subnet_2 ← resource_of "test_subnet_2"
    subnet_3 ← resource_of "test_subnet_3"
    pure (put "subnet_3_id" subnet_3 (put "subnet_2_id" subnet_2 ids))

  -- `_populate_aws_platform_properties`
  unfoldable pub populate_aws_platform_properties : Act (Hosts W) Done
  populate_aws_platform_properties = do
    log_hosts info "Retrieving AWS resource IDs"
    subnet ← resource_of "test_subnet_1"
    let ids = put "subnet_id" subnet []
    with_subnets ← (if config.multi_net then more_subnets ids else pure ids)
    vpc ← resource_of "vpc"
    security_group ← resource_of "security_group"
    modify (λ h. record h {
      platform_resource_ids =
          put "security_group_id" security_group (put "vpc_id" vpc with_subnets);
    })

  -- `_deploy_test_infrastructure`
  unfoldable pub deploy_test_infrastructure : ℕ → String → Act (Hosts W) Done
  deploy_test_infrastructure fuel test_identifier = do
    log_hosts info "Creating test infrastructure inputs."
    inputs ←
        map_inputs config.infrastructure_inputs_mapping
          (put "test_infrastructure_name" (text test_identifier) [])
    infra_request
        (λ h. site.dump_inputs (concat (config.tmpdir ∷ "/infra_inputs.yaml" ∷ [])) inputs)
    log_hosts info "Creating test infrastructure using infrastructure manager."
    on_infra (
        create_deployment api retry fuel "infrastructure" "infrastructure" (site.as_inputs inputs)
          false)
    modify (λ h. record h { deployments = h.deployments ++ "infrastructure" ∷ [] })
    on_infra (run_blocking_execution api fuel "infrastructure" "install" [] none (15 * 60))
    if config.multi_net
        then (do
          mappings ←
              map_networks
                (("network_1", "test_subnet_1")
                  ∷ ("network_2", "test_subnet_2")
                  ∷ ("network_3", "test_subnet_3")
                  ∷ [])
                []
          modify (λ h. record h { network_mappings = mappings }))
        else pass
    if config.target_platform == "aws" then populate_aws_platform_properties else pass
