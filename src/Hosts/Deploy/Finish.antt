-- ===== src/Hosts/Deploy/Finish.antt =====
-- The end of the deployments of `Hosts.create`: the machines are told what they are.
use cloudify_system_tests.Prelude.{
  ◌*◌, ℕ, String, Bool, false, ◌&&◌, Option, none, some, List, [], ◌∷◌, ◌==◌, leb, if◌then◌else◌,
}
use cloudify_system_tests.Text.{concat}
use cloudify_system_tests.Dict.{Dict, get, put}
use cloudify_system_tests.Act.{Act, Done, pass, pure, gets, ◌>>=◌, ◌>>◌}
use cloudify_system_tests.Client.{Api, Execution, info}
use cloudify_system_tests.Deployment.{get_node_instances}
use cloudify_system_tests.Execution.{wait_for_execution}
use cloudify_system_tests.Host.{run_command, sudo}
use cloudify_system_tests.Host.Bootstrap.{wait_for_ssh}
use cloudify_system_tests.Hosts.{Hosts, on_infra, log_hosts}
use cloudify_system_tests.Hosts.Instances.{assign, at, on_instance}
use cloudify_system_tests.Hosts.Setup.{HostsConfig, SetupSite, infra_request, known, indexed, head}
use cloudify_system_tests.Hosts.Deploy.{VmSite, replace_text, without_last}

module _ {W : Type 0} (api : Api W) (site : SetupSite W) (config : HostsConfig)
    (vms : VmSite W) where
  abbrev public_address : Bool → Dict String → String → Act (Hosts W) String
  public_address use_fqdn node_instance ip =
      if use_fqdn && config.target_platform == "aws"
      then (do
        zone ← infra_request (λ h w. (vms.zone node_instance, w))
        pure (
            concat (
              "ec2-"
              ∷ replace_text "." "-" ip
              ∷ "."
              ∷ without_last zone
              ∷ ".compute.amazonaws.com"
              ∷ [])))
      else pure ip

  -- the network that an address is in, the first that has it
  abbrev network_of : String → Dict String → Option String
  network_of ip [] = none
  network_of ip ((net_name, network) ∷ rest) =
      let later = network_of ip rest in if vms.in_network ip network then some net_name else later

  abbrev add_network : String → Option String → Dict String → Dict String
  add_network ip none networks = networks
  add_network ip (some net_name) networks = put net_name ip networks

  unfoldable pub networks_of : List String → Dict String → Dict String → Dict String
  networks_of [] mappings networks = networks
  networks_of (ip ∷ rest) mappings networks =
      networks_of rest mappings (add_network ip (network_of ip mappings) networks)

  abbrev runtime : Dict String → String → Act (Hosts W) String
  runtime node_instance key = infra_request (λ h w. (site.runtime_text node_instance key, w))

  abbrev pub networks_for : Dict String → Act (Hosts W) (Dict String)
  networks_for node_instance =
      if config.multi_net
      then (do
        addresses ← infra_request (λ h w. (vms.ipv4_addresses node_instance, w))
        mappings ← gets (λ h. h.network_mappings)
        pure (networks_of addresses mappings []))
      else pure []

  -- `_update_instance`; an index error comes first
  unfoldable pub update_instance : ℕ → Dict String → Bool → Act (Hosts W) Done
  update_instance server_index node_instance use_fqdn = do
    found ← gets (λ h. at server_index h.instances)
    indexed found
    ip ← runtime node_instance "public_ip_address"
    public_ip_address ← public_address use_fqdn node_instance ip
    private_ip_address ← runtime node_instance (if config.ipv6_net then "ipv6_address" else "ip")
    node_instance_id ← known (get "id" node_instance)
    deployment_id ← known (get "deployment_id" node_instance)
    server_id ←
        runtime node_instance (if config.target_platform == "aws" then "aws_resource_id" else "id")
    networks ← networks_for node_instance
    on_instance server_index (
        assign vms.workplace (record {
          public_ip_address = public_ip_address;
          private_ip_address = private_ip_address;
          networks = networks;
          node_instance_id = node_instance_id;
          deployment_id = deployment_id;
          server_id = server_id;
          server_index = server_index;
        }))

  -- the places differ, so that each round adds one
  unfoldable pub finish_installs :
      ℕ → Bool → Dict (Execution × ℕ) → Act (Hosts W) (List (ℕ × Dict String))
  finish_installs fuel use_fqdn [] = pure []
  finish_installs fuel use_fqdn ((vm_id, (execution, index)) ∷ rest) = do
    on_infra (wait_for_execution api fuel execution none (20 * 60) false)
    log_hosts info "Retrieving deployed instance details."
    found ← on_infra (get_node_instances api "test_host" vm_id)
    node_instance ← head found
    log_hosts info "Storing instance details."
    update_instance index node_instance use_fqdn
    others ← finish_installs fuel use_fqdn rest
    pure ((index, node_instance) ∷ others)

  -- the addresses of the machines at other places
  unfoldable pub other_ips : ℕ → List (ℕ × Dict String) → Act (Hosts W) (List String)
  other_ips server_index [] = pure []
  other_ips server_index ((i, node_instance) ∷ rest) = do
    let others = other_ips server_index rest
    if leb i server_index && leb server_index i
        then others
        else (do ip ← runtime node_instance "ip"; found ← others; pure (ip ∷ found))

  unfoldable pub poison : ℕ → Dict String → List String → Act (Hosts W) Done
  poison server_index node_instance [] = pass
  poison server_index node_instance (ip ∷ rest) = do
    own ← runtime node_instance "ip"
    log_hosts info
        (concat ("Poisoning ARP to disable IPv4 communication " ∷ own ∷ "->" ∷ ip ∷ "." ∷ []))
    on_instance server_index (
        run_command vms.machine
          (sudo (concat ("ip neigh add " ∷ ip ∷ " lladdr de:ad:be:ef:ca:fe dev eth0" ∷ []))))
    poison server_index node_instance rest

  -- `_disable_ipv4`, from the instances that it goes through
  unfoldable pub disable_ipv4 : List (ℕ × Dict String) → List (ℕ × Dict String) → Act (Hosts W) Done
  disable_ipv4 all [] = pass
  disable_ipv4 all ((server_index, node_instance) ∷ rest) = do
    on_instance server_index (wait_for_ssh vms.machine vms.host_retry)
    ips ← other_ips server_index all
    poison server_index node_instance ips
    disable_ipv4 all rest

  -- `_finish_deploy_test_vms`
  unfoldable pub finish_deploy_test_vms : ℕ → Bool → Act (Hosts W) Done
  finish_deploy_test_vms fuel use_fqdn = do
    installs ← gets (λ h. h.test_vm_installs)
    node_instances ← finish_installs fuel use_fqdn installs
    if config.ipv6_net
        then (log_hosts info "Disabling IPv4 on private interfaces."
            >> disable_ipv4 node_instances node_instances)
        else pass
