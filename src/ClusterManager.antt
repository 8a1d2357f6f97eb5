-- ===== src/ClusterManager.antt =====
-- test_suites/cluster/cfy_cluster_manager_shared.py: clusters that `cfy_cluster_manager` installs and
-- upgrades, and the deployment that is put on one in between.
pub mod Config
pub mod Laws
pub mod Upgrade
use cloudify_system_tests.Prelude.{
  or_else, ℕ, zero, suc, ◌-◌, length, String, Bool, true, false, Option, none, some, List, [], ◌∷◌,
  ◌==◌, leb, ◌&&◌, ◌||◌, if◌then◌else◌,
}
use cloudify_system_tests.Text.{concat, str, starts_with, codes, split_first}
use cloudify_system_tests.Dict.{Dict, get, put, update}
use cloudify_system_tests.Value.{Value, null, text, table, Fields, entries, mapping}
use cloudify_system_tests.Act.{
  Act, Done, Reply, result, assertion_error, key_error, other, pass, pure, raise, ◌>>=◌, ◌>>◌,
}
use cloudify_system_tests.Act.Retry.{Retrying}
use cloudify_system_tests.Client.{Session, info, log_line}
use cloudify_system_tests.Host.{Vm, Command, Machine, Host, plain, sudo, effect, run_command}
use cloudify_system_tests.Host.Services.{get_installed_configs}
use cloudify_system_tests.Managed.{Managed}
use cloudify_system_tests.Managed.Agents.{get_manager_install_version}
use cloudify_system_tests.Packages.{substitute_testing_version}
use cloudify_system_tests.Resources.{check}
use cloudify_system_tests.Snapshots.{Tester, upgrade_agents}
use cloudify_system_tests.ClusterManager.Config.{
  ClusterNode, item, remote_cluster_config_path, remote_license_path, remote_ssh_key_path,
  update_three_nodes_config_dict_vms, update_nine_nodes_config_dict_vms,
}

-- The entries of the test configuration that are read here.
pub record ClusterTestConfig : Type 0 where
  pub manager_install_rpm_path : String
  pub testing_version : String
  pub distro : String
  -- `test_config['cfy_cluster_manager']['rpm_path']`
  pub rpm_path : String

-- What the code is given: YAML and JSON, the files of the tester, the output of a command that is let
-- fail, and `repr` of a text.
pub record ClusterSite (W : Type 0) : Type 1 where
  pub tester : Tester W
  pub session_retry : Retrying (Session W)
  pub config : ClusterTestConfig
  pub load_yaml : String → W → Reply (Dict Value) × W
  pub dump_yaml : Dict Value → String
  pub load_json : String → Reply Value
  -- whether the command succeeded, and its output
  pub run_warned : Vm → Command → W → Reply (Bool × String) × W
  pub read_file : String → W → Reply String × W
  pub get_resource_path : String → String
  -- `CLUSTER_MANAGER_RESOURCES_PATH`
  pub resources_path : String
  pub repr : String → String

-- `s.split('-')[0]`
abbrev pub before_dash : String → String
before_dash t = split_first 45 t

-- `nodes_list[-3]`
unfoldable pub third_last : List ClusterNode → Option ClusterNode
third_last [] = none
third_last (n ∷ ns) =
    let later = third_last ns in
    elim later [ some m ↦ some m | none ↦ if leb 3 (length (n ∷ ns)) then some n else none ]

module _ {W : Type 0} where
  -- What is done to a node here does not change its record.
  abbrev pub on_node : {A : Type 0} → ClusterNode → Act (Host W) A → Act (Session W) A
  on_node n m s =
      let (r, h) = m (record { vm = n.vm; sent = []; world = s.world }) in
      (r, record s { world = h.world })

  abbrev pub on_manager : {A : Type 0} → ClusterNode → Act (Managed W) A → Act (Session W) A
  on_manager n m s = let (r, g) = m (record { session = s; vm = n.vm; sent = [] }) in (r, g.session)

  abbrev pub world_call : {A : Type 0} → (W → Reply A × W) → Act (Session W) A
  world_call call s = let (r, w) = call s.world in (result r, record s { world = w })

  abbrev pub given_reply : {A : Type 0} → Reply A → Act (Session W) A
  given_reply r s = (result r, s)

-- `vm.username`, as it is written into a text
abbrev pub user_of : ClusterNode → String
user_of n = or_else n.vm.username "None"

abbrev optional : Option String → Value
optional none = null
optional (some t) = text t

abbrev pub is_text : String → Value → Bool
is_text t (text u) = u == t
is_text t v = false

-- `base_version.startswith(prefix)`
abbrev pub begins : String → String → Bool
begins t prefix = starts_with (codes t) (codes prefix)

module _ {W : Type 0} (c : ClusterSite W) where
  abbrev pub run_on : ClusterNode → Command → Act (Session W) String
  run_on n command = on_node n (run_command c.tester.machine command)

  abbrev pub put_on : ClusterNode → String → String → Act (Session W) Done
  put_on n remote local = on_node n (effect (λ v. c.tester.machine.put_file v remote local))

  -- one attempt of `_verify_cluster_status`
  unfoldable pub cluster_status_attempt : ClusterNode → Act (Session W) Done
  cluster_status_attempt node = do
    raw_cluster_status ← world_call (
        c.run_warned node.vm
          (record { text = "cfy cluster status --json"; use_sudo = false; warn_only = true }))
    check raw_cluster_status.0
    cluster_status ← given_reply (c.load_json raw_cluster_status.1)
    status ← given_reply (item "status" cluster_status)
    check (is_text "OK" status)

  unfoldable pub verify_cluster_status : ClusterNode → Act (Session W) Done
  verify_cluster_status node = c.session_retry.retry Done 60 2000 (cluster_status_attempt node)

  -- the package of `cfy_cluster_manager` that is installed, at a version
  abbrev rpm_of : String → Reply String
  rpm_of version =
      substitute_testing_version c.config.manager_install_rpm_path version c.config.distro

  -- what is copied to the node unless an installation is to be overridden
  unfoldable pub prepare_install : ClusterNode → String → Act (Session W) Done
  prepare_install node private_key_path = do
    put_on node remote_ssh_key_path private_key_path
    put_on node remote_license_path (c.get_resource_path "test_valid_paying_license.yaml")
    run_on node (
        sudo (
          concat
            ("rpm -qi cloudify-cluster-manager || sudo yum install -y " ∷ c.config.rpm_path ∷ [])))
    pass

  unfoldable pub install_cluster : ClusterNode → Dict Value → String → Bool → Act (Session W) Done
  install_cluster node config_dict private_key_path override = do
    log_line info "Installing cluster"
    on_node node
        (effect (λ v. c.tester.machine.put v remote_cluster_config_path (c.dump_yaml config_dict)))
    if override then pass else prepare_install node private_key_path
    run_on node (
        plain (
          concat (
            "cfy_cluster_manager install -v --config-path "
            ∷ remote_cluster_config_path
            ∷ " "
            ∷ (if override then "--override" else "")
            ∷ [])))
    log_line info "Verifying the cluster status"
    verify_cluster_status node

  unfoldable pub set_rpm_path : Dict Value → String → Act (Session W) (Dict Value)
  set_rpm_path cluster_config_dict base_version = do
    rpm ← given_reply (rpm_of base_version)
    pure (put "manager_rpm_path" (text rpm) cluster_config_dict)

  unfoldable pub assert_manager_install_version_on_nodes :
      List ClusterNode → String → Act (Session W) Done
  assert_manager_install_version_on_nodes [] version = pass
  assert_manager_install_version_on_nodes (node ∷ nodes) version = do
    installed ← on_node node (get_manager_install_version c.tester.machine)
    check (installed == version)
    assert_manager_install_version_on_nodes nodes version

  unfoldable pub upgrade_cluster : List ClusterNode → ClusterNode → Act (Session W) Done
  upgrade_cluster nodes_list manager = do
    log_line info "Upgrading cluster"
    rpm ← given_reply (rpm_of c.config.testing_version)
    run_on manager (
        plain (
          concat (
            "cfy_cluster_manager upgrade -v --config-path " ∷ remote_cluster_config_path
            ∷ " --upgrade-rpm " ∷ rpm ∷ [])))
    log_line info "Validating nodes upgraded"
    assert_manager_install_version_on_nodes nodes_list (before_dash c.config.testing_version)
    log_line info "Verifying the cluster status"
    verify_cluster_status manager

  unfoldable pub get_config_dict : ℕ → Option String → Act (Session W) (Dict Value)
  get_config_dict node_count vm_user = do
    config_dict ←
        world_call (
          c.load_yaml
            (concat (c.resources_path ∷ "/" ∷ str node_count ∷ "_nodes_config.yaml" ∷ [])))
    rpm ← given_reply (rpm_of c.config.testing_version)
    pure (
        update config_dict (
          ("ssh_key_path", text remote_ssh_key_path)
          ∷ ("ssh_user", optional vm_user)
          ∷ ("cloudify_license_path", text remote_license_path)
          ∷ ("manager_rpm_path", text rpm)
          ∷ []))
