-- ===== src/ClusterManager/Upgrade.antt =====
-- `_cluster_upgrade_test` of test_suites/cluster/cfy_cluster_manager_shared.py: a cluster that is
-- installed, given a deployment with an agent, and upgraded.
use cloudify_system_tests.Prelude.{
  length, String, false, Option, none, some, List, [], ◌∷◌, leb, ◌&&◌, ◌||◌, if◌then◌else◌,
}
use cloudify_system_tests.Text.{concat}
use cloudify_system_tests.Dict.{Dict}
use cloudify_system_tests.Value.{Value}
use cloudify_system_tests.Act.{Act, Done, Reply, other, pass, pure, raise, ◌>>=◌, ◌>>◌}
use cloudify_system_tests.Client.{Session}
use cloudify_system_tests.Host.{plain, sudo}
use cloudify_system_tests.Host.Services.{get_installed_configs}
use cloudify_system_tests.Snapshots.{upgrade_agents}
use cloudify_system_tests.ClusterManager.Config.{
  ClusterNode, update_three_nodes_config_dict_vms, update_nine_nodes_config_dict_vms,
}
use cloudify_system_tests.ClusterManager.{
  ClusterSite, third_last, on_node, on_manager, world_call, given_reply, user_of, begins, run_on,
  put_on, install_cluster, set_rpm_path, upgrade_cluster, get_config_dict,
}

module _ {W : Type 0} (c : ClusterSite W) where
  -- `{inputs}`, as a dict of texts is shown
  abbrev shown_inputs : ClusterNode → String → String
  shown_inputs manager user = concat (
      "{"
      ∷ c.repr "server_ip"
      ∷ ": "
      ∷ c.repr manager.ip_address
      ∷ ", "
      ∷ c.repr "path"
      ∷ ": "
      ∷ c.repr (concat ("/home/" ∷ user ∷ "/test_file" ∷ []))
      ∷ ", "
      ∷ c.repr "content"
      ∷ ": "
      ∷ c.repr "Test"
      ∷ ", "
      ∷ c.repr "agent_user"
      ∷ ": "
      ∷ c.repr user
      ∷ "}"
      ∷ [])

  unfoldable upload_example : ClusterNode → Act (Session W) Done
  upload_example manager = do
    run_on c manager (sudo "yum install -y unzip")
    put_on c manager "/tmp/test_plugin.zip" (c.get_resource_path "plugin/test_plugin-1.0.0.zip")
    run_on c manager (plain "mkdir -p /tmp/example_bp")
    put_on c manager "/tmp/example_bp/example.yaml"
        (c.get_resource_path "blueprints/compute/example.yaml")
    run_on c manager (plain "unzip /tmp/test_plugin.zip -d /tmp/test_plugin")
    run_on c manager
        (plain "cfy plugins upload /tmp/test_plugin/*.wgn -y /tmp/test_plugin/plugin.yaml")
    run_on c manager (plain "cfy blueprints upload /tmp/example_bp/example.yaml -b example")
    pass

  -- a manager's user, which is set once it has been deployed
  unfoldable install_deployment_with_agent : ClusterNode → String → Act (Session W) Done
  install_deployment_with_agent manager private_key_path = do
    upload_example manager
    ssh_key_string ← world_call (c.read_file private_key_path)
    run_on c manager
        (plain (concat ("cfy secrets create agent_key -s \"" ∷ ssh_key_string ∷ "\"" ∷ [])))
    run_on c manager (
        plain (
          concat (
            "cfy deployments create example -b example -i \""
            ∷ shown_inputs manager (user_of manager)
            ∷ "\""
            ∷ [])))
    run_on c manager (plain "cfy execution start install -d example")
    pass

  unfoldable on_each :
      List ClusterNode → (ClusterNode → Act (Session W) Done) → Act (Session W) Done
  on_each [] body = pass
  on_each (node ∷ nodes) body = body node >> on_each nodes body

  unfoldable write_systemd : ClusterNode → List String → Act (Session W) Done
  write_systemd node [] = pass
  write_systemd node (conf ∷ confs) = do
    run_on c node
        (plain (concat ("echo -e \\\\nservice_management: systemd | sudo tee -a " ∷ conf ∷ [])))
    write_systemd node confs

  unfoldable use_systemd : ClusterNode → Act (Session W) Done
  use_systemd node = do
    confs ← on_node node (get_installed_configs c.tester.machine)
    write_systemd node confs

  abbrev write_vms : List ClusterNode → Dict Value → Reply (Dict Value)
  write_vms nodes config_dict =
      if leb (length nodes) 9 && leb 9 (length nodes)
      then update_nine_nodes_config_dict_vms nodes config_dict
      else update_three_nodes_config_dict_vms nodes config_dict

  -- `l[i]`, where there may be nothing
  abbrev pub indexed : Option ClusterNode → Act (Session W) ClusterNode
  indexed none = raise (other 1)
  indexed (some n) = pure n

  abbrev head_of : List ClusterNode → Option ClusterNode
  head_of [] = none
  head_of (n ∷ ns) = some n

  unfoldable cluster_upgrade_test : String → List ClusterNode → String → Act (Session W) Done
  cluster_upgrade_test base_version nodes_list private_key_path = do
    manager ← indexed (third_last nodes_list)
    first_node ← indexed (head_of nodes_list)
    basic_dict ← get_config_dict c (length nodes_list) first_node.vm.username
    with_rpm ← set_rpm_path c basic_dict base_version
    config_dict ← given_reply (write_vms nodes_list with_rpm)
    on_each nodes_list (λ node. run_on c node (plain "sudo yum install -y logrotate") >> pass)
    install_cluster c manager config_dict private_key_path false
    if begins base_version "5.0" || begins base_version "5.1"
        then on_each nodes_list use_systemd
        else pass
    install_deployment_with_agent manager private_key_path
    upgrade_cluster c nodes_list manager
    on_manager manager (upgrade_agents c.tester)
