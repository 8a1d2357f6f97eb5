-- ===== src/Tests/Upgrades.antt =====
-- Clusters that are configured and upgraded, and logs that are compared, at concrete inputs.
use cloudify_system_tests.Prelude.{
  ◌≡◌, refl, String, true, some, List, [], ◌∷◌, arith, All, ◌==◌, if◌then◌else◌,
}
use cloudify_system_tests.Text.{split_first, str, str_from, digit, replace_from}
use cloudify_system_tests.Dict.{Dict, get, put, update}
use cloudify_system_tests.Value.{Value, text, table, field, end, entries, mapping}
use cloudify_system_tests.Act.{value, ok, ◌>>=◌}
use cloudify_system_tests.Act.Invert.{with_result}
use cloudify_system_tests.Client.{Session}
use cloudify_system_tests.Host.{run_command}
use cloudify_system_tests.Managed.Agents.{get_manager_install_version}
use cloudify_system_tests.Packages.{substitute_testing_version}
use cloudify_system_tests.Packages.Format.{format, format_from}
use cloudify_system_tests.ClusterManager.{
  ClusterSite, cluster_status_attempt, verify_cluster_status, before_dash,
  assert_manager_install_version_on_nodes, upgrade_cluster,
}
use cloudify_system_tests.ClusterManager.Config.{
  ClusterNode, item, update_entry, update_vms, update_vm, update_from, nine_node_name,
  update_nine_nodes_config_dict_vms,
}
use cloudify_system_tests.ClusterManager.Config.Laws.{
  AllAt, update_nine_nodes_config_dict_vms-AllAt,
}
use cloudify_system_tests.ClusterManager.Laws.{
  ShowsVersion, SeenHealthy, upgrade_cluster-IsUpgraded,
}
use cloudify_system_tests.Logs.{LogSite}
use cloudify_system_tests.Tests.Attempts.{retry, retrying_with}
use cloudify_system_tests.Tests.Machines.{vm}
use cloudify_system_tests.Tests.Manager.{World, start}
use cloudify_system_tests.Tests.Restores.{tester, machine}

abbrev first_node : ClusterNode
first_node = record { vm = vm; ip_address = "192.0.2.1"; private_ip_address = "10.0.0.1" }

abbrev second_node : ClusterNode
second_node = record { vm = vm; ip_address = "192.0.2.2"; private_ip_address = "10.0.0.2" }

abbrev nodes : List ClusterNode
nodes = first_node ∷ second_node ∷ []

abbrev blank_config : Dict Value
blank_config =
    ("existing_vms", table (field "rabbitmq-1" (table end) (field "rabbitmq-2" (table end) end)))
    ∷ []

abbrev at_addresses : String → String → Value
at_addresses private_ip public_ip =
    table (field "private_ip" (text private_ip) (field "public_ip" (text public_ip) end))

abbrev filled_config : Dict Value
filled_config =
    (
      "existing_vms",
      table (
          field "rabbitmq-1" (at_addresses "10.0.0.1" "192.0.2.1")
            (field "rabbitmq-2" (at_addresses "10.0.0.2" "192.0.2.2") end)),
    )
    ∷ []

filled : update_nine_nodes_config_dict_vms nodes blank_config ≡ value filled_config
unfolding update_from update_vm update_vms update_entry get put update entries mapping str str_from
    digit
filled = refl

update_nine_nodes_config_dict_vms-AllAt_example : AllAt nine_node_name 0 nodes filled_config
update_nine_nodes_config_dict_vms-AllAt_example =
    update_nine_nodes_config_dict_vms-AllAt nodes blank_config filled_config (omega arith) filled

-- Each command prints a version, and the cluster is well.
abbrev cluster_site : ClusterSite World
cluster_site = record {
  tester = record tester { machine = record machine { run = λ v c w. (value "6.4.0", w) } };
  session_retry = retrying_with (λ ms s. s);
  config = record {
    manager_install_rpm_path = "manager-{testing_version}.rpm";
    testing_version = "6.4.0-ga";
    distro = "centos-7";
    rpm_path = "cluster-manager.rpm";
  };
  load_yaml = λ p w. (value blank_config, w);
  dump_yaml = λ d. "existing_vms: {}";
  load_json = λ t. value (table (field "status" (text "OK") end));
  run_warned = λ v c w. (value (true, "{}"), w);
  read_file = λ p w. (value "key", w);
  get_resource_path = λ p. p;
  resources_path = "/resources";
  repr = λ t. t;
}

abbrev session : Session World
session = start [] []

upgraded : (upgrade_cluster cluster_site nodes first_node session).0 ≡ ok tt
unfolding upgrade_cluster assert_manager_install_version_on_nodes verify_cluster_status
    cluster_status_attempt get_manager_install_version run_command item entries get retrying_with
    retry substitute_testing_version format format_from split_first replace_from ◌>>=◌
upgraded = refl

upgrade_cluster-IsUpgraded_example :
    All (ShowsVersion cluster_site (before_dash "6.4.0-ga")) nodes
    × SeenHealthy cluster_site first_node
upgrade_cluster-IsUpgraded_example =
    upgrade_cluster-IsUpgraded cluster_site nodes first_node session
      (upgrade_cluster cluster_site nodes first_node session).1 (with_result _ (ok tt) upgraded)

-- The listings have the same files, in two orders.
abbrev log_site : LogSite World
log_site = record {
  machine = record machine {
    run = λ v c w.
        if c.text == "find /tmp/logs -type f"
        then (value "/tmp/logs/rest/b.log\n/tmp/logs/a.log\n", w)
        else (value " started\n", w);
  };
  create_bundle = λ h d w. (value tt, w);
  get_bundle = λ h d w. (value (some "created"), w);
  download_bundle = λ h d p w. (value tt, w);
  extract = λ a b w. (value tt, w);
  find_files = λ p w. (value "/t/extracted/10.0.0.1/a.log\n/t/extracted/10.0.0.1/rest/b.log\n", w);
  read_text = λ p w. (value "all retrieved", w);
  read_bytes = λ p w. (value (115 ∷ 116 ∷ []), w);
  decode = λ b. value "started";
  lower = λ t. t;
  time_text = λ w. (value "1700000000", w);
}
