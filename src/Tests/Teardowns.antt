-- ===== src/Tests/Teardowns.antt =====
-- Test machines that are created and torn down on the scripted manager.
use cloudify_system_tests.Prelude.{
  ◌≡◌, ◌≢◌, ◌⊎◌, refl, sym, ◌∙◌, String, true, false, none, some, List, [], ◌∷◌, ◌==◌,
}
use cloudify_system_tests.Dict.{get, put}
use cloudify_system_tests.Text.{ends_stripped, join, str, str_from, digit}
use cloudify_system_tests.Act.{Act, Done, value, ok, err, runtime_error, ◌>>=◌}
use cloudify_system_tests.Act.Invert.{with_result}
use cloudify_system_tests.Act.Retry.{Retrying}
use cloudify_system_tests.Client.{Api, Session, Execution}
use cloudify_system_tests.Client.Tenant.{set_client_tenant}
use cloudify_system_tests.Execution.{
  run_blocking_execution, output_event, show_events, output_events, finish, settle, respond,
  poll_events, poll, wait_loop, wait_for_execution,
}
use cloudify_system_tests.Deployment.{
  delete_deployment, deletion_rounds, deletion_round, still_waiting, check_deleted,
}
use cloudify_system_tests.Hosts.{Infrastructure, Teardown, Hosts}
use cloudify_system_tests.Hosts.Destroy.{
  difference, stop_executions, await_cancelled, check_cancelled, refuse_failures, ensure_stopped,
  start_undeploy, await_uninstalls, delete_vms, finish_undeploy, remove_infrastructure,
  delete_blueprints, delete_plugins, delete_uploads, delete_tenant, destroy_resources,
  destroy_tenant, destroy,
}
use cloudify_system_tests.Hosts.Destroy.Frame.{StillHas}
use cloudify_system_tests.Hosts.Destroy.Failed.{destroy-StillHas, SameOrDefault}
use cloudify_system_tests.Hosts.Destroy.Laws.{TornDown, destroy-TornDown}
use cloudify_system_tests.Hosts.Setup.{
  HostsConfig, SetupSite, create_secrets, upload_secrets, check_plugins,
}
use cloudify_system_tests.Hosts.Deploy.{VmSite}
use cloudify_system_tests.Hosts.Create.{Licensing, open_tenant, create_resources, tear_down, create}
use cloudify_system_tests.Hosts.Create.Laws.{HasNoTenant, TeardownRaised, create-HasNoTenant}
use cloudify_system_tests.Tests.Attempts.{retrying_with}
use cloudify_system_tests.Tests.Manager.{World, start, of_status}
use cloudify_system_tests.Tests.Restores.{guarded, machine}

abbrev environment : Execution
environment = record {
  id = "e0";
  workflow_id = "create_deployment_environment";
  status = "terminated";
  error = none;
}

abbrev infra : Infrastructure World
infra = record {
  list_executions = λ h w. (value (environment ∷ of_status "started" ∷ []), w);
  kill = λ h x w. (value tt, w);
  delete_blueprint = λ h b w. (value tt, w);
  list_plugins = λ h w. (
    value (
        record { id = "p1"; package_name = "cloudify-aws-plugin"; tenant_name = "default_tenant" }
        ∷ []),
    w,
  );
  delete_plugin = λ h p w. (value tt, w);
  delete_tenant = λ h t w. (value tt, w);
  testspassed = λ w. none;
  in_set_order = λ ts. ts;
}

abbrev always : Teardown
always = record { on_success = true; on_failure = true }

abbrev hosts_with : List String → Hosts World
hosts_with statuses = record {
  session = start statuses [];
  tenant = some "test_1";
  test_identifier = some "test_1";
  deployments = "infrastructure" ∷ "vm_a_0" ∷ [];
  blueprints = "infrastructure" ∷ "test_vm" ∷ [];
  test_vm_installs = [];
  test_vm_uninstalls = [];
  platform_resource_ids = [];
  network_mappings = [];
  instances = [];
}

-- the execution that runs is cancelled, and both uninstalls end well
abbrev hosts : Hosts World
hosts = hosts_with ("cancelled" ∷ "terminated" ∷ "terminated" ∷ [])

torn_down : (destroy guarded infra always 9 none hosts).0 ≡ ok tt
unfolding destroy destroy_tenant destroy_resources ensure_stopped stop_executions check_cancelled
    await_cancelled difference refuse_failures start_undeploy finish_undeploy await_uninstalls
    delete_vms remove_infrastructure delete_uploads delete_blueprints delete_plugins delete_tenant
    run_blocking_execution wait_for_execution wait_loop poll poll_events respond settle finish
    output_events show_events output_event ends_stripped set_client_tenant delete_deployment
    deletion_rounds deletion_round still_waiting check_deleted ◌>>=◌ get put
torn_down = refl

destroy-TornDown_example :
    TornDown guarded infra hosts.session.headers "test_1"
      ("infrastructure" ∷ "vm_a_0" ∷ [])
      (destroy guarded infra always 9 none hosts).1
destroy-TornDown_example =
    destroy-TornDown guarded infra always 9 none "test_1" hosts
      (destroy guarded infra always 9 none hosts).1 refl refl refl (with_result _ (ok tt) torn_down)

-- an execution that goes on whatever it is told
abbrev stuck_hosts : Hosts World
stuck_hosts = hosts_with []

not_torn_down : (destroy guarded infra always 9 none stuck_hosts).0 ≡ err runtime_error
unfolding destroy destroy_tenant destroy_resources ensure_stopped stop_executions check_cancelled
    await_cancelled difference refuse_failures join ◌>>=◌
not_torn_down = refl

failed : (destroy guarded infra always 9 none stuck_hosts).0 ≢ ok tt
failed e = cc (sym not_torn_down ∙ e)

destroy-StillHas_example :
    StillHas stuck_hosts (destroy guarded infra always 9 none stuck_hosts).1
    × SameOrDefault guarded infra stuck_hosts (destroy guarded infra always 9 none stuck_hosts).1
destroy-StillHas_example = destroy-StillHas guarded infra always 9 none stuck_hosts failed

-- an infrastructure manager that lacks the plugin
abbrev site : SetupSite World
site = record {
  create_secret = λ h n v w. (value tt, w);
  public_key = λ w. (value "ssh-rsa", w);
  all_plugins = λ h w. (value [], w);
  matches = λ p v. p == v;
  get_resource_path = λ p. p;
  upload_blueprint = λ h p b l w. (value tt, w);
  dump_inputs = λ p i w. (value tt, w);
  as_inputs = λ i. [];
  resource_config = λ h d n k w. (value "10.0.0.0/24", w);
  network = λ t. value t;
  runtime_text = λ n k. value "10.0.0.1";
}

abbrev config : HostsConfig
config = record {
  target_platform = "aws";
  platform = [];
  secrets_mapping = [];
  infrastructure_inputs_mapping = [];
  plugin_package_name = "cloudify-aws-plugin";
  plugin_version = "3.0";
  multi_net = false;
  ipv6_net = false;
  infra_mgr_version = 7;
  tmpdir = "/tmp/t";
}

abbrev vms : VmSite World
vms = record {
  server_flavor = "m5.large";
  floating_network_id = "net";
  manager_image_owner = "self";
  ami_image_owner = "aws";
  use_owners_for = [];
  vm_net_mappings = λ i. none;
  workplace = record {
    tmpdir = "/tmp/t";
    private_key_path = "/tmp/t/key";
    password = λ v. "secret!";
    makedirs = λ p w. (value tt, w);
    forget_host = λ ip w. w;
    write_script = λ p t w. (value tt, w);
    make_executable = λ p w. (value tt, w);
  };
  machine = machine;
  host_retry = retrying_with (λ ms h. h);
  zone = λ n. value "eu-west-1a";
  ipv4_addresses = λ n. value [];
  in_network = λ ip n. false;
}

abbrev licensing : Licensing
licensing = record { premium = true; license = "license"; show_error = λ e. "error" }

abbrev patient : Retrying (Session World)
patient = retrying_with (λ ms s. s)

-- the tenant can be created, but nothing more
abbrev open_handed : Api World
open_handed = record guarded { create_tenant = λ h t w. (value tt, w) }

abbrev new_hosts : Hosts World
new_hosts = record hosts {
  tenant = none;
  test_identifier = none;
  deployments = [];
  blueprints = [];
  session = start ("cancelled" ∷ "terminated" ∷ []) [];
}

abbrev creation : Act (Hosts World) Done
creation = create open_handed site config vms patient licensing infra always 9 false "test_2"

not_created : (creation new_hosts).0 ≡ err runtime_error
unfolding create create_resources open_tenant upload_secrets create_secrets check_plugins tear_down
    destroy destroy_tenant destroy_resources ensure_stopped stop_executions check_cancelled
    await_cancelled difference refuse_failures start_undeploy finish_undeploy await_uninstalls
    delete_vms remove_infrastructure delete_uploads delete_blueprints delete_plugins delete_tenant
    run_blocking_execution wait_for_execution wait_loop poll poll_events respond settle finish
    output_events show_events output_event ends_stripped set_client_tenant delete_deployment
    deletion_rounds deletion_round still_waiting check_deleted str str_from digit ◌>>=◌ get put
not_created = refl

create-HasNoTenant_example :
    (((u : Hosts World) × ((create_resources open_handed site config vms patient licensing 9 false
            "test_2" u).0
          ≡ err runtime_error))
      × HasNoTenant (creation new_hosts).1)
    ⊎ TeardownRaised open_handed site config vms patient licensing infra always refl refl
        runtime_error
        (creation new_hosts).1
create-HasNoTenant_example =
    create-HasNoTenant open_handed site config vms patient licensing infra always refl refl 9 false
      "test_2" runtime_error new_hosts (creation new_hosts).1 refl
      (with_result _ (err runtime_error) not_created)
