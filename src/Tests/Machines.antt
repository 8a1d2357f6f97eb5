-- ===== src/Tests/Machines.antt =====
-- A machine that answers every command from a script.
use cloudify_system_tests.Prelude.{
  ◌∷◌, ℕ, ◌+◌, ◌≡◌, refl, String, true, false, ◌==◌, if◌then◌else◌, some, none, [], ◌++◌,
}
use cloudify_system_tests.Act.{◌>>=◌, value, ok}
use cloudify_system_tests.Text.{stripped_is}
use cloudify_system_tests.Act.Retry.{Retrying}
use cloudify_system_tests.Host.{
  only_manager, run_command, InstallConfig, Vm, Command, Machine, Host,
}
use cloudify_system_tests.Host.Bootstrap.{
  act_on, finalize_preparation, wait_for_ssh, ssh_attempt, probe, bootstrap_is_complete,
  await_bootstrap,
}
use cloudify_system_tests.Host.Bootstrap.Progress.{IsBootstrapped, await_bootstrap-IsBootstrapped}
use cloudify_system_tests.Tests.Attempts.{retry, retrying_with}
use cloudify_system_tests.Host.Manager.{
  wait_for_all_executions, executions_attempt, check_terminated, wait_for_manager, manager_attempt,
}
use cloudify_system_tests.Host.Manager.Waits.{AreDone, wait_for_all_executions-AreDone}
use cloudify_system_tests.Host.Services.{list_configs, list_configured, teardown}
use cloudify_system_tests.Host.Services.Laws.{action_commands, cert_commands, teardown_sends}

abbrev pub install_config : InstallConfig
install_config = record {
  skip_sanity = true;
  admin_password = "secret";
  license_path = none;
  public_ip = "10.0.0.1";
  private_ip = "10.0.0.2";
  hostname = "manager";
}

abbrev pub vm : Vm
vm = record {
  server_id = "server_1";
  client = none;
  image_type = "master";
  image_name = some "centos";
  username = some "centos";
  windows = false;
  bootstrappable = false;
  is_manager = true;
  enable_ssh_wait = true;
  should_finalize = true;
  restservice_expected = false;
  reboot_required = false;
  api_ca_path = some "/tmp/ca.pem";
  install_config = install_config;
  basic_install_config = install_config;
}

-- The world is the number of seconds that have passed; the install takes three.
abbrev answers : String → String
answers c =
    if c == list_configs.text
    then "/etc/cloudify/a_config.yaml\n/etc/cloudify/b_config.yaml\n"
    else if c == list_configured.text
    then "database manager"
    else if c == probe.text
    then "done\n"
    else ""

abbrev machine : Machine ℕ
machine = record {
  run = λ v c w. (value (answers c.text), w);
  put = λ v p c w. (value tt, w);
  exists = λ p w. true;
  unlink = λ p w. w;
  pause = λ t w. w + t;
  dump = λ c. "manager: {}";
  tmpdir = "/tmp/t";
  tmpdir_base = "/tmp";
  override_path = λ n. "";
  default_username = "admin";
  default_tenant = "default_tenant";
  make_tar = λ d t w. (value tt, w);
  put_file = λ v a b w. (value tt, w);
  remote_tmp = λ p. "/tmp/0a1b";
  get_file = λ v a b w. (value tt, w);
  status_page = λ v w. (value "SSL_REQUIRED", w);
  close_session = λ c w. w;
  get_status = λ c w. (value "OK", w);
  list_statuses = λ c i w. (value ("terminated" ∷ []), w);
  upload_license = λ c w. (value tt, w);
  show_error = λ e. "error";
}

retrying : Retrying (Host ℕ)
retrying = retrying_with (λ ms h. record h { world = h.world + ms })

abbrev host : Host ℕ
host = record { vm = vm; sent = []; world = 0 }

obeys : (v : Vm) (c : Command) (w : ℕ) → (machine.run v c w).0 ≡ value (answers c.text)
obeys v c w = refl

teardown_sends_example :
    ((teardown machine true host).0 ≡ ok tt)
    × ((teardown machine true host).1.sent
        ≡ []
          ++ (action_commands machine answers obeys "remove"
              ++ (cert_commands machine answers obeys true ++ [])))
teardown_sends_example = teardown_sends machine answers obeys true host refl

probed_done : (bootstrap_is_complete machine retrying host).0 ≡ ok true
unfolding retrying_with retry bootstrap_is_complete only_manager run_command act_on stripped_is
    finalize_preparation wait_for_ssh retrying ssh_attempt ◌>>=◌
probed_done = refl

awaited :
    await_bootstrap machine retrying 2 host ≡ (ok tt, (await_bootstrap machine retrying 2 host).1)
unfolding retrying_with retry await_bootstrap bootstrap_is_complete only_manager run_command act_on
    stripped_is finalize_preparation wait_for_ssh retrying ssh_attempt ◌>>=◌
awaited = refl

await_bootstrap-IsBootstrapped_example :
    IsBootstrapped machine retrying (await_bootstrap machine retrying 2 host).1
await_bootstrap-IsBootstrapped_example =
    await_bootstrap-IsBootstrapped machine retrying 2 host
      (await_bootstrap machine retrying 2 host).1 awaited

executions_waited :
    wait_for_all_executions machine retrying true host
    ≡ (ok tt, (wait_for_all_executions machine retrying true host).1)
unfolding retrying_with wait_for_all_executions executions_attempt check_terminated only_manager
    retrying retry ◌>>=◌
executions_waited = refl

wait_for_all_executions-AreDone_example :
    AreDone machine true (wait_for_all_executions machine retrying true host).1.world
wait_for_all_executions-AreDone_example =
    wait_for_all_executions-AreDone machine retrying true host
      (wait_for_all_executions machine retrying true host).1 executions_waited

manager_waited :
    wait_for_manager machine retrying host ≡ (ok tt, (wait_for_manager machine retrying host).1)
unfolding retrying_with wait_for_manager manager_attempt run_command only_manager retrying retry
    ◌>>=◌
manager_waited = refl

takes : (v : Vm) (path contents : String) (w : ℕ) → (machine.put v path contents w).0 ≡ value tt
takes v path contents w = refl
