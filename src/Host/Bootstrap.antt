-- ===== src/Host/Bootstrap.antt =====
-- `VM.bootstrap`, and how its progress is read off the machine.
pub mod Progress
use cloudify_system_tests.Prelude.{
  ℕ, zero, suc, String, Bool, true, false, not, ◌&&◌, Option, none, some, List, [], ◌∷◌, ◌==◌,
  if◌then◌else◌,
}
use cloudify_system_tests.Text.{concat, join, stripped_is}
use cloudify_system_tests.Act.{
  Act, Done, runtime_error, out_of_fuel, pass, pure, raise, ◌>>=◌, ◌>>◌,
}
use cloudify_system_tests.Act.Retry.{Retrying}
use cloudify_system_tests.Host.{
  InstallConfig, Vm, Command, Machine, Host, plain, effect, run_command, only_manager, set_vm,
  get_vm, set_world,
}
use cloudify_system_tests.Host.Services.{config_path}
use cloudify_system_tests.Host.Manager.{
  set_client, get_rest_client, wait_for_manager, apply_license, apply_override,
}

abbrev pub probe : Command
probe =
    plain
      "if [[ -f /tmp/bootstrap_complete ]]; then  echo done; elif [[ -f /tmp/bootstrap_failed ]]; then   echo failed; else   echo not done; fi"

-- `' && '.join(commands)`, to run behind the caller's back and leave a file that tells the outcome
unfoldable install_commands : Option String → List String
install_commands none =
    "sudo mv /tmp/cloudify.conf /etc/cloudify/config.yaml > /tmp/bs_logs/0_mv 2>&1"
    ∷ "cfy_manager install > /tmp/bs_logs/3_install 2>&1" ∷ "touch /tmp/bootstrap_complete" ∷ []
install_commands (some config_name) =
    concat (
      "sudo mv /tmp/cloudify.conf "
      ∷ config_path (some config_name)
      ∷ " > /tmp/bs_logs/0_mv 2>&1"
      ∷ [])
    ∷ concat (
        "cfy_manager install -c "
        ∷ config_path (some config_name)
        ∷ " > /tmp/bs_logs/3_install 2>&1"
        ∷ [])
    ∷ "touch /tmp/bootstrap_complete"
    ∷ []

unfoldable pub install_script : Option String → String
unfolding install_commands join
install_script config_name =
    concat (
      "( " ∷ join " && " (install_commands config_name) ∷ ") || touch /tmp/bootstrap_failed &" ∷ [])

module _ {W : Type 0} (m : Machine W) (r : Retrying (Host W)) where
  -- one attempt of `wait_for_ssh`
  unfoldable pub ssh_attempt : Act (Host W) Done
  ssh_attempt = do
    vm ← get_vm
    if vm.enable_ssh_wait then (run_command m (plain "true") >> pass) else pass

  unfoldable pub wait_for_ssh : Act (Host W) Done
  wait_for_ssh = r.retry Done 100 3000 ssh_attempt

  -- the REST part of `finalize_preparation`
  unfoldable pub prepare_client : Act (Host W) Done
  prepare_client = do
    client ← get_rest_client m none none none "http" true
    set_client client
    wait_for_manager m r
    apply_license m

  unfoldable pub finalize_preparation : Act (Host W) Done
  finalize_preparation = do
    wait_for_ssh
    vm ← get_vm
    if not vm.windows then effect (λ v. m.put v "/etc/profile.d/umask.sh" "umask 027\n") else pass
    if vm.restservice_expected then prepare_client else pass

  -- what follows the probe, by what it printed
  unfoldable pub report_failure : Act (Host W) Bool
  report_failure = do
    run_command m (plain "cat /tmp/bs_logs/* || echo \"No bs logs\"")
    run_command m (
        plain
          "cat /var/log/cloudify/manager/cfy_manager.log || echo \"No /var/log/cloudify/manager/cfy_manager.log\"")
    raise runtime_error

  unfoldable pub act_on : String → Act (Host W) Bool
  act_on printed = if stripped_is printed "done" then (finalize_preparation >> pure true) else (do
    run_command m (plain "date > /tmp/cfy_mgr_last_check_time")
    if stripped_is printed "failed" then report_failure else (do
      run_command m (plain "tail -n5 /tmp/bs_logs/* || echo Waiting for logs")
      pure false))

  unfoldable pub bootstrap_is_complete : Act (Host W) Bool
  bootstrap_is_complete = only_manager do printed ← run_command m probe; act_on printed

  -- `while True`, on fuel
  unfoldable pub await_bootstrap : ℕ → Act (Host W) Done
  await_bootstrap zero = out_of_fuel
  await_bootstrap (suc fuel) = do
    complete ← bootstrap_is_complete
    let again = set_world (m.pause 5000000) >> await_bootstrap fuel
    if complete then pass else again

  -- `_create_config_file`: the license path is written even if it is empty
  unfoldable pub create_config_file : Bool → Act (Host W) String
  create_config_file upload_license = only_manager do
    let license_path = if upload_license then "/tmp/test_valid_paying_license.yaml" else ""
    set_vm (λ v. record v {
      install_config = record (v.install_config) { license_path = some license_path };
    })
    vm ← get_vm
    pure (m.dump vm.install_config)

  abbrev clear_sanity : Vm → Vm
  clear_sanity v = record v { install_config = record (v.install_config) { skip_sanity = false } }

  -- `premium` is the test configuration's entry, `license` the contents of the license file.
  unfoldable pub bootstrap :
      ℕ → Bool → String → Bool → Bool → Bool → Option String → Bool → Act (Host W) Done
  bootstrap fuel premium license upload_license blocking restservice_expected config_name
        include_sanity =
      only_manager do
        if include_sanity then set_vm clear_sanity else pass
        wait_for_ssh
        vm ← get_vm
        if vm.image_type == "master" then apply_override m "cloudify_manager_install" else pass
        set_vm (λ v. record v { restservice_expected = restservice_expected })
        install_config ← create_config_file (upload_license && premium)
        run_command m (plain "rm -f /tmp/bootstrap_complete")
        run_command m (plain "mkdir -p /tmp/bs_logs")
        effect (λ v. m.put v "/tmp/cloudify.conf" install_config)
        if upload_license
            then effect (λ v. m.put v "/tmp/test_valid_paying_license.yaml" license)
            else pass
        effect (λ v. m.put v "/tmp/bootstrap_script" (install_script config_name))
        run_command m (plain "nohup bash /tmp/bootstrap_script &>/dev/null &")
        if blocking then await_bootstrap fuel else pass
