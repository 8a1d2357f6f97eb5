-- ===== src/Snapshots.antt =====
-- test_suites/snapshots/__init__.py: making a snapshot of one manager and restoring it on another.
pub mod State
pub mod Services
pub mod Copy
pub mod Restore
use cloudify_system_tests.Prelude.{
  or_else, ℕ, String, Bool, true, false, Option, none, some, List, [], ◌∷◌, ◌==◌, ◌*◌,
  if◌then◌else◌,
}
use cloudify_system_tests.Text.{concat}
use cloudify_system_tests.Act.{
  Act, Done, Reply, assertion_error, other, pass, pure, raise, gets, ◌>>=◌, ◌>>◌,
}
use cloudify_system_tests.Act.Retry.{Retrying}
use cloudify_system_tests.Act.RetryIf.{RetryingIf}
use cloudify_system_tests.Client.{Api, Session, Headers, info, error, request, log_line}
use cloudify_system_tests.Host.{Command, RestClient, Machine, plain, sudo, run_command, get_vm}
use cloudify_system_tests.Host.Manager.{get_rest_client}
use cloudify_system_tests.Managed.{
  Managed, in_session, on_host, sleep_for, change_rest_client_password,
}
use cloudify_system_tests.Resources.{
  Resources, Snapshot, Service, Instance, ManagerStatus, check, assert_snapshot_created,
}

-- What the helpers are given: the client library, the machines, and the `retrying` package.
pub record Tester (W : Type 0) : Type 1 where
  pub api : Api W
  pub res : Resources W
  pub machine : Machine W
  pub headers_of : RestClient → Headers
  pub premium : Bool
  pub not_running : String
  -- `json.dumps(snapshot, indent=2)`
  pub show_snapshot : Snapshot → String
  pub session_retry : Retrying (Session W)
  pub retry : Retrying (Managed W)
  pub retry_if : RetryingIf (Managed W)

-- `SNAPSHOT_ID`
abbrev pub test_snapshot_id : String
test_snapshot_id = "testsnapshot"

-- the command that tells the command line of the manager its password
abbrev pub profile_command : String → Command
profile_command admin_password = plain (
    concat (
      "cfy profiles set --manager-password " ∷ admin_password ∷ " --skip-credentials-validation"
      ∷ []))

module _ {W : Type 0} where
  abbrev pub say : String → Act (Managed W) Done
  say m = in_session (log_line info m)

  -- `_log`
  abbrev log_for : String → String → Act (Managed W) Done
  log_for message tenant =
      say (if tenant == "" then message else concat (message ∷ " for " ∷ tenant ∷ []))

module _ {W : Type 0} (t : Tester W) where
  unfoldable pub upgrade_agents : Act (Managed W) Done
  upgrade_agents = do
    say "Upgrading agents"
    on_host (
        run_command t.machine
          (plain (if t.premium then "cfy agents install --all-tenants" else "cfy agents install")))
    pass

  unfoldable pub create_snapshot : String → Act (Managed W) Done
  create_snapshot snapshot_id = do
    vm ← on_host get_vm
    say (concat ("Creating snapshot on manager " ∷ or_else vm.image_name "None" ∷ []))
    in_session (request (λ h. t.res.create_snapshot h snapshot_id true true true))
    in_session (assert_snapshot_created t.api t.res t.session_retry snapshot_id)

  unfoldable pub download_snapshot : String → String → Act (Managed W) Done
  download_snapshot local_path snapshot_id = do
    say "Downloading snapshot from old manager.."
    in_session (request t.res.list_snapshots)
    in_session (request (λ h. t.res.download_snapshot h snapshot_id local_path))

  unfoldable pub upload_snapshot : String → String → Act (Managed W) Done
  upload_snapshot local_path snapshot_id = do
    say "Uploading snapshot to latest manager.."
    snapshot ← in_session (request (λ h. t.res.upload_snapshot h local_path snapshot_id))
    say (concat ("Uploaded snapshot:\n" ∷ t.show_snapshot snapshot ∷ []))

  unfoldable pub create_user : String → String → Act (Managed W) Done
  create_user username password =
      in_session (request (λ h. t.res.create_user h username password "sys_admin"))

  unfoldable prepare_credentials_tests : Act (Managed W) Done
  prepare_credentials_tests = do say "Creating test user"; create_user "testuser" "testpass"

  -- a client of its own, under whose headers the request goes out
  unfoldable test_user : String → String → Act (Managed W) Done
  test_user username password = do
    say (concat ("Checking " ∷ username ∷ " can log in." ∷ []))
    client ← on_host (get_rest_client t.machine (some username) (some password) none "auto" true)
    in_session (request (λ h. t.res.manager_status (t.headers_of client)))
    pass

  unfoldable check_credentials : Act (Managed W) Done
  check_credentials = do say "Checking test user still works"; test_user "testuser" "testpass"

  unfoldable pub update_credentials : String → Act (Managed W) Done
  update_credentials admin_password = do
    say "Changing to modified admin credentials"
    change_rest_client_password t.machine t.headers_of admin_password
    say "Updating manager CLI credentials"
    on_host (run_command t.machine (profile_command admin_password))
    pass

  abbrev deployments_path : String → String
  deployments_path tenant = concat ("/opt/manager/resources/deployments/" ∷ tenant ∷ [])

  abbrev pub list_path : String → String
  list_path tenant = concat ("ls -la " ∷ deployments_path tenant ∷ [])

  abbrev test_path : String → String → String
  test_path tenant deployment =
      concat ("test -d " ∷ deployments_path tenant ∷ "/" ∷ deployment ∷ [])

  -- the inner loop of `check_deployments`
  unfoldable check_environments : String → List String → Act (Managed W) Done
  check_environments tenant [] = pass
  check_environments tenant (deployment ∷ deployments) = do
    say (concat ("Checking deployment env for " ∷ deployment ∷ " was recreated." ∷ []))
    log_for "Listing deployments path" tenant
    on_host (run_command t.machine (sudo (list_path tenant)))
    log_for (concat ("Checking deployment path for " ∷ deployment ∷ [])) tenant
    on_host (run_command t.machine (sudo (test_path tenant deployment)))
    say "Deployment environment was recreated."
    check_environments tenant deployments

  -- `expected_state` by its tenants and their deployments
  unfoldable check_deployments : List (String × List String) → Act (Managed W) Done
  check_deployments [] = pass
  check_deployments ((tenant, deployments) ∷ rest) = do
    log_for "Checking deployments" tenant
    check_environments tenant deployments
    log_for "Found correct deployments" tenant
    check_deployments rest

  -- the journal of the first instance is shown, and an exception raised: the others are not looked at
  unfoldable pub check_instances : List Instance → Act (Managed W) Done
  check_instances [] = pass
  check_instances (instance_shown ∷ rest) = do
    logs ← on_host (
        run_command t.machine
          (sudo (concat ("journalctl -u " ∷ instance_shown.id ∷ " -n 20 --no-pager" ∷ []))))
    say "Journald logs of the failing service:"
    say logs
    raise (other 2)

  unfoldable pub check_services : List Service → Act (Managed W) Done
  check_services [] = pass
  check_services (service ∷ rest) =
      (if service.status == "Active" then pass else check_instances service.instances)
      >> check_services rest

  -- one attempt of `verify_services_status`
  unfoldable pub services_attempt : Act (Managed W) Done
  services_attempt = do
    say "Verifying services status..."
    manager_status ← in_session (request t.res.manager_status)
    if manager_status.status == "OK" then pass else check_services manager_status.services

  unfoldable verify_services_status : Act (Managed W) Done
  verify_services_status = t.retry.retry Done 10 1500 services_attempt

  -- one attempt of `wait_for_restore`; the log has the status in place of the answer that holds it
  unfoldable pub restore_status_attempt : Act (Managed W) Done
  restore_status_attempt = do
    restore_status ← in_session (request t.res.snapshot_status)
    say (
        concat
          ("Current snapshot status: " ∷ restore_status ∷ ", waiting for " ∷ t.not_running ∷ []))
    check (t.not_running == restore_status)

  unfoldable pub wait_for_restore : Act (Managed W) Done
  wait_for_restore = t.retry.retry Done 36 5000 restore_status_attempt
