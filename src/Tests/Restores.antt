-- ===== src/Tests/Restores.antt =====
-- Snapshots that are made, copied and restored on the scripted manager.
use cloudify_system_tests.Text.{occurs, ends_stripped}
use cloudify_system_tests.Execution.{
  output_event, show_events, output_events, finish, settle, respond, poll_events, poll, wait_loop,
  wait_for_execution,
}
use cloudify_system_tests.Host.Manager.{choose_protocol, get_rest_client}
use cloudify_system_tests.Snapshots.Services.{services_attempt-IsPassing, IsPassing}
use cloudify_system_tests.Snapshots.Copy.Laws.{Copied, create_copy_and_restore_snapshot-Copied}
use cloudify_system_tests.Snapshots.State.Order.{get_manager_state-Agrees}
use cloudify_system_tests.Snapshots.Restore.Outcome.{restore_snapshot-Restored, Restored}
use cloudify_system_tests.Snapshots.Restore.{
  report_failed, restore_snapshot, renew_credentials, react, attempt_wait, restore_rounds,
  await_restore, restore_attempt, RestoreOptions,
}
use cloudify_system_tests.Snapshots.Copy.{restore_defaults, Pair, create_copy_and_restore_snapshot}
use cloudify_system_tests.Snapshots.Restore.Bounds.{await_restore-OnceAtMost, OnceAtMost}
use cloudify_system_tests.Sorting.{swapped, none_left, sorted}
use cloudify_system_tests.Act.Invert.{with_result}
use cloudify_system_tests.Snapshots.State.{
  is_clean, is_default_only, sorted_listing, listing_of, state_of_tenant, states_of_tenants,
  get_manager_state, confirm_manager_empty,
}
use cloudify_system_tests.Prelude.{
  ◌↔◌, ◌≡◌, refl, String, true, none, List, [], ◌∷◌, ◌==◌, if◌then◌else◌,
}
use cloudify_system_tests.Dict.{get, put}
use cloudify_system_tests.Act.{Done, Act, Reply, value, fault, ok, unauthorized, ◌>>=◌}
use cloudify_system_tests.Client.{Api, Execution}
use cloudify_system_tests.Client.Tenant.{cloudify_tenant_header, set_client_tenant}
use cloudify_system_tests.Host.{run_command, only_manager, Machine}
use cloudify_system_tests.Managed.{change_rest_client_password, Managed}
use cloudify_system_tests.Resources.{
  log_snapshots, list_snapshots, ManagerStatus, states_of, created_attempt, assert_snapshot_created,
  Resources, Snapshot,
}
use cloudify_system_tests.Snapshots.{
  update_credentials, restore_status_attempt, wait_for_restore, upload_snapshot, download_snapshot,
  create_snapshot, profile_command, services_attempt, Tester,
}
use cloudify_system_tests.Tests.Attempts.{retry, retrying_with, retry_if, retrying_if_with}
use cloudify_system_tests.Tests.Machines.{vm}
use cloudify_system_tests.Tests.Manager.{World, manager, start, of_status}

-- The status of an execution is asked for, and once the credentials are refused.
abbrev next_answer : List String → World → Reply Execution × World
next_answer [] w = (value (of_status "started"), w)
next_answer (s ∷ ss) w =
    if s == "denied"
    then (fault (unauthorized "denied"), record w { statuses = ss })
    else (value (of_status s), record w { statuses = ss })

abbrev pub guarded : Api World
guarded = record manager {
  get_execution = λ h x w. next_answer w.statuses w;
  list_deployments = λ h w. (value [], w);
}

abbrev made : String → Snapshot
made status = record { id = "testsnapshot"; status = status; error = none }

abbrev pub resources : Resources World
resources = record {
  list_snapshots = λ h w. (value (made "failed" ∷ made "created" ∷ []), w);
  create_snapshot = λ h n c l e w. (value tt, w);
  download_snapshot = λ h n p w. (value tt, w);
  upload_snapshot = λ h p n w. (value (made "uploaded"), w);
  restore_snapshot = λ h n c f w. (value (of_status "pending"), w);
  snapshot_status = λ h w. (value "not_running", w);
  list_all = λ h w. (value [], w);
  status_display = λ e. e.status;
  executions_by_id = λ h i w. (value (of_status "pending" ∷ []), w);
  executions_of = λ h x d w. (value [], w);
  cancel = λ h x w. (value tt, w);
  deployments_of = λ h b w. (value ("d1" ∷ []), w);
  capabilities = λ h d w. (value [], w);
  list_tenants = λ h w. (value ("default_tenant" ∷ []), w);
  list_plugins = λ h w. (value [], w);
  list_blueprints = λ h w. (value [], w);
  list_secrets = λ h w. (value [], w);
  create_user = λ h u p r w. (value tt, w);
  manager_status = λ h w. (value (record { status = "Fail"; services = [] }), w);
  healthy = "OK";
  degraded = "Degraded";
  fail = "Fail";
  active = "Active";
  inactive = "Inactive";
  cluster_services = λ h w. (value [], w);
}

abbrev pub machine : Machine World
machine = record {
  run = λ v c w. (value "", w);
  put = λ v p c w. (value tt, w);
  exists = λ p w. true;
  unlink = λ p w. w;
  pause = manager.sleep;
  dump = λ c. "manager: {}";
  tmpdir = "/tmp/t";
  tmpdir_base = "/tmp";
  override_path = λ n. "";
  default_username = "admin";
  default_tenant = "default_tenant";
  make_tar = λ d t w. (value tt, w);
  put_file = λ v a b w. (value tt, w);
  remote_tmp = λ p. "/tmp/0a1b";
  get_file = λ v a b w. (value tt, w);
  status_page = λ v w. (value "", w);
  close_session = λ c w. w;
  get_status = λ c w. (value "OK", w);
  list_statuses = λ c i w. (value ("terminated" ∷ []), w);
  upload_license = λ c w. (value tt, w);
  show_error = λ e. "error";
}

abbrev pub tester : Tester World
tester = record {
  api = guarded;
  res = resources;
  machine = machine;
  headers_of = λ c. (cloudify_tenant_header, c.tenant) ∷ [];
  premium = true;
  not_running = "not_running";
  show_snapshot = λ s. s.id;
  session_retry = retrying_with (λ ms s. s);
  retry = retrying_with (λ ms g. g);
  retry_if = retrying_if_with (λ ms g. g);
}

abbrev managed : Managed World
managed = record {
  session = start ("started" ∷ "denied" ∷ "terminated" ∷ []) [];
  vm = vm;
  sent = [];
}

found_empty : (confirm_manager_empty tester managed).0 ≡ ok tt
unfolding confirm_manager_empty get_manager_state states_of_tenants state_of_tenant listing_of
    sorted_listing sorted set_client_tenant is_default_only is_clean ◌>>=◌ get put
found_empty = refl

-- the same blueprints, listed in two orders
abbrev one_way : Tester World
one_way = record tester {
  res = record resources { list_blueprints = λ h w. (value ("b" ∷ "a" ∷ []), w) };
}

abbrev other_way : Tester World
other_way = record tester {
  res = record resources { list_blueprints = λ h w. (value ("a" ∷ "b" ∷ []), w) };
}

get_manager_state-Agrees_example :
    get_manager_state one_way ("default_tenant" ∷ []) managed
    ≡ get_manager_state other_way ("default_tenant" ∷ []) managed
get_manager_state-Agrees_example =
    get_manager_state-Agrees one_way other_way
      (record { reply = λ h w. none_left; world = λ h w. refl })
      (record { reply = λ h w. swapped "b" "a" []; world = λ h w. refl })
      (record { reply = λ h w. none_left; world = λ h w. refl })
      (record { reply = λ h w. none_left; world = λ h w. refl }) ("default_tenant" ∷ []) managed

-- a service that is down and has no units
abbrev lenient : ManagerStatus
lenient = record {
  status = "Fail";
  services =
      record { display_name = "PostgreSQL"; status = "Inactive"; instances = [] }
      ∷ record { display_name = "nginx"; status = "Active"; instances = [] }
      ∷ [];
}

abbrev failing : Tester World
failing = record tester { res = record resources { manager_status = λ h w. (value lenient, w) } }

services_attempt-IsPassing_example :
    ((services_attempt failing managed).0 ≡ ok tt) ↔ IsPassing lenient
services_attempt-IsPassing_example = services_attempt-IsPassing failing lenient managed refl

abbrev options : RestoreOptions
options = restore_defaults true

await_restore-OnceAtMost_example :
    OnceAtMost
      (profile_command "secret")
      managed
      (await_restore tester 9 (of_status "pending") "secret" options managed).1
await_restore-OnceAtMost_example =
    await_restore-OnceAtMost tester 9 (of_status "pending") "secret" options managed

abbrev restore : Act (Managed World) Done
restore = restore_snapshot tester 9 (λ s. s) "testsnapshot" "secret" options

restored : (restore managed).0 ≡ ok tt
unfolding restore_snapshot restore_attempt await_restore restore_rounds attempt_wait react
    renew_credentials update_credentials change_rest_client_password get_rest_client choose_protocol
    only_manager run_command list_snapshots log_snapshots report_failed wait_for_execution wait_loop
    poll poll_events respond settle finish output_events show_events output_event ends_stripped
    set_client_tenant occurs retrying_if_with retry_if ◌>>=◌ get put
restored = refl

restore_snapshot-Restored_example : Restored tester 9 "testsnapshot" options
restore_snapshot-Restored_example =
    restore_snapshot-Restored tester 9 (λ s. s) "testsnapshot" "secret" options managed
      (restore managed).1 refl (with_result _ (ok tt) restored)

abbrev pair : Pair World
pair = record { old_manager = managed; new_manager = managed }

abbrev copy : Act (Pair World) Done
copy = create_copy_and_restore_snapshot tester 9 (λ s. s) "nightly" "/tmp/snapshot.zip" true

copied : (copy pair).0 ≡ ok tt
unfolding create_copy_and_restore_snapshot create_snapshot download_snapshot upload_snapshot
    assert_snapshot_created created_attempt states_of wait_for_restore restore_status_attempt
    retrying_with retry restore_snapshot restore_attempt await_restore restore_rounds attempt_wait
    react renew_credentials update_credentials change_rest_client_password get_rest_client
    choose_protocol only_manager run_command list_snapshots log_snapshots report_failed
    wait_for_execution wait_loop poll poll_events respond settle finish output_events show_events
    output_event ends_stripped set_client_tenant occurs retrying_if_with retry_if ◌>>=◌ get put
copied = refl

create_copy_and_restore_snapshot-Copied_example :
    Copied tester 9 (λ s. s) "/tmp/snapshot.zip" true pair
create_copy_and_restore_snapshot-Copied_example =
    create_copy_and_restore_snapshot-Copied tester 9 (λ s. s) "nightly" "/tmp/snapshot.zip" true
      pair (copy pair).1 (with_result _ (ok tt) copied)
