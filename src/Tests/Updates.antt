-- ===== src/Tests/Updates.antt =====
-- An example whose deployment is updated on the scripted manager.
use cloudify_system_tests.Cli.Teardown.{test_teardown-ShownEmpty, ShownEmpty}
use cloudify_system_tests.Cli.{assert_none, test_teardown, Paths, CliHost}
use cloudify_system_tests.Dict.{put, get}
use cloudify_system_tests.Client.Tenant.{headers_in, set_client_tenant}
use cloudify_system_tests.Text.{occurs, ends_stripped}
use cloudify_system_tests.Execution.{
  output_event, show_events, output_events, finish, settle, respond, poll_events, poll, wait_loop,
  wait_for_execution,
}
use cloudify_system_tests.Example.Files.{read, decode, check_each, files_attempt}
use cloudify_system_tests.Example.Files.Laws.{NoFile, files_attempt-NoFile}
use cloudify_system_tests.Act.Invert.{with_result}
use cloudify_system_tests.DeploymentUpdate.Laws.{update_deployment-Updated, Updated}
use cloudify_system_tests.Prelude.{
  ◌≡◌, refl, String, List, true, some, none, [], ◌∷◌, ◌==◌, if◌then◌else◌,
}
use cloudify_system_tests.Act.{Act, Done, value, ok, err, attribute_error, ◌>>=◌}
use cloudify_system_tests.Client.{Api}
use cloudify_system_tests.Example.{
  listing_for, file_exists, deleted_attempt, check_all_test_files_deleted, Bench,
}
use cloudify_system_tests.DeploymentUpdate.{
  update_attempt, wait_for_deployment_update, update_and_wait, update_deployment, first_update,
  Updates, UpdateRequest,
}
use cloudify_system_tests.Tests.Attempts.{retry, retrying_with}
use cloudify_system_tests.Tests.Manager.{World, manager, start}
use cloudify_system_tests.Tests.Restores.{resources}
use cloudify_system_tests.Tests.Examples.{site, bench, patient_client, patient_bench}

abbrev updates : Updates World
updates = record {
  update_with_existing_blueprint = λ h d b s i w. (value "e1", w);
  updates_of = λ h e w. (value ("successful" ∷ []), w);
  upload_async = λ h p b w. (value tt, w);
  get_resource_path = λ p. p;
  put_remote_file_content = λ p c w. (value tt, w);
}

-- the manager shows one instance of the node that keeps a file
abbrev with_file : Api World
with_file = record manager {
  list_node_instances = λ h d w. (value (("file_ab12", "file") ∷ []), w);
}

abbrev updating : Bench World
updating = record {
  session = start ("terminated" ∷ "started" ∷ "terminated" ∷ []) [];
  example = record (bench.example) { inputs = ("path", "/tmp/test") ∷ ("content", "Test") ∷ [] };
}

abbrev request : UpdateRequest
request =
    first_update manager resources updates patient_client site true patient_bench updating.example

updated :
    (update_deployment manager resources updates patient_client 9 "test_1" request
      updating.session).0
    ≡ ok tt
unfolding update_deployment update_and_wait wait_for_deployment_update update_attempt
    wait_for_execution wait_loop poll poll_events respond settle finish output_events show_events
    output_event ends_stripped set_client_tenant retrying_with retry ◌>>=◌ get put
updated = refl

update_deployment-Updated_example :
    Updated manager resources updates patient_client 9 request
      (headers_in "test_1" updating.session.headers)
      updating.session.world
update_deployment-Updated_example =
    update_deployment-Updated manager resources updates patient_client 9 "test_1" request
      updating.session
      (update_deployment manager resources updates patient_client 9 "test_1" request
        updating.session).1
      (with_result _ (ok tt) updated)

-- the manager shows an instance of another node only
abbrev with_other : Api World
with_other = record manager { list_node_instances = λ h d w. (value (("vm_ab12", "vm") ∷ []), w) }

abbrev attempt : Api World → Act (Bench World) Done
attempt api = files_attempt api site true patient_client patient_bench (some "/tmp/f") none

none_checked : attempt with_other updating ≡ (ok tt, (attempt with_other updating).1)
unfolding files_attempt check_each get ◌>>=◌
none_checked = refl

-- The file has the contents that are expected.
file_refused : (attempt with_file updating).0 ≡ err attribute_error
unfolding files_attempt check_each read decode get ◌>>=◌
file_refused = refl

files_attempt-NoFile_example :
    (instances : List (String × String)) × ((with_other.list_node_instances updating.session.headers
        updating.example.deployment_id updating.session.world).0
      ≡ value instances)
    × NoFile instances
files_attempt-NoFile_example =
    files_attempt-NoFile with_other site true patient_client patient_bench (some "/tmp/f") none
      updating (attempt with_other updating).1 refl none_checked

abbrev cli_host : CliHost World
cli_host = record {
  run = λ c w. (value "[]", w);
  put_remote_file = λ r l w. (value tt, w);
  listed = λ printed. value (if printed == "[]" then [] else "d1" ∷ []);
  bundles = λ printed. value [];
}

abbrev paths : Paths
paths = record {
  cfy = "cfy";
  blueprint = "/tmp/b.yaml";
  inputs = "/tmp/i.yaml";
  ssh_key = "/tmp/k.pem";
  cert = "/tmp/c.crt";
}

torn_down :
    (test_teardown with_file site true patient_client patient_bench cli_host paths updating).0
    ≡ ok tt
unfolding test_teardown assert_none check_all_test_files_deleted deleted_attempt file_exists
    listing_for occurs retrying_with retry ◌>>=◌ get
torn_down = refl

test_teardown-ShownEmpty_example :
    ShownEmpty with_file site true patient_client patient_bench cli_host paths "deployments"
    × ShownEmpty with_file site true patient_client patient_bench cli_host paths "secrets"
    × ShownEmpty with_file site true patient_client patient_bench cli_host paths "blueprints"
test_teardown-ShownEmpty_example =
    test_teardown-ShownEmpty with_file site true patient_client patient_bench cli_host paths
      updating torn_down
