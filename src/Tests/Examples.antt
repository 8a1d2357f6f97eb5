-- ===== src/Tests/Examples.antt =====
-- An example that is installed on the scripted manager.
use cloudify_system_tests.Prelude.{true, false, [], ◌∷◌}
use cloudify_system_tests.Act.{value}
use cloudify_system_tests.Act.Retry.{Retrying}
use cloudify_system_tests.Client.{Session}
use cloudify_system_tests.Tests.Attempts.{retrying_with}
use cloudify_system_tests.Tests.Manager.{World, manager, start}
use cloudify_system_tests.Example.{Site, Bench, install}
use cloudify_system_tests.Example.Workflow.{Installed, install-Installed}

abbrev pub site : Site World
site = record {
  private_key = λ w. (value "key", w);
  create_secret = λ h n k w. (value tt, w);
  major_version = λ h w. (value 7, w);
  upload_blueprint = λ h f i l w. (value tt, w);
  list_statuses = λ h d i w. (value ("terminated" ∷ []), w);
  count_events = λ h e w. (value 3, w);
  read_file = λ p w. (value "Test", w);
  read_windows_file = λ p w. (value (84 ∷ []), w);
  decode = λ bytes. value "Test";
  run = λ c w. (value "", w);
  dirname = λ p. "/tmp";
}

abbrev pub bench : Bench World
bench = record {
  session = start ("started" ∷ "terminated" ∷ []) [];
  example = record {
    tenant = "test_1";
    inputs = ("content", "Test") ∷ [];
    create_secret = true;
    blueprint_file = "example.yaml";
    blueprint_id = "on_vm_example";
    deployment_id = "on_vm_example";
    host_username = "centos";
    installed = false;
    windows = false;
  };
}

abbrev pub patient_client : Retrying (Session World)
patient_client = retrying_with (λ ms s. s)

abbrev pub patient_bench : Retrying (Bench World)
patient_bench = retrying_with (λ ms b. b)

install-Installed_example :
    Installed manager site true patient_client patient_bench 9 bench
      (install manager site true patient_client patient_bench 9 bench)
install-Installed_example = install-Installed manager site true patient_client patient_bench 9 bench
