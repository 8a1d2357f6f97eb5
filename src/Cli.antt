-- ===== src/Cli.antt =====
-- test_suites/cli/__init__.py: the life of an example by the command line, on a host of its own.
pub mod Teardown
use cloudify_system_tests.Prelude.{
  ℕ, String, Bool, true, false, ◌&&◌, Option, none, some, List, [], ◌∷◌, ◌==◌, is_empty, length,
  if◌then◌else◌,
}
use cloudify_system_tests.Text.{concat}
use cloudify_system_tests.Act.{Act, Done, Reply, assertion_error, pass, raise, result, ◌>>=◌, ◌>>◌}
use cloudify_system_tests.Act.Retry.{Retrying}
use cloudify_system_tests.Client.{Api, Session, info, log_line, pause}
use cloudify_system_tests.Execution.{seconds}
use cloudify_system_tests.Resources.{check}
use cloudify_system_tests.Example.{
  Site, Bench, on_session, on_world, get_example, check_all_test_files_deleted,
}
use cloudify_system_tests.Example.Files.{check_files}

-- `paths`
pub record Paths : Type 0 where
  pub cfy : String
  pub blueprint : String
  pub inputs : String
  pub ssh_key : String
  pub cert : String

-- The manager, as the command line is told of it.
record ManagerAddress : Type 0 where
  pub api_ca_path : Option String
  pub private_ip_address : String
  pub mgr_password : String

-- The host of the command line, and `json.loads` on what the command line prints: the ids of what a
-- listing has, and for log bundles each with its status.
pub record CliHost (W : Type 0) : Type 0 where
  pub run : String → W → Reply String × W
  pub put_remote_file : String → String → W → Reply Done × W
  pub listed : String → Reply (List String)
  pub bundles : String → Reply (List (String × String))

-- a command of the command line, by its parts
abbrev pub cfy : Paths → List String → String
cfy paths parts = concat (paths.cfy ∷ parts)

-- `[b for b in bundles if b['status'] == 'created' and b['id'] == bundle_id]`
unfoldable created_bundles : String → List (String × String) → List (String × String)
created_bundles bundle_id [] = []
created_bundles bundle_id ((id, status) ∷ rest) =
    let others = created_bundles bundle_id rest in
    if status == "created" && id == bundle_id then (id, status) ∷ others else others

abbrev is_single {ℓ} : {A : Type ℓ} → List A → Bool
is_single (x ∷ []) = true
is_single xs = false

module _ {W : Type 0} (api : Api W) (site : Site W) (premium : Bool)
    (client_retry : Retrying (Session W)) (retry : Retrying (Bench W)) (host : CliHost W) where
  abbrev pub say : String → Act (Bench W) Done
  say m = on_session (log_line info m)

  abbrev run_cli : String → Act (Bench W) String
  run_cli command = on_world (host.run command)

  abbrev ssl_part : Paths → Option String → String
  ssl_part paths none = ""
  ssl_part paths (some ca) = if ca == "" then "" else concat (" -ssl -c " ∷ paths.cert ∷ [])

  abbrev send_cert : Paths → Option String → Act (Bench W) Done
  send_cert paths none = pass
  send_cert paths (some ca) =
      if ca == "" then pass else on_world (host.put_remote_file paths.cert ca)

  unfoldable prepare : ManagerAddress → Paths → Bool → Act (Bench W) Done
  prepare manager paths include_secret = do
    send_cert paths manager.api_ca_path
    say "Using manager"
    example ← get_example
    run_cli (
        cfy paths (
          " profiles use "
          ∷ manager.private_ip_address
          ∷ " -u admin -p "
          ∷ manager.mgr_password
          ∷ " -t "
          ∷ example.tenant
          ∷ ssl_part paths manager.api_ca_path
          ∷ []))
    if include_secret
        then say "Creating secret"
          >> run_cli
              (cfy paths (" secrets create --secret-file " ∷ paths.ssh_key ∷ " agent_key" ∷ []))
          >> pass
        else pass

  unfoldable test_upload_and_install : Paths → Act (Bench W) Done
  test_upload_and_install paths = do
    example ← get_example
    say "Uploading blueprint"
    run_cli
        (cfy paths (" blueprints upload -b " ∷ example.blueprint_id ∷ " " ∷ paths.blueprint ∷ []))
    say "Creating deployment"
    run_cli (
        cfy paths (
          " deployments create -b " ∷ example.blueprint_id ∷ " -i " ∷ paths.inputs ∷ " "
          ∷ example.deployment_id ∷ " " ∷ []))
    say "Executing install workflow"
    run_cli (cfy paths (" executions start install -d " ∷ example.deployment_id ∷ []))
    check_files api site premium client_retry retry none none

  unfoldable test_cfy_install : Paths → Act (Bench W) Done
  test_cfy_install paths = do
    example ← get_example
    say "Running cfy install for blueprint"
    run_cli (
        cfy paths (
          " install --blueprint-id " ∷ example.blueprint_id ∷ " --deployment-id "
          ∷ example.deployment_id ∷ " --inputs " ∷ paths.inputs ∷ " " ∷ paths.blueprint ∷ []))
    check_files api site premium client_retry retry none none

  -- one attempt of `_wait_for_log_bundle_creation`
  unfoldable bundle_attempt : Paths → String → Act (Bench W) Done
  bundle_attempt paths bundle_id = do
    printed ← run_cli (cfy paths (" log-bundles list --json" ∷ []))
    found ← on_world (λ w. (host.bundles printed, w))
    check (is_single (created_bundles bundle_id found))

  unfoldable wait_for_log_bundle_creation : Paths → String → Act (Bench W) Done
  wait_for_log_bundle_creation paths bundle_id =
      retry.retry Done 15 300 (bundle_attempt paths bundle_id)

  -- a listing, which has to be empty
  unfoldable pub assert_none : Paths → String → Act (Bench W) Done
  assert_none paths kind = do
    printed ← run_cli (cfy paths (" " ∷ kind ∷ " list --json" ∷ []))
    found ← on_world (λ w. (host.listed printed, w))
    check (is_empty found)

  unfoldable pub test_teardown : Paths → Act (Bench W) Done
  test_teardown paths = do
    example ← get_example
    say "Starting uninstall workflow"
    run_cli (cfy paths (" executions start uninstall -d " ∷ example.deployment_id ∷ []))
    check_all_test_files_deleted api site premium client_retry retry none
    say "Deleting deployment"
    run_cli (cfy paths (" deployments delete " ∷ example.deployment_id ∷ []))
    on_session (pause api (seconds 4))
    say "Checking deployment has been deleted."
    assert_none paths "deployments"
    say "Deleting secret"
    run_cli (cfy paths (" secrets delete agent_key" ∷ []))
    say "Checking secret has been deleted."
    assert_none paths "secrets"
    say "Deleting blueprint"
    run_cli (cfy paths (" blueprints delete " ∷ example.blueprint_id ∷ []))
    on_session (pause api (seconds 4))
    say "Checking blueprint has been deleted."
    assert_none paths "blueprints"

  unfoldable cleanup_profile : ManagerAddress → Paths → Bool → Act (Bench W) Done
  cleanup_profile manager paths include_secret = do
    if include_secret
        then say "Creating secret" >> run_cli (cfy paths (" secrets delete agent_key" ∷ [])) >> pass
        else pass
    say "Removing CLI profile"
    run_cli (cfy paths (" profiles delete " ∷ manager.private_ip_address ∷ []))
    pass
