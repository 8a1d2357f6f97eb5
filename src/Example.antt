-- ===== src/Example.antt =====
-- framework/examples.py: an example deployment, from the upload of its blueprint to its removal.
pub mod Workflow
pub mod Files
pub mod Making
use cloudify_system_tests.Prelude.{
  ℕ, zero, suc, ◌*◌, String, Bool, true, false, ◌&&◌, Option, none, some, List, [], ◌∷◌, ◌==◌, ltb,
  is_some, if◌then◌else◌,
}
use cloudify_system_tests.Text.{concat, text_in, split_last, strip}
use cloudify_system_tests.Dict.{Dict, get, put, contains}
use cloudify_system_tests.Act.{
  Act, Done, Error, Reply, Result, result, ok, key_error, value_error, assertion_error, other,
  out_of_fuel, pass, pure, raise, gets, modify, catch, ◌>>=◌, ◌>>◌,
}
use cloudify_system_tests.Act.Retry.{Retrying}
use cloudify_system_tests.Client.{Api, Session, Execution, Headers, info, error, request, log_line}
use cloudify_system_tests.Client.Tenant.{set_client_tenant}
use cloudify_system_tests.Execution.{wait_for_execution}
use cloudify_system_tests.Deployment.{create_deployment, delete_deployment, ignore_existing}

pub record Example : Type 0 where
  pub tenant : String
  pub inputs : Dict String
  pub create_secret : Bool
  pub blueprint_file : String
  pub blueprint_id : String
  pub deployment_id : String
  pub host_username : String
  pub installed : Bool
  pub windows : Bool

-- More calls of the client library, and those for the machine that the example runs on.
pub record Site (W : Type 0) : Type 0 where
  pub private_key : W → Reply String × W
  pub create_secret : Headers → String → String → W → Reply Done × W
  -- the number before the first dot of the manager's version
  pub major_version : Headers → W → Reply ℕ × W
  pub upload_blueprint : Headers → String → String → Bool → W → Reply Done × W
  -- the states of the executions with this workflow id
  pub list_statuses : Headers → String → String → W → Reply (List String) × W
  -- how many events an execution has, on the first page
  pub count_events : Headers → String → W → Reply ℕ × W
  pub read_file : String → W → Reply String × W
  -- the bytes of the file, stripped, and `bytes.decode('utf-8')`
  pub read_windows_file : String → W → Reply (List ℕ) × W
  pub decode : List ℕ → Reply String
  -- the standard output of a command
  pub run : String → W → Reply String × W
  pub dirname : String → String

pub record Bench (W : Type 0) : Type 0 where
  pub session : Session W
  pub example : Example

module _ {W : Type 0} where
  abbrev pub on_session : {A : Type 0} → Act (Session W) A → Act (Bench W) A
  on_session m b = let (r, s) = m b.session in (r, record b { session = s })

  -- `with set_client_tenant(self.manager.client, self.tenant)`
  abbrev pub in_tenant : {A : Type 0} → Act (Session W) A → Act (Bench W) A
  in_tenant body b = on_session (set_client_tenant (some b.example.tenant) body) b

  abbrev pub on_world : {A : Type 0} → (W → Reply A × W) → Act (Bench W) A
  on_world call = on_session (request (λ h. call))

  abbrev pub get_example : Act (Bench W) Example
  get_example = gets (λ b. b.example)

  abbrev pub set_installed : Bool → Act (Bench W) Done
  set_installed installed =
      modify (λ b. record b { example = record (b.example) { installed = installed } })

  abbrev pub set_inputs : Dict String → Act (Bench W) Done
  set_inputs inputs = modify (λ b. record b { example = record (b.example) { inputs = inputs } })

  -- `self.inputs[key]`
  abbrev input_of : Option String → Act (Bench W) String
  input_of none = raise key_error
  input_of (some v) = pure v

  abbrev pub input : String → Act (Bench W) String
  input key = get_example >>= λ e. input_of (get key e.inputs)

module _ {W : Type 0} (api : Api W) (site : Site W) (premium : Bool)
    (client_retry : Retrying (Session W)) (retry : Retrying (Bench W)) where
  -- the `except` clauses of the uploads: on community another test may have been first
  unfoldable pub tolerate : Error → Act (Session W) Done
  tolerate e = if premium then raise e else ignore_existing api e

  unfoldable pub set_agent_key_secret : Act (Bench W) Done
  set_agent_key_secret = do
    ssh_key ← on_world site.private_key
    in_tenant (catch (request (λ h. site.create_secret h "agent_key" ssh_key)) tolerate)

  unfoldable pub upload_blueprint : Act (Bench W) Done
  upload_blueprint = do
    example ← get_example
    on_session (
        log_line info (
          concat (
            "Uploading blueprint: " ∷ example.blueprint_file ∷ " [id=" ∷ example.blueprint_id ∷ "]"
            ∷ [])))
    if example.create_secret then set_agent_key_secret else pass
    mgr_version ← on_session (request site.major_version)
    in_tenant (
        catch
          (request (λ h.
            site.upload_blueprint h example.blueprint_file example.blueprint_id
              (ltb mgr_version 7)))
          tolerate)

  -- `all(exc['status'] == 'terminated' for exc in executions)`
  abbrev all_terminated : List String → Bool
  all_terminated [] = true
  all_terminated (status ∷ statuses) = status == "terminated" && all_terminated statuses

  -- `while True`, on fuel: there is no wait between the rounds
  unfoldable pub await_environment : ℕ → Act (Bench W) Done
  await_environment zero = out_of_fuel
  await_environment (suc fuel) = do
    example ← get_example
    statuses ←
        in_tenant (
          request (λ h. site.list_statuses h example.deployment_id "create_deployment_environment"))
    let again = await_environment fuel
    if all_terminated statuses then pass else again

  unfoldable pub wait_for_deployment_environment_creation : ℕ → Act (Bench W) Done
  wait_for_deployment_environment_creation fuel = do
    on_session (log_line info "Waiting for deployment env creation.")
    await_environment fuel
    on_session (log_line info "Deployment env created.")

  abbrev log_each : List String → Act (Session W) Done
  log_each [] = pass
  log_each (deployment ∷ deployments) = log_line info deployment >> log_each deployments

  -- the body of the block of `create_deployment`
  unfoldable pub create_and_list : ℕ → Bool → Example → Act (Session W) Done
  create_and_list fuel skip_plugins_validation example = do
    create_deployment api client_retry fuel example.blueprint_id example.deployment_id
        example.inputs skip_plugins_validation
    log_line info (concat ("Deployments for tenant " ∷ example.tenant ∷ []))
    deployments ← request (λ h. api.list_deployments h)
    log_each deployments

  abbrev with_path : Example → Dict String
  with_path e =
      if contains "path" e.inputs
      then e.inputs
      else put "path" (concat ("/home/" ∷ e.host_username ∷ "/test_file" ∷ [])) e.inputs

  unfoldable pub create_example_deployment : ℕ → Bool → Bool → Act (Bench W) Done
  create_example_deployment fuel skip_plugins_validation wait = do
    before ← get_example
    set_inputs (with_path before)
    example ← get_example
    in_tenant (create_and_list fuel skip_plugins_validation example)
    if wait then wait_for_deployment_environment_creation fuel else pass

  -- the body of the block of `execute`
  unfoldable pub start_and_wait : ℕ → String → String → Dict String → Act (Session W) Execution
  start_and_wait fuel deployment_id workflow_id parameters = do
    execution ← request (λ h. api.start_execution h deployment_id workflow_id parameters)
    wait_for_execution api fuel execution none (20 * 60) false

  unfoldable pub execute : ℕ → String → Dict String → Act (Bench W) Execution
  execute fuel workflow_id parameters = do
    on_session (log_line info (concat ("Starting workflow: " ∷ workflow_id ∷ [])))
    example ← get_example
    catch (in_tenant (start_and_wait fuel example.deployment_id workflow_id parameters))
        λ e. do on_session (log_line error "Error on deployment execution"); raise e

  unfoldable pub install : ℕ → Act (Bench W) Done
  install fuel = do
    on_session (log_line info "Installing deployment...")
    execute fuel "install" []
    set_installed true

  -- the directory to list, the command for it, and the text to look for
  abbrev windows_listing : Option (String × String) → Act (Bench W) (String × String)
  windows_listing none = raise value_error
  windows_listing (some (list_path, path)) = pure (concat ("dir " ∷ list_path ∷ []), path)

  unfoldable pub listing_for : Bool → String → Act (Bench W) (String × String)
  listing_for true path = windows_listing (split_last 92 path)
  listing_for false path =
      pure (concat ("sudo find " ∷ site.dirname path ∷ " -maxdepth 1" ∷ []), path)

  unfoldable pub file_exists : String → Act (Bench W) Bool
  file_exists path = do
    example ← get_example
    listing ← listing_for example.windows path
    tmp_contents ← on_world (site.run listing.0)
    pure (text_in listing.1 tmp_contents)

  -- one attempt of `check_all_test_files_deleted`
  unfoldable pub deleted_attempt : Option String → Act (Bench W) Done
  deleted_attempt given = do
    path ← elim given [ some p ↦ pure p | none ↦ input "path" ]
    there ← file_exists path
    if there then raise assertion_error else pass

  unfoldable pub check_all_test_files_deleted : Option String → Act (Bench W) Done
  check_all_test_files_deleted given = retry.retry Done 30 2000 (deleted_attempt given)

  unfoldable pub uninstall : ℕ → Bool → Bool → Dict String → Act (Bench W) Done
  uninstall fuel check_files_are_deleted delete_dep parameters = do
    on_session (log_line info "Cleaning up example.")
    execute fuel "uninstall" parameters
    set_installed false
    if check_files_are_deleted then check_all_test_files_deleted none else pass
    example ← get_example
    if delete_dep then in_tenant (delete_deployment api example.deployment_id) else pass
