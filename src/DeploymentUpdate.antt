-- ===== src/DeploymentUpdate.antt =====
-- framework/deployment_update.py: updating the deployment of an example, and checking what that did.
pub mod Laws
use cloudify_system_tests.Prelude.{
  ℕ, ◌*◌, String, Bool, true, false, Option, none, some, List, [], ◌∷◌, ◌==◌, if◌then◌else◌,
}
use cloudify_system_tests.Text.{concat, split_last}
use cloudify_system_tests.Dict.{Dict, get}
use cloudify_system_tests.Act.{Act, Done, Reply, key_error, pass, pure, raise, ◌>>=◌, ◌>>◌}
use cloudify_system_tests.Act.Retry.{Retrying}
use cloudify_system_tests.Client.{Api, Session, Execution, Headers, info, request, log_line}
use cloudify_system_tests.Client.Tenant.{set_client_tenant}
use cloudify_system_tests.Execution.{wait_for_execution}
use cloudify_system_tests.Deployment.{wait_for_blueprint_upload, get_node_instances}
use cloudify_system_tests.Resources.{Resources, first, check}
use cloudify_system_tests.Example.{
  Example, Site, Bench, on_session, in_tenant, on_world, get_example, input,
  check_all_test_files_deleted,
}
use cloudify_system_tests.Example.Files.{check_files}

-- More calls of the client library, and one for the machine that the example runs on.
pub record Updates (W : Type 0) : Type 0 where
  -- the id of the execution that updates a deployment: to a blueprint, with or without reinstalling,
  -- and with new inputs if there are any
  pub update_with_existing_blueprint :
      Headers → String → String → Bool → Option (Dict String) → W → Reply String × W
  -- the states of the updates by an execution
  pub updates_of : Headers → String → W → Reply (List String) × W
  -- `blueprints.upload` with `async_upload`
  pub upload_async : Headers → String → String → W → Reply Done × W
  pub get_resource_path : String → String
  pub put_remote_file_content : String → String → W → Reply Done × W

-- What an update is made with.
pub record UpdateRequest : Type 0 where
  pub deployment_id : String
  pub blueprint_id : String
  pub skip_reinstall : Bool
  pub inputs : Option (Dict String)

-- `inst_id.split('_')[-1]`
abbrev last_part : Option (String × String) → String → String
last_part none whole = whole
last_part (some (before, after)) whole = after

abbrev updated_path : String
updated_path = "/tmp/new_test"

abbrev updated_content : String
updated_content = "Where are the elephants?"

module _ {W : Type 0} (api : Api W) (res : Resources W) (updates : Updates W)
    (client_retry : Retrying (Session W)) where
  -- one attempt of `wait_for_deployment_update`
  unfoldable pub update_attempt : String → Act (Session W) Done
  update_attempt execution_id = do
    log_line info (concat ("Checking deployment update with execution ID: " ∷ execution_id ∷ []))
    dep_updates ← request (λ h. updates.updates_of h execution_id)
    state ← first dep_updates
    check (state == "successful")

  unfoldable pub wait_for_deployment_update : String → Act (Session W) Done
  wait_for_deployment_update execution_id =
      client_retry.retry Done 10 5000 (update_attempt execution_id)

  -- the body of the block of `_update_deployment`
  unfoldable pub update_and_wait : ℕ → UpdateRequest → Act (Session W) Done
  update_and_wait fuel u = do
    execution_id ← request (λ h.
        updates.update_with_existing_blueprint h u.deployment_id u.blueprint_id u.skip_reinstall
          u.inputs)
    log_line info "Waiting for deployment update to complete..."
    executions ← request (λ h. res.executions_by_id h execution_id)
    execution ← first executions
    wait_for_execution api fuel execution none (20 * 60) false
    wait_for_deployment_update execution_id
    log_line info "Deployment update complete."

  unfoldable pub update_deployment : ℕ → String → UpdateRequest → Act (Session W) Done
  update_deployment fuel tenant u = set_client_tenant (some tenant) (update_and_wait fuel u)

  -- the body of the first block of `apply_and_check_deployment_update`
  unfoldable upload_updated : Act (Session W) Done
  upload_updated = do
    request (λ h.
        updates.upload_async h (updates.get_resource_path "blueprints/compute/example_2_files.yaml")
          "updated")
    wait_for_blueprint_upload api client_retry "updated"

  abbrev id_of : Dict String → Act (Session W) String
  id_of instance_found = elim (get "id" instance_found) [
    | none ↦ raise key_error
    | some id ↦ pure id
  ]

  unfoldable file_instance : String → Act (Session W) String
  file_instance deployment_id =
      get_node_instances api "file" deployment_id >>= λ found. first found >>= id_of

  module _ (site : Site W) (premium : Bool) (retry : Retrying (Bench W)) where
    abbrev note_that : String → Act (Bench W) Done
    note_that m = on_session (log_line info m)

    abbrev checked_files : Option String → Option String → Act (Bench W) Done
    checked_files = check_files api site premium client_retry retry

    abbrev all_deleted : Option String → Act (Bench W) Done
    all_deleted = check_all_test_files_deleted api site premium client_retry retry

    abbrev pub first_update : Example → UpdateRequest
    first_update e = record {
      deployment_id = e.deployment_id;
      blueprint_id = "updated";
      skip_reinstall = true;
      inputs = none;
    }

    abbrev second_update : Example → UpdateRequest
    second_update e = record {
      deployment_id = e.deployment_id;
      blueprint_id = e.blueprint_id;
      skip_reinstall = false;
      inputs = some (("path", updated_path) ∷ ("content", updated_content) ∷ []);
    }

    -- the files of the old inputs make place for those of the new ones
    unfoldable prepare_files : Example → Act (Bench W) Done
    prepare_files example = do
      original_path ← input "path"
      note_that "Checking new files exist"
      checked_files (some "/tmp/test_announcement") (some "I like cake")
      note_that "Preparing for updated deployment"
      inst_id ← in_tenant (file_instance example.deployment_id)
      on_world (site.run (concat ("rm " ∷ original_path ∷ "_*" ∷ [])))
      on_world (
          updates.put_remote_file_content
            (concat (updated_path ∷ "_file_" ∷ last_part (split_last 95 inst_id) inst_id ∷ []))
            updated_content)

    unfoldable check_updated : Act (Bench W) Done
    check_updated = do
      note_that "Checking new files were created"
      checked_files (some updated_path) (some updated_content)
      note_that "Checking old files were removed"
      all_deleted none
      note_that "Checking new files were not recreated."
      all_deleted (some "/tmp/test_announcement")

    -- everything after the upload, for the example as it is
    unfoldable update_twice : ℕ → Example → Act (Bench W) Done
    update_twice fuel example = do
      note_that "Updating example deployment..."
      on_session (update_deployment fuel example.tenant (first_update example))
      note_that "Checking old files still exist"
      checked_files none none
      prepare_files example
      note_that "Updating deployment to use different path and content"
      on_session (update_deployment fuel example.tenant (second_update example))
      check_updated

    unfoldable apply_and_check_deployment_update : ℕ → Act (Bench W) Done
    apply_and_check_deployment_update fuel = do
      example ← get_example
      in_tenant upload_updated
      update_twice fuel example
