-- ===== src/Deployment.antt =====
-- framework/util.py: blueprints, deployments and tenants on the manager.
pub mod Deletion
pub mod Creation
use cloudify_system_tests.Prelude.{
  is_empty, ℕ, zero, suc, ◌*◌, String, Bool, true, false, Option, none, some, List, [], ◌∷◌, ◌==◌,
  is_in, if◌then◌else◌,
}
use cloudify_system_tests.Text.{concat, text_in}
use cloudify_system_tests.Dict.{Dict}
use cloudify_system_tests.Act.{
  Act, Done, Error, client_error, unauthorized, runtime_error, deployment_creation,
  deployment_deletion, pass, pure, raise, catch, ◌>>=◌, ◌>>◌,
}
use cloudify_system_tests.Act.Retry.{Retrying}
use cloudify_system_tests.Client.{Api, Session, Execution, info, request, pause, log_line}
use cloudify_system_tests.Execution.{seconds, wait_for_execution}

module _ {W : Type 0} (api : Api W) where
  -- one attempt of `wait_for_blueprint_upload`
  unfoldable pub check_uploaded : Option String → Act (Session W) Done
  check_uploaded none = pass
  check_uploaded (some state) = if state == "uploaded" then pass else raise runtime_error

  unfoldable pub blueprint_attempt : String → Act (Session W) Done
  blueprint_attempt blueprint_id = do
    state ← request (λ h. api.get_blueprint h blueprint_id)
    check_uploaded state

  unfoldable pub wait_for_blueprint_upload : Retrying (Session W) → String → Act (Session W) Done
  wait_for_blueprint_upload r blueprint_id = r.retry Done 120 1000 (blueprint_attempt blueprint_id)

  -- the loop over the executions of a new deployment; the wait has the default time-out
  unfoldable pub wait_for_environment : ℕ → List Execution → Act (Session W) Done
  wait_for_environment fuel [] = raise deployment_creation
  wait_for_environment fuel (execution ∷ executions) =
      if execution.workflow_id == "create_deployment_environment"
      then (wait_for_execution api fuel execution none (20 * 60) false >> pass)
      else wait_for_environment fuel executions

  unfoldable pub create_deployment :
      Retrying (Session W) → ℕ → String → String → Dict String → Bool → Act (Session W) Done
  create_deployment r fuel blueprint_id deployment_id inputs skip_plugins_validation = do
    wait_for_blueprint_upload r blueprint_id
    log_line info (concat ("Creating deployment for " ∷ deployment_id ∷ []))
    request (λ h. api.create_deployment h blueprint_id deployment_id inputs skip_plugins_validation)
    log_line info (concat ("Waiting for deployment env creation for " ∷ deployment_id ∷ []))
    executions ← request (λ h. api.list_executions h deployment_id)
    wait_for_environment fuel executions

  -- what a round does before the next, when the deployment is still listed
  unfoldable pub still_waiting : String → Bool → Act (Session W) Done
  still_waiting deployment_id true = do
    log_line info (concat ("Still waiting for deployment " ∷ deployment_id ∷ " to delete" ∷ []))
    pause api (seconds 2)
  still_waiting deployment_id false = pass

  -- the body of a round, after its listing; `again` is the rest of the loop from `found`
  unfoldable pub deletion_round :
      String → (Bool → Act (Session W) Bool) → List String → Act (Session W) Bool
  deletion_round deployment_id again deployments =
      if is_empty deployments
      then pure false
      else (still_waiting deployment_id (is_in deployment_id deployments)
          >> again (is_in deployment_id deployments))

  -- `for _ in range(n)`; the result is `found` after the loop
  unfoldable pub deletion_rounds : ℕ → String → Bool → Act (Session W) Bool
  deletion_rounds zero deployment_id found = pure found
  deletion_rounds (suc n) deployment_id found = do
    deployments ← request (λ h. api.list_deployments h)
    deletion_round deployment_id (deletion_rounds n deployment_id) deployments

  unfoldable pub check_deleted : Bool → Act (Session W) Done
  check_deleted found = if found then raise deployment_deletion else pass

  unfoldable pub delete_deployment : String → Act (Session W) Done
  delete_deployment deployment_id = do
    log_line info (concat ("Deleting deployment " ∷ deployment_id ∷ []))
    request (λ h. api.delete_deployment h deployment_id)
    pause api 500000
    found ← deletion_rounds 40 deployment_id false
    check_deleted found

  -- `except CloudifyClientError`: the error for a missing authorization is one of these too
  unfoldable pub ignore_existing : Error → Act (Session W) Done
  ignore_existing (client_error m) =
      if text_in "already exists" m then pass else raise (client_error m)
  ignore_existing (unauthorized m) =
      if text_in "already exists" m then pass else raise (unauthorized m)
  ignore_existing e = raise e

  unfoldable pub prepare_and_get_test_tenant : Bool → String → Act (Session W) String
  prepare_and_get_test_tenant premium test_param =
      if premium
      then (do
        catch (request (λ h. api.create_tenant h test_param)) ignore_existing
        pure test_param)
      else pure "default_tenant"

  -- the node instances with this node's name, each fetched on its own
  unfoldable pub get_instances :
      String → List (String × String) → Act (Session W) (List (Dict String))
  get_instances node_name [] = pure []
  get_instances node_name ((id, node_id) ∷ rest) = do
    let others = get_instances node_name rest
    if node_id == node_name
        then (do
          instance_dict ← request (λ h. api.get_node_instance h id)
          found ← others
          pure (instance_dict ∷ found))
        else others

  unfoldable pub get_node_instances : String → String → Act (Session W) (List (Dict String))
  get_node_instances node_name deployment_id = do
    listed ← request (λ h. api.list_node_instances h deployment_id)
    get_instances node_name listed
