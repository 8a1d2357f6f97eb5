-- ===== src/Resources.antt =====
-- framework/util.py: listings of what is on the manager, and waiting for what they show.
pub mod Seen
pub mod Checks
use cloudify_system_tests.Prelude.{
  ℕ, String, Bool, true, false, Option, none, some, List, [], ◌∷◌, ◌==◌, or_else, if◌then◌else◌,
}
use cloudify_system_tests.Text.{concat}
use cloudify_system_tests.Dict.{Dict, get, put}
use cloudify_system_tests.Act.{
  Act, Done, Reply, assertion_error, key_error, other, pass, pure, raise, ◌>>=◌, ◌>>◌,
}
use cloudify_system_tests.Act.Retry.{Retrying}
use cloudify_system_tests.Client.{
  Api, Session, Execution, Headers, info, warning, request, log_line,
}

pub record Snapshot : Type 0 where
  pub id : String
  pub status : String
  pub error : Option String

-- One systemd unit of a service, as the manager reports it.
pub record Instance : Type 0 where
  pub id : String
  pub state : String

-- A service that the manager reports; no extra information is the same as no instances.
pub record Service : Type 0 where
  pub display_name : String
  pub status : String
  pub instances : List Instance

pub record ManagerStatus : Type 0 where
  pub status : String
  pub services : List Service

-- More calls of the client library, over a world `W`.
pub record Resources (W : Type 0) : Type 0 where
  pub list_snapshots : Headers → W → Reply (List Snapshot) × W
  -- with the flags for credentials, logs and events
  pub create_snapshot : Headers → String → Bool → Bool → Bool → W → Reply Done × W
  pub download_snapshot : Headers → String → String → W → Reply Done × W
  pub upload_snapshot : Headers → String → String → W → Reply Snapshot × W
  -- with the flags for certificates and force
  pub restore_snapshot : Headers → String → Bool → Bool → W → Reply Execution × W
  pub snapshot_status : Headers → W → Reply String × W
  -- all executions, with those of system workflows
  pub list_all : Headers → W → Reply (List Execution) × W
  pub status_display : Execution → String
  pub executions_by_id : Headers → String → W → Reply (List Execution) × W
  -- the executions of a workflow on a deployment
  pub executions_of : Headers → String → String → W → Reply (List Execution) × W
  pub cancel : Headers → String → W → Reply Done × W
  pub deployments_of : Headers → String → W → Reply (List String) × W
  pub capabilities : Headers → String → W → Reply (Dict String) × W
  pub list_tenants : Headers → W → Reply (List String) × W
  pub list_plugins : Headers → W → Reply (List (String × (String × String))) × W
  pub list_blueprints : Headers → W → Reply (List String) × W
  pub list_secrets : Headers → W → Reply (List String) × W
  pub create_user : Headers → String → String → String → W → Reply Done × W
  pub manager_status : Headers → W → Reply ManagerStatus × W
  -- `ServiceStatus` and `NodeServiceStatus`
  pub healthy : String
  pub degraded : String
  pub fail : String
  pub active : String
  pub inactive : String
  -- the state of each kind of node of the cluster
  pub cluster_services : Headers → W → Reply (Dict String) × W

abbrev pub first : {S A : Type 0} → List A → Act S A
first [] = raise (other 1)
first (x ∷ xs) = pure x

abbrev pub check : {S : Type 0} → Bool → Act S Done
check b = if b then pass else raise assertion_error

module _ {W : Type 0} (api : Api W) (res : Resources W) where
  abbrev pub show_snapshot : Snapshot → String
  show_snapshot s = concat (s.id ∷ " - " ∷ s.status ∷ " - " ∷ or_else s.error "None" ∷ [])

  unfoldable pub log_snapshots : List Snapshot → Act (Session W) Done
  log_snapshots [] = pass
  log_snapshots (s ∷ rest) = log_line info (show_snapshot s) >> log_snapshots rest

  unfoldable pub list_snapshots : Act (Session W) Done
  list_snapshots = do
    log_line info "Listing snapshots:"
    snapshots ← request res.list_snapshots
    log_snapshots snapshots

  -- the second line for an execution: only where it has an error, and that is not empty
  abbrev log_error : Execution → Option String → Act (Session W) Done
  log_error e none = pass
  log_error e (some m) =
      if m == ""
      then pass
      else log_line warning (concat ("Execution " ∷ e.id ∷ " had error: " ∷ m ∷ []))

  unfoldable pub log_executions : List Execution → Act (Session W) Done
  log_executions [] = pass
  log_executions (e ∷ rest) = do
    log_line info (concat (e.id ∷ " (" ∷ e.workflow_id ∷ ") - " ∷ res.status_display e ∷ []))
    log_error e e.error
    log_executions rest

  unfoldable pub list_executions : Act (Session W) Done
  list_executions = do
    log_line info "Listing executions:"
    executions ← request res.list_all
    log_executions executions

  unfoldable log_capabilities : String → Dict String → Act (Session W) Done
  log_capabilities deployment_id [] = pass
  log_capabilities deployment_id ((name, value) ∷ rest) = do
    log_line info (concat (deployment_id ∷ " capability " ∷ name ∷ ": " ∷ value ∷ []))
    log_capabilities deployment_id rest

  unfoldable list_capabilities : String → Act (Session W) Done
  list_capabilities deployment_id = do
    log_line info (concat ("Listing capabilities for " ∷ deployment_id ∷ []))
    found ← request (λ h. res.capabilities h deployment_id)
    log_capabilities deployment_id found

  -- `{snapshot['id']: snapshot['status'] for snapshot in snapshots}`, into a dict
  unfoldable pub states_of : List Snapshot → Dict String → Dict String
  states_of [] existing = existing
  states_of (s ∷ rest) existing = states_of rest (put s.id s.status existing)

  abbrev pub check_state : Option String → Act (Session W) Done
  check_state none = raise assertion_error
  check_state (some state) = check (state == "created")

  -- one attempt of `assert_snapshot_created`
  unfoldable pub created_attempt : String → Act (Session W) Done
  created_attempt snapshot_id = do
    snapshots ← request res.list_snapshots
    check_state (get snapshot_id (states_of snapshots []))

  unfoldable pub assert_snapshot_created : Retrying (Session W) → String → Act (Session W) Done
  assert_snapshot_created r snapshot_id = r.retry Done 20 5000 (created_attempt snapshot_id)

  -- one attempt of `wait_for_execution_status`
  unfoldable status_attempt : String → String → Act (Session W) Done
  status_attempt execution_id status = do
    exec_list ← request (λ h. res.executions_by_id h execution_id)
    execution ← first exec_list
    check (execution.status == status)

  unfoldable wait_for_execution_status :
      Retrying (Session W) → String → String → Act (Session W) Done
  wait_for_execution_status r execution_id status =
      r.retry Done 100 250 (status_attempt execution_id status)

  unfoldable get_deployment_by_blueprint : Retrying (Session W) → String → Act (Session W) String
  get_deployment_by_blueprint r blueprint_id =
      r.retry String 200 250 (request (λ h. res.deployments_of h blueprint_id) >>= first)

  -- one attempt of `cancel_install`
  unfoldable cancel_attempt : String → Act (Session W) Done
  cancel_attempt deployment_id = do
    exec_list ← request (λ h. res.executions_of h "install" deployment_id)
    execution ← first exec_list
    check (execution.status == "started")
    request (λ h. res.cancel h execution.id)

  unfoldable cancel_install : Retrying (Session W) → String → Act (Session W) Done
  cancel_install r deployment_id = r.retry Done 100 250 (cancel_attempt deployment_id)

  abbrev service_state : String → Dict String → Act (Session W) String
  service_state kind services = elim (get kind services) [
    | none ↦ raise key_error
    | some state ↦ pure state
  ]

  -- one attempt of `validate_cluster_status`
  unfoldable pub cluster_attempt : String → String → Act (Session W) Done
  cluster_attempt expected_brokers_status expected_managers_status = do
    cluster_status ← request res.cluster_services
    manager_status ← request res.manager_status
    check (manager_status.status == res.healthy)
    managers ← service_state "manager" cluster_status
    check (managers == expected_managers_status)
    db ← service_state "db" cluster_status
    check (db == res.healthy)
    brokers ← service_state "broker" cluster_status
    check (brokers == expected_brokers_status)

  unfoldable pub validate_cluster_status :
      Retrying (Session W) → String → String → Act (Session W) Done
  validate_cluster_status r expected_brokers_status expected_managers_status =
      r.retry Done 30 2000 (cluster_attempt expected_brokers_status expected_managers_status)
