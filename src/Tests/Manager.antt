-- ===== src/Tests/Manager.antt =====
-- A manager that answers from a script, and waits, blocks and deletions run against it.
use cloudify_system_tests.Prelude.{
  ℕ, suc, ◌+◌, ◌≡◌, ◌≢◌, refl, String, true, false, some, none, List, [], ◌∷◌, arith,
}
use cloudify_system_tests.Dict.{get, put}
use cloudify_system_tests.Act.{
  deployment_deletion, Act, Done, Reply, value, fault, ok, err, running, client_error,
}
use cloudify_system_tests.Client.{Api, Session, Execution, Event}
use cloudify_system_tests.Client.Tenant.{
  cloudify_tenant_header, set_tenant, set_client_tenant, set_client_tenant_restores,
}
use cloudify_system_tests.Execution.{
  wait_for_execution, wait_loop, poll, poll_events, respond, settle, finish, output_events,
  show_events, output_event,
}
use cloudify_system_tests.Execution.Outcome.{HasSucceeded, wait_for_execution-HasSucceeded}
use cloudify_system_tests.Execution.Steps.{wait_for_execution-SameHeaders}
use cloudify_system_tests.Execution.Total.{Ticks, wait_for_execution_ends}
use cloudify_system_tests.Act.{◌>>=◌}
use cloudify_system_tests.Text.{ends_stripped, occurs}
use cloudify_system_tests.Tests.Attempts.{retry, retrying_with}
use cloudify_system_tests.Act.Retry.{Retrying}
use cloudify_system_tests.Client.{Headers}
use cloudify_system_tests.Deployment.Creation.{Awaited, create_deployment-Awaited}
use cloudify_system_tests.Deployment.{
  create_deployment, wait_for_blueprint_upload, blueprint_attempt, check_uploaded,
  wait_for_environment, prepare_and_get_test_tenant, ignore_existing, delete_deployment,
  deletion_rounds, deletion_round, still_waiting, check_deleted,
}
use cloudify_system_tests.Deployment.Deletion.{
  IsGone, delete_deployment-IsGone, delete_deployment-outcome,
}

-- The clock, the states that an execution has poll by poll, and what each listing shows.
pub record World : Type 0 where
  pub time : ℕ
  pub statuses : List String
  pub listings : List (List String)

abbrev pub of_status : String → Execution
of_status status = record { id = "e1"; workflow_id = "install"; status = status; error = none }

abbrev next_execution : List String → World → Reply Execution × World
next_execution [] w = (fault (client_error "not found"), w)
next_execution (s ∷ ss) w = (value (of_status s), record w { statuses = ss })

abbrev next_listing : List (List String) → World → Reply (List String) × World
next_listing [] w = (value [], w)
next_listing (l ∷ ls) w = (value l, record w { listings = ls })

abbrev shown : Event
shown = record {
  event_type = some "cloudify_event";
  level = none;
  message = some "Starting node";
  node_instance = some "vm_1";
  reported_timestamp = some "2020-01-01";
}

abbrev pub manager : Api World
manager = record {
  now = λ w. (w.time, record w { time = suc w.time });
  sleep = λ t w. record w { time = w.time + t };
  terminated = "terminated";
  end_states = "terminated" ∷ "failed" ∷ "cancelled" ∷ [];
  get_execution = λ h x w. next_execution w.statuses w;
  show_event = λ e. "event";
  list_events = λ h q w. (value (shown ∷ []), w);
  start_execution = λ h d x p w. (value (of_status "pending"), w);
  list_executions = λ h d w. (value (of_status "pending" ∷ []), w);
  create_deployment = λ h b d i v w. (value tt, w);
  delete_deployment = λ h d w. (value tt, w);
  list_deployments = λ h w. next_listing w.listings w;
  create_tenant = λ h t w. (fault (client_error "tenant already exists"), w);
  get_blueprint = λ h b w. (value (some "uploaded"), w);
  list_node_instances = λ h d w. (value (("vm_1", "vm") ∷ ("db_1", "db") ∷ []), w);
  get_node_instance = λ h i w. (value (("id", i) ∷ []), w);
}

abbrev pub start : List String → List (List String) → Session World
start statuses listings = record {
  headers = (cloudify_tenant_header, "default_tenant") ∷ [];
  log = [];
  world = record { time = 7; statuses = statuses; listings = listings };
}

next_execution_time : (ss : List String) (w : World) → (next_execution ss w).1.time ≡ w.time
next_execution_time [] w = refl
next_execution_time (s ∷ ss) w = refl

manager-Ticks : Ticks manager (λ w. w.time)
manager-Ticks = record {
  reads = λ w. refl;
  moves = λ w. omega arith;
  sleeps = λ t w. omega arith;
  gets_execution = λ h x w. omega (arith, next_execution_time w.statuses w);
  lists_events = λ h q w. omega arith;
}

-- a wait that sees a running execution, an error that may pass, and the end
abbrev waited : Session World
waited = start ("started" ∷ "terminated" ∷ []) []

waited_result :
    (wait_for_execution manager 9 (of_status "pending") (some "other_tenant") 900 true waited).0
    ≡ ok (of_status "terminated")
unfolding wait_for_execution wait_loop poll poll_events respond settle finish output_events
    show_events output_event set_client_tenant ◌>>=◌ get put ends_stripped
waited_result = refl

wait_for_execution-HasSucceeded_example : HasSucceeded manager (of_status "terminated")
wait_for_execution-HasSucceeded_example =
    wait_for_execution-HasSucceeded manager 9 (of_status "pending") (some "other_tenant") 900 true
      waited (of_status "terminated") waited_result

wait_for_execution_ends_example :
    (wait_for_execution manager 3000001
      (of_status "pending")
      (some "other_tenant")
      3
      true
      (start [] [])).0
    ≢ running
wait_for_execution_ends_example =
    wait_for_execution_ends manager (λ w. w.time) manager-Ticks 3000001 (of_status "pending")
      (some "other_tenant") 3 true (start [] []) (omega arith)

wait_for_execution-SameHeaders_example :
    (wait_for_execution manager 9
      (of_status "pending")
      (some "other_tenant")
      900
      false
      waited).1.headers
    ≡ waited.headers
wait_for_execution-SameHeaders_example =
    wait_for_execution-SameHeaders manager 9 (of_status "pending") (some "other_tenant") 900 false
      waited

-- a body that writes to the header itself and then raises
abbrev unruly : Act (Session World) Done
unruly s = (err (client_error "refused"), set_tenant "third_tenant" s)

set_client_tenant_restores_example :
    get cloudify_tenant_header (set_client_tenant (some "other_tenant") unruly waited).1.headers
    ≡ some "default_tenant"
unfolding get
set_client_tenant_restores_example =
    set_client_tenant_restores "other_tenant" "default_tenant" unruly waited refl refl

-- The deployment is listed twice and then is not.
abbrev deleting : Session World
deleting = start [] (("d1" ∷ "d2" ∷ []) ∷ ("d1" ∷ []) ∷ ("d2" ∷ []) ∷ [])

delete_deployment-IsGone_example :
    IsGone manager "d1" (delete_deployment manager "d1" deleting).1.world
unfolding delete_deployment ◌>>=◌ deletion_rounds deletion_round still_waiting check_deleted
delete_deployment-IsGone_example =
    delete_deployment-IsGone manager "d1" deleting (delete_deployment manager "d1" deleting).1 refl

-- a manager that never takes the deployment out of its listing
abbrev stuck : Api World
stuck = record manager { list_deployments = λ h w. (value ("d1" ∷ []), w) }

delete_deployment-outcome_example :
    (delete_deployment stuck "d1" deleting).0 ≡ err deployment_deletion
delete_deployment-outcome_example =
    delete_deployment-outcome stuck "d1" true (λ h w. "d1" ∷ []) (λ h w. refl) (λ h w. refl)
      deleting refl

-- a manager that lists the execution that makes the environment
abbrev creating : Api World
creating = record manager {
  list_executions = λ h d w. (
    value (
        of_status "terminated"
        ∷ record {
          id = "e2";
          workflow_id = "create_deployment_environment";
          status = "pending";
          error = none;
        }
        ∷ []),
    w,
  );
}

abbrev settled : Session World
settled = start ("terminated" ∷ []) []

abbrev patient : Retrying (Session World)
patient = retrying_with (λ ms s. s)

created :
    create_deployment creating patient 9 "bp" "d1" [] false settled
    ≡ (ok tt, (create_deployment creating patient 9 "bp" "d1" [] false settled).1)
unfolding create_deployment wait_for_blueprint_upload blueprint_attempt check_uploaded retrying_with
    retry wait_for_environment wait_for_execution wait_loop poll poll_events respond settle finish
    output_events show_events output_event ends_stripped set_client_tenant ◌>>=◌ get put
created = refl

create_deployment-Awaited_example :
    (h : Headers) × (w : World) × (executions : List Execution) × ((creating.list_executions h "d1"
        w).0
      ≡ value executions)
    × Awaited creating 9 executions
        (create_deployment creating patient 9 "bp" "d1" [] false settled).1
create_deployment-Awaited_example =
    create_deployment-Awaited creating patient 9 "bp" "d1" [] false settled
      (create_deployment creating patient 9 "bp" "d1" [] false settled).1 created

tenant_prepared : (prepare_and_get_test_tenant manager true "test_1" waited).0 ≡ ok "test_1"
unfolding prepare_and_get_test_tenant ignore_existing occurs ◌>>=◌
tenant_prepared = refl
