-- ===== src/Cluster.antt =====
-- test_suites/cluster/cluster_status_shared.py: what the status of a cluster shows as nodes go down.
pub mod Health
pub mod Failures
use cloudify_system_tests.Prelude.{
  ℕ, zero, suc, ◌-◌, String, Bool, true, false, Option, none, some, List, [], ◌∷◌, ◌==◌,
  if◌then◌else◌,
}
use cloudify_system_tests.Text.{concat}
use cloudify_system_tests.Dict.{Dict, get}
use cloudify_system_tests.Act.{
  Act, Done, Error, Reply, assertion_error, client_error, unauthorized, key_error, result, ok, pass,
  pure, raise, catch, ◌>>=◌, ◌>>◌,
}
use cloudify_system_tests.Act.Retry.{Retrying}
use cloudify_system_tests.Client.{Api, Session, Headers, info, error, request, pause, log_line}
use cloudify_system_tests.Execution.{seconds}
use cloudify_system_tests.Host.{Command, sudo}
use cloudify_system_tests.Resources.{Resources, Service, ManagerStatus, check}

-- The state of one kind of node, and of each node by its host name.
pub record ServiceState : Type 0 where
  pub status : String
  pub nodes : Dict String

pub record ClusterStatus : Type 0 where
  pub status : String
  pub services : Dict ServiceState

-- More calls of the client library and of the clock, and the commands that go to a node.
pub record ClusterCalls (W : Type 0) : Type 0 where
  pub cluster_status : Headers → W → Reply ClusterStatus × W
  -- `time.monotonic`, in seconds
  pub monotonic : W → ℕ × W
  pub show_seconds : ℕ → String
  pub run_on : String → Command → W → Reply String × W

-- `d[key]`
abbrev pub held : {W A : Type 0} → Option A → Act (Session W) A
held none = raise key_error
held (some v) = pure v

-- the status of the service that is displayed under a name
unfoldable pub status_of : String → List Service → Option String
status_of name [] = none
status_of name (service ∷ services) =
    let rest = status_of name services in
    if service.display_name == name then some service.status else rest

module _ {W : Type 0} (api : Api W) (res : Resources W) (calls : ClusterCalls W) where
  abbrev pub read_clock : Act (Session W) ℕ
  read_clock s = let (t, w) = calls.monotonic s.world in (ok t, record s { world = w })

  abbrev pub on_node : String → String → Act (Session W) String
  on_node hostname command = request (λ h. calls.run_on hostname (sudo command))

  -- a round of `_assert_cluster_status`: the status, and the time taken so far
  unfoldable pub status_round : ℕ → Act (Session W) (ClusterStatus × ℕ)
  status_round start_time = do
    pause api (seconds 2)
    status ← request calls.cluster_status
    now ← read_clock
    pure (status, now - start_time)

  -- the rounds that are left, after one that took so long
  unfoldable pub health_rounds : ℕ → ℕ → ℕ → Act (Session W) Done
  health_rounds zero start_time time_taken = do
    log_line error
        (concat ("Did not become healthy in " ∷ calls.show_seconds time_taken ∷ " seconds." ∷ []))
    raise assertion_error
  health_rounds (suc left) start_time time_taken = do
    seen ← status_round start_time
    let again = health_rounds left start_time seen.1
    if seen.0.status == res.healthy
        then log_line info
            (concat ("Took " ∷ calls.show_seconds seen.1 ∷ " seconds to become healthy." ∷ []))
        else again

  unfoldable pub assert_cluster_status : Act (Session W) Done
  assert_cluster_status = do start_time ← read_clock; health_rounds 30 start_time 0

  -- one attempt of `_assert_cluster_status_after_db_changes`
  unfoldable pub db_attempt : String → Act (Session W) ServiceState
  db_attempt status = do
    log_line info "Check cluster status after DB changes"
    cluster ← request calls.cluster_status
    db_service ← held (get "db" cluster.services)
    check (cluster.status == status)
    check (db_service.status == status)
    manager_status ← request res.manager_status
    check (manager_status.status == res.healthy)
    log_line info "The cluster status is valid after DB changes"
    pure db_service

  unfoldable pub assert_cluster_status_after_db_changes :
      Retrying (Session W) → String → Act (Session W) ServiceState
  assert_cluster_status_after_db_changes r status = r.retry ServiceState 6 10000 (db_attempt status)
