-- ===== src/Cluster/Failures.antt =====
-- The checks of a cluster in which nodes are stopped: syncthing on a manager, the databases, and the
-- brokers.
use cloudify_system_tests.Prelude.{String, ◌==◌}
use cloudify_system_tests.Dict.{get}
use cloudify_system_tests.Act.{
  Act, Done, Error, client_error, unauthorized, pass, raise, catch, ◌>>=◌, ◌>>◌,
}
use cloudify_system_tests.Act.Retry.{Retrying}
use cloudify_system_tests.Client.{Api, Session, info, request, log_line}
use cloudify_system_tests.Resources.{Resources, check}
use cloudify_system_tests.Cluster.{
  ClusterCalls, held, status_of, on_node, assert_cluster_status,
  assert_cluster_status_after_db_changes,
}

-- The clients of two managers of one cluster, in one world and with one log.
record Clients (W : Type 0) : Type 0 where
  mgr1 : Session W
  mgr2 : Session W

module _ {W : Type 0} where
  -- what happened to the world, and what was logged, since
  abbrev since : Session W → Session W → Session W
  since s other = record s { log = other.log; world = other.world }

  abbrev by_first : {A : Type 0} → Act (Session W) A → Act (Clients W) A
  by_first m c = let (r, s) = m c.mgr1 in (r, record { mgr1 = s; mgr2 = since c.mgr2 s })

  abbrev by_second : {A : Type 0} → Act (Session W) A → Act (Clients W) A
  by_second m c = let (r, s) = m c.mgr2 in (r, record { mgr1 = since c.mgr1 s; mgr2 = s })

module _ {W : Type 0} (api : Api W) (res : Resources W) (calls : ClusterCalls W) where
  -- the status of the manager, and that of its file synchronisation
  unfoldable check_manager : String → String → Act (Session W) Done
  check_manager status sync_status = do
    manager_status ← request res.manager_status
    check (manager_status.status == status)
    file_sync ← held (status_of "File Sync Service" manager_status.services)
    check (file_sync == sync_status)

  unfoldable check_degraded_managers : Act (Session W) Done
  check_degraded_managers = do
    cluster_status ← request calls.cluster_status
    manager_service ← held (get "manager" cluster_status.services)
    check (cluster_status.status == res.degraded)
    check (manager_service.status == res.degraded)

  -- one attempt of `_verify_status_when_syncthing_inactive`; `hostname` is the first manager's
  unfoldable syncthing_attempt : String → Act (Clients W) Done
  syncthing_attempt hostname = do
    by_first (log_line info "Stopping syncthing on one of the manager nodes")
    by_first (on_node api res calls hostname "supervisorctl stop cloudify-syncthing")
    by_first (log_line info "Checking status reporter with syncthing down...")
    by_first (check_manager res.fail res.inactive)
    by_second check_degraded_managers
    by_second (check_manager res.healthy res.active)
    by_first (log_line info "Starting syncthing on the failed manager")
    by_first (on_node api res calls hostname "supervisorctl start cloudify-syncthing")
    by_first (assert_cluster_status api res calls)

  unfoldable verify_status_when_syncthing_inactive :
      Retrying (Clients W) → String → Act (Clients W) Done
  verify_status_when_syncthing_inactive r hostname =
      r.retry Done 30 2000 (syncthing_attempt hostname)

  -- `except CloudifyClientError`: the error for a missing authorization is one of these too
  unfoldable expect_client_error : Error → Act (Session W) Done
  expect_client_error (client_error m) =
      log_line info "DB cluster is correctly not healthy with 2 nodes gone"
  expect_client_error (unauthorized m) =
      log_line info "DB cluster is correctly not healthy with 2 nodes gone"
  expect_client_error e = raise e

  -- one attempt of `_verify_status_when_postgres_inactive`, by the host names of the nodes
  unfoldable postgres_attempt : Retrying (Session W) → String → String → Act (Session W) Done
  postgres_attempt r db1 db2 = do
    log_line info "Stopping one of the db nodes"
    on_node api res calls db1 "supervisorctl stop patroni etcd"
    db_service ← assert_cluster_status_after_db_changes api res calls r res.degraded
    node_status ← held (get db1 db_service.nodes)
    check (node_status == res.fail)
    log_line info "Stopping another db node"
    on_node api res calls db2 "supervisorctl stop patroni etcd"
    catch (request calls.cluster_status >> pass) expect_client_error
    log_line info "Starting Patroni and Etcd on the failed db nodes"
    on_node api res calls db1 "supervisorctl start patroni etcd"
    on_node api res calls db2 "supervisorctl start patroni etcd"
    assert_cluster_status_after_db_changes api res calls r res.healthy
    pass

  unfoldable verify_status_when_postgres_inactive :
      Retrying (Session W) → String → String → Act (Session W) Done
  verify_status_when_postgres_inactive r db1 db2 = r.retry Done 12 5000 (postgres_attempt r db1 db2)

  -- one attempt of `_validate_status_when_one_rabbit_inactive`
  unfoldable one_rabbit_attempt : String → Act (Session W) Done
  one_rabbit_attempt broker = do
    log_line info "Checking status reporter with one rabbit down..."
    cluster_status ← request calls.cluster_status
    broker_service ← held (get "broker" cluster_status.services)
    check (cluster_status.status == res.degraded)
    check (broker_service.status == res.degraded)
    node_status ← held (get broker broker_service.nodes)
    check (node_status == res.fail)
    manager_status ← request res.manager_status
    check (manager_status.status == res.healthy)

  unfoldable validate_status_when_one_rabbit_inactive :
      Retrying (Session W) → String → Act (Session W) Done
  validate_status_when_one_rabbit_inactive r broker =
      r.retry Done 30 2000 (one_rabbit_attempt broker)

  -- one attempt of `_validate_status_when_all_rabbits_inactive`
  unfoldable all_rabbits_attempt : Act (Session W) Done
  all_rabbits_attempt = do
    log_line info "Checking status reporter with all rabbits down..."
    cluster_status ← request calls.cluster_status
    check (cluster_status.status == "Fail")
    broker_service ← held (get "broker" cluster_status.services)
    check (broker_service.status == res.fail)
    manager_status ← request res.manager_status
    check (manager_status.status == "Fail")

  unfoldable validate_status_when_all_rabbits_inactive : Retrying (Session W) → Act (Session W) Done
  validate_status_when_all_rabbits_inactive r = r.retry Done 30 2000 all_rabbits_attempt

  unfoldable verify_status_when_rabbit_inactive :
      Retrying (Session W) → String → String → String → Act (Session W) Done
  verify_status_when_rabbit_inactive r broker1 broker2 broker3 = do
    log_line info "Stopping one of the rabbit nodes"
    on_node api res calls broker1 "supervisorctl stop cloudify-rabbitmq"
    validate_status_when_one_rabbit_inactive r broker1
    log_line info "Stopping the other rabbit nodes"
    on_node api res calls broker2 "supervisorctl stop cloudify-rabbitmq"
    on_node api res calls broker3 "supervisorctl stop cloudify-rabbitmq"
    validate_status_when_all_rabbits_inactive r
