-- ===== src/Tests/Clusters.antt =====
-- A cluster that becomes healthy after a while.
use cloudify_system_tests.Prelude.{◌≡◌, refl, [], arith, leb, if◌then◌else◌}
use cloudify_system_tests.Act.{value, ok}
use cloudify_system_tests.Client.{Headers}
use cloudify_system_tests.Cluster.{ClusterCalls, ClusterStatus, assert_cluster_status}
use cloudify_system_tests.Cluster.Health.{after, assert_cluster_status_ends}
use cloudify_system_tests.Tests.Manager.{World, manager, start}
use cloudify_system_tests.Tests.Restores.{resources}

-- ten seconds after the start of the script
abbrev shown : Headers → World → ClusterStatus
shown h w = record { status = if leb 10000000 w.time then "OK" else "Degraded"; services = [] }

abbrev calls : ClusterCalls World
calls = record {
  cluster_status = λ h w. (value (shown h w), w);
  monotonic = λ w. (w.time, w);
  show_seconds = λ n. "some";
  run_on = λ n c w. (value "", w);
}

assert_cluster_status_ends_example :
    (assert_cluster_status manager resources calls (start [] [])).0 ≡ ok tt
unfolding after
assert_cluster_status_ends_example =
    assert_cluster_status_ends manager resources calls shown (λ h w. refl) 4 (start [] [])
      (omega arith) refl
