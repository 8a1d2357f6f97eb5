-- ===== src/ClusterManager/Laws.antt =====
-- What has been seen of a cluster that is reported to be upgraded.
use cloudify_system_tests.Prelude.{
  ◌≡◌, ap, ◌∙◌, String, Bool, true, false, List, [], ◌∷◌, ◌==◌, All, eq_iff,
}
use cloudify_system_tests.Value.{Value, text}
use cloudify_system_tests.Act.{Done, value, ok}
use cloudify_system_tests.Act.Ends.{Ends, Ends-bind, Ends-ok, Ends-err, Ends-if, result-ne-running}
use cloudify_system_tests.Act.Retry.{retry_inv}
use cloudify_system_tests.Act.Invert.{bind_inv, with_result}
use cloudify_system_tests.Client.{Session}
use cloudify_system_tests.Host.{Command}
use cloudify_system_tests.Managed.Agents.{get_manager_install_version}
use cloudify_system_tests.Resources.{check}
use cloudify_system_tests.Resources.Checks.{check_inv, check_returned, answered}
use cloudify_system_tests.ClusterManager.Config.{ClusterNode, item}
use cloudify_system_tests.ClusterManager.{
  ClusterSite, before_dash, is_text, on_node, cluster_status_attempt, verify_cluster_status,
  assert_manager_install_version_on_nodes, upgrade_cluster,
}

module _ {W : Type 0} (c : ClusterSite W) where
  abbrev status_command : Command
  status_command = record { text = "cfy cluster status --json"; use_sudo = false; warn_only = true }

  -- The node has shown the status of its cluster as `OK`.
  abbrev pub SeenHealthy : ClusterNode → Type 0
  SeenHealthy node =
      (w : W) × (shown : String) × (status : Value) × ((c.run_warned node.vm status_command w).0
        ≡ value (true, shown))
      × (c.load_json shown ≡ value status)
      × (item "status" status ≡ value (text "OK"))

  is_text_ok : (v : Value) → is_text "OK" v ≡ true → v ≡ text "OK"
  is_text_ok (text t) e = ap text ((eq_iff t "OK").0 e)
  is_text_ok v e = cc

  cluster_status_attempt-SeenHealthy :
      (node : ClusterNode) (s t : Session W)
      → cluster_status_attempt c node s ≡ (ok tt, t)
      → SeenHealthy node
  unfolding cluster_status_attempt
  cluster_status_attempt-SeenHealthy node s t e =
      let (raw, ran, e1) = bind_inv _ _ s t tt e in
      let (good, e2) = check_inv raw.0 _ _ t tt e1 in
      let (status, parsed, e3) = bind_inv _ _ _ t tt e2 in
      let (v, held, e4) = bind_inv _ _ _ t tt e3 in
      let (is_ok, _) = check_returned (is_text "OK" v) _ t e4 in
      (
        s.world,
        raw.1,
        status,
        answered _ raw ran ∙ ap (λ b. value (b, raw.1)) good,
        answered _ status parsed,
        answered _ v held ∙ ap value (is_text_ok v is_ok),
      )

  check-Ends : (b : Bool) → Ends {S = Session W} (check b)
  check-Ends b = Ends-if b _ _ (Ends-ok _ _) (Ends-err _)

  cluster_status_attempt-Ends : (node : ClusterNode) → Ends (cluster_status_attempt c node)
  unfolding cluster_status_attempt
  cluster_status_attempt-Ends node =
      Ends-bind _ _ (record { at = λ s. result-ne-running _ })
        λ raw. Ends-bind _ _ (check-Ends raw.0) λ _.
          Ends-bind _ _ (record { at = λ s. result-ne-running _ })
            λ status. Ends-bind _ _ (record { at = λ s. result-ne-running _ }) λ v. check-Ends _

  verify_cluster_status-SeenHealthy :
      (node : ClusterNode) (s t : Session W)
      → verify_cluster_status c node s ≡ (ok tt, t)
      → SeenHealthy node
  unfolding verify_cluster_status
  verify_cluster_status-SeenHealthy node s t e =
      let (u, p) =
        retry_inv c.session_retry Done 2000 (cluster_status_attempt c node)
          (λ u. (cluster_status_attempt-Ends node).at u) 59 s t tt e in
      cluster_status_attempt-SeenHealthy node u t p

  -- The node has told which version of the manager's package it has.
  abbrev pub ShowsVersion : String → ClusterNode → Type 0
  ShowsVersion version node =
      (w : W) × ((get_manager_install_version c.tester.machine
          (record { vm = node.vm; sent = []; world = w })).0
        ≡ ok version)

  versions_shown :
      (nodes : List ClusterNode) (version : String) (s t : Session W)
      → assert_manager_install_version_on_nodes c nodes version s ≡ (ok tt, t)
      → All (ShowsVersion version) nodes
  unfolding assert_manager_install_version_on_nodes
  versions_shown [] version s t e = tt
  versions_shown (node ∷ nodes) version s t e =
      let (installed, told, e1) =
        bind_inv (on_node node (get_manager_install_version c.tester.machine)) _ s t tt e in
      let (same, e2) = check_inv (installed == version) _ _ t tt e1 in
      (
        (s.world, told ∙ ap ok ((eq_iff installed version).0 same)),
        versions_shown nodes version _ t e2,
      )

  -- A cluster is reported to be upgraded only if each of its nodes has told that it has the version
  -- under test, as it reads up to its first dash, and the manager has shown the status of the cluster as
  -- OK.
  pub upgrade_cluster-IsUpgraded :
      (nodes_list : List ClusterNode) (manager : ClusterNode) (s t : Session W)
      → upgrade_cluster c nodes_list manager s ≡ (ok tt, t)
      → All (ShowsVersion (before_dash c.config.testing_version)) nodes_list × SeenHealthy manager
  unfolding upgrade_cluster
  upgrade_cluster-IsUpgraded nodes_list manager s t e =
      let (_, _, e1) = bind_inv _ _ s t tt e in
      let (rpm, _, e2) = bind_inv _ _ _ t tt e1 in
      let (_, _, e3) = bind_inv _ _ _ t tt e2 in
      let (_, _, e4) = bind_inv _ _ _ t tt e3 in
      let (_, shown, e5) =
        bind_inv
          (assert_manager_install_version_on_nodes c nodes_list
            (before_dash c.config.testing_version))
          _ _ t tt e4 in
      let (_, _, e6) = bind_inv _ _ _ t tt e5 in
      (
        versions_shown nodes_list _ _ _ (with_result _ (ok tt) shown),
        verify_cluster_status-SeenHealthy manager _ t e6,
      )
