-- ===== src/Hosts/Destroy.antt =====
-- `Hosts.destroy`: executions are stopped, and what the test had on the manager is removed.
pub mod Frame
pub mod Headers
pub mod Stopped
pub mod Removed
pub mod Laws
pub mod Failed
use cloudify_system_tests.Prelude.{
  ◌*◌, ℕ, zero, suc, ltb, String, Bool, true, false, Option, none, some, List, [], ◌∷◌, ◌==◌, is_in,
  or_else, if◌then◌else◌,
}
use cloudify_system_tests.Text.{concat, join}
use cloudify_system_tests.Dict.{Dict, put}
use cloudify_system_tests.Act.{
  Act, Done, runtime_error, pass, pure, raise, gets, modify, ◌>>=◌, ◌>>◌,
}
use cloudify_system_tests.Client.{Api, Session, Execution, info, error, request, log_line, pause}
use cloudify_system_tests.Client.Tenant.{set_tenant}
use cloudify_system_tests.Execution.{seconds, wait_for_execution, run_blocking_execution}
use cloudify_system_tests.Deployment.{delete_deployment}
use cloudify_system_tests.Hosts.{Plugin, Infrastructure, Teardown, Hosts, on_infra, log_hosts}

-- `self.deployments[1:]`
abbrev pub drop_first : List String → List String
drop_first [] = []
drop_first (d ∷ ds) = ds

-- `set(cancelled).difference(cancel_complete)`; a text may stand in it twice
unfoldable pub difference : List String → List String → List String
difference [] complete = []
difference (x ∷ xs) complete =
    let rest = difference xs complete in if is_in x complete then rest else x ∷ rest

-- `if passed:` and `if self.tenant:`
abbrev is_positive : Option ℕ → Bool
is_positive none = false
is_positive (some n) = ltb 0 n

module _ {W : Type 0} (api : Api W) (infra : Infrastructure W) where
  -- the first loop; what it gives is `cancelled`
  unfoldable pub stop_executions : List Execution → Act (Session W) (List String)
  stop_executions [] = pure []
  stop_executions (e ∷ rest) = do
    let others = stop_executions rest
    if e.workflow_id == "create_deployment_environment"
        then (log_line info (concat ("Skipping " ∷ e.id ∷ " (" ∷ e.workflow_id ∷ ")." ∷ []))
            >> others)
        else (do
          log_line info
              (concat ("Ensuring " ∷ e.id ∷ " (" ∷ e.workflow_id ∷ ") is not running." ∷ []))
          request (λ h. infra.kill h e.id)
          cancelled ← others
          pure (e.id ∷ cancelled))

  -- `for _ in range(n)`: whether the execution was seen to be cancelled
  unfoldable pub await_cancelled : ℕ → String → Act (Session W) Bool
  await_cancelled zero execution_id = pure false
  await_cancelled (suc n) execution_id = do
    let again = await_cancelled n execution_id
    execution ← request (λ h. api.get_execution h execution_id)
    log_line info (concat (execution_id ∷ " is in state " ∷ execution.status ∷ "." ∷ []))
    if execution.status == "cancelled" then pure true else (pause api (seconds 3) >> again)

  -- the second loop; what it gives is `cancel_complete`
  unfoldable pub check_cancelled : List String → Act (Session W) (List String)
  check_cancelled [] = pure []
  check_cancelled (execution_id ∷ rest) = do
    log_line info (concat ("Checking " ∷ execution_id ∷ " is cancelled." ∷ []))
    complete ← await_cancelled 30 execution_id
    others ← check_cancelled rest
    pure (if complete then execution_id ∷ others else others)

  unfoldable pub refuse_failures : List String → Act (Session W) Done
  unfolding join
  refuse_failures [] = pass
  refuse_failures (x ∷ xs) = do
    log_line error (
        concat (
          "Teardown failed due to the following executions not entering the correct state after kill-cancel: "
          ∷ join ", " (infra.in_set_order (x ∷ xs))
          ∷ []))
    raise runtime_error

  unfoldable pub ensure_stopped : Act (Session W) Done
  ensure_stopped = do
    log_line info "Ensuring executions are stopped."
    execs ← request infra.list_executions
    cancelled ← stop_executions execs
    cancel_complete ← check_cancelled cancelled
    refuse_failures (difference cancelled cancel_complete)

  -- `_start_undeploy_test_vms`, from the deployments that it goes through
  unfoldable pub start_undeploy : List String → Act (Hosts W) Done
  start_undeploy [] = pass
  start_undeploy (vm_id ∷ rest) = do
    log_hosts info (concat ("Uninstalling " ∷ vm_id ∷ []))
    execution ← on_infra (request (λ h. api.start_execution h vm_id "uninstall" []))
    modify (λ h. record h { test_vm_uninstalls = put vm_id execution h.test_vm_uninstalls })
    start_undeploy rest

  -- `_finish_undeploy_test_vms`: its two loops, over the same dict
  unfoldable pub await_uninstalls : ℕ → Dict Execution → Act (Session W) Done
  await_uninstalls fuel [] = pass
  await_uninstalls fuel ((vm_id, execution) ∷ rest) = do
    wait_for_execution api fuel execution none (20 * 60) false
    await_uninstalls fuel rest

  unfoldable pub delete_vms : Dict Execution → Act (Session W) Done
  delete_vms [] = pass
  delete_vms ((vm_id, execution) ∷ rest) = delete_deployment api vm_id >> delete_vms rest

  unfoldable pub finish_undeploy : ℕ → Act (Hosts W) Done
  finish_undeploy fuel = do
    uninstalls ← gets (λ h. h.test_vm_uninstalls)
    on_infra (await_uninstalls fuel uninstalls >> delete_vms uninstalls)

  unfoldable pub remove_infrastructure : ℕ → Act (Session W) Done
  remove_infrastructure fuel = do
    log_line info "Uninstalling infrastructure"
    run_blocking_execution api fuel "infrastructure" "uninstall" [] none (15 * 60)
    delete_deployment api "infrastructure"

  unfoldable pub delete_blueprints : List String → Act (Session W) Done
  delete_blueprints [] = pass
  delete_blueprints (blueprint ∷ rest) = do
    log_line info (concat ("Deleting " ∷ blueprint ∷ []))
    request (λ h. infra.delete_blueprint h blueprint)
    delete_blueprints rest

  -- A plugin of another tenant is shared, and stays.
  unfoldable pub delete_plugins : String → List Plugin → Act (Session W) Done
  delete_plugins tenant [] = pass
  delete_plugins tenant (p ∷ rest) = do
    let name = concat (p.package_name ∷ " (" ∷ p.id ∷ ")" ∷ [])
    if p.tenant_name == tenant
        then (do
          log_line info (concat ("Deleting " ∷ name ∷ []))
          request (λ h. infra.delete_plugin h p.id))
        else log_line info (concat ("Skipping shared " ∷ name ∷ []))
    delete_plugins tenant rest

  unfoldable pub delete_uploads : String → List String → Act (Session W) Done
  delete_uploads tenant blueprints = do
    log_line info "Deleting blueprints."
    delete_blueprints blueprints
    log_line info "Deleting plugins."
    plugins ← request infra.list_plugins
    delete_plugins tenant plugins

  unfoldable pub delete_tenant : String → Act (Hosts W) Done
  delete_tenant tenant = do
    log_hosts info (concat ("Deleting tenant " ∷ tenant ∷ []))
    on_infra (modify (set_tenant "default_tenant"))
    on_infra (request (λ h. infra.delete_tenant h tenant))
    modify (λ h. record h { tenant = none })

  -- what is done with the resources of the tenant, up to the tenant itself
  unfoldable pub destroy_resources : ℕ → String → Act (Hosts W) Done
  destroy_resources fuel tenant = do
    on_infra ensure_stopped
    deployments ← gets (λ h. h.deployments)
    start_undeploy (drop_first deployments)
    finish_undeploy fuel
    on_infra (remove_infrastructure fuel)
    blueprints ← gets (λ h. h.blueprints)
    on_infra (delete_uploads tenant blueprints)

  unfoldable pub destroy_tenant : ℕ → Option String → Act (Hosts W) Done
  destroy_tenant fuel none = pass
  destroy_tenant fuel (some tenant) =
      if tenant == "" then pass else (destroy_resources fuel tenant >> delete_tenant tenant)

  module _ (teardown : Teardown) where
    abbrev pub has_passed : Option Bool → Hosts W → Bool
    has_passed none h = is_positive (infra.testspassed h.session.world)
    has_passed (some passed) h = passed

    abbrev pub is_wanted : Bool → Bool
    is_wanted passed = if passed then teardown.on_success else teardown.on_failure

    abbrev pub outcome_name : Bool → String
    outcome_name passed = if passed then "passed" else "failed"

    -- `'{}'.format(self.test_identifier)`
    abbrev skipping : Bool → Option String → String
    skipping passed test_identifier = concat (
        "Tests "
        ∷ outcome_name passed
        ∷ (if passed
            then ", skipping teardown due to configuration.To tear down"
            else ", skipping teardown due to configuration. To tear down")
        ∷ ", clean deployments on your test manager under tenant "
        ∷ or_else test_identifier "None"
        ∷ [])

    unfoldable pub destroy : ℕ → Option Bool → Act (Hosts W) Done
    destroy fuel given = do
      passed ← gets (has_passed given)
      if is_wanted passed
          then (do
            log_hosts info
                (concat ("Preparing to destroy with " ∷ outcome_name passed ∷ " tests..." ∷ []))
            log_hosts info "Destroying test hosts.."
            tenant ← gets (λ h. h.tenant)
            destroy_tenant fuel tenant)
          else (do
            test_identifier ← gets (λ h. h.test_identifier)
            log_hosts info (skipping passed test_identifier))
