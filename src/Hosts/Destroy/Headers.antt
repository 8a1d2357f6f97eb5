-- ===== src/Hosts/Destroy/Headers.antt =====
-- What a teardown asks of the manager, it asks under the headers that it began with.
use cloudify_system_tests.Prelude.{
  refl, ◌∙◌, ℕ, zero, suc, ◌*◌, String, Bool, true, false, Option, none, List, [], ◌∷◌,
  if◌then◌else◌, ◌==◌, Bool-cases, inl, inr, is_in,
}
use cloudify_system_tests.Dict.{Dict}
use cloudify_system_tests.Act.{Act, pure, ◌>>=◌, ◌>>◌}
use cloudify_system_tests.Act.Moves.{Moves, Moves-bind, Moves-if}
use cloudify_system_tests.Client.{Api, Session, Execution, request, pause}
use cloudify_system_tests.Client.Tenant.{SameHeaders, set_client_tenant-SameHeaders}
use cloudify_system_tests.Execution.{run_blocking_execution, seconds}
use cloudify_system_tests.Execution.Steps.{wait_for_execution-SameHeaders}
use cloudify_system_tests.Deployment.{
  still_waiting, deletion_round, deletion_rounds, check_deleted, delete_deployment,
}
use cloudify_system_tests.Hosts.{on_infra, Plugin, Infrastructure, Hosts}
use cloudify_system_tests.Hosts.Destroy.{
  stop_executions, await_cancelled, check_cancelled, refuse_failures, ensure_stopped,
  start_undeploy, await_uninstalls, delete_vms, finish_undeploy, remove_infrastructure,
  delete_blueprints, delete_plugins, delete_uploads, destroy_resources,
}

module _ {W : Type 0} where
  abbrev then_kept :
      {A B : Type 0} (m : Act (Session W) A) (f : A → Act (Session W) B)
      → Moves SameHeaders m
      → ((a : A) → Moves SameHeaders (f a))
      → Moves SameHeaders (m >>= f)
  then_kept = Moves-bind SameHeaders (λ s. refl) (λ s t u p q. q ∙ p)

  if_kept :
      {A : Type 0} (b : Bool) (m n : Act (Session W) A)
      → Moves SameHeaders m
      → Moves SameHeaders n
      → Moves SameHeaders (if b then m else n)
  if_kept = Moves-if SameHeaders (λ s. refl) (λ s t u p q. q ∙ p)

module _ {W : Type 0} (api : Api W) where
  waiting_kept : (id : String) (found : Bool) → Moves SameHeaders (still_waiting api id found)
  unfolding still_waiting ◌>>=◌
  waiting_kept id true = record { at = λ s. refl }
  waiting_kept id false = record { at = λ s. refl }

  round_kept :
      (id : String) (again : Bool → Act (Session W) Bool) (ds : List String)
      → ((found : Bool) → Moves SameHeaders (again found))
      → Moves SameHeaders (deletion_round api id again ds)
  unfolding deletion_round
  round_kept id again [] h = record { at = λ s. refl }
  round_kept id again (d ∷ ds) h =
      then_kept _ _ (waiting_kept id (is_in id (d ∷ ds))) λ _. h (is_in id (d ∷ ds))

  rounds_kept :
      (n : ℕ) (id : String) (found : Bool) → Moves SameHeaders (deletion_rounds api n id found)
  unfolding deletion_rounds
  rounds_kept zero id found = record { at = λ s. refl }
  rounds_kept (suc n) id found =
      then_kept _ _ (record { at = λ s. refl }) λ ds. round_kept id _ ds (rounds_kept n id)

  checked_kept : (found : Bool) → Moves SameHeaders (check_deleted api found)
  unfolding check_deleted
  checked_kept true = record { at = λ s. refl }
  checked_kept false = record { at = λ s. refl }

  pub delete_deployment-SameHeaders : (id : String) → Moves SameHeaders (delete_deployment api id)
  unfolding delete_deployment
  delete_deployment-SameHeaders id =
      then_kept _ _ (record { at = λ s. refl })
        λ _.
          then_kept _ _ (record { at = λ s. refl })
            λ _.
              then_kept _ _ (record { at = λ s. refl })
                λ _. then_kept _ _ (rounds_kept 40 id false) checked_kept

  pub run_blocking-SameHeaders :
      (fuel : ℕ) (deployment_id workflow_id : String) (parameters : Dict String)
      (tenant : Option String) (timeout : ℕ)
      → Moves SameHeaders
          (run_blocking_execution api fuel deployment_id workflow_id parameters tenant timeout)
  unfolding run_blocking_execution
  run_blocking-SameHeaders fuel deployment_id workflow_id parameters tenant timeout =
      then_kept _ _
        (set_client_tenant-SameHeaders tenant
          (request (λ h. api.start_execution h deployment_id workflow_id parameters))
          (record { at = λ s. refl }))
        λ e.
          then_kept _ _
            (record { at = wait_for_execution-SameHeaders api fuel e tenant timeout false })
            λ _. record { at = λ s. refl }

  module _ (infra : Infrastructure W) where
    pub stop_executions-SameHeaders :
        (es : List Execution) → Moves SameHeaders (stop_executions api infra es)
    unfolding stop_executions
    stop_executions-SameHeaders [] = record { at = λ s. refl }
    stop_executions-SameHeaders (e ∷ es) = record {
      at = λ s. elim (Bool-cases (e.workflow_id == "create_deployment_environment")) [
        | inl env ↦
            rw env
              ((then_kept _ _ (record { at = λ s. refl }) λ _. stop_executions-SameHeaders es).at s)
        | inr other ↦ rw other (
            (then_kept _ _ (record { at = λ s. refl })
                λ _.
                  then_kept _ _ (record { at = λ s. refl })
                    λ _.
                      then_kept _ _ (stop_executions-SameHeaders es)
                        λ _. record { at = λ s. refl }).at
              s)
      ];
    }

    pub await_cancelled-SameHeaders :
        (n : ℕ) (id : String) → Moves SameHeaders (await_cancelled api infra n id)
    unfolding await_cancelled
    await_cancelled-SameHeaders zero id = record { at = λ s. refl }
    await_cancelled-SameHeaders (suc n) id =
        then_kept _ _ (record { at = λ s. refl })
          λ e.
            then_kept _ _ (record { at = λ s. refl })
              λ _.
                if_kept (e.status == "cancelled") (pure true)
                  (pause api (seconds 3) >> await_cancelled api infra n id)
                  (record { at = λ s. refl })
                  (then_kept _ _ (record { at = λ s. refl }) λ _. await_cancelled-SameHeaders n id)

    check_cancelled-SameHeaders :
        (ids : List String) → Moves SameHeaders (check_cancelled api infra ids)
    unfolding check_cancelled
    check_cancelled-SameHeaders [] = record { at = λ s. refl }
    check_cancelled-SameHeaders (id ∷ ids) =
        then_kept _ _ (record { at = λ s. refl })
          λ _.
            then_kept _ _ (await_cancelled-SameHeaders 30 id)
              λ _. then_kept _ _ (check_cancelled-SameHeaders ids) λ _. record { at = λ s. refl }

    refuse_kept : (ids : List String) → Moves SameHeaders (refuse_failures api infra ids)
    unfolding refuse_failures ◌>>=◌
    refuse_kept [] = record { at = λ s. refl }
    refuse_kept (id ∷ ids) = record { at = λ s. refl }

    pub ensure_stopped-SameHeaders : Moves SameHeaders (ensure_stopped api infra)
    unfolding ensure_stopped
    ensure_stopped-SameHeaders =
        then_kept _ _ (record { at = λ s. refl })
          λ _.
            then_kept _ _ (record { at = λ s. refl })
              λ es. then_kept _ _ (stop_executions-SameHeaders es) λ cancelled.
                then_kept _ _ (check_cancelled-SameHeaders cancelled) λ complete. refuse_kept _

    pub await_uninstalls-SameHeaders :
        (fuel : ℕ) (d : Dict Execution) → Moves SameHeaders (await_uninstalls api infra fuel d)
    unfolding await_uninstalls
    await_uninstalls-SameHeaders fuel [] = record { at = λ s. refl }
    await_uninstalls-SameHeaders fuel ((vm_id, e) ∷ d) =
        then_kept _ _
          (record { at = wait_for_execution-SameHeaders api fuel e none (20 * 60) false })
          λ _. await_uninstalls-SameHeaders fuel d

    delete_vms-SameHeaders : (d : Dict Execution) → Moves SameHeaders (delete_vms api infra d)
    unfolding delete_vms
    delete_vms-SameHeaders [] = record { at = λ s. refl }
    delete_vms-SameHeaders ((vm_id, e) ∷ d) =
        then_kept _ _ (delete_deployment-SameHeaders vm_id) λ _. delete_vms-SameHeaders d

    -- The session of the hosts sends what it sent before.
    abbrev SameSession : Hosts W → Hosts W → Type 0
    SameSession s t = SameHeaders s.session t.session

    pub start_undeploy-SameSession :
        (ds : List String) → Moves SameSession (start_undeploy api infra ds)
    unfolding start_undeploy
    start_undeploy-SameSession [] = record { at = λ s. refl }
    start_undeploy-SameSession (d ∷ ds) =
        Moves-bind SameSession (λ s. refl) (λ s t u p q. q ∙ p) _ _ (record { at = λ s. refl })
          λ _.
            Moves-bind SameSession (λ s. refl) (λ s t u p q. q ∙ p) _ _ (record { at = λ s. refl })
              λ _.
                Moves-bind SameSession (λ s. refl) (λ s t u p q. q ∙ p) _ _
                  (record { at = λ s. refl }) λ _. start_undeploy-SameSession ds

    pub finish_undeploy-SameSession :
        (fuel : ℕ) → Moves SameSession (finish_undeploy api infra fuel)
    unfolding finish_undeploy
    finish_undeploy-SameSession fuel =
        Moves-bind SameSession (λ s. refl) (λ s t u p q. q ∙ p) _ _ (record { at = λ s. refl })
          λ d. record {
            at = λ s.
                (then_kept _ _ (await_uninstalls-SameHeaders fuel d)
                    λ _. delete_vms-SameHeaders d).at
                  s.session;
          }

    blueprints_kept : (bs : List String) → Moves SameHeaders (delete_blueprints api infra bs)
    unfolding delete_blueprints
    blueprints_kept [] = record { at = λ s. refl }
    blueprints_kept (b ∷ bs) =
        then_kept _ _ (record { at = λ s. refl })
          λ _. then_kept _ _ (record { at = λ s. refl }) λ _. blueprints_kept bs

    plugins_kept :
        (tenant : String) (ps : List Plugin)
        → Moves SameHeaders (delete_plugins api infra tenant ps)
    unfolding delete_plugins
    plugins_kept tenant [] = record { at = λ s. refl }
    plugins_kept tenant (p ∷ ps) = record {
      at = λ s. elim (Bool-cases (p.tenant_name == tenant)) [
        | inl own ↦ rw own (
            (then_kept _ _
                (then_kept _ _ (record { at = λ s. refl }) λ _. record { at = λ s. refl })
                λ _. plugins_kept tenant ps).at
              s)
        | inr shared ↦
            rw shared ((then_kept _ _ (record { at = λ s. refl }) λ _. plugins_kept tenant ps).at s)
      ];
    }

    uploads_kept :
        (tenant : String) (bs : List String)
        → Moves SameHeaders (delete_uploads api infra tenant bs)
    unfolding delete_uploads
    uploads_kept tenant bs =
        then_kept _ _ (record { at = λ s. refl })
          λ _. then_kept _ _ (blueprints_kept bs) λ _.
            then_kept _ _ (record { at = λ s. refl })
              λ _. then_kept _ _ (record { at = λ s. refl }) λ ps. plugins_kept tenant ps

    infrastructure_kept : (fuel : ℕ) → Moves SameHeaders (remove_infrastructure api infra fuel)
    unfolding remove_infrastructure
    infrastructure_kept fuel =
        then_kept _ _ (record { at = λ s. refl })
          λ _.
            then_kept _ _
              (run_blocking-SameHeaders fuel "infrastructure" "uninstall" [] none (15 * 60))
              λ _. delete_deployment-SameHeaders "infrastructure"

    in_session_kept :
        {A : Type 0} (m : Act (Session W) A) → Moves SameHeaders m → Moves SameSession (on_infra m)
    in_session_kept m h = record { at = λ s. h.at s.session }

    abbrev then_same :
        {A B : Type 0} (m : Act (Hosts W) A) (f : A → Act (Hosts W) B)
        → Moves SameSession m
        → ((a : A) → Moves SameSession (f a))
        → Moves SameSession (m >>= f)
    then_same = Moves-bind SameSession (λ s. refl) (λ s t u p q. q ∙ p)

    pub destroy_resources-SameSession :
        (fuel : ℕ) (tenant : String) → Moves SameSession (destroy_resources api infra fuel tenant)
    unfolding destroy_resources
    destroy_resources-SameSession fuel tenant =
        then_same _ _ (in_session_kept _ ensure_stopped-SameHeaders) λ _.
          then_same _ _ (record { at = λ s. refl })
            λ ds. then_same _ _ (start_undeploy-SameSession _) λ _.
              then_same _ _ (finish_undeploy-SameSession fuel) λ _.
                then_same _ _ (in_session_kept _ (infrastructure_kept fuel)) λ _.
                  then_same _ _ (record { at = λ s. refl })
                    λ bs. in_session_kept _ (uploads_kept tenant bs)
