-- ===== src/DeploymentUpdate/Laws.antt =====
-- What a deployment update that has returned has gone through.
use mathlib.Core.Path.{subst}
use cloudify_system_tests.Prelude.{
  eq_iff, ◌≡◌, ap, ◌∙◌, ◌*◌, ℕ, String, false, none, List, [], ◌∷◌, ◌==◌,
}
use cloudify_system_tests.Act.{Done, value, ok}
use cloudify_system_tests.Act.Ends.{Ends, Ends-bind, Ends-ok, Ends-err, Ends-if, result-ne-running}
use cloudify_system_tests.Act.Invert.{bind_inv, with_result}
use cloudify_system_tests.Act.Retry.{Retrying, retry_inv}
use cloudify_system_tests.Client.{Api, Session, Execution, Headers, request, log_line, info}
use cloudify_system_tests.Client.Tenant.{headers_in, set_client_tenant_inv}
use cloudify_system_tests.Execution.{wait_for_execution}
use cloudify_system_tests.Execution.Outcome.{HasSucceeded, wait_for_execution-HasSucceeded}
use cloudify_system_tests.Resources.{Resources, first}
use cloudify_system_tests.Resources.Checks.{answered, first_returned, check_returned}
use cloudify_system_tests.DeploymentUpdate.{
  Updates, UpdateRequest, update_attempt, wait_for_deployment_update, update_and_wait,
  update_deployment,
}

module _ {W : Type 0} (api : Api W) (res : Resources W) (updates : Updates W)
    (client_retry : Retrying (Session W)) where
  -- The first update by this execution has been listed as successful.
  abbrev IsListedSuccessful : String → Type 0
  IsListedSuccessful execution_id =
      (h : Headers) × (w : W) × (rest : List String) × ((updates.updates_of h execution_id w).0
        ≡ value ("successful" ∷ rest))

  first-Ends : {A : Type 0} (xs : List A) → Ends {S = Session W} (first xs)
  first-Ends [] = Ends-err _
  first-Ends (x ∷ xs) = Ends-ok x _

  update_attempt-Ends : (id : String) → Ends (update_attempt api res updates client_retry id)
  unfolding update_attempt
  update_attempt-Ends id = Ends-bind _ _ (Ends-ok _ _) λ _.
      Ends-bind _ _ (record { at = λ s. result-ne-running _ })
        λ found. Ends-bind _ _ (first-Ends found) λ state. Ends-if _ _ _ (Ends-ok _ _) (Ends-err _)

  update_attempt-Listed :
      (id : String) (s t : Session W)
      → update_attempt api res updates client_retry id s ≡ (ok tt, t)
      → IsListedSuccessful id
  unfolding update_attempt
  update_attempt-Listed id s t e =
      let (_, _, e1) = bind_inv (log_line info _) _ s t tt e in
      let (found, listed, e2) = bind_inv (request (λ h. updates.updates_of h id)) _ _ t tt e1 in
      let (state, head, e3) = bind_inv (first found) _ _ t tt e2 in
      let (good, _) = check_returned (state == "successful") _ t e3 in
      let (rest, split) = first_returned found _ state head in
      (
        _,
        _,
        rest,
        answered _ _ listed
            ∙ ap value (split ∙ ap (λ x. x ∷ rest) ((eq_iff state "successful").0 good)),
      )

  -- The manager has been asked for this update with these headers and in this world, a wait for the first
  -- execution that it lists under the id it answered has seen it succeed, and the update by it has been
  -- listed as successful.
  pub record Updated (fuel : ℕ) (u : UpdateRequest) (headers : Headers) (world : W) : Type 0 where
    pub execution_id : String
    pub asked :
        (updates.update_with_existing_blueprint headers u.deployment_id u.blueprint_id
          u.skip_reinstall u.inputs world).0
        ≡ value execution_id
    list_headers : Headers
    list_world : W
    pub listed : Execution
    pub others : List Execution
    pub listing :
        (res.executions_by_id list_headers execution_id list_world).0 ≡ value (listed ∷ others)
    pub session : Session W
    pub execution : Execution
    pub waited : (wait_for_execution api fuel listed none (20 * 60) false session).0 ≡ ok execution
    pub succeeded : HasSucceeded api execution
    pub successful : IsListedSuccessful execution_id

  update_and_wait-Updated :
      (fuel : ℕ) (u : UpdateRequest) (s t : Session W)
      → update_and_wait api res updates client_retry fuel u s ≡ (ok tt, t)
      → Updated fuel u s.headers s.world
  unfolding update_and_wait wait_for_deployment_update
  update_and_wait-Updated fuel u s t e =
      let (id, asked, e1) = bind_inv (request _) _ s t tt e in
      let (_, _, e2) = bind_inv (log_line info _) _ _ t tt e1 in
      let (found, shown, e3) = bind_inv (request (λ h. res.executions_by_id h id)) _ _ t tt e2 in
      let (execution, head, e4) = bind_inv (first found) _ _ t tt e3 in
      let (rest, split) = first_returned found _ execution head in
      let (ended, waited, e5) =
        bind_inv (wait_for_execution api fuel execution none (20 * 60) false) _ _ t tt e4 in
      let (_, listed, _) =
        bind_inv (client_retry.retry Done 10 5000 (update_attempt api res updates client_retry id))
          _ _ t tt e5 in
      let (v, done) =
        retry_inv client_retry Done 5000 (update_attempt api res updates client_retry id)
          (λ x. (update_attempt-Ends id).at x) 9 _ _ tt (with_result _ (ok tt) listed) in
      record {
        execution_id = id;
        asked = answered _ id asked;
        list_headers = _;
        list_world = _;
        listed = execution;
        others = rest;
        listing = answered _ found shown ∙ ap value split;
        session = _;
        execution = ended;
        waited = waited;
        succeeded =
            wait_for_execution-HasSucceeded api fuel execution none (20 * 60) false _ ended waited;
        successful = update_attempt-Listed id v _ done;
      }

  -- An update of a deployment under a named tenant returns only if it was asked for first of all, with the
  -- header of that tenant, and the first execution that was listed under the id of the answer was waited
  -- for with success, and the update by it was listed as successful.
  pub update_deployment-Updated :
      (fuel : ℕ) (tenant : String) (u : UpdateRequest) (s t : Session W)
      → update_deployment api res updates client_retry fuel tenant u s ≡ (ok tt, t)
      → Updated fuel u (headers_in tenant s.headers) s.world
  unfolding update_deployment
  update_deployment-Updated fuel tenant u s t e =
      let (v, same_headers, same_world, ran) =
        set_client_tenant_inv tenant (update_and_wait api res updates client_retry fuel u) s tt
          (ap (λ q. q.0) e) in
      subst (λ h. Updated fuel u h s.world) same_headers
        (subst (λ w. Updated fuel u v.headers w) same_world
          (update_and_wait-Updated fuel u v _ (with_result _ (ok tt) ran)))
