-- ===== src/Deployment/Creation.antt =====
-- What a deployment that has been created, a tenant that has been prepared, and the node instances
-- that have been fetched have gone through.
use cloudify_system_tests.Prelude.{
  ℕ, ◌*◌, ◌≡◌, refl, ap, ◌∙◌, inl, inr, Bool-cases, String, Bool, true, false, none, List, [], ◌∷◌,
  ◌++◌, ◌==◌, if◌then◌else◌,
}
use cloudify_system_tests.Text.{text_in}
use cloudify_system_tests.Dict.{Dict}
use cloudify_system_tests.Act.{
  Done, Reply, value, fault, ok, client_error, unauthorized, result, continue, pass, pure, catch,
  ◌>>=◌,
}
use cloudify_system_tests.Act.Returns.{ok-injective}
use cloudify_system_tests.Act.Invert.{bind_inv, with_result}
use cloudify_system_tests.Act.Retry.{Retrying}
use cloudify_system_tests.Client.{Api, Session, Execution, Headers, request}
use cloudify_system_tests.Execution.{wait_for_execution}
use cloudify_system_tests.Execution.Outcome.{HasSucceeded, wait_for_execution-HasSucceeded}
use cloudify_system_tests.Deployment.{
  wait_for_environment, create_deployment, ignore_existing, prepare_and_get_test_tenant,
  get_instances, get_node_instances,
}

abbrev IsListed : Execution → List Execution → Type 0
IsListed e executions =
    (before : List Execution) × (after : List Execution) × (executions ≡ before ++ e ∷ after)

module _ {W : Type 0} (api : Api W) where
  -- The wait for an execution that creates an environment, which succeeded, has led to this state.
  abbrev pub Awaited : ℕ → List Execution → Session W → Type 0
  Awaited fuel executions t =
      (e : Execution) × (x : Execution) × (u : Session W) × IsListed e executions
      × ((e.workflow_id == "create_deployment_environment") ≡ true)
      × (wait_for_execution api fuel e none (20 * 60) false u ≡ (ok x, t))
      × HasSucceeded api x

  wait_for_environment-Awaited :
      (fuel : ℕ) (executions : List Execution) (s t : Session W)
      → wait_for_environment api fuel executions s ≡ (ok tt, t)
      → Awaited fuel executions t
  unfolding wait_for_environment
  wait_for_environment-Awaited fuel [] s t h = cc (ap (λ q. q.0) h)
  wait_for_environment-Awaited fuel (e ∷ executions) s t h =
      elim (Bool-cases (e.workflow_id == "create_deployment_environment")) [
        | inl found ↦
            let (x, answered, rest) =
              bind_inv (wait_for_execution api fuel e none (20 * 60) false) (λ _. pass) s t tt
                (rw found at h) in
            let ended = with_result _ (ok x) answered ∙ ap (λ q. (ok x, q.1)) rest in
            (
              e,
              x,
              s,
              ([], executions, refl),
              found,
              ended,
              wait_for_execution-HasSucceeded api fuel e none (20 * 60) false s x answered,
            )
        | inr missing ↦
            let (f, x, u, (before, after, split), named, ended, good) =
              wait_for_environment-Awaited fuel executions s t (rw missing at h) in
            (f, x, u, (e ∷ before, after, ap (λ l. e ∷ l) split), named, ended, good)
      ]

  answer_value : {A : Type 0} (r : Reply A) (a : A) → result r ≡ ok a → r ≡ value a
  answer_value (value b) a e = ap value (ok-injective e)
  answer_value (fault x) a e = cc

  -- A deployment that is reported as created has been listed with an execution that creates its
  -- environment, and the wait for that execution has succeeded, at once before.
  pub create_deployment-Awaited :
      (r : Retrying (Session W)) (fuel : ℕ) (blueprint_id deployment_id : String)
      (inputs : Dict String) (skip_plugins_validation : Bool) (s t : Session W)
      → create_deployment api r fuel blueprint_id deployment_id inputs skip_plugins_validation s
        ≡ (ok tt, t)
      → (h : Headers) × (w : W) × (executions : List Execution) × ((api.list_executions h
            deployment_id w).0
          ≡ value executions)
        × Awaited fuel executions t
  unfolding create_deployment
  create_deployment-Awaited r fuel blueprint_id deployment_id inputs skip s t e =
      let (_, _, e1) = bind_inv _ _ s t tt e in
      let (_, _, e2) = bind_inv _ _ _ t tt e1 in
      let (_, _, e3) = bind_inv _ _ _ t tt e2 in
      let (_, _, e4) = bind_inv _ _ _ t tt e3 in
      let (executions, listed, e5) =
        bind_inv (request (λ h. api.list_executions h deployment_id))
          (wait_for_environment api fuel) _ t tt e4 in
      (
        _,
        _,
        executions,
        answer_value _ executions listed,
        wait_for_environment-Awaited fuel executions _ t e5,
      )

  -- The listed instances of a node, in order, each as it is fetched.
  abbrev fetched : (String → Dict String) → String → List (String × String) → List (Dict String)
  fetched instance node_name [] = []
  fetched instance node_name ((id, node_id) ∷ rest) =
      if node_id == node_name
      then instance id ∷ fetched instance node_name rest
      else fetched instance node_name rest

  module _ (instance_of : String → Dict String)
      (fetches : (h : Headers) (id : String) (w : W)
        → (api.get_node_instance h id w).0 ≡ value (instance_of id)) where
    get_instances-fetched :
        (node_name : String) (listed : List (String × String)) (s : Session W)
        → (get_instances api node_name listed s).0 ≡ ok (fetched instance_of node_name listed)
    unfolding get_instances ◌>>=◌
    get_instances-fetched node_name [] s = refl
    get_instances-fetched node_name ((id, node_id) ∷ rest) s =
        elim (Bool-cases (node_id == node_name)) [
          | inl same ↦
              rw (same, fetches s.headers id s.world)
                (rw
                  (get_instances-fetched node_name rest
                    (record s { world = (api.get_node_instance s.headers id s.world).1 }))
                  refl)
          | inr other ↦ rw other (get_instances-fetched node_name rest s)
        ]

    -- Where every node instance can be fetched, what is returned is the listed instances of the node,
    -- in the order of the listing.
    get_node_instances-fetched :
        (node_name deployment_id : String) (listed : List (String × String)) (s : Session W)
        → (api.list_node_instances s.headers deployment_id s.world).0 ≡ value listed
        → (get_node_instances api node_name deployment_id s).0
          ≡ ok (fetched instance_of node_name listed)
    unfolding get_node_instances ◌>>=◌
    get_node_instances-fetched node_name deployment_id listed s e =
        rw e (get_instances-fetched node_name listed _)

  -- The answers to a request for a new tenant that the code takes for success.
  abbrev IsTolerated : Reply Done → Type 0
  IsTolerated (value d) = Unit
  IsTolerated (fault (client_error m)) = text_in "already exists" m ≡ true
  IsTolerated (fault (unauthorized m)) = text_in "already exists" m ≡ true
  IsTolerated (fault e) = ⊥

  tolerated :
      (r : Reply Done) (s : Session W) (name tenant : String)
      → (continue
          (catch (λ u. (result r, u)) (ignore_existing api) s).0
          (λ _. pure name)
          (catch (λ u. (result r, u)) (ignore_existing api) s).1).0
        ≡ ok tenant
      → IsTolerated r × (name ≡ tenant)
  unfolding ignore_existing
  tolerated (value d) s name tenant e = (tt, ok-injective e)
  tolerated (fault (client_error m)) s name tenant e =
      elim (Bool-cases (text_in "already exists" m)) [
        | inl there ↦ (there, ok-injective (rw there at e))
        | inr absent ↦ cc (rw absent at e)
      ]
  tolerated (fault (unauthorized m)) s name tenant e =
      elim (Bool-cases (text_in "already exists" m)) [
        | inl there ↦ (there, ok-injective (rw there at e))
        | inr absent ↦ cc (rw absent at e)
      ]
  tolerated (fault x) s name tenant e = cc

  abbrev IsPrepared : Bool → String → Session W → String → Type 0
  IsPrepared true name s tenant =
      IsTolerated (api.create_tenant s.headers name s.world).0 × (name ≡ tenant)
  IsPrepared false name s tenant = "default_tenant" ≡ tenant

  -- The tenant that a test is given is the default one on a community manager; on a premium manager
  -- it is the test's own, and the manager has created it or says that it exists.
  prepare_and_get_test_tenant-IsPrepared :
      (premium : Bool) (test_param tenant : String) (s : Session W)
      → (prepare_and_get_test_tenant api premium test_param s).0 ≡ ok tenant
      → IsPrepared premium test_param s tenant
  unfolding prepare_and_get_test_tenant ◌>>=◌
  prepare_and_get_test_tenant-IsPrepared true name tenant s e =
      tolerated (api.create_tenant s.headers name s.world).0
        (record s { world = (api.create_tenant s.headers name s.world).1 }) name tenant e
  prepare_and_get_test_tenant-IsPrepared false name tenant s e = ok-injective e
