-- ===== src/Example/Workflow.antt =====
-- What a workflow that an example runs leaves behind, however it ends.
use cloudify_system_tests.Prelude.{
  ℕ, sym, ◌≡◌, refl, ap, ◌∙◌, String, Bool, true, false, some, none, [], ◌*◌,
}
use cloudify_system_tests.Dict.{Dict}
use cloudify_system_tests.Act.{
  value, Act, Done, Error, Result, ok, err, running, continue, catch, raise, ◌>>=◌, ◌>>◌,
}
use cloudify_system_tests.Act.Moves.{Moves, Moves-bind}
use cloudify_system_tests.Act.Invert.{bind_inv, with_result}
use cloudify_system_tests.Client.{Api, Session, Execution, Headers, error, log_line, request}
use cloudify_system_tests.Resources.Checks.{answered}
use cloudify_system_tests.Execution.{wait_for_execution}
use cloudify_system_tests.Client.Tenant.{
  headers_in, set_client_tenant_inv, SameHeaders, set_client_tenant-SameHeaders,
}
use cloudify_system_tests.Execution.Outcome.{HasSucceeded, wait_for_execution-HasSucceeded}
use cloudify_system_tests.Execution.Steps.{wait_for_execution-SameHeaders}
use cloudify_system_tests.Act.Retry.{Retrying}
use cloudify_system_tests.Example.{
  Example, Site, Bench, on_session, set_installed, start_and_wait, execute, install,
}

module _ {W : Type 0} (api : Api W) (site : Site W) (premium : Bool)
    (client_retry : Retrying (Session W)) (retry : Retrying (Bench W)) where
  start_and_wait-SameHeaders :
      (fuel : ℕ) (id workflow : String) (parameters : Dict String)
      → Moves SameHeaders
          (start_and_wait api site premium client_retry retry fuel id workflow parameters)
  unfolding start_and_wait
  start_and_wait-SameHeaders fuel id workflow parameters =
      Moves-bind SameHeaders (λ s. refl) (λ s t u p q. q ∙ p) _ _ (record { at = λ s. refl })
        (λ execution. record {
          at = wait_for_execution-SameHeaders api fuel execution none (20 * 60) false;
        })

  -- A workflow of the example's deployment has been started under the example's tenant, and the wait for
  -- the execution that the manager answered, and that began at once, has seen it succeed.
  pub record Ran (fuel : ℕ) (workflow : String) (parameters : Dict String) (b : Bench W)
      : Type 0 where
    pub started : Execution
    pub asked :
        (api.start_execution
          (headers_in b.example.tenant b.session.headers)
          b.example.deployment_id
          workflow
          parameters
          b.session.world).0
        ≡ value started
    pub session : Session W
    at_once :
        session.world
        ≡ (api.start_execution
            (headers_in b.example.tenant b.session.headers)
            b.example.deployment_id
            workflow
            parameters
            b.session.world).1
    pub ended : Execution
    pub waited : (wait_for_execution api fuel started none (20 * 60) false session).0 ≡ ok ended
    pub succeeded : HasSucceeded api ended

  start_and_wait-Ran :
      (fuel : ℕ) (workflow : String) (parameters : Dict String) (b : Bench W) (s : Session W)
      (h : Headers) (w : W) (x : Execution)
      → s.headers ≡ h
      → s.world ≡ w
      → h ≡ headers_in b.example.tenant b.session.headers
      → w ≡ b.session.world
      → (start_and_wait api site premium client_retry retry fuel b.example.deployment_id workflow
          parameters s).0
        ≡ ok x
      → Ran fuel workflow parameters b
  unfolding start_and_wait
  start_and_wait-Ran fuel workflow parameters b s h w x p q p2 q2 e =
      let (execution, answer, e1) =
        bind_inv (request (λ h. api.start_execution h b.example.deployment_id workflow parameters))
          (λ execution. wait_for_execution api fuel execution none (20 * 60) false) s _ x
          (with_result _ (ok x) e) in
      let same =
        ap
          (λ (k : Headers).
            api.start_execution k b.example.deployment_id workflow parameters s.world)
          (p ∙ p2)
        ∙ ap
            (λ (v : W).
              api.start_execution (headers_in b.example.tenant b.session.headers)
                b.example.deployment_id workflow parameters v)
            (q ∙ q2) in
      record {
        started = execution;
        asked = ap (λ r. r.0) (sym same) ∙ answered _ execution answer;
        session = _;
        at_once = ap (λ r. r.1) same;
        ended = x;
        waited = ap (λ r. r.0) e1;
        succeeded =
            wait_for_execution-HasSucceeded api fuel execution none (20 * 60) false _ x
              (ap (λ r. r.0) e1);
      }

  -- the `except` clause of `execute`
  abbrev report : Error → Act (Bench W) Execution
  report e = on_session (log_line error "Error on deployment execution") >> raise e

  report_headers :
      (r : Result Execution) (b : Bench W)
      → (catch (λ u. (r, u)) report b).1.session.headers ≡ b.session.headers
  unfolding ◌>>=◌
  report_headers (ok x) b = refl
  report_headers (err e) b = refl
  report_headers running b = refl

  report_example :
      (r : Result Execution) (b : Bench W) → (catch (λ u. (r, u)) report b).1.example ≡ b.example
  unfolding ◌>>=◌
  report_example (ok x) b = refl
  report_example (err e) b = refl
  report_example running b = refl

  report_result :
      (r : Result Execution) (b : Bench W) (x : Execution)
      → (catch (λ u. (r, u)) report b).0 ≡ ok x
      → r ≡ ok x
  unfolding ◌>>=◌
  report_result (ok y) b x e = e
  report_result (err y) b x e = cc
  report_result running b x e = cc

  -- However a workflow ends, also by an exception, the client sends the headers that it sent before,
  -- and the example is as it was.
  execute-SameHeaders :
      (fuel : ℕ) (workflow_id : String) (parameters : Dict String) (b : Bench W)
      → ((execute api site premium client_retry retry fuel workflow_id parameters
            b).1.session.headers
          ≡ b.session.headers)
        × ((execute api site premium client_retry retry fuel workflow_id parameters b).1.example
            ≡ b.example)
  unfolding execute ◌>>=◌
  execute-SameHeaders fuel workflow parameters b = (
    report_headers _ _
        ∙ (set_client_tenant-SameHeaders (some b.example.tenant) _
              (start_and_wait-SameHeaders fuel b.example.deployment_id workflow parameters)).at
            _,
    report_example _ _,
  )

  execute-Ran :
      (fuel : ℕ) (workflow : String) (parameters : Dict String) (b : Bench W) (x : Execution)
      → (execute api site premium client_retry retry fuel workflow parameters b).0 ≡ ok x
      → Ran fuel workflow parameters b
  unfolding execute ◌>>=◌
  execute-Ran fuel workflow parameters b x e =
      let (s, p, q, run) =
        set_client_tenant_inv b.example.tenant
          (start_and_wait api site premium client_retry retry fuel b.example.deployment_id workflow
            parameters)
          _ x (report_result _ _ x e) in
      start_and_wait-Ran fuel workflow parameters b s _ _ x refl refl p q run

  -- The example counts as installed if the workflow has succeeded, and is as it was if not.
  abbrev pub Installed : ℕ → Bench W → Result Done × Bench W → Type 0
  Installed fuel b (ok d, t) =
      (t.example ≡ record (b.example) { installed = true }) × Ran fuel "install" [] b
  Installed fuel b (err e, t) = t.example ≡ b.example
  Installed fuel b (running, t) = t.example ≡ b.example

  Installed-after :
      (fuel : ℕ) (r : Result Execution) (b u : Bench W)
      → u.example ≡ b.example
      → ((x : Execution) → r ≡ ok x → Ran fuel "install" [] b)
      → Installed fuel b (continue r (λ _. set_installed true) u)
  Installed-after fuel (ok x) b u same h =
      (ap {A = Example} (λ e. record e { installed = true }) same, h x refl)
  Installed-after fuel (err e) b u same h = same
  Installed-after fuel running b u same h = same

  -- An installation that returns has started the workflow 'install' for the deployment of the example,
  -- under its tenant, and the wait for the execution that the manager answered has seen it succeed; it
  -- marks the example as installed and changes nothing else of it. One that does not return leaves the
  -- example as it was.
  pub install-Installed :
      (fuel : ℕ) (b : Bench W)
      → Installed fuel b (install api site premium client_retry retry fuel b)
  unfolding install ◌>>=◌
  install-Installed fuel b =
      Installed-after fuel _ b _ (execute-SameHeaders fuel "install" [] _).1 (λ x e.
        let ran = execute-Ran fuel "install" [] _ x e in
        record {
          started = ran.started;
          asked = ran.asked;
          session = ran.session;
          at_once = ran.at_once;
          ended = ran.ended;
          waited = ran.waited;
          succeeded = ran.succeeded;
        })
