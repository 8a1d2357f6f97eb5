-- ===== src/Execution/Outcome.antt =====
-- What a wait for an execution can return.
use cloudify_system_tests.Prelude.{
  inl, inr, Bool-cases, ℕ, zero, suc, ◌≡◌, String, Bool, true, false, Option, none, some, ◌==◌,
  is_in,
}
use cloudify_system_tests.Act.{Act, Error, ok, client_error, execution_failed}
use cloudify_system_tests.Act.Returns.{
  Returns, Fails, Returns-pure, Returns-raise, Returns-out_of_fuel, Returns-if, Returns-after,
  Returns-unreached,
}
use cloudify_system_tests.Client.{Api, Session, Execution}
use cloudify_system_tests.Client.Tenant.{set_client_tenant-Returns}
use cloudify_system_tests.Execution.{
  finish, fail_wait_for_execution, settle, respond, wait_loop, wait_for_execution,
}

module _ {W : Type 0} (api : Api W) where
  pub fail-Fails : (e : Execution) (x : Error) → Fails (fail_wait_for_execution api e x)
  unfolding fail_wait_for_execution
  fail-Fails e x = search (Returns-after, Returns-raise)

  -- An execution that has ended as it should.
  abbrev pub HasSucceeded : Execution → Type 0
  HasSucceeded e = ((e.status == api.terminated) ≡ true) × (is_in e.status api.end_states ≡ true)

  finish-Returns :
      (now : ℕ) (e : Execution)
      → is_in e.status api.end_states ≡ true
      → Returns HasSucceeded (finish api now e)
  unfolding finish
  finish-Returns now e ended = Returns-after _ _ λ _. Returns-after _ _ λ _.
      elim (Bool-cases (e.status == api.terminated)) [
        | inl done ↦ Returns-after _ _ λ _. Returns-after _ _ λ _. Returns-pure e (done, ended)
        | inr failed ↦ rw failed (Returns-unreached _ _ (fail-Fails e execution_failed))
      ]

  settle-Returns :
      (deadline now : ℕ) (e : Execution) (again : Execution → Act (Session W) Execution)
      → ((x : Execution) → Returns HasSucceeded (again x))
      → Returns HasSucceeded (settle api deadline now e again)
  unfolding settle
  settle-Returns deadline now e again h =
      Returns-after _ _ λ _. Returns-if _ _ _ (finish-Returns now e) (λ _. h e)

  respond-Returns :
      (allow : Bool) (deadline now : ℕ) (e : Execution) (x : Option Error)
      (again : Execution → Act (Session W) Execution)
      → ((x : Execution) → Returns HasSucceeded (again x))
      → Returns HasSucceeded (respond api allow deadline now e x again)
  unfolding respond
  respond-Returns allow deadline now e none again h = settle-Returns deadline now e again h
  respond-Returns true deadline now e (some (client_error m)) again h = search (Returns-after, h)
  respond-Returns false deadline now e (some (client_error m)) again h = Returns-raise _
  respond-Returns allow deadline now e (some x) again h = Returns-raise _

  wait_loop-Returns :
      (fuel : ℕ) (allow : Bool) (deadline prev : ℕ) (e : Execution)
      → Returns HasSucceeded (wait_loop api fuel allow deadline prev e)
  unfolding wait_loop
  wait_loop-Returns zero allow deadline prev e = Returns-out_of_fuel
  wait_loop-Returns (suc fuel) allow deadline prev e = Returns-after _ _ λ now.
      Returns-after _ _ λ answer.
        respond-Returns allow deadline now answer.0 answer.1 _
          (λ x. wait_loop-Returns fuel allow deadline now x)

  wait_for_execution-Returns :
      (fuel : ℕ) (execution : Execution) (tenant : Option String) (timeout : ℕ) (allow : Bool)
      → Returns HasSucceeded (wait_for_execution api fuel execution tenant timeout allow)
  unfolding wait_for_execution
  wait_for_execution-Returns fuel execution tenant timeout allow = Returns-after _ _ λ _.
      Returns-after _ _ λ now.
        Returns-after _ _
          λ _. set_client_tenant-Returns tenant _ (wait_loop-Returns fuel allow _ now execution)

  -- Whatever the manager answers, whatever the clock says and whichever errors are let pass, a wait
  -- returns only an execution in an end state, and that state is the one of success.
  pub wait_for_execution-HasSucceeded :
      (fuel : ℕ) (execution : Execution) (tenant : Option String) (timeout : ℕ) (allow : Bool)
      (s : Session W) (result : Execution)
      → (wait_for_execution api fuel execution tenant timeout allow s).0 ≡ ok result
      → HasSucceeded result
  wait_for_execution-HasSucceeded fuel execution tenant timeout allow =
      (wait_for_execution-Returns fuel execution tenant timeout allow).at
