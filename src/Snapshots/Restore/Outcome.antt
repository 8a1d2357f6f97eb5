-- ===== src/Snapshots/Restore/Outcome.antt =====
-- What a restore that has returned has gone through.
use cloudify_system_tests.Resources.Checks.{answered}
use cloudify_system_tests.Act.RetryIf.{retry_if_inv}
use mathlib.Core.Path.{subst}
use cloudify_system_tests.Prelude.{
  ap, Bool-cases, inl, inr, ◌≡◌, refl, ◌*◌, ℕ, zero, suc, String, Bool, true, false, Option, none,
  some,
}
use cloudify_system_tests.Act.{
  runtime_error, value, Done, Act, Error, Result, ok, err, running, unauthorized, client_error,
  execution_failed,
}
use cloudify_system_tests.Act.Returns.{
  Returns-if, Returns-unreached, Returns-known, Returns-catch, Returns, Returns-pure, Returns-raise,
  Returns-bind, Returns-after, Fails,
}
use cloudify_system_tests.Client.{Headers, Session, Execution}
use cloudify_system_tests.Execution.{wait_for_execution}
use cloudify_system_tests.Execution.Outcome.{HasSucceeded, wait_for_execution-HasSucceeded}
use cloudify_system_tests.Managed.{Managed}
use cloudify_system_tests.Snapshots.{Tester}
use cloudify_system_tests.Snapshots.Restore.{
  is_file_not_found, await_restore, restore_attempt, RestoreOptions, outcome_of, attempt_wait,
  react, restore_rounds, report_failed, restore_snapshot,
}

module _ {W : Type 0} (t : Tester W) where
  -- A wait for this execution has returned an execution that succeeded.
  abbrev HasEnded : ℕ → Execution → Type 0
  HasEnded fuel e =
      (s : Session W) × (x : Execution) × ((wait_for_execution t.api fuel e none (20 * 60) true s).0
        ≡ ok x)
      × HasSucceeded t.api x

  abbrev EndedBy : ℕ → Execution → Option Error → Type 0
  EndedBy fuel e none = HasEnded fuel e
  EndedBy fuel e (some x) = Unit

  abbrev EndedIf : ℕ → Execution → Bool → Type 0
  EndedIf fuel e true = HasEnded fuel e
  EndedIf fuel e false = Unit

  attempt_ended :
      (fuel : ℕ) (e : Execution) (g g' : Managed W) (r : Result Execution) (x : Option Error)
      → (wait_for_execution t.api fuel e none (20 * 60) true g.session).0 ≡ r
      → (outcome_of t r g').0 ≡ ok x
      → EndedBy fuel e x
  attempt_ended fuel e g g' (ok y) none p q = (
    g.session,
    y,
    p,
    wait_for_execution-HasSucceeded t.api fuel e none (20 * 60) true g.session y p,
  )
  attempt_ended fuel e g g' (ok y) (some x) p q = tt
  attempt_ended fuel e g g' (err y) none p q = cc
  attempt_ended fuel e g g' (err y) (some x) p q = tt
  attempt_ended fuel e g g' running x p q = cc

  attempt_wait-Returns :
      (fuel : ℕ) (e : Execution) → Returns (EndedBy fuel e) (attempt_wait t fuel e)
  unfolding attempt_wait
  attempt_wait-Returns fuel e = record { at = λ g x p. attempt_ended fuel e g _ _ x refl p }

  react-Returns :
      (fuel : ℕ) (e : Execution) (password : String) (reset : Bool)
      (again : Bool → Act (Managed W) Bool) (x : Option Error)
      → ((b : Bool) → Returns (EndedIf fuel e) (again b))
      → EndedBy fuel e x
      → Returns (EndedIf fuel e) (react t password reset again x)
  unfolding react
  react-Returns fuel e password reset again none h ended = Returns-pure true ended
  react-Returns fuel e password reset again (some (unauthorized m)) h ended =
      search (Returns-after, h)
  react-Returns fuel e password reset again (some (client_error m)) h ended =
      search (Returns-after, h)
  react-Returns fuel e password reset again (some x) h ended = Returns-raise x

  restore_rounds-Returns :
      (fuel : ℕ) (e : Execution) (password : String) (left : ℕ) (reset : Bool)
      → Returns (EndedIf fuel e) (restore_rounds t fuel e password left reset)
  unfolding restore_rounds
  restore_rounds-Returns fuel e password zero reset = Returns-pure false tt
  restore_rounds-Returns fuel e password (suc left) reset =
      Returns-bind (EndedBy fuel e) _ _ (attempt_wait-Returns fuel e) λ x ended.
        react-Returns fuel e password reset _ x (λ b. restore_rounds-Returns fuel e password left b)
          ended

  report_failed-Fails : (e : Error) → Fails (report_failed t e)
  unfolding report_failed
  report_failed-Fails execution_failed = search (Returns-after, Returns-raise)
  report_failed-Fails e = Returns-raise e

  await_restore-Returns :
      (fuel : ℕ) (e : Execution) (password : String) (o : RestoreOptions)
      → Returns (λ _. HasEnded fuel e) (await_restore t fuel e password o)
  unfolding await_restore
  await_restore-Returns fuel e password o = Returns-after _ _ λ _. Returns-after _ _ λ _.
      Returns-bind (EndedIf fuel e) _ _
        (Returns-catch _ (report_failed t) (restore_rounds-Returns fuel e password 60 false)
          λ x. record { at = λ s a p. absurd ((report_failed-Fails x).at s a p) })
        λ completed ended. elim (Bool-cases completed) [
          | inl finished ↦ Returns-known _ (λ _. subst (EndedIf fuel e) finished ended)
          | inr late ↦ rw late (Returns-unreached _ _ (Returns-raise runtime_error))
        ]

  -- The manager has been asked to restore the snapshot, with the options given, and a wait for the
  -- execution that it answered has returned one that succeeded.
  abbrev pub Restored : ℕ → String → RestoreOptions → Type 0
  Restored fuel snapshot_id o =
      (h : Headers) × (w : W) × (e : Execution) × ((t.res.restore_snapshot h snapshot_id
          o.restore_certificates o.force w).0
        ≡ value e)
      × HasEnded fuel e

  restore_attempt-Returns :
      (fuel : ℕ) (snapshot_id password : String) (o : RestoreOptions)
      → o.blocking ≡ true
      → Returns (λ _. Restored fuel snapshot_id o) (restore_attempt t fuel snapshot_id password o)
  unfolding restore_attempt
  restore_attempt-Returns fuel snapshot_id password o blocking = Returns-after _ _ λ _.
      Returns-after _ _ λ _.
        Returns-bind
          (λ e.
            (h : Headers) × (w : W) × ((t.res.restore_snapshot h snapshot_id o.restore_certificates
                o.force w).0
              ≡ value e))
          _ _ (record { at = λ g e p. (g.session.headers, g.session.world, answered _ e p) })
          λ e (h, w, p).
            Returns-if o.blocking _ _
              (λ _. record {
                at = λ g a q. (h, w, e, p, (await_restore-Returns fuel e password o).at g a q);
              })
              λ no. cc

  -- A restore that is to be waited for, and that returns, has asked the manager to restore this
  -- snapshot with these options, and waited for the execution that it answered to succeed. Neither the
  -- password changes nor the errors that were let pass on the way make it return without that.
  pub restore_snapshot-Restored :
      (fuel : ℕ) (lower : String → String) (snapshot_id password : String) (o : RestoreOptions)
      (g k : Managed W)
      → o.blocking ≡ true
      → restore_snapshot t fuel lower snapshot_id password o g ≡ (ok tt, k)
      → Restored fuel snapshot_id o
  unfolding restore_snapshot
  restore_snapshot-Restored fuel lower snapshot_id password o g k blocking e =
      let (s, done) =
        retry_if_inv t.retry_if Done (is_file_not_found t lower) 1500
          (restore_attempt t fuel snapshot_id password o) 14 g k tt e in
      (restore_attempt-Returns fuel snapshot_id password o blocking).at s tt (ap (λ q. q.0) done)
