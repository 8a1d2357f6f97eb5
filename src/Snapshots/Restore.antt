-- ===== src/Snapshots/Restore.antt =====
-- `restore_snapshot`: the wait for a restore, over password changes and a restarting manager.
pub mod Bounds
pub mod Outcome
use cloudify_system_tests.Prelude.{
  ℕ, zero, suc, ◌*◌, String, Bool, true, false, Option, none, some, if◌then◌else◌,
}
use cloudify_system_tests.Text.{text_in}
use cloudify_system_tests.Act.{
  Act, Done, Error, Result, ok, err, running, unauthorized, client_error, execution_failed,
  runtime_error, pass, pure, raise, catch, ◌>>=◌, ◌>>◌,
}
use cloudify_system_tests.Client.{Execution, error, request, log_line}
use cloudify_system_tests.Execution.{seconds, wait_for_execution}
use cloudify_system_tests.Managed.{Managed, in_session, sleep_for, change_rest_client_password}
use cloudify_system_tests.Resources.{list_snapshots, list_executions}
use cloudify_system_tests.Snapshots.{Tester, say, update_credentials}

pub record RestoreOptions : Type 0 where
  pub restore_certificates : Bool
  pub force : Bool
  pub wait_for_post_restore_commands : Bool
  pub wait_timeout : ℕ
  pub blocking : Bool

module _ {W : Type 0} (t : Tester W) where
  abbrev pub rest_for : ℕ → Act (Managed W) Done
  rest_for n = sleep_for t.machine.pause (seconds n)

  -- the exception that a wait ends with, if it does
  abbrev pub outcome_of : Result Execution → Act (Managed W) (Option Error)
  outcome_of (ok x) g = (ok none, g)
  outcome_of (err e) g = (ok (some e), g)
  outcome_of running g = (running, g)

  unfoldable pub attempt_wait : ℕ → Execution → Act (Managed W) (Option Error)
  attempt_wait fuel restore_execution g =
      let (r, g') =
        in_session (wait_for_execution t.api fuel restore_execution none (20 * 60) true) g in
      outcome_of r g'

  unfoldable pub renew_credentials : String → Act (Managed W) Done
  renew_credentials admin_password = do
    change_rest_client_password t.machine t.headers_of admin_password
    update_credentials t admin_password

  -- what follows a wait; `again` is the next round, by whether the password has been reset
  unfoldable pub react :
      String → Bool → (Bool → Act (Managed W) Bool) → Option Error → Act (Managed W) Bool
  react admin_password password_reset again none = pure true
  react admin_password password_reset again (some (unauthorized m)) = do
    if password_reset then pass else renew_credentials admin_password
    rest_for 2
    again true
  react admin_password password_reset again (some (client_error m)) = do
    rest_for 2
    again password_reset
  react admin_password password_reset again (some e) = raise e

  -- `while attempt < 60`, by the attempts that are left; the result is `completed`
  unfoldable pub restore_rounds : ℕ → Execution → String → ℕ → Bool → Act (Managed W) Bool
  restore_rounds fuel restore_execution admin_password zero password_reset = pure false
  restore_rounds fuel restore_execution admin_password (suc left) password_reset = do
    outcome ← attempt_wait fuel restore_execution
    react admin_password password_reset (restore_rounds fuel restore_execution admin_password left)
        outcome

  -- `except ExecutionFailed`
  unfoldable pub report_failed : Error → Act (Managed W) Bool
  report_failed execution_failed = do
    in_session (log_line error "Snapshot execution failed.")
    in_session (list_executions t.api t.res)
    raise execution_failed
  report_failed e = raise e

  unfoldable pub await_restore : ℕ → Execution → String → RestoreOptions → Act (Managed W) Done
  await_restore fuel restore_execution admin_password o = do
    say "Waiting to give time for snapshot to restore"
    rest_for 60
    completed ← catch (restore_rounds fuel restore_execution admin_password 60 false) report_failed
    if completed then pass else raise runtime_error
    if o.wait_for_post_restore_commands then rest_for o.wait_timeout else pass

  -- one attempt of `restore_snapshot`
  unfoldable pub restore_attempt : ℕ → String → String → RestoreOptions → Act (Managed W) Done
  restore_attempt fuel snapshot_id admin_password o = do
    in_session (list_snapshots t.api t.res)
    say "Restoring snapshot on latest manager.."
    restore_execution ←
        in_session
          (request (λ h. t.res.restore_snapshot h snapshot_id o.restore_certificates o.force))
    if o.blocking then await_restore fuel restore_execution admin_password o else pass

  -- `_retry_if_file_not_found`; `lower` is `str.lower`
  abbrev pub is_file_not_found : (String → String) → Error → Bool
  is_file_not_found lower e = text_in "no such file or directory" (lower (t.machine.show_error e))

  unfoldable pub restore_snapshot :
      ℕ → (String → String) → String → String → RestoreOptions → Act (Managed W) Done
  restore_snapshot fuel lower snapshot_id admin_password o =
      t.retry_if.retry Done (is_file_not_found lower) 15 1500
        (restore_attempt fuel snapshot_id admin_password o)
