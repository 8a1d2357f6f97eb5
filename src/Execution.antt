-- ===== src/Execution.antt =====
-- framework/util.py: waiting for an execution on the manager, and showing its events.
pub mod Outcome
pub mod Steps
pub mod Total
use cloudify_system_tests.Prelude.{
  false, ℕ, zero, suc, ◌+◌, ◌*◌, ◌/◌, String, Bool, Option, none, some, List, [], ◌∷◌, ◌==◌, leb,
  is_in, or_else, if◌then◌else◌,
}
use mathlib.Core.Option
use cloudify_system_tests.Dict
use cloudify_system_tests.Text.{concat, ends_stripped}
use cloudify_system_tests.Act.{
  Act, Done, Error, Result, ok, err, running, key_error, unauthorized, client_error,
  execution_failed, execution_timeout, out_of_fuel, pass, pure, raise, ◌>>=◌, ◌>>◌,
}
use cloudify_system_tests.Client.{
  Api, Session, Execution, Event, EventQuery, Level, debug, info, warning, error, request, clock,
  pause, log_line,
}
use cloudify_system_tests.Client.Tenant.{set_client_tenant}

-- `datetime` counts microseconds, `timedelta(seconds=n)` and `time.sleep(n)` seconds.
abbrev pub seconds : ℕ → ℕ
seconds n = n * 1000000

-- `log_methods`
abbrev log_method : Option String → Option Level
log_method none = none
log_method (some level) =
    if level == "debug"
    then some debug
    else if level == "info"
    then some info
    else if level == "warn"
    then some warning
    else if level == "warning"
    then some warning
    else if level == "error"
    then some error
    else none

abbrev event_level : Event → Option String
event_level event =
    if or_else event.event_type "" == "cloudify_event" then some "info" else event.level

abbrev event_prefix : Option String → String
event_prefix none = ""
event_prefix (some node_instance) =
    if node_instance == "" then "" else concat ("(" ∷ node_instance ∷ ") " ∷ [])

module _ {W : Type 0} (api : Api W) where
  -- one round of the loop of `output_events`
  unfoldable pub output_event : Event → Option Level → Act (Session W) Done
  output_event event none = do
    log_line warning
        (concat ("Unknown event level " ∷ or_else (event_level event) "None" ∷ "." ∷ []))
    log_line warning (concat ("Event was: " ∷ api.show_event event ∷ []))
  output_event event (some level) =
      let message = or_else event.message "<MESSSAGE NOT FOUND>" in
      if ends_stripped message "nothing to do"
      then pass
      else log_line level (concat (event_prefix event.node_instance ∷ message ∷ []))

  unfoldable pub show_events : List Event → Act (Session W) Done
  show_events [] = pass
  show_events (event ∷ events) =
      output_event event (log_method (event_level event)) >> show_events events

  abbrev query : Execution → Option ℕ → Option ℕ → EventQuery
  query execution from_time to_time = record {
    execution_id = execution.id;
    from_datetime = Option.map (λ t. t / 1000000) from_time;
    to_datetime = Option.map (λ t. t / 1000000) to_time;
  }

  unfoldable pub output_events : Execution → Option ℕ → Option ℕ → Act (Session W) Done
  output_events execution from_time to_time = do
    events ← request (λ h. api.list_events h (query execution from_time to_time))
    show_events events

  -- `'{reported_timestamp} {message}'.format(**event)`, for each event
  unfoldable pub report_event : Option String → Option String → Act (Session W) Done
  report_event (some t) (some m) = log_line error (concat (t ∷ " " ∷ m ∷ []))
  report_event _ _ = raise key_error

  unfoldable pub report_events : List Event → Act (Session W) Done
  report_events [] = pass
  report_events (event ∷ events) =
      report_event event.reported_timestamp event.message >> report_events events

  -- `error_type`, by the exception that it names
  abbrev pub failure : Error → String
  failure execution_failed = "failed"
  failure execution_timeout = "timeout"
  failure _ = ""

  -- `_fail_wait_for_execution`, with the exception that its `error_type` names
  unfoldable pub fail_wait_for_execution : Execution → Error → Act (Session W) Done
  fail_wait_for_execution execution exception = do
    log_line error (concat ("Failure waiting for execution. Execution " ∷ failure exception ∷ []))
    events ← request (λ h. api.list_events h (query execution none none))
    report_events events
    raise exception

  -- what the `try` of a round leaves: the execution variable, and the exception if one was raised
  abbrev Answer : Type 0
  Answer = Execution × Option Error

  abbrev pub caught : Result Done → Option Error
  caught (err e) = some e
  caught _ = none

  unfoldable pub poll_events : Execution → ℕ → ℕ → Result Execution → Act (Session W) Answer
  poll_events old prev_time current_time (ok execution) s =
      let (shown, s') = output_events execution (some prev_time) (some current_time) s in
      (ok (execution, caught shown), s')
  poll_events old prev_time current_time (err e) s = (ok (old, some e), s)
  poll_events old prev_time current_time running s = (running, s)

  unfoldable pub poll : Execution → ℕ → ℕ → Act (Session W) Answer
  poll execution prev_time current_time s =
      let (r, s') = request (λ h. api.get_execution h execution.id) s in
      poll_events execution prev_time current_time r s'

  -- `if execution.status in execution.END_STATES`
  unfoldable pub finish : ℕ → Execution → Act (Session W) Execution
  finish current_time execution = do
    pause api (seconds 2)
    output_events execution (some current_time) none
    if execution.status == api.terminated
        then pass
        else fail_wait_for_execution execution execution_failed
    log_line info (concat ("Execution completed in state " ∷ execution.status ∷ []))
    pure execution

  -- the rest of a round, after a poll that raised nothing; `again` is the next round
  unfoldable pub settle :
      ℕ → ℕ → Execution → (Execution → Act (Session W) Execution) → Act (Session W) Execution
  settle timeout_time current_time execution again = do
    if leb timeout_time current_time
        then fail_wait_for_execution execution execution_timeout
        else pass
    if is_in execution.status api.end_states then finish current_time execution else again execution

  -- the `except` clauses of a round
  unfoldable pub respond :
      Bool
      → ℕ
      → ℕ
      → Execution
      → Option Error
      → (Execution → Act (Session W) Execution)
      → Act (Session W) Execution
  respond allow_client_error timeout_time current_time execution none again =
      settle timeout_time current_time execution again
  respond allow_client_error timeout_time current_time execution (some (client_error m)) again =
      if allow_client_error
      then (do
        log_line warning (concat ("Error trying to get execution state, retrying: " ∷ m ∷ []))
        if leb timeout_time current_time then raise (client_error m) else pass
        pause api (seconds 2)
        again execution)
      else raise (client_error m)
  respond allow_client_error timeout_time current_time execution (some e) again = raise e

  -- `while True`, on fuel
  unfoldable pub wait_loop : ℕ → Bool → ℕ → ℕ → Execution → Act (Session W) Execution
  wait_loop zero allow_client_error timeout_time prev_time execution = out_of_fuel
  wait_loop (suc fuel) allow_client_error timeout_time prev_time execution = do
    current_time ← clock api
    answer ← poll execution prev_time current_time
    respond allow_client_error timeout_time current_time answer.0 answer.1
        (wait_loop fuel allow_client_error timeout_time current_time)

  unfoldable pub wait_for_execution :
      ℕ → Execution → Option String → ℕ → Bool → Act (Session W) Execution
  wait_for_execution fuel execution tenant timeout allow_client_error = do
    log_line info (concat ("Getting workflow execution [id=" ∷ execution.id ∷ "]" ∷ []))
    current_time ← clock api
    output_events execution none (some current_time)
    set_client_tenant tenant
        (wait_loop fuel allow_client_error (current_time + seconds timeout) current_time execution)

  -- The results of `executions.start` and of the wait; the default timeout is 15 minutes.
  unfoldable pub run_blocking_execution :
      ℕ → String → String → Dict.Dict String → Option String → ℕ → Act (Session W) Done
  run_blocking_execution fuel deployment_id workflow_id params tenant timeout = do
    execution ←
        set_client_tenant tenant
          (request (λ h. api.start_execution h deployment_id workflow_id params))
    wait_for_execution fuel execution tenant timeout false
    pass
