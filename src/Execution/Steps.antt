-- ===== src/Execution/Steps.antt =====
-- The calls that a wait makes, seen as steps of a relation that every library call keeps.
use cloudify_system_tests.Prelude.{
  ◌≡◌, ◌==◌, leb, is_in, if◌then◌else◌, ℕ, zero, suc, Bool, true, false, Option, none, some, List,
  [], ◌∷◌, String,
}
use cloudify_system_tests.Act.{
  result, Act, Error, Result, ok, err, running, client_error, execution_failed, execution_timeout,
  ◌>>=◌,
}
use cloudify_system_tests.Act.Moves.{Moves, Moves-bind, Moves-if, Moves-same}
use cloudify_system_tests.Client.{Api, Session, Execution, Event, Level}
use cloudify_system_tests.Client.Respects.{
  Respects, Moves-clock, Moves-pause, Moves-log_line, Moves-list_events, Moves-get_execution,
  SameHeaders-Respects,
}
use cloudify_system_tests.Client.Tenant.{SameHeaders, set_client_tenant-SameHeaders}
use cloudify_system_tests.Execution.{
  finish, output_event, show_events, output_events, report_event, report_events,
  fail_wait_for_execution, settle, respond, poll_events, poll, wait_loop, wait_for_execution,
}

module _ {W : Type 0} (api : Api W) (R : Session W → Session W → Type 0)
    (law : Respects api R) where
  bind :
      {A B : Type 0} (m : Act (Session W) A) (f : A → Act (Session W) B)
      → Moves R m
      → ((a : A) → Moves R (f a))
      → Moves R (m >>= f)
  bind = Moves-bind R law.same law.trans

  choose :
      {A : Type 0} (b : Bool) (m n : Act (Session W) A)
      → Moves R m
      → Moves R n
      → Moves R (if b then m else n)
  choose = Moves-if R law.same law.trans

  still : {A : Type 0} (r : Result A) → Moves R (λ (s : Session W). (r, s))
  still r = Moves-same R law.same law.trans (λ _. r)

  output_event-Moves :
      (event : Event) (level : Option Level) → Moves R (output_event api event level)
  unfolding output_event
  output_event-Moves event none = search (bind, Moves-log_line law)
  output_event-Moves event (some level) = search (choose, still, Moves-log_line law)

  show_events-Moves : (events : List Event) → Moves R (show_events api events)
  unfolding show_events
  show_events-Moves [] = still _
  show_events-Moves (event ∷ events) =
      bind _ _ (output_event-Moves _ _) (λ _. show_events-Moves events)

  pub output_events-Moves :
      (e : Execution) (from_time to_time : Option ℕ)
      → Moves R (output_events api e from_time to_time)
  unfolding output_events
  output_events-Moves e from_time to_time = bind _ _ (Moves-list_events law _) show_events-Moves

  report_event-Moves : (t m : Option String) → Moves R (report_event api t m)
  unfolding report_event
  report_event-Moves (some t) (some m) = Moves-log_line law _ _
  report_event-Moves (some t) none = still _
  report_event-Moves none m = still _

  report_events-Moves : (events : List Event) → Moves R (report_events api events)
  unfolding report_events
  report_events-Moves [] = still _
  report_events-Moves (event ∷ events) =
      bind _ _ (report_event-Moves _ _) (λ _. report_events-Moves events)

  fail-Moves : (e : Execution) (x : Error) → Moves R (fail_wait_for_execution api e x)
  unfolding fail_wait_for_execution
  fail-Moves e x = bind _ _ (Moves-log_line law _ _) λ _.
      bind _ _ (Moves-list_events law _)
        λ events. bind _ _ (report_events-Moves events) λ _. still _

  poll_events-Moves :
      (e : Execution) (prev now : ℕ) (r : Result Execution) → Moves R (poll_events api e prev now r)
  unfolding poll_events
  poll_events-Moves e prev now (ok x) = record {
    at = λ s. (output_events-Moves x (some prev) (some now)).at s;
  }
  poll_events-Moves e prev now (err x) = still _
  poll_events-Moves e prev now running = still _

  pub poll-Moves : (e : Execution) (prev now : ℕ) → Moves R (poll api e prev now)
  unfolding poll
  poll-Moves e prev now = record {
    at = λ s.
        law.trans _ _ _ ((Moves-get_execution law e.id).at s) (
          (poll_events-Moves e prev now (result (api.get_execution s.headers e.id s.world).0)).at
            _);
  }

  finish-Moves : (now : ℕ) (e : Execution) → Moves R (finish api now e)
  unfolding finish
  finish-Moves now e = bind _ _ (Moves-pause law _) λ _. bind _ _ (output_events-Moves e _ _) λ _.
      bind _ _
        (choose (e.status == api.terminated) _ _ (still (ok tt)) (fail-Moves e execution_failed))
        λ _. bind _ _ (Moves-log_line law _ _) λ _. still _

  settle-Moves :
      (deadline now : ℕ) (e : Execution) (again : Execution → Act (Session W) Execution)
      → ((x : Execution) → Moves R (again x))
      → Moves R (settle api deadline now e again)
  unfolding settle
  settle-Moves deadline now e again h =
      bind _ _ (choose (leb deadline now) _ _ (fail-Moves e execution_timeout) (still (ok tt)))
        λ _. choose (is_in e.status api.end_states) _ _ (finish-Moves now e) (h e)

  respond-Moves :
      (allow : Bool) (deadline now : ℕ) (e : Execution) (x : Option Error)
      (again : Execution → Act (Session W) Execution)
      → ((x : Execution) → Moves R (again x))
      → Moves R (respond api allow deadline now e x again)
  unfolding respond
  respond-Moves allow deadline now e none again h = settle-Moves deadline now e again h
  respond-Moves true deadline now e (some (client_error m)) again h =
      bind _ _ (Moves-log_line law _ _) λ _.
        bind _ _ (choose (leb deadline now) _ _ (still (err (client_error m))) (still (ok tt)))
          λ _. bind _ _ (Moves-pause law _) λ _. h e
  respond-Moves false deadline now e (some (client_error m)) again h = still _
  respond-Moves allow deadline now e (some x) again h = still _

  wait_loop-Moves :
      (fuel : ℕ) (allow : Bool) (deadline prev : ℕ) (e : Execution)
      → Moves R (wait_loop api fuel allow deadline prev e)
  unfolding wait_loop
  wait_loop-Moves zero allow deadline prev e = still _
  wait_loop-Moves (suc fuel) allow deadline prev e = bind _ _ (Moves-clock law) λ now.
      bind _ _ (poll-Moves e prev now) λ answer.
        respond-Moves allow deadline now answer.0 answer.1 _
          (λ x. wait_loop-Moves fuel allow deadline now x)

module _ {W : Type 0} (api : Api W) where
  wait-Moves :
      (fuel : ℕ) (execution : Execution) (tenant : Option String) (timeout : ℕ) (allow : Bool)
      → Moves SameHeaders (wait_for_execution api fuel execution tenant timeout allow)
  unfolding wait_for_execution
  wait-Moves fuel execution tenant timeout allow =
      let law = SameHeaders-Respects api in
      bind api SameHeaders law _ _ (Moves-log_line law _ _) λ _.
        bind api SameHeaders law _ _ (Moves-clock law) λ now.
          bind api SameHeaders law _ _ (output_events-Moves api SameHeaders law execution none _)
            λ _.
              set_client_tenant-SameHeaders tenant _
                (wait_loop-Moves api SameHeaders law fuel allow _ now execution)

  -- However a wait ends, also by an exception, the client sends the headers that it sent before.
  pub wait_for_execution-SameHeaders :
      (fuel : ℕ) (execution : Execution) (tenant : Option String) (timeout : ℕ) (allow : Bool)
      (s : Session W)
      → (wait_for_execution api fuel execution tenant timeout allow s).1.headers ≡ s.headers
  wait_for_execution-SameHeaders fuel execution tenant timeout allow =
      (wait-Moves fuel execution tenant timeout allow).at
