-- ===== src/Execution/Total.antt =====
-- A wait for an execution ends: some poll finds the time-out passed, at the latest.
use cloudify_system_tests.Prelude.{
  ◌∙◌, sym, ap, inr, inl, ◌-◌, Bool-cases, ℕ, zero, suc, ◌+◌, ◌≤◌, ◌<◌, ◌≡◌, ◌≢◌, refl, Bool, true,
  false, Option, none, some, List, [], ◌∷◌, leb, ◌==◌, String, is_in, arith,
}
use cloudify_system_tests.Act.{
  Act, Error, Reply, Result, ok, err, running, client_error, execution_failed, execution_timeout,
}
use cloudify_system_tests.Act.Returns.{ok-injective}
use cloudify_system_tests.Act.Ends.{
  EndsAt, Ends, ne-running-ok, ne-running-err, result-ne-running, bind-EndsAt, Ends-bind, Ends-ok,
  Ends-err, Ends-if,
}
use cloudify_system_tests.Client.{
  Api, Session, Execution, Event, EventQuery, Headers, Level, request,
}
use cloudify_system_tests.Client.Tenant.{set_client_tenant-EndsAt}
use cloudify_system_tests.Client.Respects.{Respects}
use cloudify_system_tests.Execution.Steps.{output_events-Moves, poll-Moves, output_events-Moves}
use cloudify_system_tests.Execution.Outcome.{fail-Fails}
use cloudify_system_tests.Execution.{
  seconds, output_event, show_events, output_events, report_event, report_events,
  fail_wait_for_execution, finish, settle, respond, poll_events, poll, wait_loop,
  wait_for_execution,
}

-- The clock is read off the world, no call turns it back, and reading it takes time.
pub record Ticks {W : Type 0} (api : Api W) (time : W → ℕ) : Type 0 where
  pub reads : (w : W) → (api.now w).0 ≡ time w
  pub moves : (w : W) → time w < time (api.now w).1
  pub sleeps : (t : ℕ) (w : W) → time w ≤ time (api.sleep t w)
  pub gets_execution :
      (h : Headers) (x : String) (w : W) → time w ≤ time (api.get_execution h x w).1
  pub lists_events :
      (h : Headers) (q : EventQuery) (w : W) → time w ≤ time (api.list_events h q w).1

-- the time left to the deadline falls by a round
less_left :
    {deadline fuel now a b c t : ℕ}
    → a ≡ now
    → deadline - a < suc fuel
    → now < deadline
    → a < b
    → b ≤ c
    → c ≤ t
    → deadline - t < fuel
less_left e h before p q r = omega arith

all_left :
    {timeout fuel now a b c t : ℕ}
    → a ≡ now
    → timeout < fuel
    → a < b
    → b ≤ c
    → t ≡ c
    → now + timeout - t < fuel
all_left e h p q r = omega arith

module _ {W : Type 0} (api : Api W) where
  request-Ends : {A : Type 0} (call : Headers → W → Reply A × W) → Ends (request call)
  request-Ends call = record { at = λ s. result-ne-running (call s.headers s.world).0 }

  output_event-Ends : (event : Event) (level : Option Level) → Ends (output_event api event level)
  unfolding output_event
  output_event-Ends event none = Ends-bind _ _ (Ends-ok _ _) λ _. Ends-ok _ _
  output_event-Ends event (some level) = search (Ends-if, Ends-ok)

  show_events-Ends : (events : List Event) → Ends (show_events api events)
  unfolding show_events
  show_events-Ends [] = Ends-ok _ _
  show_events-Ends (event ∷ events) =
      Ends-bind _ _ (output_event-Ends _ _) λ _. show_events-Ends events

  output_events-Ends :
      (e : Execution) (from_time to_time : Option ℕ) → Ends (output_events api e from_time to_time)
  unfolding output_events
  output_events-Ends e from_time to_time = Ends-bind _ _ (request-Ends _) show_events-Ends

  report_event-Ends : (t m : Option String) → Ends (report_event api t m)
  unfolding report_event
  report_event-Ends (some t) (some m) = Ends-ok _ _
  report_event-Ends (some t) none = Ends-err _
  report_event-Ends none m = Ends-err _

  report_events-Ends : (events : List Event) → Ends (report_events api events)
  unfolding report_events
  report_events-Ends [] = Ends-ok _ _
  report_events-Ends (event ∷ events) =
      Ends-bind _ _ (report_event-Ends _ _) λ _. report_events-Ends events

  fail-Ends : (e : Execution) (x : Error) → Ends (fail_wait_for_execution api e x)
  unfolding fail_wait_for_execution
  fail-Ends e x = Ends-bind _ _ (Ends-ok _ _) λ _.
      Ends-bind _ _ (request-Ends _)
        λ events. Ends-bind _ _ (report_events-Ends events) λ _. Ends-err _

  finish-Ends : (now : ℕ) (e : Execution) → Ends (finish api now e)
  unfolding finish
  finish-Ends now e = Ends-bind _ _ (Ends-ok _ _) λ _. Ends-bind _ _ (output_events-Ends e _ _) λ _.
      Ends-bind _ _
        (Ends-if (e.status == api.terminated) _ _ (Ends-ok tt (λ s. s))
          (fail-Ends e execution_failed))
        λ _. Ends-bind _ _ (Ends-ok _ _) λ _. Ends-ok _ _

  poll_events-Ends :
      (e : Execution) (prev now : ℕ) (r : Result Execution)
      → r ≢ running
      → Ends (poll_events api e prev now r)
  unfolding poll_events
  poll_events-Ends e prev now (ok x) h = record { at = λ s. ne-running-ok _ }
  poll_events-Ends e prev now (err x) h = record { at = λ s. ne-running-ok _ }
  poll_events-Ends e prev now running h = absurd (h refl)

  poll-Ends : (e : Execution) (prev now : ℕ) → Ends (poll api e prev now)
  unfolding poll
  poll-Ends e prev now = record {
    at = λ s.
        (poll_events-Ends e prev now _
            (result-ne-running (api.get_execution s.headers e.id s.world).0)).at
          _;
  }

module _ {W : Type 0} (api : Api W) (time : W → ℕ) (ticks : Ticks api time) where
  abbrev Later : Session W → Session W → Type 0
  Later s t = time s.world ≤ time t.world

  Later-Respects : Respects api Later
  Later-Respects = record {
    same = λ s. omega arith;
    trans = λ s t u p q. omega arith;
    logged = λ s l. omega arith;
    timed = λ s. omega (arith, ticks.moves s.world);
    slept = λ s t. ticks.sleeps t s.world;
    got_execution = λ s x. ticks.gets_execution s.headers x s.world;
    listed_events = λ s q. ticks.lists_events s.headers q s.world;
  }

  -- what a round asks of the next one
  abbrev Continues : ℕ → ℕ → Session W → (Execution → Act (Session W) Execution) → Type 0
  Continues deadline now s again =
      now < deadline → (t : Session W) → Later s t → (x : Execution) → EndsAt (again x) t

  settle-EndsAt :
      (deadline now : ℕ) (e : Execution) (again : Execution → Act (Session W) Execution)
      (s : Session W)
      → Continues deadline now s again
      → EndsAt (settle api deadline now e again) s
  unfolding settle
  settle-EndsAt deadline now e again s h = elim (Bool-cases (leb deadline now)) [
    | inl late ↦ rw late (
        bind-EndsAt _ _ s ((fail-Ends api e execution_timeout).at s)
          (λ a r. absurd ((fail-Fails api e execution_timeout).at s a r)))
    | inr early ↦ rw early (
        bind-EndsAt _ _ s (ne-running-ok tt) (λ _ _.
          elim (Bool-cases (is_in e.status api.end_states)) [
            | inl ended ↦ rw ended ((finish-Ends api now e).at s)
            | inr going ↦ rw going (h (ground arith) s (omega arith) e)
          ]))
  ]

  retry-EndsAt :
      (deadline now : ℕ) (e : Execution) (m : String)
      (again : Execution → Act (Session W) Execution) (s : Session W)
      → Continues deadline now s again
      → EndsAt (respond api true deadline now e (some (client_error m)) again) s
  unfolding respond
  retry-EndsAt deadline now e m again s h = elim (Bool-cases (leb deadline now)) [
    | inl late ↦ rw late (
        bind-EndsAt _ _ s (ne-running-ok tt)
          (λ _ _. bind-EndsAt _ _ _ (ne-running-err _) (λ a r. cc)))
    | inr early ↦ rw early (
        bind-EndsAt _ _ s (ne-running-ok tt) (λ _ _. bind-EndsAt _ _ _ (ne-running-ok tt) (λ _ _.
          bind-EndsAt _ _ _ (ne-running-ok tt)
            (λ _ _. h (ground arith) _ (ticks.sleeps (seconds 2) s.world) e))))
  ]

  respond-EndsAt :
      (allow : Bool) (deadline now : ℕ) (e : Execution) (x : Option Error)
      (again : Execution → Act (Session W) Execution) (s : Session W)
      → Continues deadline now s again
      → EndsAt (respond api allow deadline now e x again) s
  unfolding respond
  respond-EndsAt allow deadline now e none again s h = settle-EndsAt deadline now e again s h
  respond-EndsAt true deadline now e (some (client_error m)) again s h =
      retry-EndsAt deadline now e m again s h
  respond-EndsAt false deadline now e (some (client_error m)) again s h = ne-running-err _
  respond-EndsAt allow deadline now e (some x) again s h = ne-running-err _

  wait_loop-EndsAt :
      (fuel : ℕ) (allow : Bool) (deadline prev : ℕ) (e : Execution) (s : Session W)
      → deadline - time s.world < fuel
      → EndsAt (wait_loop api fuel allow deadline prev e) s
  unfolding wait_loop
  wait_loop-EndsAt zero allow deadline prev e s h = elim h [ ]
  wait_loop-EndsAt (suc fuel) allow deadline prev e s h =
      bind-EndsAt _ _ s (ne-running-ok _) (λ now read.
        bind-EndsAt _ _ _ ((poll-Ends api e prev now).at _) (λ answer _.
          respond-EndsAt allow deadline now answer.0 answer.1 _ _ (λ before t later x.
            wait_loop-EndsAt fuel allow deadline now x t (
              less_left (sym (ticks.reads s.world) ∙ ok-injective read) h before
                (ticks.moves s.world) ((poll-Moves api Later Later-Respects e prev now).at _)
                later))))

  -- With more fuel than the time-out has microseconds a wait ends: it returns the execution or
  -- raises, whatever the manager answers, if the clock ticks between the rounds.
  pub wait_for_execution_ends :
      (fuel : ℕ) (execution : Execution) (tenant : Option String) (timeout : ℕ) (allow : Bool)
      (s : Session W)
      → seconds timeout < fuel
      → (wait_for_execution api fuel execution tenant timeout allow s).0 ≢ running
  unfolding wait_for_execution
  wait_for_execution_ends fuel execution tenant timeout allow s enough =
      bind-EndsAt _ _ s (ne-running-ok tt) (λ _ _. bind-EndsAt _ _ _ (ne-running-ok _) (λ now read.
        bind-EndsAt _ _ _ ((output_events-Ends api execution none (some now)).at _) (λ _ _.
          set_client_tenant-EndsAt tenant _ _ (λ t same.
            wait_loop-EndsAt fuel allow (now + seconds timeout) now execution t (
              all_left (sym (ticks.reads s.world) ∙ ok-injective read) enough (ticks.moves s.world)
                ((output_events-Moves api Later Later-Respects execution none (some now)).at _)
                (ap time same))))))
