-- ===== src/Client/Respects.antt =====
-- Relations between the states before and after that every call of the client library keeps, so
-- that code made of such calls keeps them too.
use cloudify_system_tests.Prelude.{ℕ, String, List, ◌≡◌, refl, ◌∙◌}
use cloudify_system_tests.Act.Moves.{Moves}
use cloudify_system_tests.Client.{
  Api, Session, Line, Level, EventQuery, request, clock, pause, log_line,
}

abbrev with_world : {W : Type 0} → Session W → W → Session W
with_world s w = record s { world = w }

module _ {W : Type 0} where
  pub record Respects (api : Api W) (R : Session W → Session W → Type 0) : Type 0 where
    pub same : (s : Session W) → R s s
    pub trans : (s t u : Session W) → R s t → R t u → R s u
    pub logged : (s : Session W) (l : List Line) → R s (record s { log = l })
    pub timed : (s : Session W) → R s (with_world s (api.now s.world).1)
    pub slept : (s : Session W) (t : ℕ) → R s (with_world s (api.sleep t s.world))
    pub got_execution :
        (s : Session W) (x : String) → R s (with_world s (api.get_execution s.headers x s.world).1)
    pub listed_events :
        (s : Session W) (q : EventQuery)
        → R s (with_world s (api.list_events s.headers q s.world).1)

  module _ {api : Api W} {R : Session W → Session W → Type 0} (law : Respects api R) where
    pub Moves-clock : Moves R (clock api)
    Moves-clock = record { at = λ s. law.timed s }

    pub Moves-pause : (t : ℕ) → Moves R (pause api t)
    Moves-pause t = record { at = λ s. law.slept s t }

    pub Moves-log_line : (l : Level) (m : String) → Moves {S = Session W} R (log_line l m)
    Moves-log_line l m = record { at = λ s. law.logged s _ }

    pub Moves-list_events : (q : EventQuery) → Moves R (request (λ h. api.list_events h q))
    Moves-list_events q = record { at = λ s. law.listed_events s q }

    pub Moves-get_execution : (x : String) → Moves R (request (λ h. api.get_execution h x))
    Moves-get_execution x = record { at = λ s. law.got_execution s x }

  -- No call of the library changes the headers that the caller sends.
  pub SameHeaders-Respects : (api : Api W) → Respects api (λ s t. t.headers ≡ s.headers)
  SameHeaders-Respects api = record {
    same = λ s. refl;
    trans = λ s t u p q. q ∙ p;
    logged = λ s l. refl;
    timed = λ s. refl;
    slept = λ s t. refl;
    got_execution = λ s x. refl;
    listed_events = λ s q. refl;
  }
