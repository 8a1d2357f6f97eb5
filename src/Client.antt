-- ===== src/Client.antt =====
-- The REST client that the framework talks through (framework/util.py): the headers it sends,
-- what the framework logs, and the calls of the `cloudify_rest_client` package, which are
-- parameters.
pub mod Respects
pub mod Tenant
use cloudify_system_tests.Prelude.{ℕ, String, Bool, Option, some, none, List, [], ◌∷◌, ◌++◌}
use cloudify_system_tests.Dict.{Dict}
use cloudify_system_tests.Act.{Act, Reply, result, ok, Done}

pub record Execution : Type 0 where
  pub id : String
  pub workflow_id : String
  pub status : String
  pub error : Option String

pub record Event : Type 0 where
  pub event_type : Option String
  pub level : Option String
  pub message : Option String
  pub node_instance : Option String
  pub reported_timestamp : Option String

-- The arguments of `client.events.list`: times are in seconds, as `strftime` cuts them.
pub record EventQuery : Type 0 where
  pub execution_id : String
  pub from_datetime : Option ℕ
  pub to_datetime : Option ℕ

-- The levels that a logger has.
pub data Level : Type 0 where
  debug info warning error : Level

pub record Line : Type 0 where
  pub level : Level
  pub text : String

-- What a call sends with each request.
abbrev pub Headers : Type 0
Headers = Dict String

-- The calls of the client library and of the clock, over a world `W` that they read and change.
-- Times are in microseconds.
pub record Api (W : Type 0) : Type 0 where
  pub now : W → ℕ × W
  pub sleep : ℕ → W → W
  pub terminated : String
  pub end_states : List String
  pub get_execution : Headers → String → W → Reply Execution × W
  -- `str(event)`
  pub show_event : Event → String
  pub list_events : Headers → EventQuery → W → Reply (List Event) × W
  pub start_execution : Headers → String → String → Dict String → W → Reply Execution × W
  pub list_executions : Headers → String → W → Reply (List Execution) × W
  pub create_deployment : Headers → String → String → Dict String → Bool → W → Reply Done × W
  pub delete_deployment : Headers → String → W → Reply Done × W
  pub list_deployments : Headers → W → Reply (List String) × W
  pub create_tenant : Headers → String → W → Reply Done × W
  -- the blueprint's `state`, if it has one
  pub get_blueprint : Headers → String → W → Reply (Option String) × W
  -- the node instances of a deployment: pairs of an id and a node id
  pub list_node_instances : Headers → String → W → Reply (List (String × String)) × W
  pub get_node_instance : Headers → String → W → Reply (Dict String) × W

pub record Session (W : Type 0) : Type 0 where
  pub headers : Headers
  pub log : List Line
  pub world : W

module _ {W : Type 0} where
  -- a request, under the headers of the moment
  abbrev pub request : {A : Type 0} → (Headers → W → Reply A × W) → Act (Session W) A
  request call s = let (r, w) = call s.headers s.world in (result r, record s { world = w })

  abbrev pub clock : Api W → Act (Session W) ℕ
  clock api s = let (t, w) = api.now s.world in (ok t, record s { world = w })

  abbrev pub pause : Api W → ℕ → Act (Session W) Done
  pause api t s = (ok tt, record s { world = api.sleep t s.world })

  abbrev pub log_line : Level → String → Act (Session W) Done
  log_line l m s = (ok tt, record s { log = s.log ++ record { level = l; text = m } ∷ [] })
