-- ===== src/Hosts.antt =====
-- framework/test_hosts.py, `Hosts`: the test machines that an infrastructure manager holds for a test,
-- and the session in which it is asked for them.
pub mod Destroy
pub mod Instances
pub mod Setup
pub mod Deploy
pub mod Create
use cloudify_system_tests.Prelude.{Bool, ℕ, String, Option, List}
use cloudify_system_tests.Dict.{Dict}
use cloudify_system_tests.Act.{Act, Done, Reply}
use cloudify_system_tests.Host.{Vm}
use cloudify_system_tests.Client.{Session, Execution, Headers, Level, log_line}

-- A plugin that the manager lists.
pub record Plugin : Type 0 where
  pub id : String
  pub package_name : String
  pub tenant_name : String

-- The calls of the client library that only `Hosts` makes, pytest's count of the tests that passed,
-- and the order in which Python lists a set of texts.
pub record Infrastructure (W : Type 0) : Type 0 where
  -- `executions.list()`
  pub list_executions : Headers → W → Reply (List Execution) × W
  -- `executions.cancel`, with `force` and `kill`
  pub kill : Headers → String → W → Reply Done × W
  pub delete_blueprint : Headers → String → W → Reply Done × W
  pub list_plugins : Headers → W → Reply (List Plugin) × W
  pub delete_plugin : Headers → String → W → Reply Done × W
  pub delete_tenant : Headers → String → W → Reply Done × W
  -- `request.session.testspassed`, if it is there
  pub testspassed : W → Option ℕ
  pub in_set_order : List String → List String

-- `self._test_config['teardown']`
pub record Teardown : Type 0 where
  pub on_success : Bool
  pub on_failure : Bool

-- One of the machines, with what `VM.__init__` does not say of it.
pub record Instance : Type 0 where
  pub vm : Vm
  pub userdata : String

pub record Hosts (W : Type 0) : Type 0 where
  -- `_infra_client`
  pub session : Session W
  pub tenant : Option String
  pub test_identifier : Option String
  pub deployments : List String
  pub blueprints : List String
  -- the execution for each deployment, and the place of its instance
  pub test_vm_installs : Dict (Execution × ℕ)
  pub test_vm_uninstalls : Dict Execution
  pub platform_resource_ids : Dict String
  -- the addresses of the networks, by their names
  pub network_mappings : Dict String
  pub instances : List Instance

module _ {W : Type 0} where
  abbrev pub on_infra : {A : Type 0} → Act (Session W) A → Act (Hosts W) A
  on_infra m h = let (r, s) = m h.session in (r, record h { session = s })

  abbrev pub log_hosts : Level → String → Act (Hosts W) Done
  log_hosts l t = on_infra (log_line l t)
