-- ===== src/Config.antt =====
-- framework/config.py: the schema files, the supplied configuration, and what the tests read.
pub mod Schema
pub mod Generate
pub mod Check
pub mod Load
use cloudify_system_tests.Prelude.{String, Bool, Option, some, none, List, [], ◌∷◌}
use cloudify_system_tests.Dict.{Dict}
use cloudify_system_tests.Value.{Value, Fields}

-- The dict that a schema gives for one configuration entry. A description may be there and be null. An
-- absent list of valid values and an empty one are the same to the code.
pub record Entry : Type 0 where
  pub description : Option Value
  pub default : Option Value
  pub valid_values : List Value
  pub nullable : Bool

-- A value of `Config.schema`: an entry, or a dict that is marked with '.is_namespace'.
pub data Node : Type 0 where
  entry : Entry → Node
  namespace : Dict Entry → Node

-- One schema file, parsed: the keys 'namespace' and 'platform' (which only has to be there), and
-- the others.
pub record SchemaFile : Type 0 where
  pub file_namespace : Option String
  pub platform : Bool
  pub file_entries : Dict Entry

-- A value of a generated configuration: `NotSet`, or what was supplied or is the default.
pub data Setting : Type 0 where
  not_set : Setting
  set : Value → Setting

-- `NameSpace` over the settings of one namespace.
pub record NameSpace : Type 0 where
  pub settings : Dict Setting
  pub supplied : Dict Value

-- A value of the generated configuration at the root.
pub data Slot : Type 0 where
  setting : Setting → Slot
  space : NameSpace → Slot

pub record Config : Type 0 where
  pub schema : Dict Node
  pub raw_config : Dict Value
  pub target_platform : Value
