-- ===== src/Config/Load.antt =====
-- `Config.__init__`, `Config.platform` and `load_config`.
pub mod Laws
use cloudify_system_tests.Prelude.{
  String, Bool, true, false, not, ◌&&◌, Option, none, some, List, [], ◌∷◌, if◌then◌else◌, or_else,
}
use cloudify_system_tests.Dict.{Dict, get, update}
use cloudify_system_tests.Value.{Value, text}
use cloudify_system_tests.Act.{
  Act, Done, Error, Reply, value, fault, Result, ok, err, running, schema_error, attribute_error,
  io_error, exit_status, pass, raise, result, continue, ◌>>=◌, ◌>>◌,
}
use cloudify_system_tests.Config.{SchemaFile, Node, Slot, space, NameSpace, Config}
use cloudify_system_tests.Config.Schema.{update_schema}
use cloudify_system_tests.Config.Generate.{Item, found, get_item}
use cloudify_system_tests.Config.Check.{check_config_is_valid}

-- The file that `config_file` names: none is named, it cannot be opened, or its parsed contents.
pub data ConfigFile : Type 0 where
  no_file unreadable : ConfigFile
  contents : Dict Value → ConfigFile

unfoldable pub update_config : ConfigFile → Dict Value → Reply (Dict Value)
update_config no_file raw = value raw
update_config unreadable raw = fault io_error
update_config (contents file) raw = value (update raw file)

unfoldable pub load_schemas : List SchemaFile → Act Config Done
load_schemas [] = pass
load_schemas (file ∷ files) = update_schema file >> load_schemas files

abbrev pub is_empty : Dict Node → Bool
is_empty [] = true
is_empty (n ∷ ns) = false

-- We'll be pretty useless if we allow no config.
unfoldable pub require_entries : Act Config Done
require_entries c = if is_empty c.schema then (err schema_error, c) else (ok tt, c)

abbrev pub initial : Dict Value → Config
initial raw = record {
  schema = [];
  raw_config = raw;
  target_platform = or_else (get "target_platform" raw) (text "openstack");
}

abbrev pub built : Result Done × Config → Result Config
built (ok _, c) = ok c
built (err e, c) = err e
built (running, c) = running

abbrev pub build : List SchemaFile → Reply (Dict Value) → Result Config
build schemas (value raw) = built ((load_schemas schemas >> require_entries) (initial raw))
build schemas (fault e) = err e

-- `Config.__init__`
unfoldable pub init : ConfigFile → List SchemaFile → Dict Value → Result Config
init config_file schemas raw_config = build schemas (update_config config_file raw_config)

abbrev pub checked : Config → Reply Bool → Result (Option Config)
checked c (value true) = ok (some c)
checked c (value false) = err (exit_status 2)
checked c (fault e) = err e

-- `if validate and not config.check_config_is_valid()`, where no configuration was built
abbrev validate_config : Bool → Option Config → Result (Option Config)
validate_config false config = ok config
validate_config true none = err attribute_error
validate_config true (some c) = checked c (check_config_is_valid c true)

-- the `except` clauses: an `IOError` is let pass where the caller says so
abbrev pub handle_missing : Bool → Result Config → Result (Option Config)
handle_missing missing_config_fail (ok c) = ok (some c)
handle_missing false (err io_error) = ok none
handle_missing missing_config_fail (err e) = err e
handle_missing missing_config_fail running = running

abbrev pub then_validate : Bool → Result (Option Config) → Result (Option Config)
then_validate validate (ok c) = validate_config validate c
then_validate validate (err e) = err e
then_validate validate running = running

unfoldable pub load_config :
    ConfigFile → Bool → Bool → Dict Value → List SchemaFile → Result (Option Config)
load_config config_file missing_config_fail validate raw_config schemas =
    then_validate validate
      (handle_missing missing_config_fail (init config_file schemas raw_config))
