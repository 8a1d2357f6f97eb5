-- ===== src/Tests/Settings.antt =====
-- A schema with a namespace, a configuration for it, and what the checks make of them.
use cloudify_system_tests.Prelude.{◌≡◌, ap, ◌∙◌, refl, true, false, some, none, List, [], ◌∷◌}
use mathlib.Core.Option
use cloudify_system_tests.Dict.{Dict, Distinct, get, put, update, map_values}
use cloudify_system_tests.Value.{flag, Value, text, table, field, end, entries}
use cloudify_system_tests.Act.{type_error, fault, ok, err, key_error, value, ◌>>=◌}
use cloudify_system_tests.Text.{occurs}
use cloudify_system_tests.Config.{
  Entry, entry, namespace, SchemaFile, set, Slot, setting, space, Config,
}
use cloudify_system_tests.Config.Schema.{update_schema}
use cloudify_system_tests.Config.Schema.Laws.{IsSound, update_schema-IsSound}
use cloudify_system_tests.Config.Generate.{generate_namespace, generate_config}
use cloudify_system_tests.Config.Generate.Laws.{setting_of, get-generate_namespace}
use cloudify_system_tests.Config.Generate.Root.{IsGenerated, generate_config-IsGenerated}
use cloudify_system_tests.Value.Equal.{is_among}
use cloudify_system_tests.Config.Schema.{declare_namespace, open_namespace, require_mark}
use cloudify_system_tests.Config.Check.{
  check_config_is_valid, check_keys, check_node, check_namespace, check_settings, check_entry,
  is_valid_value, join_values,
}
use cloudify_system_tests.Config.Check.Laws.{
  IsAllowed, check_config_is_valid-root, check_config_is_valid-namespace,
}
use cloudify_system_tests.Config.Load.{
  contents, init, load_config, update_config, load_schemas, require_entries, then_validate,
  handle_missing, checked,
}
use cloudify_system_tests.Config.Load.Laws.{init-IsSound, load_config_validated}

abbrev of_default : Value → Entry
of_default v = record {
  description = some (text "An entry");
  default = some v;
  valid_values = [];
  nullable = false;
}

abbrev platform_entry : Entry
platform_entry = record {
  description = some (text "Which platform to run on");
  default = none;
  valid_values = text "openstack" ∷ text "aws" ∷ [];
  nullable = false;
}

abbrev openstack_entries : Dict Entry
openstack_entries = ("region", of_default (text "here")) ∷ ("username", of_default (text "me")) ∷ []

abbrev root_file : SchemaFile
root_file = record {
  file_namespace = none;
  platform = false;
  file_entries = ("target_platform", platform_entry) ∷ ("premium", of_default (text "yes")) ∷ [];
}

abbrev openstack_file : SchemaFile
openstack_file = record {
  file_namespace = some "openstack";
  platform = true;
  file_entries = openstack_entries;
}

abbrev aws_file : SchemaFile
aws_file = record { file_namespace = some "aws"; platform = true; file_entries = openstack_entries }

abbrev own : Dict Value
own = ("region", text "there") ∷ ("unknown", text "x") ∷ []

abbrev raw : Dict Value
raw =
    ("target_platform", text "openstack")
    ∷ ("openstack", table (field "region" (text "there") (field "unknown" (text "x") end)))
    ∷ []

abbrev config : Config
config = record {
  schema =
      ("target_platform", entry platform_entry)
      ∷ ("premium", entry (of_default (text "yes")))
      ∷ ("openstack", namespace openstack_entries)
      ∷ ("aws", namespace [])
      ∷ [];
  raw_config = raw;
  target_platform = text "openstack";
}

raw-Distinct : Distinct raw
unfolding get
raw-Distinct = (refl, (refl, tt))

own-Distinct : Distinct own
unfolding get
own-Distinct = (refl, (refl, tt))

schema-Distinct : Distinct config.schema
unfolding get
schema-Distinct = (refl, (refl, (refl, (refl, tt))))

abbrev empty : Config
empty = record { schema = []; raw_config = raw; target_platform = text "openstack" }

empty-IsSound : IsSound empty
empty-IsSound = record { described = tt; schema_keys = tt; raw_keys = raw-Distinct }

update_schema-IsSound_example : IsSound (update_schema openstack_file empty).1
update_schema-IsSound_example = update_schema-IsSound openstack_file empty empty-IsSound

abbrev clashing : SchemaFile
clashing = record { file_namespace = some "premium"; platform = false; file_entries = [] }

-- meant to be a `SchemaError`
clash_refused : update_schema clashing config ≡ (err key_error, config)
unfolding update_schema declare_namespace open_namespace require_mark get ◌>>=◌
clash_refused = refl

get-generate_namespace_example :
    get "region" (generate_namespace openstack_entries own).settings
    ≡ Option.map (setting_of (get "region" own)) (get "region" openstack_entries)
get-generate_namespace_example = get-generate_namespace "region" openstack_entries own own-Distinct

abbrev generated : Dict Slot
generated =
    ("target_platform", setting (set (text "openstack")))
    ∷ ("premium", setting (set (text "yes")))
    ∷ ("openstack", space (generate_namespace openstack_entries own))
    ∷ ("aws", space (generate_namespace [] []))
    ∷ []

config_slots : generate_config config ≡ value generated
unfolding generate_config get put map_values entries
config_slots = refl

generate_config-IsGenerated_example :
    IsGenerated config "openstack" (get "openstack" config.schema) (get "openstack" generated)
generate_config-IsGenerated_example =
    generate_config-IsGenerated config "openstack" generated schema-Distinct raw-Distinct
      config_slots

-- `valid_values: [true, false]`, as for the teardown
abbrev flag_entry : Entry
flag_entry = record {
  description = some (text "Whether to tear down");
  default = some (flag true);
  valid_values = flag true ∷ flag false ∷ [];
  nullable = false;
}

flag_allowed : check_entry true flag_entry (set (flag false)) ≡ value true
unfolding check_entry is_valid_value is_among
flag_allowed = refl

-- The message for a value that is not allowed cannot be written.
flag_refused : check_entry true flag_entry (set (text "no")) ≡ fault type_error
unfolding check_entry is_valid_value join_values
flag_refused = refl

config_valid : check_config_is_valid config true ≡ value true
unfolding check_config_is_valid generate_config get check_keys update map_values put check_node
    check_namespace check_settings entries check_entry is_valid_value is_among
config_valid = refl

check_config_is_valid-root_example :
    IsAllowed true platform_entry (setting_of (get "target_platform" raw) platform_entry)
unfolding get
check_config_is_valid-root_example =
    check_config_is_valid-root config true "target_platform" platform_entry schema-Distinct
      raw-Distinct config_valid refl

check_config_is_valid-namespace_example :
    IsAllowed true
      (of_default (text "here"))
      (setting_of (get "region" own) (of_default (text "here")))
unfolding get entries
check_config_is_valid-namespace_example =
    check_config_is_valid-namespace config true "openstack" "region" openstack_entries
      (of_default (text "here")) schema-Distinct raw-Distinct own-Distinct config_valid refl refl

abbrev schemas : List SchemaFile
schemas = root_file ∷ openstack_file ∷ aws_file ∷ []

config_loaded : init (contents raw) schemas [] ≡ ok config
unfolding init update_config ◌>>=◌ load_schemas update_schema occurs get update put require_entries
config_loaded = refl

init-IsSound_example : IsSound config
init-IsSound_example = init-IsSound (contents raw) schemas [] config tt config_loaded

config_validated : load_config (contents raw) true true [] schemas ≡ ok (some config)
unfolding load_config
config_validated =
    ap (λ r. then_validate true (handle_missing true r)) config_loaded
    ∙ ap (checked config) config_valid

load_config_validated_example :
    IsAllowed true platform_entry (setting_of (get "target_platform" raw) platform_entry)
unfolding get
load_config_validated_example =
    load_config_validated (contents raw) true [] schemas config "target_platform" platform_entry tt
      config_validated refl
