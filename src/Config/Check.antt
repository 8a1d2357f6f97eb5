-- ===== src/Config/Check.antt =====
-- `Config.check_config_is_valid`: whether every setting is one that the schema allows.
pub mod Laws
use cloudify_system_tests.Prelude.{
  String, Bool, true, false, not, ◌&&◌, ◌||◌, Option, none, some, List, [], ◌∷◌, is_in,
  if◌then◌else◌,
}
use cloudify_system_tests.Dict.{Dict, get, put, contains, keys, update, map_values}
use cloudify_system_tests.Value.Equal.{is_among}
use cloudify_system_tests.Value.{Value, null, text, table, entries}
use cloudify_system_tests.Act.{Done, Reply, value, fault, attribute_error, type_error}
use cloudify_system_tests.Config.{
  Entry, Node, entry, namespace, Setting, not_set, set, NameSpace, Slot, setting, space, Config,
}
use cloudify_system_tests.Config.Generate.{generate_config, and_then}

-- `key_value in valid_values`; `NotSet` is no value of a schema
abbrev is_allowed_in : List Value → Setting → Bool
is_allowed_in vs not_set = false
is_allowed_in vs (set v) = is_among v vs

-- `', '.join(valid_values)` for the message, which only takes texts
unfoldable pub join_values : List Value → Reply Done
join_values [] = value tt
join_values (text t ∷ vs) = join_values vs
join_values (v ∷ vs) = fault type_error

-- `if valid_values: …`: whether the setting is one of them, where there are any
unfoldable pub is_valid_value : List Value → Setting → Reply Bool
unfolding is_among join_values
is_valid_value [] s = value true
is_valid_value (v ∷ vs) s =
    if is_allowed_in (v ∷ vs) s
    then value true
    else and_then (join_values (v ∷ vs)) (λ _. value false)

abbrev pub is_null : Setting → Bool
is_null (set null) = true
is_null s = false

abbrev pub is_missing : Setting → Bool
is_missing not_set = true
is_missing (set v) = false

-- one key that the schema has as an entry
unfoldable pub check_entry : Bool → Entry → Setting → Reply Bool
unfolding is_valid_value
check_entry fail_on_missing e s =
    if fail_on_missing && is_missing s
    then value false
    else and_then (is_valid_value e.valid_values s)
        (λ ok_value. value (ok_value && (not (is_null s) || e.nullable)))

-- The loops: every key is looked at, and the first exception ends the check.
unfoldable pub check_keys : (String → Reply Bool) → List String → Reply Bool
check_keys f [] = value true
check_keys f (key ∷ rest) =
    and_then (f key)
      (λ ok_here. and_then (check_keys f rest) (λ ok_there. value (ok_here && ok_there)))

-- A key that is in the configuration and not in the schema only gets a warning.
abbrev pub check_setting : Bool → Option Entry → Option Setting → Reply Bool
check_setting fail_on_missing (some e) (some s) = check_entry fail_on_missing e s
check_setting fail_on_missing _ _ = value true

-- `config.update(raw_config)` over the settings of a namespace
abbrev pub with_supplied : Dict Setting → Dict Value → Dict Setting
with_supplied settings raw = update settings (map_values set raw)

-- `raw_config.get(namespace, {}).copy()`
abbrev pub as_dict : Option Value → Reply (Dict Value)
as_dict none = value []
as_dict (some (table fs)) = value (entries fs)
as_dict (some v) = fault attribute_error

-- `config.get(namespace, {}).copy()`
abbrev as_settings : Option Slot → Reply (Dict Setting)
as_settings none = value []
as_settings (some (space n)) = value n.settings
as_settings (some (setting s)) = fault attribute_error

unfoldable pub check_settings : Bool → Dict Entry → Dict Setting → Reply Bool
check_settings fail_on_missing es config =
    check_keys (λ key. check_setting fail_on_missing (get key es) (get key config)) (keys config)

-- the recursive call for a namespace
unfoldable pub check_namespace : Bool → Dict Entry → Option Slot → Option Value → Reply Bool
check_namespace fail_on_missing es slot raw = and_then (as_settings slot) (λ settings.
    and_then (as_dict raw) (λ own. check_settings fail_on_missing es (with_supplied settings own)))

-- the value under a key of the root after `config.update(raw_config)`
abbrev pub root_setting : Option Slot → Option Value → Setting
root_setting slot (some v) = set v
root_setting (some (setting s)) none = s
root_setting _ none = not_set

unfoldable pub check_node : Bool → Option Node → Option Slot → Option Value → Reply Bool
check_node fail_on_missing none slot raw = value true
check_node fail_on_missing (some (entry e)) slot raw =
    check_entry fail_on_missing e (root_setting slot raw)
check_node fail_on_missing (some (namespace es)) slot raw =
    check_namespace fail_on_missing es slot raw

-- `config` at the root: the generated keys, then the supplied ones that are new
abbrev pub root_keys : Dict Slot → Dict Value → List String
root_keys config raw = keys (update config (map_values (λ v. setting (set v)) raw))

unfoldable pub check_config_is_valid : Config → Bool → Reply Bool
check_config_is_valid c fail_on_missing = and_then (generate_config c) (λ config.
    check_keys
      (λ key. check_node fail_on_missing (get key c.schema) (get key config) (get key c.raw_config))
      (root_keys config c.raw_config))
