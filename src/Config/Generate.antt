-- ===== src/Config/Generate.antt =====
-- `Config._generate_config`: the settings that the tests read, from the defaults of the schema and
-- what was supplied; and `NameSpace.__getitem__`.
pub mod Laws
pub mod Root
use cloudify_system_tests.Prelude.{
  String, Bool, true, false, Option, none, some, List, [], ◌∷◌, if◌then◌else◌,
}
use cloudify_system_tests.Dict.{Dict, get, put, contains, map_values}
use cloudify_system_tests.Value.{Value, null, table, entries}
use cloudify_system_tests.Act.{Error, Reply, value, fault, attribute_error}
use cloudify_system_tests.Config.{
  Entry, Node, entry, namespace, Setting, not_set, set, NameSpace, Slot, setting, space, Config,
}

-- `v.get('default', NotSet)`
abbrev pub default_setting : Option Value → Setting
default_setting none = not_set
default_setting (some v) = set v

-- What stands under a namespace's name before the namespace is filled in is never read.
abbrev pub root_default : Node → Slot
root_default (entry e) = setting (default_setting e.default)
root_default (namespace es) = setting not_set

-- `for key, value in raw_config.items(): if key in config: config[key] = value`
unfoldable pub populate : {V : Type 0} → (Value → V) → Dict Value → Dict V → Dict V
populate wrap [] config = config
populate wrap ((key, v) ∷ raw) config =
    populate wrap raw (if contains key config then put key (wrap v) config else config)

unfoldable pub generate_namespace : Dict Entry → Dict Value → NameSpace
generate_namespace es raw = record {
  settings = populate set raw (map_values (λ e. default_setting e.default) es);
  supplied = raw;
}

-- What the recursive call is given for `raw_config.get(namespace, {})`: where that is `None`, it
-- takes the whole configuration instead.
unfoldable pub namespace_raw : Dict Value → Option Value → Reply (Dict Value)
namespace_raw raw none = value []
namespace_raw raw (some null) = value raw
namespace_raw raw (some (table fs)) = value (entries fs)
namespace_raw raw (some _) = fault attribute_error

abbrev pub and_then : {A B : Type 0} → Reply A → (A → Reply B) → Reply B
and_then (value a) f = f a
and_then (fault e) f = fault e

-- `for namespace in namespaces: config[namespace] = …`
unfoldable pub populate_namespaces : Dict Value → Dict Node → Dict Slot → Reply (Dict Slot)
unfolding generate_namespace namespace_raw
populate_namespaces raw [] config = value config
populate_namespaces raw ((key, entry e) ∷ schema) config = populate_namespaces raw schema config
populate_namespaces raw ((key, namespace es) ∷ schema) config =
    and_then (namespace_raw raw (get key raw))
      (λ own. populate_namespaces raw schema (put key (space (generate_namespace es own)) config))

unfoldable pub generate_config : Config → Reply (Dict Slot)
unfolding populate populate_namespaces
generate_config c =
    populate_namespaces c.raw_config c.schema
      (populate (λ v. setting (set v)) c.raw_config (map_values root_default c.schema))

-- `NameSpace.__getitem__`: a `KeyError` says whether the key was supplied without being in the schema.
pub data Item (V : Type 0) : Type 0 where
  found : V → Item V
  not_in_schema : Item V
  not_supplied : Item V

abbrev missing_item : {V : Type 0} → Bool → Item V
missing_item true = not_in_schema
missing_item false = not_supplied

unfoldable pub get_item : {V : Type 0} → Dict V → Dict Value → String → Item V
get_item config raw item = elim (get item config) [
  | some v ↦ found v
  | none ↦ missing_item (contains item raw)
]
