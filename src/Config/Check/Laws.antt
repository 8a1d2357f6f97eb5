-- ===== src/Config/Check/Laws.antt =====
-- A configuration that passes the check has an allowed setting for every entry of the schema.
use mathlib.Core.Option
use mathlib.Core.Path.{subst}
use cloudify_system_tests.Prelude.{
  Bool-cases, false, not, ◌&&◌, ◌||◌, ◌⊎◌, inl, inr, sym, String, ◌≡◌, ◌≢◌, refl, ◌∙◌, ap, Bool,
  true, Option, none, some, List, [], ◌∷◌, eq_iff, arith, is_in,
}
use cloudify_system_tests.Dict.{Dict, get, Distinct, map_values, get-map_values}
use cloudify_system_tests.Dict.Update.{
  is_in-keys-update, newer, get-update, is_in-keys, Distinct-map_values,
}
use cloudify_system_tests.Value.Equal.{is_among}
use cloudify_system_tests.Value.{Value, null, table, entries}
use cloudify_system_tests.Act.{Done, Reply, value, fault}
use cloudify_system_tests.Config.{
  Config, Entry, entry, namespace, Setting, not_set, set, Slot, setting, space,
}
use cloudify_system_tests.Config.Generate.{
  generate_namespace, namespace_raw, generate_config, and_then,
}
use cloudify_system_tests.Config.Generate.Laws.{setting_of, get-generate_namespace}
use cloudify_system_tests.Config.Generate.Root.{IsGenerated, generate_config-IsGenerated}
use cloudify_system_tests.Config.Check.{
  is_missing, is_null, join_values, is_valid_value, check_entry, check_keys, check_setting,
  with_supplied, check_settings, check_namespace, root_setting, check_node, root_keys,
  check_config_is_valid,
}

-- What the schema allows for an entry: `NotSet` only where missing settings do not matter, one of
-- the valid values where there are any, and `None` only where it is nullable.
pub record IsAllowed (fail_on_missing : Bool) (e : Entry) (s : Setting) : Type 0 where
  pub present : (fail_on_missing ≡ false) ⊎ (s ≢ not_set)
  among : (e.valid_values ≡ []) ⊎ ((v : Value) × (s ≡ set v) × (is_among v e.valid_values ≡ true))
  not_null : (s ≢ set null) ⊎ (e.nullable ≡ true)

value-inj : {A : Type 0} {a b : A} → value a ≡ value b → a ≡ b
value-inj e = cc

missing-cases :
    (fail_on_missing : Bool) (s : Setting)
    → (fail_on_missing && is_missing s) ≡ false
    → (fail_on_missing ≡ false) ⊎ (s ≢ not_set)
missing-cases false s h = inl refl
missing-cases true not_set h = cc
missing-cases true (set v) h = inr λ e. cc

refused_value : (r : Reply Done) → and_then r (λ _. value false) ≢ value true
refused_value (value d) e = cc
refused_value (fault x) e = cc

is_valid_value-among :
    (vs : List Value) (s : Setting)
    → is_valid_value vs s ≡ value true
    → (vs ≡ []) ⊎ ((v : Value) × (s ≡ set v) × (is_among v vs ≡ true))
unfolding is_valid_value
is_valid_value-among [] s h = inl refl
is_valid_value-among (v ∷ vs) not_set h = absurd (refused_value (join_values (v ∷ vs)) h)
is_valid_value-among (v ∷ vs) (set w) h = elim (Bool-cases (is_among w (v ∷ vs))) [
  | inl among ↦ inr (w, refl, among)
  | inr refused ↦ absurd (refused_value (join_values (v ∷ vs)) (rw refused at h))
]

-- What a check of an entry that passes has found.
passed_value :
    (r : Reply Bool) (b : Bool)
    → and_then r (λ ok_value. value (ok_value && b)) ≡ value true
    → (r ≡ value true) × (b ≡ true)
passed_value (value true) b h = (refl, value-inj h)
passed_value (value false) b h = cc
passed_value (fault x) b h = cc

null-cases :
    (nullable : Bool) (s : Setting)
    → (not (is_null s) || nullable) ≡ true
    → (s ≢ set null) ⊎ (nullable ≡ true)
null-cases true s h = inr refl
null-cases false (set null) h = cc
null-cases false (set w) h = inl λ e. cc
null-cases false not_set h = inl λ e. cc

check_entry-IsAllowed :
    (fail_on_missing : Bool) (e : Entry) (s : Setting)
    → check_entry fail_on_missing e s ≡ value true
    → IsAllowed fail_on_missing e s
unfolding check_entry
check_entry-IsAllowed f e s h = elim (Bool-cases (f && is_missing s)) [
  | inl missing ↦ cc (rw missing at h)
  | inr there ↦
      let (among, not_null) = passed_value _ _ (rw there at h) in
      record {
        present = missing-cases f s there;
        among = is_valid_value-among e.valid_values s among;
        not_null = null-cases e.nullable s not_null;
      }
]

check_keys-at :
    (f : String → Reply Bool) (k : String) (ks : List String)
    → check_keys f ks ≡ value true
    → is_in k ks ≡ true
    → f k ≡ value true
unfolding check_keys
check_keys-at f k [] h m = cc
check_keys-at f k (j ∷ ks) h m = ground (arith, eq_iff j k, check_keys-at f k ks)

newest :
    (supplied : Option Value) (e : Entry)
    → newer (Option.map set supplied) (some (setting_of supplied e)) ≡ some (setting_of supplied e)
newest none e = refl
newest (some v) e = refl

-- the setting that a root entry has once the supplied values are in again
root_setting-eq :
    (supplied : Option Value) (e : Entry)
    → root_setting (some (setting (setting_of supplied e))) supplied ≡ setting_of supplied e
root_setting-eq none e = refl
root_setting-eq (some v) e = refl

-- the check of one key of the root
root_node_checked :
    (c : Config) (f : Bool) (k : String) (d : Dict Slot) (slot : Slot)
    → Distinct c.raw_config
    → get k d ≡ some slot
    → check_keys
        (λ key. check_node f (get key c.schema) (get key d) (get key c.raw_config))
        (root_keys d c.raw_config)
      ≡ value true
    → check_node f (get k c.schema) (some slot) (get k c.raw_config) ≡ value true
root_node_checked c f k d slot hr p h =
    subst (λ o. check_node f (get k c.schema) o (get k c.raw_config) ≡ value true) p
      (check_keys-at _ k _ h
        (is_in-keys-update k slot d _ (Distinct-map_values _ c.raw_config hr) p))

root_entry_checked :
    (c : Config) (f : Bool) (k : String) (e : Entry) (r : Reply (Dict Slot))
    → generate_config c ≡ r
    → Distinct c.schema
    → Distinct c.raw_config
    → get k c.schema ≡ some (entry e)
    → and_then r (λ config.
      check_keys
        (λ key. check_node f (get key c.schema) (get key config) (get key c.raw_config))
        (root_keys config c.raw_config))
      ≡ value true
    → IsAllowed f e (setting_of (get k c.raw_config) e)
unfolding check_node
root_entry_checked c f k e (fault x) g hs hr n h = cc
root_entry_checked c f k e (value d) g hs hr n h =
    let slot = setting (setting_of (get k c.raw_config) e) in
    let filled : get k d ≡ some slot =
      subst (λ o. IsGenerated c k o (get k d)) n (generate_config-IsGenerated c k d hs hr g) in
    let checked : check_node f (some (entry e)) (some slot) (get k c.raw_config) ≡ value true =
      subst (λ o. check_node f o (some slot) (get k c.raw_config) ≡ value true) n
        (root_node_checked c f k d slot hr filled h) in
    check_entry-IsAllowed f e _
      (subst (λ s. check_entry f e s ≡ value true) (root_setting-eq (get k c.raw_config) e) checked)

-- Where no key stands twice in the schema or in what was supplied, a check that passes has looked at
-- every entry of the root: what was supplied for it, or else its default, is allowed.
pub check_config_is_valid-root :
    (c : Config) (fail_on_missing : Bool) (k : String) (e : Entry)
    → Distinct c.schema
    → Distinct c.raw_config
    → check_config_is_valid c fail_on_missing ≡ value true
    → get k c.schema ≡ some (entry e)
    → IsAllowed fail_on_missing e (setting_of (get k c.raw_config) e)
unfolding check_config_is_valid
check_config_is_valid-root c f k e hs hr h n = root_entry_checked c f k e _ refl hs hr n h

-- The supplied values of a namespace, where it is given at all, as a mapping.
abbrev own_values : Option Value → Dict Value
own_values (some (table fs)) = entries fs
own_values _ = []

namespace_entry_checked :
    (f : Bool) (es : Dict Entry) (k : String) (e : Entry) (own : Dict Value)
    → Distinct own
    → get k es ≡ some e
    → check_settings f es (with_supplied (generate_namespace es own).settings own) ≡ value true
    → IsAllowed f e (setting_of (get k own) e)
unfolding check_settings
namespace_entry_checked f es k e own ho n h =
    let settings = (generate_namespace es own).settings in
    let held : get k settings ≡ some (setting_of (get k own) e) =
      get-generate_namespace k es own ho ∙ ap (Option.map (setting_of (get k own))) n in
    let merged : get k (with_supplied settings own) ≡ some (setting_of (get k own) e) =
      get-update k settings (map_values set own) (Distinct-map_values set own ho)
      ∙ ap (newer (get k (map_values set own))) held
      ∙ ap (λ o. newer o (some (setting_of (get k own) e))) (get-map_values set k own)
      ∙ newest (get k own) e in
    let checked =
      check_keys-at _ k _ h
        (is_in-keys k (setting_of (get k own) e) (with_supplied settings own) merged) in
    check_entry-IsAllowed f e _ (
      subst (λ o. check_setting f (some e) o ≡ value true) merged
        (subst (λ o. check_setting f o (get k (with_supplied settings own)) ≡ value true) n
          checked))

namespace_checked :
    (c : Config) (f : Bool) (name k : String) (es : Dict Entry) (e : Entry) (raw : Option Value)
    (own : Dict Value)
    → Distinct (own_values raw)
    → namespace_raw c.raw_config raw ≡ value own
    → get k es ≡ some e
    → check_namespace f es (some (space (generate_namespace es own))) raw ≡ value true
    → IsAllowed f e (setting_of (get k (own_values raw)) e)
unfolding check_namespace namespace_raw
namespace_checked c f name k es e none own ho r n h = namespace_entry_checked f es k e [] tt n (
    subst
      (λ o. check_settings f es (with_supplied (generate_namespace es o).settings []) ≡ value true)
      (sym (value-inj r)) h)
namespace_checked c f name k es e (some (table fs)) own ho r n h =
    namespace_entry_checked f es k e (entries fs) ho n (
      subst
        (λ o.
          check_settings f es (with_supplied (generate_namespace es o).settings (entries fs))
          ≡ value true)
        (sym (value-inj r)) h)
namespace_checked c f name k es e (some w) own ho r n h = cc

namespace_found :
    (c : Config) (f : Bool) (name k : String) (es : Dict Entry) (e : Entry) (r : Reply (Dict Slot))
    → generate_config c ≡ r
    → Distinct c.schema
    → Distinct c.raw_config
    → Distinct (own_values (get name c.raw_config))
    → get name c.schema ≡ some (namespace es)
    → get k es ≡ some e
    → and_then r (λ config.
      check_keys
        (λ key. check_node f (get key c.schema) (get key config) (get key c.raw_config))
        (root_keys config c.raw_config))
      ≡ value true
    → IsAllowed f e (setting_of (get k (own_values (get name c.raw_config))) e)
unfolding check_node
namespace_found c f name k es e (fault x) g hs hr ho n m h = cc
namespace_found c f name k es e (value d) g hs hr ho n m h =
    let (own, given, filled) =
      subst (λ o. IsGenerated c name o (get name d)) n
        (generate_config-IsGenerated c name d hs hr g) in
    namespace_checked c f name k es e (get name c.raw_config) own ho given m (
      subst
        (λ o.
          check_node f o (some (space (generate_namespace es own))) (get name c.raw_config)
          ≡ value true)
        n (root_node_checked c f name d (space (generate_namespace es own)) hr filled h))

-- Where no key stands twice in the schema, in what was supplied or in what was supplied for the
-- namespace, a check that passes has looked at every entry of a namespace of the schema, also where
-- the configuration does not give the namespace: what was supplied for the entry in the namespace,
-- or else its default, is allowed.
pub check_config_is_valid-namespace :
    (c : Config) (fail_on_missing : Bool) (name k : String) (es : Dict Entry) (e : Entry)
    → Distinct c.schema
    → Distinct c.raw_config
    → Distinct (own_values (get name c.raw_config))
    → check_config_is_valid c fail_on_missing ≡ value true
    → get name c.schema ≡ some (namespace es)
    → get k es ≡ some e
    → IsAllowed fail_on_missing e (setting_of (get k (own_values (get name c.raw_config))) e)
unfolding check_config_is_valid
check_config_is_valid-namespace c f name k es e hs hr ho h n m =
    namespace_found c f name k es e _ refl hs hr ho n m h
