-- ===== src/Config/Load/Laws.antt =====
-- What a configuration that `load_config` hands out is like.
use mathlib.Core.Path.{subst}
use cloudify_system_tests.Dict.Each.{some_inj}
use cloudify_system_tests.Act.Returns.{ok-injective}
use cloudify_system_tests.Prelude.{
  ap, inr, inl, Bool-cases, String, ◌≡◌, refl, Bool, true, false, some, List, [], ◌∷◌,
}
use cloudify_system_tests.Dict.{Dict, get, Distinct, update}
use cloudify_system_tests.Dict.Update.{Distinct-update}
use cloudify_system_tests.Value.{Value}
use cloudify_system_tests.Act.{
  io_error, Done, Reply, value, fault, Result, ok, err, running, ◌>>=◌, continue,
}
use cloudify_system_tests.Config.{Config, SchemaFile, Entry, entry}
use cloudify_system_tests.Config.Schema.{update_schema}
use cloudify_system_tests.Config.Schema.Laws.{IsSound, update_schema-IsSound}
use cloudify_system_tests.Config.Generate.Laws.{setting_of}
use cloudify_system_tests.Config.Check.{check_config_is_valid}
use cloudify_system_tests.Config.Check.Laws.{IsAllowed, check_config_is_valid-root}
use cloudify_system_tests.Config.Load.{
  is_empty, ConfigFile, no_file, unreadable, contents, update_config, load_schemas, require_entries,
  initial, built, build, init, handle_missing, checked, then_validate, load_config,
}

load_tail-IsSound :
    (files : List SchemaFile) (r : Result Done) (c : Config)
    → IsSound c
    → ((d : Config) → IsSound d → IsSound (load_schemas files d).1)
    → IsSound (continue r (λ _. load_schemas files) c).1
load_tail-IsSound files (ok _) c h ih = ih c h
load_tail-IsSound files (err e) c h ih = h
load_tail-IsSound files running c h ih = h

load_schemas-IsSound :
    (files : List SchemaFile) (c : Config) → IsSound c → IsSound (load_schemas files c).1
unfolding load_schemas ◌>>=◌
load_schemas-IsSound [] c h = h
load_schemas-IsSound (file ∷ files) c h =
    load_tail-IsSound files (update_schema file c).0 (update_schema file c).1
      (update_schema-IsSound file c h) (λ d g. load_schemas-IsSound files d g)

required : (c d : Config) → built (require_entries c) ≡ ok d → c ≡ d
unfolding require_entries
required c d e = elim (Bool-cases (is_empty c.schema)) [
  | inl none_loaded ↦ cc (rw none_loaded at e)
  | inr some_loaded ↦ ok-injective (rw some_loaded at e)
]

built-IsSound :
    (r : Result Done) (c d : Config)
    → IsSound c
    → built (continue r (λ _. require_entries) c) ≡ ok d
    → IsSound d
built-IsSound (ok _) c d h e = subst IsSound (required c d e) h
built-IsSound (err x) c d h e = cc
built-IsSound running c d h e = cc

initial-IsSound : (raw : Dict Value) → Distinct raw → IsSound (initial raw)
initial-IsSound raw h = record { described = tt; schema_keys = tt; raw_keys = h }

build-IsSound :
    (schemas : List SchemaFile) (raw : Dict Value) (d : Config)
    → Distinct raw
    → build schemas (value raw) ≡ ok d
    → IsSound d
unfolding ◌>>=◌
build-IsSound schemas raw d h e =
    built-IsSound (load_schemas schemas (initial raw)).0 (load_schemas schemas (initial raw)).1 d
      (load_schemas-IsSound schemas (initial raw) (initial-IsSound raw h)) e

-- A configuration that `Config.__init__` returns is sound, whatever the schema files hold, if no key
-- of the given raw configuration stands twice.
pub init-IsSound :
    (file : ConfigFile) (schemas : List SchemaFile) (raw : Dict Value) (c : Config)
    → Distinct raw
    → init file schemas raw ≡ ok c
    → IsSound c
unfolding init update_config
init-IsSound no_file schemas raw c h e = build-IsSound schemas raw c h e
init-IsSound unreadable schemas raw c h e = cc
init-IsSound (contents file) schemas raw c h e =
    build-IsSound schemas (update raw file) c (Distinct-update raw file h) e

checked_inv :
    (c d : Config) (r : Reply Bool) → checked c r ≡ ok (some d) → (c ≡ d) × (r ≡ value true)
checked_inv c d (value true) e = (some_inj (ok-injective e), refl)
checked_inv c d (value false) e = cc
checked_inv c d (fault x) e = cc

-- What a validated configuration went through.
validated :
    (r : Result Config) (missing_config_fail : Bool) (c : Config)
    → then_validate true (handle_missing missing_config_fail r) ≡ ok (some c)
    → (r ≡ ok c) × (check_config_is_valid c true ≡ value true)
validated (ok x) f c e =
    let (same, valid) = checked_inv x c (check_config_is_valid x true) e in
    (ap ok same, subst (λ y. check_config_is_valid y true ≡ value true) same valid)
validated (err io_error) true c e = cc
validated (err io_error) false c e = cc
validated (err x) true c e = cc
validated (err x) false c e = cc
validated running f c e = cc

-- Where no key of the given raw configuration stands twice, every entry of the root of a configuration
-- that `load_config` has validated has an allowed setting that is not missing: what the
-- configuration supplies for it, or else its default.
pub load_config_validated :
    (file : ConfigFile) (missing_config_fail : Bool) (raw : Dict Value) (schemas : List SchemaFile)
    (c : Config) (k : String) (e : Entry)
    → Distinct raw
    → load_config file missing_config_fail true raw schemas ≡ ok (some c)
    → get k c.schema ≡ some (entry e)
    → IsAllowed true e (setting_of (get k c.raw_config) e)
unfolding load_config
load_config_validated file f raw schemas c k e h l n =
    let (made, valid) = validated (init file schemas raw) f c l in
    let sound = init-IsSound file schemas raw c h made in
    check_config_is_valid-root c true k e sound.schema_keys sound.raw_keys valid n
