-- ===== src/Config/Generate/Laws.antt =====
-- What the generated configuration holds under each name.
use mathlib.Core.Option
use cloudify_system_tests.Prelude.{
  String, ◌≡◌, Option, none, some, [], ◌∷◌, eq_iff, if◌then◌else◌, arith,
}
use cloudify_system_tests.Dict.{Dict, get, put, contains, Distinct, get-put, get-map_values}
use cloudify_system_tests.Value.{Value}
use cloudify_system_tests.Config.{Entry, Setting, set}
use cloudify_system_tests.Config.Generate.{default_setting, populate, generate_namespace}

-- what a name that is there holds once the supplied values are in
abbrev pub overridden : {V : Type 0} → (Value → V) → Option Value → Option V → Option V
overridden wrap supplied none = none
overridden wrap none (some v) = some v
overridden wrap (some w) (some v) = some (wrap w)

pub get-populate :
    {V : Type 0} (wrap : Value → V) (k : String) (raw : Dict Value) (config : Dict V)
    → Distinct raw
    → get k (populate wrap raw config) ≡ overridden wrap (get k raw) (get k config)
unfolding get populate
get-populate wrap k [] config h = ground arith
get-populate wrap k ((j, v) ∷ raw) config h = ground (
  arith,
  eq_iff j k,
  get-put j k (wrap v) config,
  get-populate wrap k raw (if contains j config then put j (wrap v) config else config) h.1,
)

-- The setting that an entry has: what was supplied under its name, or its default.
abbrev pub setting_of : Option Value → Entry → Setting
setting_of (some v) e = set v
setting_of none e = default_setting e.default

-- In a namespace for which no key is supplied twice, every entry of the schema, and nothing else, has
-- a setting: the supplied value, or else the default, or else `NotSet`.
pub get-generate_namespace :
    (k : String) (es : Dict Entry) (raw : Dict Value)
    → Distinct raw
    → get k (generate_namespace es raw).settings ≡ Option.map (setting_of (get k raw)) (get k es)
unfolding generate_namespace
get-generate_namespace k es raw h =
    rw (get-populate set k raw _ h, get-map_values (λ (e : Entry). default_setting e.default) k es)
      (ground arith)
