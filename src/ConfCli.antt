-- ===== src/ConfCli.antt =====
-- conf_cli.py: the command line that shows the schema, and writes a sample configuration.
pub mod Platform
pub mod Main
pub mod Laws
use Prim.Native.String.{◌++◌ as text_append}
use cloudify_system_tests.Prelude.{
  String, Bool, true, false, Option, none, some, List, [], ◌∷◌, ◌++◌, ◌==◌, if◌then◌else◌, zero,
  suc,
}
use cloudify_system_tests.Text.{concat, join, text_in}
use cloudify_system_tests.Dict.{Dict, get, keys}
use cloudify_system_tests.Act.{Reply, value, fault, key_error, type_error}
use cloudify_system_tests.Value.{
  Value, null, flag, number, text, sequence, table, Items, nil, cons, Fields, end, field, entries,
}
use cloudify_system_tests.Value.Update.{is_item}
use cloudify_system_tests.Config.{Entry, Node, entry, namespace}
use cloudify_system_tests.Config.Generate.{and_then}
use cloudify_system_tests.Sorting.{sorted}
use cloudify_system_tests.Sorting.Keys.{text_order}

-- How values are written: `json.dumps`, and `str` for what stands in a template.
pub record Writer : Type 0 where
  pub dumps : Value → String
  pub show : Value → String

-- The options of `show_schema`.
pub record Mode : Type 0 where
  pub generate_sample_config : Bool
  pub include_defaults : Bool

-- `raw_config or {}`
unfoldable pub or_blank : Value → Value
or_blank null = table end
or_blank (flag false) = table end
or_blank (number zero) = table end
or_blank (text t) = if t == "" then table end else text t
or_blank (sequence nil) = table end
or_blank v = v

-- `raw_config[entry]` where `entry in raw_config`
unfoldable pub supplied : String → Value → Reply (Option Value)
supplied name (table fields) = value (get name (entries fields))
supplied name (text t) = if text_in name t then fault type_error else value none
supplied name (sequence items) = if is_item name items then fault type_error else value none
supplied name v = fault type_error

-- '{indent}{entry}: {value} # {description}'
abbrev sample_line : String → String → String → String → List String
sample_line indent name shown description =
    concat (indent ∷ name ∷ ": " ∷ shown ∷ " # " ∷ description ∷ []) ∷ []

-- `namespaces`, and `root_config_entries`, of sorted names
abbrev is_namespace : Option Node → Bool
is_namespace (some (namespace es)) = true
is_namespace _ = false

unfoldable pub select : Bool → (String → Option Node) → List String → List String
select wanted schema [] = []
select wanted schema (name ∷ names) =
    let rest = select wanted schema names in
    if is_namespace (schema name)
    then (if wanted then name ∷ rest else rest)
    else (if wanted then rest else name ∷ rest)

-- `for … in …: output.append(…)`, where a round may add several texts
unfoldable pub collect : (String → Reply (List String)) → List String → Reply (List String)
collect round [] = value []
collect round (name ∷ names) =
    and_then (round name) (λ lines. and_then (collect round names) (λ rest. value (lines ++ rest)))

module _ (w : Writer) where
  -- `details['description']`, put into a template
  abbrev with_description : Option Value → (String → List String) → Reply (List String)
  with_description none lines = fault key_error
  with_description (some description) lines = value (lines (w.show description))

  abbrev default_part : Option Value → String
  default_part none = ""
  default_part (some d) = concat (" (Default: " ∷ w.dumps d ∷ ")" ∷ [])

  abbrev schema_line : String → String → Option Value → String → List String
  schema_line indent name default description =
      concat (indent ∷ name ∷ ": " ∷ description ∷ default_part default ∷ []) ∷ []

  -- an entry that is not supplied
  unfoldable pub unsupplied_line :
      Bool → String → String → Entry → Option Value → Reply (List String)
  unsupplied_line include_defaults indent name details (some d) =
      if include_defaults
      then with_description details.description (sample_line indent name (w.dumps d))
      else value []
  unsupplied_line include_defaults indent name details none =
      with_description details.description (sample_line indent name "")

  unfoldable pub sample_lines : Bool → String → String → Entry → Option Value → Reply (List String)
  sample_lines include_defaults indent name details (some v) =
      with_description details.description (sample_line indent name (w.show v))
  sample_lines include_defaults indent name details none =
      unsupplied_line include_defaults indent name details details.default

  -- the body of the first loop
  unfoldable pub entry_lines : Mode → String → Value → String → Entry → Reply (List String)
  entry_lines m indent raw_config name details =
      if m.generate_sample_config
      then and_then (supplied name raw_config) (sample_lines m.include_defaults indent name details)
      else with_description details.description (schema_line indent name details.default)

  abbrev pub lines_of : Mode → String → Value → String → Option Entry → Reply (List String)
  lines_of m indent raw_config name none = fault key_error
  lines_of m indent raw_config name (some details) = entry_lines m indent raw_config name details

  -- the recursive call: there are no namespaces in a namespace
  unfoldable pub show_namespace : Mode → String → Dict Entry → Value → Reply String
  show_namespace m indent es raw_config =
      and_then
        (collect (λ name. lines_of m indent (or_blank raw_config) name (get name es))
          (sorted (keys es)))
        (λ output. value (join "\n" output))

  -- the body of the second loop, once the namespace has been shown
  abbrev headed : String → String → String → List String
  headed indent name namespace_output =
      if namespace_output == ""
      then []
      else concat (indent ∷ name ∷ ":" ∷ []) ∷ namespace_output ∷ []

  -- `raw_config.get(namespace, {})`
  abbrev own_part : Option Value → Value
  own_part none = table end
  own_part (some v) = v

  unfoldable pub root_lines :
      Mode → String → Dict Value → String → Option Node → Reply (List String)
  root_lines m indent raw_config name none = fault key_error
  root_lines m indent raw_config name (some (entry details)) =
      if m.generate_sample_config
      then sample_lines m.include_defaults indent name details (get name raw_config)
      else with_description details.description (schema_line indent name details.default)
  root_lines m indent raw_config name (some (namespace es)) =
      and_then (show_namespace m (text_append indent "  ") es (own_part (get name raw_config)))
        (λ namespace_output. value (headed indent name namespace_output))

  -- the two loops, over sorted names and what stands under them
  abbrev pub show_names :
      Mode → String → List String → (String → Option Node) → Dict Value → Reply String
  show_names m indent names schema raw_config =
      and_then
        (collect (λ name. root_lines m indent raw_config name (schema name))
          (select false schema names ++ select true schema names))
        (λ output. value (join "\n" output))

  unfoldable pub show_schema : Mode → String → Dict Node → Dict Value → Reply String
  show_schema m indent schema raw_config =
      show_names m indent (sorted (keys schema)) (λ name. get name schema) raw_config
