-- ===== src/ConfCli/Main.antt =====
-- `main` of conf_cli.py, once the arguments have been parsed.
use cloudify_system_tests.Prelude.{
  String, Bool, true, false, Option, none, some, List, [], ◌∷◌, ◌==◌, if◌then◌else◌,
}
use cloudify_system_tests.Dict.{Dict}
use cloudify_system_tests.Act.{
  Done, Reply, value, fault, Result, ok, err, running, attribute_error, exit_status, result,
}
use cloudify_system_tests.Value.{Value, text}
use cloudify_system_tests.Config.{SchemaFile, Config}
use cloudify_system_tests.Config.Load.{ConfigFile, no_file, load_config}
use cloudify_system_tests.Config.Check.{check_config_is_valid}
use cloudify_system_tests.ConfCli.{Writer, Mode, show_schema}
use cloudify_system_tests.ConfCli.Platform.{apply_platform_config}

-- `args`, by its action; a platform that is not given is the same as an empty one.
data Arguments : Type 0 where
  no_action : Arguments
  validate : String → Arguments
  schema : Arguments
  generate : Bool → String → Arguments

-- What surrounds the program: the files that can be named, those of the schema, and the environment.
record Surroundings : Type 0 where
  pub file : String → ConfigFile
  pub schemas : List SchemaFile
  pub environ : Dict String

abbrev generation : Bool → Mode
generation include_defaults = record {
  generate_sample_config = true;
  include_defaults = include_defaults;
}

abbrev pub description : Mode
description = record { generate_sample_config = false; include_defaults = false }

-- the `raw_config` that a sample configuration starts from
abbrev platform_raw : String → Dict Value
platform_raw platform = if platform == "" then [] else ("target_platform", text platform) ∷ []

-- what follows the loading of the configuration
abbrev with_config : Result (Option Config) → (Config → Result String) → Result String
with_config (ok (some c)) f = f c
with_config (ok none) f = err attribute_error
with_config (err e) f = err e
with_config running f = running

-- `sys.exit(1)` where the platform's settings are refused
abbrev pub accepted : Reply Bool → Result String → Result String
accepted (value true) printed = printed
accepted (value false) printed = err (exit_status 1)
accepted (fault e) printed = err e

module _ (w : Writer) (s : Surroundings) where
  abbrev print_sample : Bool → Config → Result String
  print_sample include_defaults c =
      result (show_schema w (generation include_defaults) "" c.schema c.raw_config)

  abbrev with_platform : Bool → Result Done × Config → Result String
  with_platform include_defaults (ok done, c) =
      accepted (check_config_is_valid c false) (print_sample include_defaults c)
  with_platform include_defaults (err e, c) = err e
  with_platform include_defaults (running, c) = running

  unfoldable generate_sample : Bool → String → Config → Result String
  generate_sample include_defaults platform c =
      if platform == ""
      then print_sample include_defaults c
      else with_platform include_defaults (apply_platform_config s.environ platform c)

  -- what is printed
  unfoldable main : Arguments → Result String
  main no_action = ok ""
  main (validate config_location) =
      with_config (load_config (s.file config_location) true true [] s.schemas) (λ c. ok "")
  main schema =
      with_config (load_config no_file true false [] s.schemas)
        (λ c. result (show_schema w description "" c.schema []))
  main (generate include_defaults platform) =
      with_config (load_config no_file true false (platform_raw platform) s.schemas)
        (generate_sample include_defaults platform)
