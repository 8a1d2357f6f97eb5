-- ===== src/Run.antt =====
-- `run` of framework/util.py: a command on the tester, with retries.
pub mod Codes
use cloudify_system_tests.Prelude.{
  ℕ, zero, suc, String, Bool, true, false, not, ◌&&◌, Option, none, some, List, [], ◌∷◌, map,
  if◌then◌else◌,
}
use cloudify_system_tests.Dict.{Dict}
use cloudify_system_tests.Act.{
  Act, Done, Error, Reply, value, fault, result, type_error, process_execution, process_killed,
  pass, pure, raise, ◌>>=◌, ◌>>◌,
}

-- An argument of a command: `globx` puts the list of the names that match in place of each.
pub data Argument : Type 0 where
  word : String → Argument
  names : List String → Argument

pub data CommandLine : Type 0 where
  line : String → CommandLine
  arguments : List Argument → CommandLine

pub record Options : Type 0 where
  pub stdin : String
  pub ignore_failures : Bool
  pub globx : Bool
  pub shell : Bool
  pub env : Option (Dict String)

-- what a retry runs with, whatever the first call was given
abbrev pub defaults : Options
defaults = record { stdin = ""; ignore_failures = false; globx = false; shell = false; env = none }

-- A return code, or the signal that ended the process (a negative return code).
pub data Code : Type 0 where
  exited : ℕ → Code
  killed : ℕ → Code

pub record Process : Type 0 where
  pub returncode : Code
  pub aggr_stdout : String
  pub aggr_stderr : String

-- `shlex.split`, `glob.glob`, and a process from its start to its end
pub record Shell (W : Type 0) : Type 0 where
  pub split : String → List String
  pub glob : String → W → List String
  pub start : CommandLine → Options → W → Reply Process × W

-- a text as the sequence of its characters
abbrev letters : String → List Argument
letters String.[] = []
letters (String.◌∷◌ c t) = word (String.◌∷◌ c "") ∷ letters t

-- `proc.returncode != 0`
abbrev pub has_failed : Code → Bool
has_failed (exited zero) = false
has_failed _ = true

module _ {W : Type 0} (s : Shell W) where
  unfoldable pub split_command : Options → CommandLine → CommandLine
  split_command o (line c) = if o.shell then line c else arguments (map word (s.split c))
  split_command o (arguments cs) = arguments cs

  abbrev pub matches : Argument → W → Reply Argument
  matches (word c) w = value (names (s.glob c w))
  matches (names ns) w = fault type_error

  unfoldable pub expand : List Argument → Act W (List Argument)
  expand [] = pure []
  expand (a ∷ rest) = do
    expanded ← (λ w. (result (matches a w), w))
    others ← expand rest
    pure (expanded ∷ others)

  -- `' '.join(command)`, for the log and the message: it raises for what `globx` has made
  unfoldable pub command_text : CommandLine → Act W Done
  command_text (line c) = pass
  command_text (arguments []) = pass
  command_text (arguments (word c ∷ rest)) = command_text (arguments rest)
  command_text (arguments (names ns ∷ rest)) = raise type_error

  -- `if globx`
  unfoldable pub expand_command : Bool → CommandLine → Act W CommandLine
  expand_command false c = pure c
  expand_command true (line c) = expand (letters c) >>= λ expanded. pure (arguments expanded)
  expand_command true (arguments cs) = expand cs >>= λ expanded. pure (arguments expanded)

  unfoldable pub launch : Options → CommandLine → Act W (CommandLine × Process)
  launch o c = do
    command ← expand_command o.globx (split_command o c)
    proc ← (λ w. let (r, w') = s.start command o w in (result r, w'))
    pure (command, proc)

  abbrev failure_of : Code → Error
  failure_of (exited n) = process_execution n
  failure_of (killed n) = process_killed n

  -- after the last try
  unfoldable pub give_up : Options → Process → Act W Process
  give_up o proc = if o.ignore_failures then pure proc else raise (failure_of proc.returncode)

  -- what follows a process that has ended; `again` is the next try
  unfoldable pub conclude : CommandLine × Process → Act W Process → Act W Process
  conclude (command, proc) again =
      if has_failed proc.returncode then (command_text command >> again) else pure proc

  unfoldable pub run : ℕ → Options → CommandLine → Act W Process
  run zero o c = do ended ← launch o c; conclude ended (give_up o ended.1)
  run (suc retries) o c = do ended ← launch o c; conclude ended (run retries defaults ended.0)
