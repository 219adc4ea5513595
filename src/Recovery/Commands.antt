-- ===== src/Recovery/Commands.antt =====
-- `validate_corrections_against_commands` of recovery_executor.py: each correction against the
-- robot's live action spec, its confirmation, its arguments and its recorded defaults.
pub mod Schema
pub mod Arguments
pub mod Defaults
use failure_resolver.Prelude.{
  ℕ, String, Bool, true, false, not, List, [], ◌∷◌, ◌==◌, str_eq, if◌then◌else◌,
}
use failure_resolver.Json.{Json, bool, Fields, get, is_true}
use failure_resolver.Errors.{Result, ok, err, contract, ◌>>=◌, ◌>>◌, raise_if, Done}
use failure_resolver.Runtime.{Runtime}
use failure_resolver.Robot.Frames.{CommandsFrame}
use failure_resolver.Recovery.Target.{as_object}
use failure_resolver.Recovery.Plan.Action.{RecoveryAction}
use Arguments.{validate_action_arguments}
use Defaults.{validate_action_provenance}

abbrev is_false : Json → Bool
is_false (bool b) = not b
is_false _ = false

-- `_command_requires_confirmation`
unfoldable pub command_requires_confirmation : String → Fields → Fields → Bool
command_requires_confirmation command arguments schema =
    if is_true (get "requires_confirmation" schema)
    then true
    else if str_eq command "download_vla_model"
    then true
    else if str_eq command "override_vla_model"
    then not (is_false (get "allow_download" arguments))
    else false

module _ (py : Runtime) where
  unfoldable pub validate_correction : RecoveryAction → Fields → Result Done
  validate_correction action commands = do
    schema ← as_object (get action.command commands)
    raise_if (command_requires_confirmation action.command action.arguments schema) contract
    validate_action_arguments py action.command action.arguments schema
    validate_action_provenance py action schema

  unfoldable pub validate_each : List RecoveryAction → Fields → Result Done
  validate_each [] commands = ok tt
  validate_each (a ∷ actions) commands = do
    validate_correction a commands
    validate_each actions commands

  unfoldable pub validate_corrections_against_commands :
      List RecoveryAction → CommandsFrame → ℕ → Result Done
  validate_corrections_against_commands corrections frame generation = do
    raise_if (not (frame.generation == generation)) contract
    validate_each corrections frame.commands
