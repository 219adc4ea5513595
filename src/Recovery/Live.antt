-- ===== src/Recovery/Live.antt =====
-- `RecoveryCoordinator._require_live_execution_state` of recovery_executor.py: what has to hold of
-- the robot session at each dispatch.
pub mod Dispatch
use failure_resolver.Robot.Frames.{CommandsFrame}
use failure_resolver.Prelude.{
  ℕ, ◌≡◌, String, Bool, true, false, not, ◌&&◌, ◌||◌, Option, none, some, ◌==◌, str_eq,
  if◌then◌else◌,
}
use failure_resolver.Errors.{
  Result, ok, err, non_executable, live_state_changed, is_contract, ◌>>=◌, ◌>>◌, raise_if, Done,
}
use failure_resolver.Runtime.{Runtime}
use failure_resolver.Robot.Pointer.{FlowPointer}
use failure_resolver.Recovery.Checks.{validate_plan_for_flow}
use failure_resolver.Recovery.Commands.{validate_corrections_against_commands}
use failure_resolver.Recovery.Plan.Continuation.{RecoveryPlan}

-- What the coordinator reads of a `RobotSession`.
pub record SessionView : Type 0 where
  pub connected : Bool
  pub generation : ℕ
  pub latest_flow : Option FlowPointer
  pub latest_commands_frame : Option CommandsFrame

same_index : Option ℕ → Option ℕ → Bool
same_index none none = true
same_index (some a) (some b) = a == b
same_index _ _ = false

same_text : Option String → Option String → Bool
same_text none none = true
same_text (some a) (some b) = str_eq a b
same_text _ _ = false

-- The same frame of the same connection, at the same step.
unfoldable pub same_pointer : FlowPointer → FlowPointer → Bool
unfolding same_index same_text
same_pointer a b =
    (a.generation == b.generation)
    && (a.revision == b.revision)
    && str_eq a.flow_id b.flow_id
    && str_eq a.status b.status
    && same_index a.action_index b.action_index
    && same_text a.action_command b.action_command

unfoldable pub live_flow : SessionView → FlowPointer → Result FlowPointer
live_flow view p = elim view.latest_flow [
  | none ↦ err live_state_changed
  | some latest ↦
      if view.connected && (view.generation == p.generation) && same_pointer latest p
      then ok latest
      else err live_state_changed
]

unfoldable pub live_frame : SessionView → FlowPointer → Result CommandsFrame
live_frame view p = elim view.latest_commands_frame [
  | none ↦ err live_state_changed
  | some frame ↦ if frame.generation == p.generation then ok frame else err live_state_changed
]

-- `except RecoveryContractError as error: raise RecoveryNonExecutableError(...)`
unfoldable pub as_non_executable {ℓ} : {A : Type ℓ} → Result A → Result A
as_non_executable (ok a) = ok a
as_non_executable (err e) = if is_contract e then err non_executable else err e

module _ (py : Runtime) where
  unfoldable pub require_live_execution_state :
      SessionView → FlowPointer → RecoveryPlan → Result CommandsFrame
  require_live_execution_state view p plan = do
    latest ← live_flow view p
    frame ← live_frame view p
    as_non_executable (do
      validate_plan_for_flow plan latest
      validate_corrections_against_commands py plan.corrections frame p.generation)
    ok frame
