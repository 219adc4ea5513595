-- ===== src/Recovery/Checks.antt =====
-- The checks of recovery_executor.py that hold a plan to a failure row, to a recovery session and to
-- the live Flow.
pub mod Live
use failure_resolver.Prelude.{
  ℕ, ◌-◌, String, Bool, true, false, not, ◌&&◌, ◌||◌, Option, none, some, List, ◌==◌, leb, str_eq,
  if◌then◌else◌, strip,
}
use failure_resolver.Errors.{Result, ok, err, contract, ◌>>=◌, ◌>>◌, raise_if, Done}
use failure_resolver.Runtime.{Runtime}
use failure_resolver.Robot.Pointer.{FlowPointer, or_else}
use failure_resolver.Recovery.Target.{PointerTarget, PointerKey, pointer_key}
use failure_resolver.Recovery.Session.{SessionRecord, session_key}
use failure_resolver.Recovery.Flow.{
  ActionContext, same_context, flow_action_contexts, by_index, next_after,
}
use failure_resolver.Recovery.Plan.Continuation.{Terminal, rerun, resume_flow, RecoveryPlan}

abbrev pub index_is : Option ℕ → ℕ → Bool
index_is none n = false
index_is (some i) n = i == n

abbrev pub text_is : Option String → String → Bool
text_is none t = false
text_is (some s) t = str_eq s t

-- The step that the plan continues at is the given one.
unfoldable pub identifies : RecoveryPlan → ℕ → String → Bool
identifies plan index command =
    index_is (or_else plan.legacy_retry_index plan.captured_action_index) index
    && text_is (or_else plan.legacy_retry_command plan.captured_action_command) command

unfoldable pub validate_plan_for_target : RecoveryPlan → PointerTarget → Result Done
validate_plan_for_target plan target =
    raise_if (not (identifies plan target.action_index target.action_command)) contract

unfoldable pub validate_plan_for_session : RecoveryPlan → SessionRecord → Result Done
validate_plan_for_session plan session =
    raise_if (not (identifies plan session.action_index session.action_command)) contract

live_action : ℕ → String → List ActionContext → Result ActionContext
live_action index command contexts = elim (by_index index contexts) [
  | none ↦ err contract
  | some c ↦ if str_eq c.command command then ok c else err contract
]

-- The action `steps` before `index`; below the first index there is none.
unfoldable pub action_before : ℕ → ℕ → List ActionContext → Option ActionContext
action_before index steps contexts =
    if leb steps index then by_index (index - steps) contexts else none

check_terminal : Terminal → RecoveryPlan → ℕ → List ActionContext → ActionContext → Result Done
check_terminal resume_flow plan index contexts live =
    raise_if
      (not (same_context plan.captured_current_context (some live))
        || not (
            same_context plan.captured_target_context
              (action_before index plan.rewind_steps contexts)))
      contract
check_terminal rerun plan index contexts live = do
  raise_if
      (not (same_context plan.legacy_retry_context (some live))
        || not plan.legacy_expected_next_present)
      contract
  raise_if (not (same_context plan.legacy_expected_next (next_after live contexts))) contract

validate_at : RecoveryPlan → FlowPointer → Option ℕ → Option String → Result Done
unfolding live_action check_terminal
validate_at plan pointer (some index) (some command) = do
  contexts ← flow_action_contexts pointer.raw
  live ← live_action index command contexts
  check_terminal plan.terminal_command plan index contexts live
validate_at plan pointer _ _ = err contract

unfoldable pub validate_plan_for_flow : RecoveryPlan → FlowPointer → Result Done
unfolding validate_at
validate_plan_for_flow plan pointer = do
  raise_if pointer.completed contract
  validate_at plan pointer pointer.action_index pointer.action_command

module _ (py : Runtime) where
  -- `status.strip().casefold()`
  abbrev pub folded_status : FlowPointer → String
  folded_status p = py.casefold (strip p.status)

  -- The Flow is paused on the step.
  unfoldable pub is_paused_at : FlowPointer → String → ℕ → String → Bool
  is_paused_at p flow_id index command =
      str_eq (folded_status p) "paused"
      && str_eq p.flow_id flow_id
      && index_is p.action_index index
      && text_is p.action_command command

  unfoldable pub pointer_matches_target : Option FlowPointer → PointerTarget → Bool
  pointer_matches_target none target = false
  pointer_matches_target (some p) target =
      is_paused_at p target.flow_id target.action_index target.action_command

  unfoldable pub pointer_matches_session : FlowPointer → SessionRecord → Bool
  pointer_matches_session p session =
      is_paused_at p session.flow_id session.action_index session.action_command
