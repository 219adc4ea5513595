-- ===== src/Recovery/Tests/Runs.antt =====
-- A wait for a Flow outcome, and one whole attempt against a robot that follows the plan.
use failure_resolver.Robot.Frames.{CommandsFrame}
use failure_resolver.Recovery.Tests.{plan_parses, plan_is_live}
use failure_resolver.Recovery.Live.Dispatch.{
  IsDispatchable, require_live_execution_state-IsDispatchable,
}
use failure_resolver.Recovery.Resume.Acknowledged.{
  Acknowledges, validate_resume_acknowledgement-Acknowledges,
}
use failure_resolver.Recovery.Commands.Defaults.{validate_action_provenance}
use failure_resolver.Recovery.Resume.{
  ack_broken, select_mode, resume_arguments_for_plan, resume_guard_broken,
  validate_resume_acknowledgement,
}
use failure_resolver.Recovery.Target.{required_status, status_of}
use failure_resolver.Recovery.Plan.Continuation.{retry_current}
use failure_resolver.Json.Equal.{field_count, float_eq, py_eq}
use failure_resolver.Recovery.Commands.Arguments.{validate_object, validate_action_arguments}
use failure_resolver.Recovery.Checks.{action_before, validate_plan_for_flow}
use failure_resolver.Recovery.Flow.{
  has, by_index, same_context, context_eq, flow_action_contexts, each, ActionContext,
}
use failure_resolver.Recovery.Inputs.{
  required_text, required_int, is_hash, is_sysid, required_sysid, is_uuid, optional_uuid,
  required_hash, required_uuid, uuid_text,
}
use failure_resolver.Prelude.{
  ◌≡◌, refl, true, false, none, some, [], ◌∷◌, str_eq, if◌then◌else◌, strip, all_chars,
}
use failure_resolver.Json.{null, bool, str, arr, obj, nil, Fields, end, field, nat, lookup}
use failure_resolver.Errors
use failure_resolver.Errors.{Result, ok, err, ◌>>=◌}
use failure_resolver.Recovery.Outcome
use failure_resolver.Recovery.Outcome.{classify_flow_outcome, decisive, first_decisive, same_flow}
use failure_resolver.Recovery.Outcome.Started.{decisive-classified}
use failure_resolver.Recovery.Session.{
  item_count, parse_recovery_session, all_objects, lifecycle_broken, required_actions,
}
use failure_resolver.Recovery.Commands.{
  validate_corrections_against_commands, validate_each, validate_correction,
  command_requires_confirmation,
}
use failure_resolver.Recovery.Live.{
  SessionView, same_pointer, live_flow, live_frame, as_non_executable, require_live_execution_state,
}
use failure_resolver.Recovery.Attempt.Monad
use failure_resolver.Recovery.Attempt.Monad.{
  Finish, Command, Stats, Run, pure, lift, modify, continue,
}
use failure_resolver.Recovery.Attempt.Rules.{Post}
use failure_resolver.Recovery.Attempt.Settled.{Ended, Sends, execute_attempt-Ended}
use failure_resolver.Recovery.Attempt.{
  Outside, execute_attempt, attempt, dispatch_corrections, dispatch_correction, continue_flow,
  settle, wait_for_flow, finish, request, require_live, count, handle,
}
use failure_resolver.Recovery.Tests.Samples.{
  python, pointer, resume_arguments, plan, plan_value, row_at, session, some_uuid,
}

decisive-classified_example :
    (classify_flow_outcome python (some pointer) session ≡ Outcome.recovered
      → (decisive python session 2 true (some pointer)).0 ≡ true)
    × (classify_flow_outcome python (some pointer) session ≡ Outcome.failed
        → (decisive python session 2 true (some pointer)).0 ≡ true)
decisive-classified_example = decisive-classified python session 2 (some pointer) true refl

-- What the robot answers to `$resume_flow`.
abbrev acknowledgement : Fields
acknowledgement = field "accepted" (bool true) (
    field "mode" (str "retry_current") (
      field "rewind_steps" (nat 0) (
        field "previous_action_index" (nat 4) (
          field "target_action_index" (nat 4)
            (field "current_command" (str "pick") (field "flow_id" (str "Flow1") end))))))

abbrev spec : CommandsFrame
spec = record {
  revision = 1;
  generation = 2;
  commands = field "home" (obj (field "inputs" (arr nil) end)) end;
}

abbrev outside : Outside
outside = record {
  World = Unit;
  view = λ w. record {
    connected = true;
    generation = 2;
    latest_flow = some pointer;
    latest_commands_frame = some spec;
  };
  has_database = λ w. true;
  request_command = λ name d w. (
    ok (record {
      result = if str_eq name "home" then null else obj acknowledgement;
      generation = 2;
      flow_revision_at_correlated_ack = 7;
    }),
    tt,
  );
  wait_for_flow =
      λ s generation after w. (ok (some (record pointer { action_index = some 5 })), tt);
  finish = λ call w. (ok (row_at "recovered"), tt);
}

abbrev seen : SessionView
seen = outside.view tt

live_passes : require_live_execution_state python seen pointer plan ≡ ok spec
unfolding as_non_executable live_flow live_frame require_live_execution_state same_pointer
    action_before validate_plan_for_flow validate_correction validate_corrections_against_commands
    validate_each command_requires_confirmation validate_object validate_action_arguments
    validate_action_provenance by_index context_eq each flow_action_contexts has same_context
    required_int required_text lookup strip Errors.◌>>=◌
live_passes = refl

require_live_execution_state-IsDispatchable_example : IsDispatchable seen pointer plan spec
require_live_execution_state-IsDispatchable_example =
    require_live_execution_state-IsDispatchable python plan_value seen pointer plan plan_parses
      live_passes

answer_passes :
    validate_resume_acknowledgement (obj acknowledgement) pointer 0 (some retry_current) ≡ ok tt
unfolding validate_resume_acknowledgement ◌>>=◌ float_eq py_eq lookup ack_broken select_mode
answer_passes = refl

validate_resume_acknowledgement-Acknowledges_example :
    (d : Fields) × (target : ActionContext) × (obj acknowledgement ≡ obj d)
    × Acknowledges d plan pointer target
validate_resume_acknowledgement-Acknowledges_example =
    validate_resume_acknowledgement-Acknowledges python plan_value (obj acknowledgement) plan
      pointer plan_parses refl plan_is_live answer_passes

abbrev run : Run Unit
run = record {
  world = tt;
  sent = [];
  finishes = [];
  claims = [];
  dispatched = false;
  stats = record {
    events_skipped = 0;
    recurrences_attached = 0;
    sessions_prepared = 0;
    attempts_claimed = 0;
    actions_accepted = 0;
    expired_attempts_reconciled = 0;
    execution_errors = 0;
    last_failure_id = none;
    last_session_id = none;
    attempts_recovered = 0;
    attempts_failed = 0;
    attempts_unknown = 0;
    sessions_timed_out = 0;
    last_error_type = none;
  };
}

-- The state after the attempt.
abbrev after : Run Unit
after = (execute_attempt python outside session "failure" plan pointer run).1

attempt_runs :
    (after.sent
      ≡ record { name = "home"; arguments = end }
        ∷ record { name = "$resume_flow"; arguments = resume_arguments }
        ∷ [])
    × (after.finishes ≡ Monad.awaiting_outcome ∷ Monad.recovered ∷ [])
unfolding lookup strip field_count float_eq py_eq context_eq required_int required_text item_count
    parse_recovery_session all_chars is_hash is_sysid required_sysid is_uuid optional_uuid
    required_hash required_uuid uuid_text all_objects lifecycle_broken required_actions
    required_status status_of flow_action_contexts each has validate_plan_for_flow action_before
    by_index same_context resume_arguments_for_plan resume_guard_broken execute_attempt attempt
    dispatch_corrections dispatch_correction continue_flow settle wait_for_flow finish request
    require_live count handle pure lift modify classify_flow_outcome same_flow same_pointer
    live_flow live_frame as_non_executable require_live_execution_state
    validate_corrections_against_commands validate_each validate_correction
    command_requires_confirmation validate_resume_acknowledgement validate_action_arguments
    validate_action_provenance Monad.◌>>=◌ Errors.◌>>=◌ validate_object ack_broken select_mode
attempt_runs = (refl, refl)

execute_attempt-Ended_example :
    Post
      (Ended plan pointer run)
      (λ _ r'. Sends plan pointer run r')
      (execute_attempt python outside session "failure" plan pointer run)
execute_attempt-Ended_example =
    execute_attempt-Ended python outside session "failure" some_uuid refl plan pointer run
