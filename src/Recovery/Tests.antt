-- ===== src/Recovery/Tests.antt =====
-- Runs of the recovery models at concrete inputs: a Flow `Flow1` of two actions that has failed at
-- its action 4, the plan that clears it and retries, and a claimed session.
mod Samples
mod Runs
mod Notices
mod Coordination
mod Sessions
mod Leases
use failure_resolver.Recovery.Target.{required_status, status_of}
use failure_resolver.Json.Dump.{dump_size}
use failure_resolver.Recovery.Plan.Continuation.{
  context_broken, legacy_plan, mode_broken, mode_of, optional_text, parse_continuation_action,
  required_mode, resume_plan, terminal_of,
}
use failure_resolver.Recovery.Plan.Action.{
  correction_of, has_text, items_are_keys, key_items, keys_are_items, parse_action,
}
use failure_resolver.Recovery.Inputs.{
  is_hash, is_sysid, required_int, required_sysid, required_text, is_uuid, optional_uuid,
  required_hash, required_uuid, uuid_text,
}
use failure_resolver.Json.Strict.{json_values_equal}
use failure_resolver.Json.Equal.{field_count, fields_in, float_eq, py_eq}
use failure_resolver.Json.Bounds.{walk, count_node, validate_json, max_nodes, max_depth}
use failure_resolver.Prelude.{
  ℕ, ◌≡◌, refl, String, Bool, true, false, Option, none, some, List, [], ◌∷◌, all_chars,
  starts_with_dollar, strip, ◌≤◌, ◌↔◌,
}
use failure_resolver.Json.{obj, lookup, mem, keys_within}
use failure_resolver.Json.Bounds.Size.{nodes, height, all_finite}
use failure_resolver.Json.Bounds.Exact.{validate_json-exact}
use failure_resolver.Errors.{ok, err, contract, ◌>>=◌}
use failure_resolver.Robot.Pointer.Reading.{IsReading, parse_flow_pointer-IsReading}
use failure_resolver.Robot.Pointer.{
  parse_flow_pointer, current_action, find, flow_actions, item_objects, text,
}
use failure_resolver.Recovery.Session.{
  parse_recovery_session, all_objects, item_count, lifecycle_broken, required_actions,
}
use failure_resolver.Recovery.Session.Lifecycle.{IsValid, parse_recovery_session-IsValid}
use failure_resolver.Recovery.Flow.{
  ActionContext, flow_action_contexts, by_index, context_eq, each, has, same_context,
}
use failure_resolver.Recovery.Flow.Unique.{by_index-flow_action_contexts}
use failure_resolver.Recovery.Rebind.{
  rebind_recovery_actions, captured_pointer, rebind_terminal, accept_rebound, refresh_terminal,
  map_last, put, keys_of, same_structure, context_payload,
}
use failure_resolver.Recovery.Rebind.Rebound.{Rebound, rebind_recovery_actions-Rebound}
use failure_resolver.Recovery.Checks.{is_paused_at}
use failure_resolver.Recovery.Resume.{build_guarded_resume_arguments, put_text}
use failure_resolver.Recovery.Plan.{
  parse_recovery_plan, init, assemble_plan, check_corrections, is_only, parse_actions,
  terminal_positions,
}
use failure_resolver.Recovery.Plan.Shape.{IsSafe, parse_recovery_plan-IsSafe}
use failure_resolver.Recovery.Checks.{validate_plan_for_flow, action_before}
use failure_resolver.Recovery.Checks.Live.{IsLive, validate_plan_for_flow-IsLive}
use failure_resolver.Recovery.Resume.{resume_arguments_for_plan, resume_guard_broken}
use failure_resolver.Recovery.Resume.Guard.{Guards, resume_arguments_for_plan-Guards}
use Samples.{
  python, plan_items, flow, pointer, context, before, plan_value, plan, resume_arguments, row,
  session,
}

flow_parses : parse_flow_pointer python (obj flow) 7 2 ≡ some pointer
unfolding parse_flow_pointer lookup strip current_action find flow_actions item_objects text
flow_parses = refl

plan_parses : parse_recovery_plan python plan_value ≡ ok plan
unfolding parse_recovery_plan walk field_count fields_in float_eq py_eq json_values_equal mem
    starts_with_dollar context_eq required_int correction_of has_text items_are_keys key_items
    keys_are_items context_broken legacy_plan mode_broken mode_of optional_text
    parse_continuation_action required_mode resume_plan init ◌>>=◌ count_node validate_json
    dump_size keys_within lookup strip required_text parse_action terminal_of assemble_plan
    check_corrections is_only parse_actions terminal_positions item_count
plan_parses = refl

session_parses : parse_recovery_session python row true ≡ ok session
unfolding parse_recovery_session field_count float_eq py_eq all_chars is_hash is_sysid
    required_sysid ◌>>=◌ lookup strip is_uuid optional_uuid required_hash required_int required_text
    required_uuid uuid_text all_objects item_count lifecycle_broken required_actions required_status
    status_of
session_parses = refl

contexts_read : flow_action_contexts flow ≡ ok (before ∷ context ∷ [])
unfolding flow_action_contexts ◌>>=◌ lookup strip each has required_int required_text
contexts_read = refl

plan_is_live : validate_plan_for_flow plan pointer ≡ ok tt
unfolding validate_plan_for_flow ◌>>=◌ lookup strip action_before by_index context_eq each
    flow_action_contexts has same_context required_int required_text
plan_is_live = refl

arguments_pass : resume_arguments_for_plan plan pointer ≡ ok resume_arguments
unfolding resume_arguments_for_plan ◌>>=◌ float_eq py_eq lookup resume_guard_broken
arguments_pass = refl

validate_json-exact_example : (validate_json plan_value ≡ ok tt) ↔ (
    (nodes plan_value ≤ max_nodes)
    × (height plan_value ≤ max_depth)
    × (all_finite plan_value ≡ true))
validate_json-exact_example = validate_json-exact plan_value

parse_flow_pointer-IsReading_example : IsReading python (obj flow) 7 2 pointer
parse_flow_pointer-IsReading_example =
    parse_flow_pointer-IsReading python (obj flow) 7 2 flow_parses

parse_recovery_session-IsValid_example : IsValid session
parse_recovery_session-IsValid_example =
    parse_recovery_session-IsValid python row true session_parses

by_index-flow_action_contexts_example :
    (◌≡◌ {A = ℕ} 1 1) × (by_index 4 (before ∷ context ∷ []) ≡ some context)
by_index-flow_action_contexts_example =
    by_index-flow_action_contexts flow (before ∷ context ∷ []) 1 1 context context contexts_read
      refl refl refl

parse_recovery_plan-IsSafe_example : IsSafe plan
parse_recovery_plan-IsSafe_example = parse_recovery_plan-IsSafe python plan_value plan_parses

validate_plan_for_flow-IsLive_example : IsLive plan pointer
validate_plan_for_flow-IsLive_example =
    validate_plan_for_flow-IsLive python plan_value plan pointer plan_parses plan_is_live

resume_arguments_for_plan-Guards_example : Guards resume_arguments plan pointer
resume_arguments_for_plan-Guards_example =
    resume_arguments_for_plan-Guards python plan_value plan pointer plan_parses arguments_pass

-- The remembered plan is that of the same Flow, so that it is bound to what it was.
rebinds : rebind_recovery_actions python plan_items (obj flow) "Flow1" 4 "pick" ≡ ok plan_items
unfolding parse_recovery_plan walk field_count fields_in float_eq py_eq json_values_equal mem
    starts_with_dollar context_eq required_int correction_of has_text items_are_keys key_items
    keys_are_items context_broken legacy_plan mode_broken mode_of optional_text
    parse_continuation_action required_mode resume_plan init ◌>>=◌ count_node validate_json
    dump_size keys_within lookup strip required_text parse_action terminal_of assemble_plan
    check_corrections is_only parse_actions terminal_positions item_count validate_plan_for_flow
    action_before by_index each flow_action_contexts has same_context parse_flow_pointer
    current_action find flow_actions item_objects text rebind_recovery_actions captured_pointer
    rebind_terminal accept_rebound refresh_terminal map_last put keys_of same_structure
    context_payload is_paused_at build_guarded_resume_arguments put_text
rebinds = refl

rebind_recovery_actions-Rebound_example :
    Rebound python plan_items (obj flow) "Flow1" 4 "pick" plan_items
rebind_recovery_actions-Rebound_example =
    rebind_recovery_actions-Rebound python plan_items (obj flow) "Flow1" 4 "pick" rebinds
