-- ===== src/Recovery/Tests/Samples.antt =====
-- A Python runtime for ASCII texts without letter case, and the sample data of the tests.
use failure_resolver.Prelude.{ℕ, String, false, none, some, [], ◌∷◌}
use failure_resolver.Json.{Json, str, arr, obj, Items, nil, cons, Fields, end, field, nat}
use failure_resolver.Runtime.{Runtime}
use failure_resolver.Robot.Pointer.{FlowPointer}
use failure_resolver.Recovery.Target
use failure_resolver.Recovery.Session.{SessionRecord}
use failure_resolver.Recovery.Flow.{ActionContext}
use failure_resolver.Recovery.Plan.Action.{RecoveryAction}
use failure_resolver.Recovery.Plan.Continuation.{RecoveryPlan, resume_flow, retry_current}

abbrev pub python : Runtime
python = record {
  upper = λ s. s;
  lower = λ s. s;
  casefold = λ s. s;
  uuid_text = λ s. s;
  float_of_int = λ n. none;
  float_size = λ f. 24;
  parse_int = λ s. none;
  parse_float = λ s. none;
  loads = λ s. none;
}

abbrev flow_action : ℕ → String → String → Json
flow_action index command status = obj (
    field "action_index" (nat index)
      (field "command" (str command) (field "status" (str status) end)))

-- The Flow frame: `open` is done, `pick` has failed.
abbrev pub flow_at : String → Fields
flow_at status = field "id" (str "Flow1") (
    field "status" (str status) (
      field "current_action_index" (nat 4) (
        field "areas"
          (arr (
            cons
              (obj (
                field "name" (str "Shelf") (
                  field "items"
                    (arr (
                      cons
                        (obj (
                          field "name" (str "Box") (
                            field "actions"
                              (arr (
                                cons (flow_action 3 "open" "ready")
                                  (cons (flow_action 4 "pick" "failed") nil)))
                              end)))
                        nil))
                    end)))
              nil))
          end)))

abbrev pub flow : Fields
flow = flow_at "paused"

abbrev pub pointer : FlowPointer
pointer = record {
  revision = 7;
  flow_id = "Flow1";
  status = "paused";
  action_index = some 4;
  action_command = some "pick";
  filename = none;
  fid = none;
  flow_commit = none;
  raw = flow;
  generation = 2;
  completed = false;
}

abbrev pub before : ActionContext
before = record { action_index = 3; command = "open"; area_name = "Shelf"; item_name = "Box" }

abbrev pub context : ActionContext
context = record { action_index = 4; command = "pick"; area_name = "Shelf"; item_name = "Box" }

abbrev context_value : ActionContext → Json
context_value c = obj (
    field "actionIndex" (nat c.action_index) (
      field "command" (str c.command)
        (field "areaName" (str c.area_name) (field "itemName" (str c.item_name) end))))

abbrev pub resume_arguments : Fields
resume_arguments = field "mode" (str "retry_current") (
    field "rewind_steps" (nat 0) (
      field "current_action_index" (nat 4)
        (field "current_command" (str "pick") (field "flow_id" (str "Flow1") end))))

abbrev pub plan_items : Items
plan_items = cons (obj (field "command" (str "home") (field "arguments" (obj end) end))) (
    cons
      (obj (
        field "command" (str "$resume_flow") (
          field "arguments" (obj resume_arguments) (
            field "continuation_context"
              (obj (
                field "expected_arguments" (obj resume_arguments) (
                  field "current_action" (context_value context)
                    (field "target_action" (context_value context) end))))
              end))))
      nil)

abbrev pub plan_value : Json
plan_value = arr plan_items

abbrev pub home : RecoveryAction
home = record {
  command = "home";
  arguments = end;
  arguments_effective = none;
  explicit_arguments = none;
}

abbrev pub plan : RecoveryPlan
plan = record {
  corrections = home ∷ [];
  terminal_command = resume_flow;
  terminal_arguments = resume_arguments;
  rewind_steps = 0;
  resume_mode = retry_current;
  legacy_retry_index = none;
  legacy_retry_command = none;
  legacy_retry_context = none;
  legacy_expected_next = none;
  legacy_expected_next_present = false;
  captured_action_index = some 4;
  captured_action_command = some "pick";
  captured_current_context = some context;
  captured_target_context = some context;
}

abbrev pub some_hash : String
some_hash = "0123456789abcdef0123456789abcdef0123456789abcdef0123456789abcdef"

abbrev pub some_uuid : String
some_uuid = "01234567-89ab-4def-8123-456789abcdef"

abbrev identity : Fields
identity = field "root_episode_key" (str some_hash) (
    field "sysid" (str "ROBOT-1") (
      field "recovery_session_id" (str some_uuid) (
        field "root_failure_id" (str some_uuid) (
          field "current_failure_id" (str some_uuid) (
            field "flow_id" (str "Flow1")
              (field "action_index" (nat 4) (field "action_command" (str "pick") end)))))))

abbrev pub row_at : String → Fields
row_at status = field "recovery_status" (str status) (
    field "pinned_actions" plan_value (
      field "recovery_attempts" (nat 1) (
        field "recovery_max_attempts" (nat 3) (
          field "recovery_rewind_steps" (nat 0) (
            field "recovery_run_token" (str some_uuid) (
              field "pinned_actions_hash" (str some_hash) (
                field "pinned_memory_id" (str "box_moved") (
                  field "pinned_resolver_suggestion"
                    (obj (field "memory_id" (str "box_moved") (field "actions" plan_value end)))
                    identity))))))))

abbrev pub row : Fields
row = row_at "running"

abbrev pub session : SessionRecord
session = record {
  recovery_session_id = some_uuid;
  root_failure_id = some_uuid;
  current_failure_id = some_uuid;
  sysid = "ROBOT-1";
  flow_id = "Flow1";
  action_index = 4;
  action_command = "pick";
  pinned_memory_id = "box_moved";
  pinned_actions = plan_items;
  pinned_actions_hash = some_hash;
  recovery_status = Target.running;
  recovery_attempts = 1;
  recovery_max_attempts = 3;
  recovery_rewind_steps = 0;
  recovery_run_token = some some_uuid;
}
