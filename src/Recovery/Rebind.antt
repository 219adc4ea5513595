-- ===== src/Recovery/Rebind.antt =====
-- `rebind_recovery_actions` of recovery_executor.py: remembered actions, bound to the Flow in which a
-- failure was captured.
pub mod Refreshed
pub mod Moved
pub mod Rebound
use failure_resolver.Prelude.{
  ℕ, ◌+◌, String, Bool, true, false, not, ◌&&◌, ◌||◌, Option, none, some, List, ◌==◌, str_eq,
  if◌then◌else◌,
}
use failure_resolver.Json.{Json, str, arr, obj, Items, nil, cons, Fields, end, field, nat, contains}
use failure_resolver.Errors.{Result, ok, err, contract, ◌>>=◌, ◌>>◌, raise_if}
use failure_resolver.Runtime.{Runtime}
use failure_resolver.Robot.Pointer.{FlowPointer, parse_flow_pointer}
use failure_resolver.Recovery.Flow.{ActionContext, flow_action_contexts, by_index}
use failure_resolver.Recovery.Plan.{parse_recovery_plan}
use failure_resolver.Recovery.Plan.Continuation.{Terminal, rerun, resume_flow, RecoveryPlan}
use failure_resolver.Recovery.Checks.{validate_plan_for_flow, action_before, is_paused_at}
use failure_resolver.Recovery.Resume.{build_guarded_resume_arguments}

-- `d[key] = value`
unfoldable pub put : String → Json → Fields → Fields
put key value end = field key value end
put key value (field k v d) =
    let rest = put key value d in if str_eq k key then field k value d else field k v rest

abbrev put_present : String → Json → Fields → Fields
put_present key value d = if contains key d then put key value d else d

unfoldable pub keys_of : Fields → Items
keys_of end = nil
keys_of (field k v d) = cons (str k) (keys_of d)

-- `_context_payload`
unfoldable pub context_payload : ActionContext → Json
context_payload c = obj (
    field "actionIndex" (nat c.action_index) (
      field "command" (str c.command)
        (field "areaName" (str c.area_name) (field "itemName" (str c.item_name) end))))

-- The terminal action with fresh arguments and contexts.
unfoldable pub refresh_terminal : Fields → ActionContext → ActionContext → Json → Json
unfolding put keys_of
refresh_terminal fresh current target (obj d) = obj (
    put "continuation_context"
      (obj (
        field "expected_arguments" (obj fresh) (
          field "current_action" (context_payload current)
            (field "target_action" (context_payload target) end))))
      (put_present "explicit_arguments" (arr (keys_of fresh))
        (put_present "arguments_effective" (obj fresh) (put "arguments" (obj fresh) d))))
refresh_terminal fresh current target v = v

unfoldable pub map_last : (Json → Json) → Items → Items
map_last f nil = nil
map_last f (cons x nil) = cons (f x) nil
map_last f (cons x (cons y ys)) = cons x (map_last f (cons y ys))

-- The same command on the same item, at any index.
unfoldable pub same_structure : ActionContext → ActionContext → Bool
same_structure a b =
    str_eq a.command b.command && str_eq a.area_name b.area_name && str_eq a.item_name b.item_name

abbrev required : Option ActionContext → Result ActionContext
required none = err contract
required (some c) = ok c

module _ (py : Runtime) where
  -- The Flow snapshot, which has to be paused on the failed step.
  unfoldable pub captured_pointer : Json → String → ℕ → String → Result FlowPointer
  captured_pointer flow flow_id index command = elim (parse_flow_pointer py flow 0 0) [
    | none ↦ err contract
    | some p ↦ do
      raise_if (p.completed || not (is_paused_at py p flow_id index command)) contract
      ok p
  ]

  -- The last check of what was bound.
  unfoldable pub accept_rebound : FlowPointer → Items → Result Items
  accept_rebound p rebound = do
    plan ← parse_recovery_plan py (arr rebound)
    validate_plan_for_flow plan p
    ok rebound

  unfoldable pub rebind_terminal : Terminal → Items → RecoveryPlan → FlowPointer → ℕ → Result Items
  rebind_terminal rerun actions plan p index = do validate_plan_for_flow plan p; ok actions
  rebind_terminal resume_flow actions plan p index = do
    remembered ← required plan.captured_current_context
    remembered_target ← required plan.captured_target_context
    contexts ← flow_action_contexts p.raw
    live ← required (by_index index contexts)
    live_target ← required (action_before index plan.rewind_steps contexts)
    raise_if
        (not (same_structure remembered live)
          || not (same_structure remembered_target live_target)
          || not (remembered.action_index == remembered_target.action_index + plan.rewind_steps))
        contract
    fresh ← build_guarded_resume_arguments p plan.rewind_steps (some plan.resume_mode)
    accept_rebound p (map_last (refresh_terminal fresh live live_target) actions)

  unfoldable pub rebind_recovery_actions : Items → Json → String → ℕ → String → Result Items
  rebind_recovery_actions actions flow flow_id index command = do
    p ← captured_pointer flow flow_id index command
    plan ← parse_recovery_plan py (arr actions)
    rebind_terminal plan.terminal_command actions plan p index
