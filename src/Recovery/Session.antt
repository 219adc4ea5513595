-- ===== src/Recovery/Session.antt =====
-- `RecoverySessionRecord` and `parse_recovery_session` of recovery_executor.py.
pub mod Lifecycle
use failure_resolver.Prelude.{
  ℕ, ◌+◌, String, Bool, true, false, not, ◌&&◌, ◌||◌, Option, ltb, leb, ◌==◌, str_eq, if◌then◌else◌,
  length, is_none,
}
use failure_resolver.Json.{Json, str, arr, obj, Items, nil, cons, Fields, get}
use failure_resolver.Json.Equal.{py_eq}
use failure_resolver.Errors.{Result, ok, err, contract, ◌>>=◌, ◌>>◌, raise_if, Done}
use failure_resolver.Runtime.{Runtime}
use failure_resolver.Recovery.Inputs.{
  required_text, required_int, required_uuid, optional_uuid, required_sysid, required_hash,
}
use failure_resolver.Recovery.Target.{
  Status, ready, running, awaiting_outcome, recovered, failed, unknown, timed_out, cancelled,
  required_status, PointerKey, as_object,
}

pub record SessionRecord : Type 0 where
  pub recovery_session_id : String
  pub root_failure_id : String
  pub current_failure_id : String
  pub sysid : String
  pub flow_id : String
  pub action_index : ℕ
  pub action_command : String
  pub pinned_memory_id : String
  pub pinned_actions : Items
  pub pinned_actions_hash : String
  pub recovery_status : Status
  pub recovery_attempts : ℕ
  pub recovery_max_attempts : ℕ
  pub recovery_rewind_steps : ℕ
  pub recovery_run_token : Option String

abbrev pub session_key : SessionRecord → PointerKey
session_key s = record {
  sysid = s.sysid;
  flow_id = s.flow_id;
  action_index = s.action_index;
  action_command = s.action_command;
}

-- `status in ("running", "awaiting_outcome")`
abbrev pub is_active : Status → Bool
is_active running = true
is_active awaiting_outcome = true
is_active _ = false

unfoldable pub item_count : Items → ℕ
item_count nil = 0
item_count (cons x xs) = item_count xs + 1

abbrev is_object : Json → Bool
is_object (obj d) = true
is_object _ = false

unfoldable pub all_objects : Items → Bool
all_objects nil = true
all_objects (cons x xs) = is_object x && all_objects xs

-- A list of 1 to 10 objects.
unfoldable pub required_actions : Json → Result Items
required_actions (arr xs) = do
  raise_if (not (leb 1 (item_count xs) && leb (item_count xs) 10)) contract
  raise_if (not (all_objects xs)) contract
  ok xs
required_actions _ = err contract

-- What each status says of the attempts made and of the run token; a cancelled session is free.
unfoldable pub lifecycle_broken : Status → ℕ → ℕ → Option String → Bool
lifecycle_broken ready attempts maximum token = not (attempts == 0) || not (is_none token)
lifecycle_broken running attempts maximum token = ltb attempts 1 || is_none token
lifecycle_broken awaiting_outcome attempts maximum token = ltb attempts 1 || is_none token
lifecycle_broken failed attempts maximum token =
    ltb attempts 1 || leb maximum attempts || is_none token
lifecycle_broken recovered attempts maximum token = ltb attempts 1 || is_none token
lifecycle_broken unknown attempts maximum token = ltb attempts 1 || is_none token
lifecycle_broken timed_out attempts maximum token = not (attempts == maximum) || is_none token
lifecycle_broken cancelled attempts maximum token = false

module _ (py : Runtime) where
  unfoldable pub parse_recovery_session : Fields → Bool → Result SessionRecord
  parse_recovery_session row require_run_token = do
    status ← required_status (get "recovery_status" row)
    actions ← required_actions (get "pinned_actions" row)
    attempts ← required_int (get "recovery_attempts" row) 0 20
    max_attempts ← required_int (get "recovery_max_attempts" row) 1 20
    raise_if (ltb max_attempts attempts) contract
    rewind_steps ← required_int (get "recovery_rewind_steps" row) 0 5
    run_token ← optional_uuid py (get "recovery_run_token" row)
    raise_if (require_run_token && not (is_active status)) contract
    raise_if (require_run_token && is_none run_token) contract
    raise_if (lifecycle_broken status attempts max_attempts run_token) contract
    actions_hash ← required_hash (get "pinned_actions_hash" row)
    memory_id ← required_text (get "pinned_memory_id" row) 300
    suggestion ← as_object (get "pinned_resolver_suggestion" row)
    raise_if (not (py_eq (get "memory_id" suggestion) (str memory_id))) contract
    raise_if (not (py_eq (get "actions" suggestion) (arr actions))) contract
    required_hash (get "root_episode_key" row)
    sysid ← required_sysid py (get "sysid" row)
    session_id ← required_uuid py (get "recovery_session_id" row)
    root_failure_id ← required_uuid py (get "root_failure_id" row)
    current_failure_id ← required_uuid py (get "current_failure_id" row)
    flow_id ← required_text (get "flow_id" row) 300
    action_index ← required_int (get "action_index" row) 0 1_000_000
    action_command ← required_text (get "action_command" row) 128
    ok (record {
      recovery_session_id = session_id;
      root_failure_id = root_failure_id;
      current_failure_id = current_failure_id;
      sysid = sysid;
      flow_id = flow_id;
      action_index = action_index;
      action_command = action_command;
      pinned_memory_id = memory_id;
      pinned_actions = actions;
      pinned_actions_hash = actions_hash;
      recovery_status = status;
      recovery_attempts = attempts;
      recovery_max_attempts = max_attempts;
      recovery_rewind_steps = rewind_steps;
      recovery_run_token = run_token;
    })
