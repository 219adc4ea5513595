-- ===== src/Recovery/Target.antt =====
-- `FailurePointerTarget`, `FailureRecoveryTarget` and the parsers of a failure row in
-- recovery_executor.py.
use failure_resolver.Prelude.{
  ℕ, String, Bool, false, not, ◌||◌, Option, none, some, ◌==◌, str_eq, if◌then◌else◌, strip,
}
use failure_resolver.Json.{Json, str, obj, Fields, get, is_null}
use failure_resolver.Errors.{Result, ok, err, contract, ◌>>=◌, ◌>>◌, raise_if}
use failure_resolver.Runtime.{Runtime}
use failure_resolver.Recovery.Inputs.{
  required_text, required_int, required_uuid, optional_uuid, required_sysid, required_hash,
}

-- `_SESSION_STATUSES`
pub data Status : Type 0 where
  ready running awaiting_outcome recovered failed unknown timed_out cancelled : Status

unfoldable pub status_of : String → Option Status
status_of s =
    if str_eq s "ready"
    then some ready
    else if str_eq s "running"
    then some running
    else if str_eq s "awaiting_outcome"
    then some awaiting_outcome
    else if str_eq s "recovered"
    then some recovered
    else if str_eq s "failed"
    then some failed
    else if str_eq s "unknown"
    then some unknown
    else if str_eq s "timed_out"
    then some timed_out
    else if str_eq s "cancelled"
    then some cancelled
    else none

-- A status text that has to be one of `_SESSION_STATUSES`.
unfoldable pub required_status : Json → Result Status
required_status v = do
  s ← required_text v 32
  elim (status_of s) [ none ↦ err contract | some st ↦ ok st ]

optional_status : Json → Result (Option Status)
optional_status v = if is_null v then ok none else (do st ← required_status v; ok (some st))

pub record PointerTarget : Type 0 where
  pub failure_id : String
  pub sysid : String
  pub flow_id : String
  pub action_index : ℕ
  pub action_command : String
  pub recovery_episode_key : String
  pub recovery_session_id : Option String
  pub recovery_status : Option Status

-- `pointer_key`: the robot, the Flow and the step.
pub record PointerKey : Type 0 where
  pub sysid : String
  pub flow_id : String
  pub action_index : ℕ
  pub action_command : String

unfoldable pub key_eq : PointerKey → PointerKey → Bool
key_eq a b = not (
    not (str_eq a.sysid b.sysid)
    || not (str_eq a.flow_id b.flow_id)
    || not (a.action_index == b.action_index)
    || not (str_eq a.action_command b.action_command))

abbrev pub pointer_key : PointerTarget → PointerKey
pointer_key t = record {
  sysid = t.sysid;
  flow_id = t.flow_id;
  action_index = t.action_index;
  action_command = t.action_command;
}

pub record RecoveryTarget : Type 0 where
  pub pointer : PointerTarget
  pub open pointer use *
  pub resolver_suggestion : Fields

module _ (py : Runtime) where
  unfoldable pub parse_failure_pointer_target : Fields → Result PointerTarget
  unfolding optional_status
  parse_failure_pointer_target row = do
    failure_id ← required_uuid py (get "failure_id" row)
    sysid ← required_sysid py (get "sysid" row)
    flow_id ← required_text (get "flow_id" row) 300
    action_index ← required_int (get "action_index" row) 0 1_000_000
    action_command ← required_text (get "action_command" row) 128
    episode_key ← required_hash (get "recovery_episode_key" row)
    status ← optional_status (get "recovery_status" row)
    session_id ← optional_uuid py (get "recovery_session_id" row)
    ok (record {
      failure_id = failure_id;
      sysid = sysid;
      flow_id = flow_id;
      action_index = action_index;
      action_command = action_command;
      recovery_episode_key = episode_key;
      recovery_session_id = session_id;
      recovery_status = status;
    })

-- `str(value or "").strip() == text`, at a text that is neither empty nor what `str` gives of
-- another JSON value.
unfoldable pub text_is : Json → String → Bool
text_is (str s) text = str_eq (strip s) text
text_is _ text = false

-- The matcher has finished and pinned a candidate.
unfoldable pub is_matched : Fields → Bool
unfolding text_is
is_matched row = not (
    not (text_is (get "analysis_status" row) "completed")
    || not (text_is (get "matcher_status" row) "solution_found"))

abbrev pub as_object : Json → Result Fields
as_object (obj d) = ok d
as_object _ = err contract

module _ (py : Runtime) where
  unfoldable pub parse_failure_recovery_target : Fields → Result RecoveryTarget
  parse_failure_recovery_target row = do
    target ← parse_failure_pointer_target py row
    raise_if (not (text_is (get "analysis_status" row) "completed")) contract
    raise_if (not (text_is (get "matcher_status" row) "solution_found")) contract
    suggestion ← as_object (get "resolver_suggestion" row)
    required_text (get "memory_id" suggestion) 300
    ok (record { pointer = target; resolver_suggestion = suggestion })
