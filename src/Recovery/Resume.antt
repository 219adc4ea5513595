-- ===== src/Recovery/Resume.antt =====
-- The payload of `$resume_flow` and its acknowledgement in recovery_executor.py.
pub mod Guard
pub mod Acknowledged
use failure_resolver.Prelude.{
  ℕ, String, Bool, true, false, not, ◌&&◌, ◌||◌, Option, none, some, ◌==◌, leb, str_eq,
  if◌then◌else◌, is_some, is_none,
}
use failure_resolver.Prelude.Int.{sub_ℕ}
use failure_resolver.Json.{Json, null, bool, int, str, obj, Fields, end, field, get, contains, nat}
use failure_resolver.Json.Equal.{py_eq}
use failure_resolver.Errors.{Result, ok, err, contract, type_error, ◌>>=◌, ◌>>◌, raise_if, Done}
use failure_resolver.Robot.Pointer.{FlowPointer, or_else}
use failure_resolver.Recovery.Target.{as_object}
use failure_resolver.Recovery.Plan.Continuation.{
  Terminal, rerun, resume_flow, Mode, retry_current, rewind, mode_text, RecoveryPlan,
}

abbrev pub text_or_null : Option String → Json
text_or_null none = null
text_or_null (some s) = str s

abbrev pub nat_or_null : Option ℕ → Json
nat_or_null none = null
nat_or_null (some n) = nat n

-- `mode or ("retry_current" if rewind_steps == 0 else "rewind")`
unfoldable pub select_mode : Option Mode → ℕ → Mode
select_mode (some m) steps = m
select_mode none steps = if steps == 0 then retry_current else rewind

-- `if value is not None: arguments[key] = value`, in front of the later keys.
unfoldable pub put_text : String → Option String → Fields → Fields
put_text key none rest = rest
put_text key (some s) rest = field key (str s) rest

put_commit : FlowPointer → Fields
put_commit p =
    if is_some p.flow_commit || contains "flow_commit" p.raw
    then field "flow_commit" (text_or_null p.flow_commit) end
    else end

abbrev pub is_retry : Mode → Bool
is_retry retry_current = true
is_retry rewind = false

guarded_arguments : FlowPointer → ℕ → String → ℕ → Mode → Fields
unfolding put_commit
guarded_arguments p index command steps mode = field "mode" (str (mode_text mode)) (
    field "rewind_steps" (nat steps) (
      field "current_action_index" (nat index) (
        field "current_command" (str command) (
          field "flow_id" (str p.flow_id)
            (put_text "filename" p.filename (put_text "fid" p.fid (put_commit p)))))))

build_at : FlowPointer → ℕ → Option Mode → Option ℕ → Option String → Result Fields
unfolding guarded_arguments select_mode
build_at p steps mode (some index) (some command) = do
  raise_if (not (leb steps 5)) contract
  raise_if (is_retry (select_mode mode steps) && not (steps == 0)) contract
  ok (guarded_arguments p index command steps (select_mode mode steps))
build_at p steps mode _ _ = err contract

unfoldable pub build_guarded_resume_arguments : FlowPointer → ℕ → Option Mode → Result Fields
unfolding build_at
build_guarded_resume_arguments p steps mode = build_at p steps mode p.action_index p.action_command

-- The key is there with another value.
differs : String → Fields → Json → Bool
differs key d live = contains key d && not (py_eq (get key d) live)

-- The captured guard of a modern continuation against the live pointer.
unfoldable pub resume_guard_broken : Fields → FlowPointer → Bool
unfolding differs
resume_guard_broken arguments p =
    not (py_eq (get "current_action_index" arguments) (nat_or_null p.action_index))
    || not (py_eq (get "current_command" arguments) (text_or_null p.action_command))
    || differs "flow_id" arguments (str p.flow_id)
    || differs "filename" arguments (text_or_null p.filename)
    || differs "fid" arguments (text_or_null (or_else p.fid p.filename))
    || differs "flow_commit" arguments (text_or_null p.flow_commit)

arguments_for : Terminal → RecoveryPlan → FlowPointer → Result Fields
arguments_for rerun plan p = build_guarded_resume_arguments p 0 (some retry_current)
arguments_for resume_flow plan p = do
  raise_if (resume_guard_broken plan.terminal_arguments p) contract
  ok plan.terminal_arguments

unfoldable pub resume_arguments_for_plan : RecoveryPlan → FlowPointer → Result Fields
unfolding arguments_for
resume_arguments_for_plan plan p = arguments_for plan.terminal_command plan p

-- `value.get(key) != expected`
unfoldable pub answers_otherwise : Fields → String → Json → Bool
answers_otherwise value key expected = not (py_eq (get key value) expected)

-- The acknowledgement of the continuation at `index`.
unfoldable pub ack_broken : Fields → FlowPointer → ℕ → ℕ → Mode → Bool
unfolding answers_otherwise
ack_broken value p index steps mode =
    answers_otherwise value "accepted" (bool true)
    || answers_otherwise value "mode" (str (mode_text mode))
    || answers_otherwise value "rewind_steps" (nat steps)
    || answers_otherwise value "previous_action_index" (nat index)
    || answers_otherwise value "target_action_index" (int (sub_ℕ index steps))
    || answers_otherwise value "current_command" (text_or_null p.action_command)
    || answers_otherwise value "flow_id" (str p.flow_id)
    || (is_some p.filename && answers_otherwise value "filename" (text_or_null p.filename))
    || (is_some p.flow_commit && answers_otherwise value "flow_commit" (text_or_null p.flow_commit))

ack_at : Fields → FlowPointer → ℕ → Option Mode → Option ℕ → Result Done
ack_at value p steps mode none = err type_error
ack_at value p steps mode (some index) =
    raise_if (ack_broken value p index steps (select_mode mode steps)) contract

unfoldable pub validate_resume_acknowledgement : Json → FlowPointer → ℕ → Option Mode → Result Done
unfolding ack_at
validate_resume_acknowledgement value p steps mode = do
  answer ← as_object value
  ack_at answer p steps mode p.action_index
