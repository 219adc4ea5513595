-- ===== src/Recovery/Plan/Continuation.antt =====
-- The terminal continuation of a recovery plan: `RecoveryPlan`, `_parse_continuation_action`, and
-- the two ends of `parse_recovery_plan`, the legacy `$rerun` and the modern `$resume_flow`.
use failure_resolver.Prelude.{
  ℕ, ◌+◌, String, Bool, true, false, not, ◌&&◌, ◌||◌, Option, none, some, List, [], ◌∷◌, ◌==◌,
  str_eq, if◌then◌else◌,
}
use failure_resolver.Json.{Json, str, Fields, end, field, get, contains, is_null, keys_within}
use failure_resolver.Json.Equal.{py_eq, dict_eq}
use failure_resolver.Errors.{Result, ok, err, contract, ◌>>=◌, ◌>>◌, raise_if, Done}
use failure_resolver.Recovery.Inputs.{required_text, required_int}
use failure_resolver.Recovery.Target.{as_object}
use failure_resolver.Recovery.Flow.{ActionContext, context_eq}
use failure_resolver.Recovery.Plan.Action.{RecoveryAction}

-- The two terminal commands.
pub data Terminal : Type 0 where
  rerun resume_flow : Terminal

-- `_TERMINAL_COMMANDS`
unfoldable pub terminal_of : String → Option Terminal
terminal_of s =
    if str_eq s "$rerun"
    then some rerun
    else if str_eq s "$resume_flow"
    then some resume_flow
    else none

pub data Mode : Type 0 where
  retry_current rewind : Mode

unfoldable pub mode_of : Json → Option Mode
mode_of (str s) =
    if str_eq s "retry_current"
    then some retry_current
    else if str_eq s "rewind"
    then some rewind
    else none
mode_of _ = none

abbrev pub mode_text : Mode → String
mode_text retry_current = "retry_current"
mode_text rewind = "rewind"

pub record RecoveryPlan : Type 0 where
  pub corrections : List RecoveryAction
  pub terminal_command : Terminal
  pub terminal_arguments : Fields
  pub rewind_steps : ℕ
  pub resume_mode : Mode
  pub legacy_retry_index : Option ℕ
  pub legacy_retry_command : Option String
  pub legacy_retry_context : Option ActionContext
  pub legacy_expected_next : Option ActionContext
  pub legacy_expected_next_present : Bool
  pub captured_action_index : Option ℕ
  pub captured_action_command : Option String
  pub captured_current_context : Option ActionContext
  pub captured_target_context : Option ActionContext

-- `_required_text(value.get(key), ...)`, if the key is there.
unfoldable pub optional_text : String → ℕ → Fields → Result Done
optional_text key max_length d =
    if contains key d then (do required_text (get key d) max_length; ok tt) else ok tt

abbrev continuation_fields : List String
continuation_fields =
    "command" ∷ "description" ∷ "status" ∷ "areaName" ∷ "itemName" ∷ "actionIndex" ∷ []

-- `_parse_continuation_action`
unfoldable pub parse_continuation_action : Json → Result ActionContext
unfolding optional_text
parse_continuation_action value = do
  d ← as_object value
  raise_if (not (keys_within continuation_fields d)) contract
  action_index ← required_int (get "actionIndex" d) 0 1_000_000
  command ← required_text (get "command" d) 128
  area_name ← required_text (get "areaName" d) 300
  item_name ← required_text (get "itemName" d) 300
  optional_text "description" 1000 d
  optional_text "status" 1000 d
  ok (record {
    action_index = action_index;
    command = command;
    area_name = area_name;
    item_name = item_name;
  })

-- `d == {}`
abbrev pub is_empty_dict : Fields → Bool
is_empty_dict end = true
is_empty_dict (field k v d) = false

-- The context that the JSON holds, or none for `None`.
optional_context : Json → Result (Option ActionContext)
optional_context v =
    if is_null v then ok none else (do c ← parse_continuation_action v; ok (some c))

-- The plan of a terminal `$rerun`.
unfoldable pub legacy_plan : List RecoveryAction → Fields → Fields → Result RecoveryPlan
unfolding optional_context
legacy_plan corrections arguments raw = do
  raise_if (not (is_null (get "continuation_context" raw))) contract
  raise_if (not (is_empty_dict arguments)) contract
  retry_context ← as_object (get "retry_context" raw)
  retried ← as_object (get "retried_action" retry_context)
  raise_if (not (keys_within ("retried_action" ∷ "expected_next_action" ∷ []) retry_context))
      contract
  raise_if (not (contains "expected_next_action" retry_context)) contract
  retry ← parse_continuation_action (get "retried_action" retry_context)
  expected_next ← optional_context (get "expected_next_action" retry_context)
  ok (record {
    corrections = corrections;
    terminal_command = rerun;
    terminal_arguments = end;
    rewind_steps = 0;
    resume_mode = retry_current;
    legacy_retry_index = some retry.action_index;
    legacy_retry_command = some retry.command;
    legacy_retry_context = some retry;
    legacy_expected_next = expected_next;
    legacy_expected_next_present = true;
    captured_action_index = none;
    captured_action_command = none;
    captured_current_context = none;
    captured_target_context = none;
  })

-- `_ALLOWED_RESUME_ARGUMENTS`
abbrev pub allowed_resume_arguments : List String
allowed_resume_arguments =
    "mode" ∷ "rewind_steps" ∷ "current_action_index" ∷ "current_command" ∷ "flow_id" ∷ "filename"
    ∷ "fid" ∷ "flow_commit" ∷ []

-- `retry_current` rewinds nothing, `rewind` something.
unfoldable pub mode_broken : Mode → ℕ → Bool
mode_broken retry_current steps = not (steps == 0)
mode_broken rewind steps = steps == 0

unfoldable pub required_mode : Json → Result Mode
required_mode v = elim (mode_of v) [ none ↦ err contract | some m ↦ ok m ]

names_differ : Fields → Bool
names_differ d =
    contains "filename" d && contains "fid" d && not (py_eq (get "filename" d) (get "fid" d))

optional_commit : Fields → Result Done
optional_commit d =
    if contains "flow_commit" d && not (is_null (get "flow_commit" d))
    then (do required_text (get "flow_commit" d) 300; ok tt)
    else ok tt

-- The pointers of the captured contexts disagree with the arguments.
unfoldable pub context_broken : Mode → ℕ → ℕ → String → ActionContext → ActionContext → Bool
context_broken mode steps index command current target =
    not (current.action_index == index)
    || not (str_eq current.command command)
    || not (target.action_index + steps == index)
    || (elim mode [ retry_current ↦ not (context_eq target current) | rewind ↦ false ])

-- The plan of a terminal `$resume_flow`.
unfoldable pub resume_plan : List RecoveryAction → Fields → Fields → Result RecoveryPlan
unfolding required_mode names_differ optional_commit
resume_plan corrections arguments raw = do
  raise_if (not (keys_within allowed_resume_arguments arguments)) contract
  mode ← required_mode (get "mode" arguments)
  rewind_steps ← required_int (get "rewind_steps" arguments) 0 5
  raise_if (mode_broken mode rewind_steps) contract
  required_text (get "flow_id" arguments) 300
  optional_text "filename" 300 arguments
  optional_text "fid" 300 arguments
  raise_if (names_differ arguments) contract
  optional_commit arguments
  captured_index ← required_int (get "current_action_index" arguments) 0 1_000_000
  captured_command ← required_text (get "current_command" arguments) 128
  continuation ← as_object (get "continuation_context" raw)
  raise_if
      (not
        (keys_within ("expected_arguments" ∷ "current_action" ∷ "target_action" ∷ []) continuation))
      contract
  expected ← as_object (get "expected_arguments" continuation)
  raise_if (not (dict_eq expected arguments)) contract
  raise_if (not (is_null (get "retry_context" raw))) contract
  current ← parse_continuation_action (get "current_action" continuation)
  target ← parse_continuation_action (get "target_action" continuation)
  raise_if (context_broken mode rewind_steps captured_index captured_command current target)
      contract
  ok (record {
    corrections = corrections;
    terminal_command = resume_flow;
    terminal_arguments = arguments;
    rewind_steps = rewind_steps;
    resume_mode = mode;
    legacy_retry_index = none;
    legacy_retry_command = none;
    legacy_retry_context = none;
    legacy_expected_next = none;
    legacy_expected_next_present = false;
    captured_action_index = some captured_index;
    captured_action_command = some captured_command;
    captured_current_context = some current;
    captured_target_context = some target;
  })
