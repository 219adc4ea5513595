-- ===== src/Recovery/Tests/Coordination.antt =====
-- The processing of one failure by the coordinator, against a robot that follows the plan and a
-- database that has two attempts left; and the robot session over a connection.
use mathlib.Core.Path.{subst}
use failure_resolver.Prelude.{
  ap, ℕ, Bool, ◌≡◌, ◌≢◌, ◌≤◌, ◌<◌, String, true, false, none, some, List, [], ◌∷◌, str_eq, arith,
  if◌then◌else◌,
}
use failure_resolver.Json.{null, bool, str, arr, obj, nil, Fields, end, field, nat}
use failure_resolver.Errors.{Result, ok, err, contract}
use failure_resolver.Robot.Frames.{CommandsFrame}
use failure_resolver.Recovery.Target.{RecoveryTarget}
use failure_resolver.Recovery.Attempt.{Outside}
use failure_resolver.Recovery.Attempt.Monad.{Run, Command, Claim}
use failure_resolver.Recovery.Coordinator.{Control}
use failure_resolver.Recovery.Coordinator.Attempts.{out_of_rounds, execute_target}
use failure_resolver.Recovery.Coordinator.Process.{process_failure}
use failure_resolver.Recovery.Coordinator.Log.{Logged}
use failure_resolver.Recovery.Coordinator.Sent.{process_failure-Logged}
use failure_resolver.Recovery.Coordinator.Ends.{Metered, execute_target-ends}
use failure_resolver.Recovery.Tests.Samples.{
  python, pointer, plan_value, row_at, some_uuid, some_hash,
}

abbrev acknowledgement : Fields
acknowledgement = field "accepted" (bool true) (
    field "mode" (str "retry_current") (
      field "rewind_steps" (nat 0) (
        field "previous_action_index" (nat 4) (
          field "target_action_index" (nat 4)
            (field "current_command" (str "pick") (field "flow_id" (str "Flow1") end))))))

abbrev spec : CommandsFrame
spec = record {
  revision = 1;
  generation = 2;
  commands = field "home" (obj (field "inputs" (arr nil) end)) end;
}

-- What the database has left of a session's attempts.
data Attempts : Type 0 where
  two_left one_left none_left : Attempts

-- The world is what is left of the session `some_uuid` and of another one.
record Budgets : Type 0 where
  own : Attempts
  others : Attempts

abbrev outside : Outside
outside = record {
  World = Budgets;
  view = λ w. record {
    connected = true;
    generation = 2;
    latest_flow = some pointer;
    latest_commands_frame = some spec;
  };
  has_database = λ w. true;
  request_command = λ name d w. (
    ok (record {
      result = if str_eq name "home" then null else obj acknowledgement;
      generation = 2;
      flow_revision_at_correlated_ack = 7;
    }),
    w,
  );
  wait_for_flow = λ s generation after w. (ok (some (record pointer { action_index = some 5 })), w);
  finish = λ call w. (ok (row_at "recovered"), w);
}

abbrev claim_one : Attempts → Result Fields × Attempts
claim_one two_left = (ok (row_at "running"), one_left)
claim_one one_left = (ok (row_at "running"), none_left)
claim_one none_left = (err contract, none_left)

abbrev claim_for : Bool → Budgets → Result Fields × Budgets
claim_for true b = ((claim_one b.own).0, record b { own = (claim_one b.own).1 })
claim_for false b = ((claim_one b.others).0, record b { others = (claim_one b.others).1 })

abbrev open_row : Fields
open_row = row_at "failed"

abbrev failure_row : Fields
failure_row = field "failure_id" (str some_uuid) (
    field "sysid" (str "ROBOT-1") (
      field "flow_id" (str "Flow1") (
        field "action_index" (nat 4) (
          field "action_command" (str "pick") (
            field "recovery_episode_key" (str some_hash) (
              field "analysis_status" (str "completed") (
                field "matcher_status" (str "solution_found") (
                  field "resolver_suggestion"
                    (obj (field "memory_id" (str "box_moved") (field "actions" plan_value end)))
                    end))))))))

abbrev control : Control
control = record {
  out = outside;
  settings = record {
    enabled = true;
    robot_allowlist = "ROBOT-1" ∷ [];
    max_attempts = 3;
    lease_seconds = 120;
    required_lease = λ n. 60;
    has_start_grace = false;
  };
  has_session = λ sysid. true;
  stopped = λ w. false;
  actives = λ w. [];
  set_actives = λ a w. w;
  wait_connected = λ w. (ok tt, w);
  wait_paused = λ target generation after w. (ok (some pointer), w);
  wait_for_commands = λ generation w. (ok spec, w);
  start_grace = λ w. (ok tt, w);
  fetch_failure = λ id w. (ok (some failure_row), w);
  attach = λ failure_id session_id w. (ok tt, w);
  mark_non_executable = λ failure_id w. (ok tt, w);
  prepare = λ c w. (ok open_row, w);
  project = λ id w. (ok open_row, w);
  claim = λ c w. claim_for (str_eq c.recovery_session_id some_uuid) w;
}

abbrev begin : Run Budgets
begin = record {
  world = record { own = two_left; others = two_left };
  sent = [];
  finishes = [];
  claims = [];
  dispatched = false;
  stats = record {
    events_skipped = 0;
    recurrences_attached = 0;
    sessions_prepared = 0;
    attempts_claimed = 0;
    actions_accepted = 0;
    attempts_recovered = 0;
    attempts_failed = 0;
    attempts_unknown = 0;
    sessions_timed_out = 0;
    expired_attempts_reconciled = 0;
    execution_errors = 0;
    last_failure_id = none;
    last_session_id = none;
    last_error_type = none;
  };
}

process_failure-Logged_example :
    Logged python begin (process_failure python control 21 some_uuid some_uuid begin).1
process_failure-Logged_example = process_failure-Logged python control 21 some_uuid some_uuid begin

abbrev amount : Attempts → ℕ
amount two_left = 2
amount one_left = 1
amount none_left = 0

abbrev left_of : Bool → Budgets → ℕ
left_of true b = amount b.own
left_of false b = amount b.others

abbrev left : String → Budgets → ℕ
left session_id b = left_of (str_eq session_id some_uuid) b

few : (a : Attempts) → amount a ≤ 20
few two_left = omega arith
few one_left = omega arith
few none_left = omega arith

left_of-le : (own : Bool) (b : Budgets) → left_of own b ≤ 20
left_of-le true b = few b.own
left_of-le false b = few b.others

claim_takes : (a a' : Attempts) (row : Fields) → claim_one a ≡ (ok row, a') → amount a' < amount a
claim_takes two_left a' row e = subst (λ a'. amount a' < 2) (ap (λ q. q.1) e) (omega arith)
claim_takes one_left a' row e = subst (λ a'. amount a' < 1) (ap (λ q. q.1) e) (omega arith)
claim_takes none_left a' row e = cc

claim_for_takes :
    (own : Bool) (b b' : Budgets) (row : Fields)
    → claim_for own b ≡ (ok row, b')
    → left_of own b' < left_of own b
claim_for_takes true b b' row e = claim_takes b.own b'.own row (ap (λ q. (q.0, q.1.own)) e)
claim_for_takes false b b' row e =
    claim_takes b.others b'.others row (ap (λ q. (q.0, q.1.others)) e)

metered : (session_id : String) → Metered control session_id (left session_id)
metered session_id = record {
  bounded = λ b. left_of-le _ b;
  claimed =
      λ c b b' row same e. subst (λ id. left id b' < left id b) same (claim_for_takes _ b b' row e);
  requested = λ name arguments w. omega arith;
  waited = λ s generation revision w. omega arith;
  finished = λ c w. omega arith;
}

abbrev target : RecoveryTarget
target = record {
  pointer = record {
    failure_id = some_uuid;
    sysid = "ROBOT-1";
    flow_id = "Flow1";
    action_index = 4;
    action_command = "pick";
    recovery_episode_key = some_hash;
    recovery_session_id = none;
    recovery_status = none;
  };
  resolver_suggestion = field "memory_id" (str "box_moved") (field "actions" plan_value end);
}

execute_target-ends_example :
    (execute_target python control 21 target some_uuid begin).0 ≢ ok out_of_rounds
execute_target-ends_example =
    execute_target-ends python control left metered 21 target some_uuid begin (omega arith)

abbrev after : Run Budgets
after = (process_failure python control 21 some_uuid some_uuid begin).1

abbrev sent_by_run : List Command
sent_by_run = after.sent

abbrev claims_by_run : List Claim
claims_by_run = after.claims
