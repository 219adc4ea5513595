-- ===== src/Recovery/Attempt.antt =====
-- `RecoveryCoordinator._execute_attempt` of recovery_executor.py with `_finish_unknown` and
-- `_record_failed`. The robot session and the database are the interface `Outside`: each awaited
-- call gives its result and the world after it, whatever that may be.
pub mod Monad
pub mod Rules
pub mod Sent
pub mod Settled
pub mod Stable
use failure_resolver.Prelude.{
  ℕ, ◌+◌, String, Bool, true, false, not, Option, none, some, List, [], ◌∷◌, ◌++◌, ◌==◌,
  if◌then◌else◌,
}
use failure_resolver.Json.{Json, Fields}
use failure_resolver.Errors.{
  Error, contract, database_unavailable, live_state_changed, not_sent, rejected, outcome_unknown,
  timeout, cancelled, Result, ok, err, Done, raise_if, is_contract,
}
use failure_resolver.Errors
use failure_resolver.Runtime.{Runtime}
use failure_resolver.Robot.Pointer.{FlowPointer}
use failure_resolver.Robot.Frames.{CommandReceipt}
use failure_resolver.Recovery.Session.{SessionRecord, parse_recovery_session}
use failure_resolver.Recovery.Target
use failure_resolver.Recovery.Plan.Action.{RecoveryAction}
use failure_resolver.Recovery.Plan.Continuation.{RecoveryPlan}
use failure_resolver.Recovery.Resume.{resume_arguments_for_plan, validate_resume_acknowledgement}
use failure_resolver.Recovery.Outcome
use failure_resolver.Recovery.Outcome.{Outcome, classify_flow_outcome}
use failure_resolver.Recovery.Live.{SessionView, require_live_execution_state}
use Monad.{
  Finish, awaiting_outcome, recovered, failed, unknown, Command, Stats, Run, M, pure, lift, raise,
  modify, ◌>>=◌, ◌>>◌,
}

-- The arguments of `database.finish`, but for its message.
pub record FinishCall : Type 0 where
  pub failure_id : String
  pub recovery_session_id : String
  pub run_token : String
  pub result : Finish

-- The robot session and the database, as the coordinator calls them.
pub record Outside : Type 1 where
  pub World : Type 0
  pub view : World → SessionView
  pub has_database : World → Bool
  pub request_command : String → Fields → World → Result CommandReceipt × World
  -- session, generation, after_revision
  pub wait_for_flow : SessionRecord → ℕ → ℕ → World → Result (Option FlowPointer) × World
  pub finish : FinishCall → World → Result Fields × World

-- What an attempt returns behind its result: the session that `finish` gave, the Flow that could
-- not be classified, or nothing.
pub data Detail : Type 0 where
  settled : SessionRecord → Detail
  unclassified : Option FlowPointer → Detail
  nothing : Detail

abbrev pub Attempted : Type 0
Attempted = Outcome × Detail

abbrev is_timed_out : Target.Status → Bool
is_timed_out Target.timed_out = true
is_timed_out _ = false

-- A lost confirmation, a rejection and malformed data all end the attempt as unknown.
unfoldable pub is_ambiguous : Error → Bool
is_ambiguous not_sent = true
is_ambiguous outcome_unknown = true
is_ambiguous timeout = true
is_ambiguous rejected = true
is_ambiguous e = is_contract e

-- `except (CancelledError, TimeoutError)` around the shielded `_finish_unknown`.
unfoldable pub after_cancel : Result Done → Error
after_cancel (ok _) = cancelled
after_cancel (err cancelled) = cancelled
after_cancel (err timeout) = cancelled
after_cancel (err e) = e

module _ (py : Runtime) (out : Outside) where
  open out use {World, view, has_database}

  abbrev Act : Type 0 → Type 0
  Act A = M World A

  unfoldable pub require_live : RecoveryPlan → FlowPointer → Act Done
  require_live plan p r =
      (Errors.◌>>◌ (require_live_execution_state py (view r.world) p plan) (ok tt), r)

  -- `command_dispatched = True`, and the request.
  unfoldable pub request : String → Fields → Act CommandReceipt
  request name arguments r =
      let (x, w) = out.request_command name arguments r.world in
      (
        x,
        record r {
          world = w;
          sent = r.sent ++ record { name = name; arguments = arguments } ∷ [];
          dispatched = true;
        },
      )

  unfoldable pub finish : SessionRecord → String → String → Finish → Act Fields
  finish claimed failure_id run_token result r =
      let (x, w) =
        out.finish
          (record {
            failure_id = failure_id;
            recovery_session_id = claimed.recovery_session_id;
            run_token = run_token;
            result = result;
          })
          r.world in
      (x, record r { world = w; finishes = r.finishes ++ result ∷ [] })

  unfoldable pub wait_for_flow : SessionRecord → ℕ → ℕ → Act (Option FlowPointer)
  wait_for_flow claimed generation after r =
      let (x, w) = out.wait_for_flow claimed generation after r.world in (x, record r { world = w })

  unfoldable pub count : (Stats → Stats) → Act Done
  count f = modify (λ r. record r { stats = f r.stats })

  abbrev pub accept : Act Done
  accept = count (λ s. record s { actions_accepted = s.actions_accepted + 1 })

  -- One round of the loop over the corrections.
  unfoldable pub dispatch_correction : RecoveryPlan → FlowPointer → RecoveryAction → Act Done
  dispatch_correction plan p action = do
    require_live plan p
    receipt ← request action.command action.arguments
    lift (raise_if (not (receipt.generation == p.generation)) contract)
    accept

  unfoldable pub dispatch_corrections : RecoveryPlan → FlowPointer → List RecoveryAction → Act Done
  dispatch_corrections plan p [] = pure tt
  dispatch_corrections plan p (action ∷ actions) = do
    dispatch_correction plan p action
    dispatch_corrections plan p actions

  unfoldable pub continue_flow : RecoveryPlan → FlowPointer → Act CommandReceipt
  continue_flow plan p = do
    require_live plan p
    arguments ← lift (resume_arguments_for_plan plan p)
    receipt ← request "$resume_flow" arguments
    lift (raise_if (not (receipt.generation == p.generation)) contract)
    lift
        (validate_resume_acknowledgement receipt.result p plan.rewind_steps (some plan.resume_mode))
    accept
    pure receipt

  -- `_required_database()`
  unfoldable pub required_database : Act Done
  required_database r = (if has_database r.world then ok tt else err database_unavailable, r)

  unfoldable pub finish_unknown : SessionRecord → String → Act Done
  finish_unknown claimed failure_id = elim claimed.recovery_run_token [
    | none ↦ pure tt
    | some run_token ↦ do
      required_database
      finish claimed failure_id run_token unknown
      count (λ s. record s { attempts_unknown = s.attempts_unknown + 1 })
  ]

  unfoldable pub record_failed : SessionRecord → Act Done
  record_failed finished = count (λ s. record s {
    attempts_failed = s.attempts_failed + 1;
    sessions_timed_out =
        if is_timed_out finished.recovery_status
        then s.sessions_timed_out + 1
        else s.sessions_timed_out;
  })

  unfoldable pub settle :
      SessionRecord → String → String → Option FlowPointer → Outcome → Act Attempted
  settle claimed failure_id run_token flow Outcome.recovered = do
    row ← finish claimed failure_id run_token recovered
    session ← lift (parse_recovery_session py row false)
    count (λ s. record s { attempts_recovered = s.attempts_recovered + 1 })
    pure (Outcome.recovered, settled session)
  settle claimed failure_id run_token flow Outcome.failed = do
    row ← finish claimed failure_id run_token failed
    session ← lift (parse_recovery_session py row false)
    record_failed session
    pure (Outcome.failed, settled session)
  settle claimed failure_id run_token flow Outcome.unknown = do
    finish_unknown claimed failure_id
    pure (Outcome.unknown, unclassified flow)

  -- The body of the `try`.
  unfoldable pub attempt :
      SessionRecord → String → String → RecoveryPlan → FlowPointer → Act Attempted
  attempt claimed failure_id run_token plan p = do
    dispatch_corrections plan p plan.corrections
    receipt ← continue_flow plan p
    finish claimed failure_id run_token awaiting_outcome
    outcome ← wait_for_flow claimed p.generation receipt.flow_revision_at_correlated_ack
    settle claimed failure_id run_token outcome (classify_flow_outcome py outcome claimed)

  unfoldable pub give_up : SessionRecord → String → Error → Act Attempted
  give_up claimed failure_id e = do
    finish_unknown claimed failure_id
    count (λ s. record s { last_error_type = some e })
    pure (Outcome.unknown, nothing)

  unfoldable pub interrupted : SessionRecord → String → Act Attempted
  interrupted claimed failure_id r =
      if r.dispatched
      then (let (x, r') = finish_unknown claimed failure_id r in (err (after_cancel x), r'))
      else (err cancelled, r)

  unfoldable pub handle : SessionRecord → String → Result Attempted → Act Attempted
  handle claimed failure_id (ok a) = pure a
  handle claimed failure_id (err cancelled) = interrupted claimed failure_id
  handle claimed failure_id (err e) =
      if is_ambiguous e then give_up claimed failure_id e else raise e

  unfoldable pub execute_attempt :
      SessionRecord → String → RecoveryPlan → FlowPointer → Act Attempted
  execute_attempt claimed failure_id plan p r = elim claimed.recovery_run_token [
    | none ↦ (err contract, r)
    | some run_token ↦
        let (x, r') =
          attempt claimed failure_id run_token plan p (record r { dispatched = false }) in
        handle claimed failure_id x r'
  ]
