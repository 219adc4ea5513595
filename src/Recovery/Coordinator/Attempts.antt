-- ===== src/Recovery/Coordinator/Attempts.antt =====
-- `RecoveryCoordinator._execute_target` from its first claim: the loop over the attempts, with the
-- active session that recurrences are attached to.
use failure_resolver.Prelude.{
  ℕ, zero, suc, ◌+◌, String, Bool, true, false, not, Option, none, some, ◌==◌, str_eq,
  if◌then◌else◌,
}
use failure_resolver.Json.{arr, Fields, get}
use failure_resolver.Errors.{
  Error, Result, ok, err, contract, assertion, raise_if, Done, is_contract,
}
use failure_resolver.Errors
use failure_resolver.Runtime.{Runtime}
use failure_resolver.Robot.Pointer.{FlowPointer}
use failure_resolver.Recovery.Inputs.{uuid_text}
use failure_resolver.Recovery.Target
use failure_resolver.Recovery.Target.{PointerKey, pointer_key, RecoveryTarget}
use failure_resolver.Recovery.Session.{SessionRecord, parse_recovery_session}
use failure_resolver.Recovery.Checks.{
  pointer_matches_session, validate_plan_for_session, validate_plan_for_flow,
}
use failure_resolver.Recovery.Plan.{parse_recovery_plan}
use failure_resolver.Recovery.Plan.Continuation.{RecoveryPlan}
use failure_resolver.Recovery.Outcome.{Outcome}
use failure_resolver.Recovery.Live.{require_live_execution_state}
use failure_resolver.Recovery.Attempt.{
  Attempted, require_live, settled, finish_unknown, required_database, count, execute_attempt,
}
use failure_resolver.Recovery.Attempt.Monad.{unknown, pure, lift, raise, ◌>>=◌, ◌>>◌}
use failure_resolver.Recovery.Coordinator.{
  Control, Act, call, read, claim, finish_at, update_actives, find_active, put_active, drop_active,
  Active,
}
use failure_resolver.Recovery.Coordinator.Prepare.{
  fresh_paused_pointer, prepared_session, session_id_of, check_prepared, grace_over, is_open,
  skipped,
}

-- How the loop goes on after a round: it is over, or there is another round at the pointer.
pub data Next : Type 0 where
  over : Next
  again : FlowPointer → Next

-- Whether the loop has ended, or the rounds allowed were too few.
pub data Loop : Type 0 where
  ended out_of_rounds : Loop

same_uuid : Option String → String → Bool
same_uuid none id = false
same_uuid (some a) id = str_eq a id

failure_of : Option Active → String → String
failure_of none id = id
failure_of (some a) id = a.current_failure_id

abbrev is_failed : Target.Status → Bool
is_failed Target.failed = true
is_failed _ = false

module _ (py : Runtime) (ctl : Control) where
  open ctl use {out, settings}

  -- A claim whose row cannot be read is closed as unknown, if its session and its token can be.
  unfoldable pub close_malformed : Error → String → String → Fields → Act ctl Done
  unfolding same_uuid
  close_malformed e session_id failure_id row = elim (uuid_text py (get "recovery_run_token" row)) [
    | none ↦ raise e
    | some token ↦
        if same_uuid (uuid_text py (get "recovery_session_id" row)) session_id
        then (do
          finish_at ctl (record {
            failure_id = failure_id;
            recovery_session_id = session_id;
            run_token = token;
            result = unknown;
          })
          count py out (λ s. record s { attempts_unknown = s.attempts_unknown + 1 }))
        else raise e
  ]

  -- The last checks before anything is sent: those of the Flow and of the live state.
  unfoldable pub still_live : RecoveryPlan → FlowPointer → Act ctl (Result Done)
  still_live plan p r = (
    ok (
        Errors.◌>>◌ (validate_plan_for_flow plan p)
          (Errors.◌>>◌ (require_live_execution_state py (out.view r.world) p plan) (ok tt))),
    r,
  )

  -- A retry needs a fresh pause at the same step.
  unfoldable pub next_round : SessionRecord → Option FlowPointer → Next
  next_round claimed none = over
  next_round claimed (some latest) =
      if pointer_matches_session py latest claimed then again latest else over

  -- What an attempt's result means for the loop.
  unfoldable pub next_of : SessionRecord → Attempted → Act ctl Next
  next_of claimed (Outcome.failed, settled finished) =
      if is_failed finished.recovery_status
      then (do v ← read ctl out.view; pure (next_round claimed v.latest_flow))
      else pure over
  next_of claimed (Outcome.failed, _) = raise assertion
  next_of claimed _ = pure over

  -- From a claimed session, whose plan fits its rewind setting.
  unfoldable pub dispatch_claimed :
      SessionRecord → String → RecoveryPlan → FlowPointer → Result Done → Act ctl Next
  dispatch_claimed claimed failure_id plan p (ok live) = do
    attempted ← execute_attempt py out claimed failure_id plan p
    next_of claimed attempted
  dispatch_claimed claimed failure_id plan p (err e) =
      if is_contract e then (do finish_unknown py out claimed failure_id; pure over) else raise e

  unfoldable pub run_claimed : SessionRecord → String → FlowPointer → Act ctl Next
  run_claimed claimed failure_id p = do
    count py out (λ s. record s { last_failure_id = some failure_id })
    plan ← lift (parse_recovery_plan py (arr claimed.pinned_actions))
    if plan.rewind_steps == claimed.recovery_rewind_steps
        then (do
          lift (validate_plan_for_session plan claimed)
          live ← still_live plan p
          dispatch_claimed claimed failure_id plan p live)
        else do finish_unknown py out claimed failure_id; pure over

  unfoldable pub read_claim :
      String → String → FlowPointer → Fields → Result SessionRecord → Act ctl Next
  read_claim session_id failure_id p row (ok claimed) = run_claimed claimed failure_id p
  read_claim session_id failure_id p row (err e) =
      if is_contract e then (do close_malformed e session_id failure_id row; pure over) else raise e

  unfoldable pub claim_round : String → FlowPointer → String → Act ctl Next
  claim_round session_id p failure_id = do
    row ← claim ctl (record {
      failure_id = failure_id;
      recovery_session_id = session_id;
      lease_seconds = settings.lease_seconds;
    })
    count py out (λ s. record s { attempts_claimed = s.attempts_claimed + 1 })
    read_claim session_id failure_id p row (parse_recovery_session py row true)

  -- One round of the loop.
  unfoldable pub round : RecoveryTarget → String → RecoveryPlan → FlowPointer → Act ctl Next
  unfolding failure_of
  round target session_id prepared_plan p = do
    active ← read ctl (λ w. find_active (pointer_key target.pointer) (ctl.actives w))
    require_live py out prepared_plan p
    claim_round session_id p (failure_of active target.failure_id)

  -- `while not self._stop_event.is_set()`
  unfoldable pub rounds : ℕ → RecoveryTarget → String → RecoveryPlan → FlowPointer → Act ctl Loop
  rounds zero target session_id prepared_plan p = pure out_of_rounds
  rounds (suc n) target session_id prepared_plan p = do
    stopped ← read ctl ctl.stopped
    if stopped then pure ended else do
      next ← round target session_id prepared_plan p
      elim next [
        | over ↦ pure ended
        | again latest ↦ rounds n target session_id prepared_plan latest
      ]

  -- The `try` with its `finally`: the session is active while the loop runs. The lock of the robot
  -- keeps the entry of its step to this execution.
  unfoldable pub run_attempts :
      ℕ → RecoveryTarget → String → RecoveryPlan → FlowPointer → Act ctl Loop
  run_attempts n target session_id prepared_plan p r =
      let key = pointer_key target.pointer in
      let (x, r') =
        (do
          update_actives ctl (
              put_active key (record {
                recovery_session_id = session_id;
                current_failure_id = target.failure_id;
              }))
          rounds n target session_id prepared_plan p)
          r in
      (x, (update_actives ctl (drop_active key) r').1)

  -- From the session that the database prepared.
  unfoldable pub execute_session :
      ℕ → RecoveryTarget → SessionRecord → String → FlowPointer → Act ctl Loop
  execute_session n target prepared session_id p =
      if is_open prepared.recovery_status
      then (do
        plan ← check_prepared py ctl target prepared p
        go ← grace_over py ctl session_id
        if go then run_attempts n target session_id plan p else pure ended)
      else do count py out skipped; pure ended

  -- `_execute_target`, with the identifier of a new session and the number of rounds allowed.
  unfoldable pub execute_target : ℕ → RecoveryTarget → String → Act ctl Loop
  execute_target n target new_id = do
    required_database py out
    lift (raise_if (not (ctl.has_session target.sysid)) contract)
    p ← fresh_paused_pointer py ctl target.pointer
    call ctl (ctl.wait_for_commands p.generation)
    prepared ← prepared_session py ctl target p new_id
    count py out (λ s. record s {
      last_failure_id = some target.failure_id;
      last_session_id = some (session_id_of py ctl target prepared);
    })
    execute_session n target prepared (session_id_of py ctl target prepared) p
