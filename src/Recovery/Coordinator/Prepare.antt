-- ===== src/Recovery/Coordinator/Prepare.antt =====
-- `RecoveryCoordinator._execute_target` up to its first claim: the fresh pointer, the session that the
-- database prepared, and the checks of its pinned plan.
use failure_resolver.Prelude.{
  ℕ, ◌+◌, String, Bool, true, false, not, ◌||◌, Option, none, some, ltb, ◌==◌, if◌then◌else◌,
  length,
}
use failure_resolver.Json.{arr, get}
use failure_resolver.Errors.{Result, ok, err, contract, raise_if, Done}
use failure_resolver.Errors
use failure_resolver.Runtime.{Runtime}
use failure_resolver.Robot.Pointer.{FlowPointer}
use failure_resolver.Recovery.Target.{
  Status, ready, failed, PointerTarget, pointer_key, key_eq, RecoveryTarget,
}
use failure_resolver.Recovery.Session.{SessionRecord, session_key, parse_recovery_session}
use failure_resolver.Recovery.Checks.{
  pointer_matches_target, validate_plan_for_target, validate_plan_for_session,
  validate_plan_for_flow,
}
use failure_resolver.Recovery.Plan.{parse_recovery_plan}
use failure_resolver.Recovery.Plan.Continuation.{RecoveryPlan}
use failure_resolver.Recovery.Resume.{resume_arguments_for_plan}
use failure_resolver.Recovery.Live.{SessionView, as_non_executable}
use failure_resolver.Recovery.Attempt.{require_live, count}
use failure_resolver.Recovery.Attempt.Monad.{Stats, pure, lift, ◌>>=◌, ◌>>◌}
use failure_resolver.Recovery.Coordinator.{Control, Act, call, read}

-- The latest Flow, if it is of the present connection.
current_flow : SessionView → Option FlowPointer
current_flow v = elim v.latest_flow [
  | none ↦ none
  | some p ↦ if p.generation == v.generation then some p else none
]

revision_of : Option FlowPointer → ℕ
revision_of none = 0
revision_of (some p) = p.revision

present : Option FlowPointer → Result FlowPointer
present none = err contract
present (some p) = ok p

-- `recovery_status in ("ready", "failed")`
abbrev pub is_open : Status → Bool
is_open ready = true
is_open failed = true
is_open _ = false

abbrev pub skipped : Stats → Stats
skipped s = record s { events_skipped = s.events_skipped + 1 }

module _ (py : Runtime) where
  -- The last check of `_fresh_paused_pointer`.
  unfoldable pub accept_pointer : PointerTarget → ℕ → Option FlowPointer → Result FlowPointer
  accept_pointer target generation none = err contract
  accept_pointer target generation (some p) =
      if not (p.generation == generation) || not (pointer_matches_target py (some p) target)
      then err contract
      else ok p

  -- The plan of the failure row, before the first prepare.
  unfoldable pub check_row_plan : RecoveryTarget → FlowPointer → Result RecoveryPlan
  check_row_plan target p = as_non_executable (
      Errors.◌>>=◌ (parse_recovery_plan py (get "actions" target.resolver_suggestion)) λ plan.
        Errors.◌>>◌ (validate_plan_for_target plan target.pointer)
          (Errors.◌>>◌ (validate_plan_for_flow plan p) (ok plan)))

  -- The plan that the session has pinned, before any claim.
  unfoldable pub check_pinned_plan : SessionRecord → FlowPointer → Result RecoveryPlan
  check_pinned_plan prepared p = as_non_executable (
      Errors.◌>>=◌ (parse_recovery_plan py (arr prepared.pinned_actions)) λ plan.
        Errors.◌>>◌ (validate_plan_for_session plan prepared) (
          Errors.◌>>◌ (validate_plan_for_flow plan p) (
            Errors.◌>>◌
              (raise_if (not (plan.rewind_steps == prepared.recovery_rewind_steps)) contract)
              (ok plan))))

module _ (py : Runtime) (ctl : Control) where
  open ctl use {out, settings}

  unfoldable pub fresh_paused_pointer : PointerTarget → Act ctl FlowPointer
  unfolding current_flow revision_of present
  fresh_paused_pointer target = do
    call ctl ctl.wait_connected
    v ← read ctl out.view
    if pointer_matches_target py (current_flow v) target
        then lift (present (current_flow v))
        else do
          found ← call ctl (ctl.wait_paused target v.generation (revision_of (current_flow v)))
          lift (accept_pointer py target v.generation found)

  -- A new session for a failure that has none, or the one that the failure row names.
  unfoldable pub prepared_session : RecoveryTarget → FlowPointer → String → Act ctl SessionRecord
  prepared_session target p new_id = elim target.recovery_session_id [
    | none ↦ do
      plan ← lift (check_row_plan py target p)
      require_live py out plan p
      row ← call ctl (
          ctl.prepare (record {
            failure_id = target.failure_id;
            recovery_session_id = new_id;
            max_attempts = settings.max_attempts;
            rewind_steps = plan.rewind_steps;
          }))
      prepared ← lift (parse_recovery_session py row false)
      count py out (λ s. record s { sessions_prepared = s.sessions_prepared + 1 })
      pure prepared
    | some id ↦ do row ← call ctl (ctl.project id); lift (parse_recovery_session py row false)
  ]

  -- The identifier that the rest of the execution uses.
  unfoldable pub session_id_of : RecoveryTarget → SessionRecord → String
  session_id_of target prepared = elim target.recovery_session_id [
    | none ↦ prepared.recovery_session_id
    | some id ↦ id
  ]

  -- The checks of an open session up to the lease.
  unfoldable pub check_prepared :
      RecoveryTarget → SessionRecord → FlowPointer → Act ctl RecoveryPlan
  check_prepared target prepared p = do
    lift (raise_if (not (key_eq (session_key prepared) (pointer_key target.pointer))) contract)
    plan ← lift (check_pinned_plan py prepared p)
    lift (as_non_executable (resume_arguments_for_plan plan p))
    require_live py out plan p
    lift (
        raise_if (ltb settings.lease_seconds (settings.required_lease (length plan.corrections)))
          contract)
    pure plan

  -- The operator's time to cancel; whether the first claim follows.
  unfoldable pub grace_over : String → Act ctl Bool
  grace_over session_id =
      if settings.has_start_grace
      then (do
        call ctl ctl.start_grace
        stopped ← read ctl ctl.stopped
        if stopped then pure false else do
          row ← call ctl (ctl.project session_id)
          graced ← lift (parse_recovery_session py row false)
          if is_open graced.recovery_status then pure true else do count py out skipped; pure false)
      else pure true
