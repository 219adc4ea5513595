-- ===== src/Recovery/Coordinator/Process.antt =====
-- `RecoveryCoordinator.process_failure` and `_attach_active_recurrence` of recovery_executor.py.
use failure_resolver.Prelude.{
  ℕ, ◌+◌, String, Bool, true, false, Option, none, some, str_eq, if◌then◌else◌,
}
use failure_resolver.Json.{Fields, mem}
use failure_resolver.Errors.{
  Error, Result, ok, err, contract, non_executable, live_state_changed, not_sent, outcome_unknown,
  timeout, Done,
}
use failure_resolver.Runtime.{Runtime}
use failure_resolver.Recovery.Target.{
  Status, PointerTarget, pointer_key, RecoveryTarget, parse_failure_pointer_target,
  parse_failure_recovery_target, is_matched,
}
use failure_resolver.Recovery.Attempt.{required_database, count}
use failure_resolver.Recovery.Attempt.Monad.{pure, lift, raise, ◌>>=◌, ◌>>◌}
use failure_resolver.Recovery.Coordinator.{
  Control, Act, call, read, update_actives, find_active, set_current, Active,
}
use failure_resolver.Recovery.Coordinator.Prepare.{is_open, skipped}
use failure_resolver.Recovery.Coordinator.Attempts.{Loop, execute_target}

-- `recovery_status in (None, "ready", "failed")`
is_claimable : Option Status → Bool
is_claimable none = true
is_claimable (some s) = is_open s

module _ (py : Runtime) (ctl : Control) where
  open ctl use {out, settings}

  -- The active session takes the failure as its current one.
  unfoldable pub adopt : PointerTarget → Active → Act ctl Done
  adopt target active = do
    update_actives ctl
        (set_current (pointer_key target) active.recovery_session_id target.failure_id)
    count py out (λ s. record s { recurrences_attached = s.recurrences_attached + 1 })

  -- The failure is linked to the active session already.
  unfoldable pub refresh : PointerTarget → Active → Act ctl Bool
  refresh target active =
      if str_eq target.failure_id active.current_failure_id
      then pure true
      else (do adopt target active; pure true)

  unfoldable pub attach_to : PointerTarget → Active → Act ctl Bool
  attach_to target active = elim target.recovery_session_id [
    | none ↦ do
      call ctl (ctl.attach target.failure_id active.recovery_session_id)
      adopt target active
      pure true
    | some id ↦
        if str_eq id active.recovery_session_id then refresh target active else raise contract
  ]

  -- `_attach_active_recurrence`
  unfoldable pub attach_active_recurrence : PointerTarget → Act ctl Bool
  attach_active_recurrence target = do
    active ← read ctl (λ w. find_active (pointer_key target) (ctl.actives w))
    elim active [ none ↦ pure false | some a ↦ attach_to target a ]

  unfoldable pub skip : Act ctl Done
  skip = count py out skipped

  unfoldable pub note_error : Error → Act ctl Done
  note_error e =
      count py out
        (λ s. record s { events_skipped = s.events_skipped + 1; last_error_type = some e })

  -- The `except` clauses around `_execute_target`.
  unfoldable pub after_execution : String → Result Loop → Act ctl Done
  after_execution failure_id (ok l) = pure tt
  after_execution failure_id (err non_executable) = do
    call ctl (ctl.mark_non_executable failure_id)
    note_error non_executable
  after_execution failure_id (err live_state_changed) = note_error live_state_changed
  after_execution failure_id (err not_sent) = note_error not_sent
  after_execution failure_id (err outcome_unknown) = note_error outcome_unknown
  after_execution failure_id (err timeout) = note_error timeout
  after_execution failure_id (err e) = raise e

  unfoldable pub guarded_execution : ℕ → RecoveryTarget → String → Act ctl Done
  guarded_execution n target new_id r =
      let (x, r') = execute_target py ctl n target new_id r in
      after_execution target.failure_id x r'

  unfoldable pub execute_claimable : ℕ → String → RecoveryTarget → Act ctl Done
  unfolding is_claimable
  execute_claimable n new_id target =
      if is_claimable target.recovery_status then guarded_execution n target new_id else skip

  -- Under the lock of the robot, with the row that is read again.
  unfoldable pub process_current : ℕ → String → Fields → Act ctl Done
  process_current n new_id row = do
    target ← lift (parse_failure_recovery_target py row)
    attached ← attach_active_recurrence target.pointer
    if attached then pure tt else execute_claimable n new_id target

  unfoldable pub process_locked : ℕ → String → String → Act ctl Done
  process_locked n failure_id new_id = do
    current ← call ctl (ctl.fetch_failure failure_id)
    elim current [ none ↦ skip | some row ↦ process_current n new_id row ]

  -- A failure of an allowed robot that has not been attached.
  unfoldable pub process_unattached : ℕ → Fields → String → Act ctl Done
  unfolding is_claimable
  process_unattached n row new_id =
      if is_matched row
      then (do
        target ← lift (parse_failure_recovery_target py row)
        if is_claimable target.recovery_status
            then process_locked n target.failure_id new_id
            else skip)
      else skip

  unfoldable pub process_row : ℕ → Fields → String → Act ctl Done
  process_row n row new_id = do
    target ← lift (parse_failure_pointer_target py row)
    if mem target.sysid settings.robot_allowlist
        then (do
          attached ← attach_active_recurrence target
          if attached then pure tt else process_unattached n row new_id)
        else skip

  unfoldable pub process_failure : ℕ → String → String → Act ctl Done
  process_failure n failure_id new_id =
      if settings.enabled
      then (do
        required_database py out
        raw ← call ctl (ctl.fetch_failure failure_id)
        elim raw [ none ↦ skip | some row ↦ process_row n row new_id ])
      else pure tt
