-- ===== src/Recovery/Coordinator/Sent.antt =====
-- What the processing of a failure sends, whatever the robot, the database and the other tasks do.
use failure_resolver.Prelude.{
  ℕ, zero, suc, String, Bool, true, false, Option, none, some, Option-cases, inl, inr,
}
use failure_resolver.Json.{Fields}
use failure_resolver.Errors.{Error, Result, ok, err, Done, assertion}
use failure_resolver.Runtime.{Runtime}
use failure_resolver.Robot.Pointer.{FlowPointer}
use failure_resolver.Recovery.Target.{RecoveryTarget}
use failure_resolver.Recovery.Session.{SessionRecord}
use failure_resolver.Recovery.Plan.Continuation.{RecoveryPlan}
use failure_resolver.Recovery.Attempt.Monad.{Run, pure, pure}
use failure_resolver.Recovery.Attempt.Stable.{
  Keeps, Keeps-pure, Keeps-lift, Keeps-raise, Keeps-bind, Keeps-if,
}
use failure_resolver.Recovery.Coordinator.{Control, Act}
use failure_resolver.Recovery.Coordinator.Quiet.{
  Blind, Quiet-count, Quiet-live, Quiet-read, Quiet-database, Quiet-call, Quiet-actives,
  Quiet-fresh_paused_pointer, Quiet-prepared_session, Quiet-check_prepared, Quiet-grace_over,
}
use failure_resolver.Recovery.Coordinator.Attempts.{
  Next, over, again, Loop, ended, round, rounds, run_attempts, execute_session, execute_target,
}
use failure_resolver.Recovery.Coordinator.Log.{Logged, Logged-Blind}
use failure_resolver.Recovery.Coordinator.Claimed.{claim_round-Logged}
use failure_resolver.Recovery.Target.{PointerTarget, RecoveryTarget}
use failure_resolver.Errors.{
  non_executable, contract, live_state_changed, database_unavailable, not_sent, rejected,
  outcome_unknown, timeout, cancelled, value_error, type_error, assertion, other,
}
use failure_resolver.Recovery.Coordinator.{Active}
use failure_resolver.Recovery.Coordinator.Process.{
  adopt, refresh, attach_to, attach_active_recurrence, skip, note_error, after_execution,
  guarded_execution, execute_claimable, process_current, process_locked, process_unattached,
  process_row, process_failure,
}

module _ (py : Runtime) (ctl : Control) where
  abbrev W : Type 0
  W = ctl.out.World

  logged : Blind {W = W} (Logged py)
  logged = Logged-Blind py

  round-Logged :
      (target : RecoveryTarget) (session_id : String) (plan : RecoveryPlan) (p : FlowPointer)
      → Keeps (Logged py) (round py ctl target session_id plan p)
  unfolding round
  round-Logged target session_id plan p =
      Keeps-bind logged.order _ _ (Quiet-read py ctl logged _) λ active.
        Keeps-bind logged.order _ _ (Quiet-live py ctl logged plan p)
          λ _. claim_round-Logged py ctl session_id p _

  rounds-Logged :
      (n : ℕ) (target : RecoveryTarget) (session_id : String) (plan : RecoveryPlan)
      (p : FlowPointer)
      → Keeps (Logged py) (rounds py ctl n target session_id plan p)
  unfolding rounds
  rounds-Logged zero target session_id plan p = Keeps-pure logged.order _
  rounds-Logged (suc n) target session_id plan p =
      Keeps-bind logged.order _ _ (Quiet-read py ctl logged _) λ stopped.
        Keeps-if logged.order _ _ _ (Keeps-pure logged.order _) (
          Keeps-bind logged.order _ _ (round-Logged target session_id plan p)
            (at λ latest. rounds-Logged n target session_id plan latest))
    where
      at :
          ((latest : FlowPointer)
            → Keeps (Logged py) (rounds py ctl n target session_id plan latest))
          → (x : Next)
          → Keeps (Logged py) (elim x as (λ _. Act ctl Loop) [
            | over ↦ pure ended
            | again latest ↦ rounds py ctl n target session_id plan latest
          ])
      at go over = Keeps-pure logged.order _
      at go (again latest) = go latest

  run_attempts-Logged :
      (n : ℕ) (target : RecoveryTarget) (session_id : String) (plan : RecoveryPlan)
      (p : FlowPointer)
      → Keeps (Logged py) (run_attempts py ctl n target session_id plan p)
  unfolding run_attempts
  run_attempts-Logged n target session_id plan p r =
      logged.order.both
        (Keeps-bind logged.order _ _ (Quiet-actives py ctl logged _)
          (λ _. rounds-Logged n target session_id plan p) r)
        (Quiet-actives py ctl logged _ _)

  execute_session-Logged :
      (n : ℕ) (target : RecoveryTarget) (prepared : SessionRecord) (session_id : String)
      (p : FlowPointer)
      → Keeps (Logged py) (execute_session py ctl n target prepared session_id p)
  unfolding execute_session
  execute_session-Logged n target prepared session_id p =
      Keeps-if logged.order _ _ _
        (Keeps-bind logged.order _ _ (Quiet-check_prepared py ctl logged target prepared p) λ plan.
          Keeps-bind logged.order _ _ (Quiet-grace_over py ctl logged session_id) λ go.
            Keeps-if logged.order _ _ _ (run_attempts-Logged n target session_id plan p)
              (Keeps-pure logged.order ended))
        (Keeps-bind logged.order _ _ (Quiet-count py ctl logged _)
          λ _. Keeps-pure logged.order ended)

  pub execute_target-Logged :
      (n : ℕ) (target : RecoveryTarget) (new_id : String)
      → Keeps (Logged py) (execute_target py ctl n target new_id)
  unfolding execute_target
  execute_target-Logged n target new_id =
      Keeps-bind logged.order _ _ (Quiet-database py ctl logged) λ _.
        Keeps-bind logged.order _ _ (Keeps-lift logged.order _) λ _.
          Keeps-bind logged.order _ _ (Quiet-fresh_paused_pointer py ctl logged target.pointer) λ p.
            Keeps-bind logged.order _ _ (Quiet-call py ctl logged _) λ _.
              Keeps-bind logged.order _ _ (Quiet-prepared_session py ctl logged target p new_id)
                λ prepared.
                  Keeps-bind logged.order _ _ (Quiet-count py ctl logged _)
                    λ _. execute_session-Logged n target prepared _ p

  note_error-Logged : (e : Error) → Keeps (Logged py) (note_error py ctl e)
  unfolding note_error
  note_error-Logged e = Quiet-count py ctl logged _

  skip-Logged : Keeps (Logged py) (skip py ctl)
  unfolding skip
  skip-Logged = Quiet-count py ctl logged _

  after_execution-Logged :
      (failure_id : String) (x : Result Loop)
      → Keeps (Logged py) (after_execution py ctl failure_id x)
  unfolding after_execution
  after_execution-Logged failure_id (ok l) = Keeps-pure logged.order tt
  after_execution-Logged failure_id (err non_executable) =
      Keeps-bind logged.order _ _ (Quiet-call py ctl logged _) λ _. note_error-Logged non_executable
  after_execution-Logged failure_id (err live_state_changed) = note_error-Logged live_state_changed
  after_execution-Logged failure_id (err not_sent) = note_error-Logged not_sent
  after_execution-Logged failure_id (err outcome_unknown) = note_error-Logged outcome_unknown
  after_execution-Logged failure_id (err timeout) = note_error-Logged timeout
  after_execution-Logged failure_id (err contract) = Keeps-raise logged.order Done contract
  after_execution-Logged failure_id (err database_unavailable) =
      Keeps-raise logged.order Done database_unavailable
  after_execution-Logged failure_id (err rejected) = Keeps-raise logged.order Done rejected
  after_execution-Logged failure_id (err cancelled) = Keeps-raise logged.order Done cancelled
  after_execution-Logged failure_id (err value_error) = Keeps-raise logged.order Done value_error
  after_execution-Logged failure_id (err type_error) = Keeps-raise logged.order Done type_error
  after_execution-Logged failure_id (err assertion) = Keeps-raise logged.order Done assertion
  after_execution-Logged failure_id (err other) = Keeps-raise logged.order Done other

  guarded_execution-Logged :
      (n : ℕ) (target : RecoveryTarget) (new_id : String)
      → Keeps (Logged py) (guarded_execution py ctl n target new_id)
  unfolding guarded_execution
  guarded_execution-Logged n target new_id r =
      logged.order.both (execute_target-Logged n target new_id r)
        (after_execution-Logged target.failure_id _ _)

  adopt-Logged : (target : PointerTarget) (a : Active) → Keeps (Logged py) (adopt py ctl target a)
  unfolding adopt
  adopt-Logged target a =
      Keeps-bind logged.order _ _ (Quiet-actives py ctl logged _) λ _. Quiet-count py ctl logged _

  refresh-Logged :
      (target : PointerTarget) (a : Active) → Keeps (Logged py) (refresh py ctl target a)
  unfolding refresh
  refresh-Logged target a =
      Keeps-if logged.order _ _ _ (Keeps-pure logged.order true)
        (Keeps-bind logged.order _ _ (adopt-Logged target a) λ _. Keeps-pure logged.order true)

  attach_to-Logged :
      (target : PointerTarget) (a : Active) → Keeps (Logged py) (attach_to py ctl target a)
  unfolding attach_to
  attach_to-Logged target a = elim (Option-cases target.recovery_session_id) [
    | inl unlinked ↦
        rw (unlinked, attach_to)
          (Keeps-bind logged.order _ _ (Quiet-call py ctl logged _) λ _.
            Keeps-bind logged.order _ _ (adopt-Logged target a) λ _. Keeps-pure logged.order true)
    | inr (id, linked) ↦
        rw (linked, attach_to)
          (Keeps-if logged.order _ _ _ (refresh-Logged target a)
            (Keeps-raise logged.order Bool contract))
  ]

  attach-Logged :
      (target : PointerTarget) → Keeps (Logged py) (attach_active_recurrence py ctl target)
  unfolding attach_active_recurrence
  attach-Logged target = Keeps-bind logged.order _ _ (Quiet-read py ctl logged _) at
    where
      at :
          (x : Option Active)
          → Keeps (Logged py) (elim x as (λ _. Act ctl Bool) [
            | none ↦ pure false
            | some a ↦ attach_to py ctl target a
          ])
      at none = Keeps-pure logged.order false
      at (some a) = attach_to-Logged target a

  execute_claimable-Logged :
      (n : ℕ) (new_id : String) (target : RecoveryTarget)
      → Keeps (Logged py) (execute_claimable py ctl n new_id target)
  unfolding execute_claimable
  execute_claimable-Logged n new_id target =
      Keeps-if logged.order _ _ _ (guarded_execution-Logged n target new_id) skip-Logged

  process_current-Logged :
      (n : ℕ) (new_id : String) (row : Fields)
      → Keeps (Logged py) (process_current py ctl n new_id row)
  unfolding process_current
  process_current-Logged n new_id row =
      Keeps-bind logged.order _ _ (Keeps-lift logged.order _) λ target.
        Keeps-bind logged.order _ _ (attach-Logged target.pointer) λ attached.
          Keeps-if logged.order _ _ _ (Keeps-pure logged.order tt)
            (execute_claimable-Logged n new_id target)

  process_locked-Logged :
      (n : ℕ) (failure_id new_id : String)
      → Keeps (Logged py) (process_locked py ctl n failure_id new_id)
  unfolding process_locked
  process_locked-Logged n failure_id new_id =
      Keeps-bind logged.order _ _ (Quiet-call py ctl logged _) at
    where
      at :
          (x : Option Fields)
          → Keeps (Logged py) (elim x as (λ _. Act ctl Done) [
            | none ↦ skip py ctl
            | some row ↦ process_current py ctl n new_id row
          ])
      at none = skip-Logged
      at (some row) = process_current-Logged n new_id row

  process_unattached-Logged :
      (n : ℕ) (row : Fields) (new_id : String)
      → Keeps (Logged py) (process_unattached py ctl n row new_id)
  unfolding process_unattached
  process_unattached-Logged n row new_id =
      Keeps-if logged.order _ _ _
        (Keeps-bind logged.order _ _ (Keeps-lift logged.order _) λ target.
          Keeps-if logged.order _ _ _ (process_locked-Logged n target.failure_id new_id)
            skip-Logged)
        skip-Logged

  process_row-Logged :
      (n : ℕ) (row : Fields) (new_id : String) → Keeps (Logged py) (process_row py ctl n row new_id)
  unfolding process_row
  process_row-Logged n row new_id =
      Keeps-bind logged.order _ _ (Keeps-lift logged.order _) λ target.
        Keeps-if logged.order _ _ _
          (Keeps-bind logged.order _ _ (attach-Logged target) λ attached.
            Keeps-if logged.order _ _ _ (Keeps-pure logged.order tt)
              (process_unattached-Logged n row new_id))
          skip-Logged

-- Whatever the robot, the database and the coordinator's other tasks do while a failure is processed,
-- and however that ends: the commands sent to the robot are, claim by claim in the order of the
-- claims, nothing or, for a claim that returned a row, a first part of a plan's corrections and guarded
-- continuation; that plan was read from the actions that this row has pinned, and it passed the checks
-- against that row's session and a Flow pointer. So nothing is sent without a claim that returned, and
-- no claim sends twice.
pub process_failure-Logged :
    (py : Runtime) (ctl : Control) (n : ℕ) (failure_id new_id : String) (r : Run ctl.out.World)
    → Logged py r (process_failure py ctl n failure_id new_id r).1
unfolding process_failure
process_failure-Logged py ctl n failure_id new_id =
    Keeps-if logged.order _ _ _
      (Keeps-bind logged.order _ _ (Quiet-database py ctl logged)
        λ _. Keeps-bind logged.order _ _ (Quiet-call py ctl logged _) at)
      (Keeps-pure logged.order tt)
  where
    logged : Blind {W = ctl.out.World} (Logged py)
    logged = Logged-Blind py

    at :
        (x : Option Fields)
        → Keeps (Logged py) (elim x as (λ _. Act ctl Done) [
          | none ↦ skip py ctl
          | some row ↦ process_row py ctl n row new_id
        ])
    at none = skip-Logged py ctl
    at (some row) = process_row-Logged py ctl n row new_id
