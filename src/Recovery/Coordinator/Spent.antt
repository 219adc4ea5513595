-- ===== src/Recovery/Coordinator/Spent.antt =====
-- What one round keeps of a run behind its claim, and that it spends one attempt.
use failure_resolver.Prelude.{String, Option-cases, inl, inr}
use failure_resolver.Json.{Fields, get}
use failure_resolver.Errors.{Error, Result, ok, err, Done, assertion}
use failure_resolver.Runtime.{Runtime}
use failure_resolver.Robot.Pointer.{FlowPointer}
use failure_resolver.Recovery.Inputs.{uuid_text}
use failure_resolver.Recovery.Session.{SessionRecord}
use failure_resolver.Recovery.Plan.Continuation.{RecoveryPlan}
use failure_resolver.Recovery.Outcome.{Outcome}
use failure_resolver.Recovery.Attempt.{
  FinishCall, Attempted, Detail, settled, unclassified, finish_unknown,
}
use failure_resolver.Recovery.Attempt.Monad.{Run, pure, ◌>>◌}
use failure_resolver.Recovery.Attempt.Stable.{
  Keeps, Order, Stable, Keeps-pure, Keeps-lift, Keeps-raise, Keeps-bind, Keeps-if, Keeps-count,
  Keeps-finish_unknown, execute_attempt-Keeps,
}
use failure_resolver.Recovery.Coordinator.{Control, read, finish_at}
use failure_resolver.Recovery.Coordinator.Attempts.{
  Next, over, close_malformed, still_live, next_of, dispatch_claimed, run_claimed, read_claim,
}

module _ (py : Runtime) (ctl : Control) where
  abbrev W : Type 0
  W = ctl.out.World

  module _ {R : Run W → Run W → Type 0} (st : Stable py ctl.out R)
      (closes : (c : FinishCall) → Keeps R (finish_at ctl c)) where
    o : Order R
    o = st.order

    next_of-Keeps : (claimed : SessionRecord) (a : Attempted) → Keeps R (next_of py ctl claimed a)
    unfolding next_of read
    next_of-Keeps claimed (Outcome.failed, settled finished) =
        Keeps-if o _ _ _ (Keeps-bind o _ _ (λ r. o.none r) λ v. Keeps-pure o _) (Keeps-pure o over)
    next_of-Keeps claimed (Outcome.failed, unclassified flow) = Keeps-raise o Next assertion
    next_of-Keeps claimed (Outcome.failed, Detail.nothing) = Keeps-raise o Next assertion
    next_of-Keeps claimed (Outcome.recovered, d) = Keeps-pure o over
    next_of-Keeps claimed (Outcome.unknown, d) = Keeps-pure o over

    unknown-Keeps :
        (claimed : SessionRecord) (failure_id : String)
        → Keeps R (finish_unknown py ctl.out claimed failure_id >> pure over)
    unknown-Keeps claimed failure_id =
        Keeps-bind o _ _ (Keeps-finish_unknown py ctl.out o st.finished claimed failure_id)
          λ _. Keeps-pure o over

    dispatch_claimed-Keeps :
        (claimed : SessionRecord) (failure_id : String) (plan : RecoveryPlan) (p : FlowPointer)
        (x : Result Done)
        → Keeps R (dispatch_claimed py ctl claimed failure_id plan p x)
    unfolding dispatch_claimed
    dispatch_claimed-Keeps claimed failure_id plan p (ok live) =
        Keeps-bind o _ _ (execute_attempt-Keeps py ctl.out st claimed failure_id plan p)
          λ a. next_of-Keeps claimed a
    dispatch_claimed-Keeps claimed failure_id plan p (err e) =
        Keeps-if o _ _ _ (unknown-Keeps claimed failure_id) (Keeps-raise o Next e)

    run_claimed-Keeps :
        (claimed : SessionRecord) (failure_id : String) (p : FlowPointer)
        → Keeps R (run_claimed py ctl claimed failure_id p)
    unfolding run_claimed still_live
    run_claimed-Keeps claimed failure_id p = Keeps-bind o _ _ (Keeps-count py ctl.out o _) λ _.
        Keeps-bind o _ _ (Keeps-lift o _) λ plan.
          Keeps-if o _ _ _
            (Keeps-bind o _ _ (Keeps-lift o _) λ _.
              Keeps-bind o _ _ (λ r. o.none r)
                λ live. dispatch_claimed-Keeps claimed failure_id plan p live)
            (unknown-Keeps claimed failure_id)

    close_malformed-Keeps :
        (e : Error) (session_id failure_id : String) (row : Fields)
        → Keeps R (close_malformed py ctl e session_id failure_id row)
    unfolding close_malformed
    close_malformed-Keeps e session_id failure_id row =
        elim (Option-cases (uuid_text py (get "recovery_run_token" row))) [
          | inl no_token ↦ rw (no_token, close_malformed) (Keeps-raise o Done e)
          | inr (token, there) ↦
              rw (there, close_malformed)
                (Keeps-if o _ _ _ (Keeps-bind o _ _ (closes _) λ _. Keeps-count py ctl.out o _)
                  (Keeps-raise o Done e))
        ]

    pub read_claim-Keeps :
        (session_id failure_id : String) (p : FlowPointer) (row : Fields) (x : Result SessionRecord)
        → Keeps R (read_claim py ctl session_id failure_id p row x)
    unfolding read_claim
    read_claim-Keeps session_id failure_id p row (ok claimed) =
        run_claimed-Keeps claimed failure_id p
    read_claim-Keeps session_id failure_id p row (err e) =
        Keeps-if o _ _ _
          (Keeps-bind o _ _ (close_malformed-Keeps e session_id failure_id row)
            λ _. Keeps-pure o over)
          (Keeps-raise o Next e)
