-- ===== src/Recovery/Coordinator/Quiet.antt =====
-- What the coordinator keeps of a run up to the first claim, for a relation that does not look at the
-- world: it sends nothing and claims nothing there.
use failure_resolver.Prelude.{String, true, false, Option-cases, inl, inr}
use failure_resolver.Errors.{Result}
use failure_resolver.Runtime.{Runtime}
use failure_resolver.Robot.Pointer.{FlowPointer}
use failure_resolver.Recovery.Target.{PointerTarget, RecoveryTarget}
use failure_resolver.Recovery.Session.{SessionRecord}
use failure_resolver.Recovery.Plan.Continuation.{RecoveryPlan}
use failure_resolver.Recovery.Attempt.{count, require_live, required_database}
use failure_resolver.Recovery.Attempt.Monad.{Stats, Run, modify}
use failure_resolver.Recovery.Attempt.Stable.{
  Keeps, Order, Keeps-pure, Keeps-lift, Keeps-bind, Keeps-if,
}
use failure_resolver.Recovery.Coordinator.{Control, call, read, update_actives, Actives}
use failure_resolver.Recovery.Coordinator.Prepare.{
  fresh_paused_pointer, prepared_session, check_prepared, grace_over,
}

-- The relation does not look at the world.
pub record Blind {W : Type 0} (R : Run W → Run W → Type 0) : Type 0 where
  pub order : Order R
  pub moved : (r : Run W) (w : W) → R r (record r { world = w })

module _ (py : Runtime) (ctl : Control) {R : Run ctl.out.World → Run ctl.out.World → Type 0}
    (q : Blind R) where
  o : Order R
  o = q.order

  pub Quiet-count : (f : Stats → Stats) → Keeps R (count py ctl.out f)
  unfolding count modify
  Quiet-count f r = o.counted r (f r.stats)

  pub Quiet-live :
      (plan : RecoveryPlan) (p : FlowPointer) → Keeps R (require_live py ctl.out plan p)
  unfolding require_live
  Quiet-live plan p r = o.none r

  pub Quiet-database : Keeps R (required_database py ctl.out)
  unfolding required_database
  Quiet-database r = o.none r

  pub Quiet-read : {A : Type 0} (f : ctl.out.World → A) → Keeps R (read ctl f)
  unfolding read
  Quiet-read f r = o.none r

  pub Quiet-call :
      {A : Type 0} (f : ctl.out.World → Result A × ctl.out.World) → Keeps R (call ctl f)
  unfolding call
  Quiet-call f r = q.moved r _

  pub Quiet-actives : (f : Actives → Actives) → Keeps R (update_actives ctl f)
  unfolding update_actives
  Quiet-actives f r = q.moved r _

  pub Quiet-fresh_paused_pointer :
      (target : PointerTarget) → Keeps R (fresh_paused_pointer py ctl target)
  unfolding fresh_paused_pointer
  Quiet-fresh_paused_pointer target = Keeps-bind o _ _ (Quiet-call ctl.wait_connected) λ _.
      Keeps-bind o _ _ (Quiet-read ctl.out.view) λ v.
        Keeps-if o _ _ _ (Keeps-lift o _) (Keeps-bind o _ _ (Quiet-call _) λ found. Keeps-lift o _)

  pub Quiet-prepared_session :
      (target : RecoveryTarget) (p : FlowPointer) (new_id : String)
      → Keeps R (prepared_session py ctl target p new_id)
  unfolding prepared_session
  Quiet-prepared_session target p new_id = elim (Option-cases target.recovery_session_id) [
    | inl unnamed ↦
        rw (unnamed, prepared_session)
          (Keeps-bind o _ _ (Keeps-lift o _) λ plan. Keeps-bind o _ _ (Quiet-live plan p) λ _.
            Keeps-bind o _ _ (Quiet-call _) λ row.
              Keeps-bind o _ _ (Keeps-lift o _)
                λ prepared. Keeps-bind o _ _ (Quiet-count _) λ _. Keeps-pure o prepared)
    | inr (id, named) ↦
        rw (named, prepared_session) (Keeps-bind o _ _ (Quiet-call _) λ row. Keeps-lift o _)
  ]

  pub Quiet-check_prepared :
      (target : RecoveryTarget) (prepared : SessionRecord) (p : FlowPointer)
      → Keeps R (check_prepared py ctl target prepared p)
  unfolding check_prepared
  Quiet-check_prepared target prepared p = Keeps-bind o _ _ (Keeps-lift o _) λ _.
      Keeps-bind o _ _ (Keeps-lift o _) λ plan. Keeps-bind o _ _ (Keeps-lift o _) λ _.
        Keeps-bind o _ _ (Quiet-live plan p)
          λ _. Keeps-bind o _ _ (Keeps-lift o _) λ _. Keeps-pure o plan

  pub Quiet-grace_over : (session_id : String) → Keeps R (grace_over py ctl session_id)
  unfolding grace_over
  Quiet-grace_over session_id =
      Keeps-if o _ _ _
        (Keeps-bind o _ _ (Quiet-call _) λ _. Keeps-bind o _ _ (Quiet-read _) λ stopped.
          Keeps-if o _ _ _ (Keeps-pure o false) (
            Keeps-bind o _ _ (Quiet-call _) λ row. Keeps-bind o _ _ (Keeps-lift o _) λ graced.
              Keeps-if o _ _ _ (Keeps-pure o true)
                (Keeps-bind o _ _ (Quiet-count _) λ _. Keeps-pure o false)))
        (Keeps-pure o true)
