-- ===== src/Recovery/Coordinator/Claimed.antt =====
-- What one round of the attempts sends for its claim.
use failure_resolver.Prelude.{
  ◌≡◌, refl, ◌∙◌, ◌+◌, [], ◌∷◌, ◌++◌, String, true, Option-cases, Bool-cases, inl, inr, ==→eq,
}
use failure_resolver.Json.{Fields, get}
use failure_resolver.Errors.{Error, Result, ok, err, Done, is_contract, assertion}
use failure_resolver.Errors
use failure_resolver.Runtime.{Runtime}
use failure_resolver.Robot.Pointer.{FlowPointer}
use failure_resolver.Recovery.Inputs.{uuid_text}
use failure_resolver.Recovery.Session.{SessionRecord, parse_recovery_session}
use failure_resolver.Recovery.Checks.{validate_plan_for_flow}
use failure_resolver.Recovery.Plan.Continuation.{RecoveryPlan}
use failure_resolver.Recovery.Outcome.{Outcome}
use failure_resolver.Recovery.Attempt.{
  count, Attempted, Detail, settled, unclassified, execute_attempt, finish, finish_unknown, request,
  wait_for_flow,
}
use failure_resolver.Recovery.Attempt.Monad.{Run, continue, ◌>>=◌, ◌>>◌}
use failure_resolver.Recovery.Attempt.Rules.{Post, returned, raised}
use failure_resolver.Recovery.Attempt.Settled.{Ended, Sends, execute_attempt-Ended}
use failure_resolver.Recovery.Attempt.Stable.{
  Keeps, Order, Stable, Sequel, bind-Keeps, lift-Keeps, if-Keeps, Keeps-pure, Keeps-raise,
  Keeps-bind, Keeps-if, Keeps-finish_unknown, execute_attempt-Keeps,
}
use failure_resolver.Recovery.Coordinator.{Control, claim, logged_claim, ClaimCall, finish_at}
use failure_resolver.Recovery.Coordinator.Quiet.{Quiet-count, Quiet-read}
use failure_resolver.Recovery.Coordinator.Attempts.{
  Next, over, close_malformed, still_live, next_of, dispatch_claimed, run_claimed, read_claim,
  claim_round,
}
use failure_resolver.Recovery.Coordinator.Log.{
  Checked, Logged, Silent, Silent-Blind, Once, nothing, part, Silent-Once, Once-Silent,
  Claims→Logged, Claims-Once,
}

then-ok : (m k : Result Done) → Errors.◌>>◌ m k ≡ ok tt → m ≡ ok tt
unfolding Errors.◌>>=◌
then-ok (ok u) k h = refl
then-ok (err e) k h = cc

module _ (py : Runtime) (ctl : Control) where
  abbrev W : Type 0
  W = ctl.out.World

  silent : Order {W = W} Silent
  silent = Silent-Blind.order

  Silent-finish_unknown :
      (claimed : SessionRecord) (failure_id : String)
      → Keeps Silent (finish_unknown py ctl.out claimed failure_id)
  unfolding finish
  Silent-finish_unknown =
      Keeps-finish_unknown py ctl.out silent
        λ claimed failure_id token result r. record { claims = refl; sent = refl }

  SameClaims : Run W → Run W → Type 0
  SameClaims r r' = r'.claims ≡ r.claims

  SameClaims-Stable : Stable py ctl.out SameClaims
  unfolding finish wait_for_flow request SameClaims
  SameClaims-Stable = record {
    order = record { none = λ r. refl; both = λ h k. k ∙ h; counted = λ r s. refl };
    begun = λ r. refl;
    requested = λ name arguments r. refl;
    finished = λ claimed failure_id token result r. refl;
    waited = λ claimed generation revision r. refl;
  }

  Post-Sends :
      {plan : RecoveryPlan} {p : FlowPointer} {r : Run W} {x : Result Attempted × Run W}
      → Post (Ended plan p r) (λ _ r'. Sends plan p r r') x
      → Sends plan p r x.1
  Post-Sends (returned h) = h.in_order
  Post-Sends (raised h) = h

  execute_attempt-Once :
      {row : Fields} (claimed : SessionRecord) (failure_id : String) (plan : RecoveryPlan)
      (p : FlowPointer)
      → Checked py row plan p
      → Keeps (Once py row) (execute_attempt py ctl.out claimed failure_id plan p)
  unfolding execute_attempt SameClaims
  execute_attempt-Once claimed failure_id plan p c r =
      elim (Option-cases claimed.recovery_run_token) [
        | inl no_token ↦ rw (no_token, execute_attempt) (nothing (Silent-Blind.order.none r))
        | inr (token, there) ↦
            part plan p c
              (execute_attempt-Keeps py ctl.out SameClaims-Stable claimed failure_id plan p r)
              (Post-Sends
                (execute_attempt-Ended py ctl.out claimed failure_id token there plan p r))
      ]

  Once-then : {row : Fields} → Sequel {W = W} (Once py row) Silent (Once py row)
  Once-then = record { alone = λ h. h; both = Once-Silent py }

  then-Once : {row : Fields} → Sequel {W = W} Silent (Once py row) (Once py row)
  then-Once = record { alone = nothing; both = Silent-Once py }

  next_of-Silent :
      (claimed : SessionRecord) (a : Attempted) → Keeps Silent (next_of py ctl claimed a)
  unfolding next_of
  next_of-Silent claimed (Outcome.failed, settled finished) =
      Keeps-if silent _ _ _
        (Keeps-bind silent _ _ (Quiet-read py ctl Silent-Blind _) λ v. Keeps-pure silent _)
        (Keeps-pure silent over)
  next_of-Silent claimed (Outcome.failed, unclassified flow) = Keeps-raise silent Next assertion
  next_of-Silent claimed (Outcome.failed, Detail.nothing) = Keeps-raise silent Next assertion
  next_of-Silent claimed (Outcome.recovered, d) = Keeps-pure silent over
  next_of-Silent claimed (Outcome.unknown, d) = Keeps-pure silent over

  close_malformed-Silent :
      (e : Error) (session_id failure_id : String) (row : Fields)
      → Keeps Silent (close_malformed py ctl e session_id failure_id row)
  unfolding close_malformed finish_at
  close_malformed-Silent e session_id failure_id row =
      elim (Option-cases (uuid_text py (get "recovery_run_token" row))) [
        | inl no_token ↦ rw (no_token, close_malformed) (Keeps-raise silent Done e)
        | inr (token, there) ↦
            rw (there, close_malformed)
              (Keeps-if silent _ _ _
                (Keeps-bind silent _ _ (λ r. record { claims = refl; sent = refl })
                  λ _. Quiet-count py ctl Silent-Blind _)
                (Keeps-raise silent Done e))
      ]

  dispatch_claimed-Once :
      {row : Fields} (claimed : SessionRecord) (failure_id : String) (plan : RecoveryPlan)
      (p : FlowPointer) (x : Result Done)
      → (x ≡ ok tt → Checked py row plan p)
      → Keeps (Once py row) (dispatch_claimed py ctl claimed failure_id plan p x)
  unfolding dispatch_claimed
  dispatch_claimed-Once claimed failure_id plan p (ok u) c =
      bind-Keeps Once-then _ _ (execute_attempt-Once claimed failure_id plan p (c refl))
        λ a. next_of-Silent claimed a
  dispatch_claimed-Once claimed failure_id plan p (err e) c = λ r.
      elim (Bool-cases (is_contract e)) [
        | inl broken ↦
            rw (broken, dispatch_claimed)
              (nothing (
                Keeps-bind silent _ _ (Silent-finish_unknown claimed failure_id)
                  (λ _. Keeps-pure silent over) r))
        | inr serious ↦ rw (serious, dispatch_claimed) (nothing (Keeps-raise silent Next e r))
      ]

  live-Once :
      {row : Fields} (claimed : SessionRecord) (failure_id : String) (plan : RecoveryPlan)
      (p : FlowPointer)
      → (validate_plan_for_flow plan p ≡ ok tt → Checked py row plan p)
      → Keeps (Once py row) (
          still_live py ctl plan p >>= λ live.
          dispatch_claimed py ctl claimed failure_id plan p live)
  unfolding still_live ◌>>=◌ continue
  live-Once claimed failure_id plan p c r =
      dispatch_claimed-Once claimed failure_id plan p _ (λ e. c (then-ok _ _ e)) r

  run_claimed-Once :
      (row : Fields) (claimed : SessionRecord) (failure_id : String) (p : FlowPointer)
      → parse_recovery_session py row true ≡ ok claimed
      → Keeps (Once py row) (run_claimed py ctl claimed failure_id p)
  unfolding run_claimed
  run_claimed-Once row claimed failure_id p read =
      bind-Keeps then-Once _ _ (Quiet-count py ctl Silent-Blind _) λ _.
        lift-Keeps (Once py row) (λ r. nothing (silent.none r)) _ _
          λ plan pinned.
            if-Keeps (Once py row) _ _ _
              (λ same_steps.
                lift-Keeps (Once py row) (λ r. nothing (silent.none r)) _ _
                  λ _ for_session. live-Once claimed failure_id plan p λ for_flow. record {
                    claimed = claimed;
                    read = read;
                    pinned = pinned;
                    rewind = ==→eq plan.rewind_steps claimed.recovery_rewind_steps same_steps;
                    for_session = for_session;
                    for_flow = for_flow;
                  })
              (λ _.
                bind-Keeps Once-then _ _ (λ r. nothing (Silent-finish_unknown claimed failure_id r))
                  λ _. Keeps-pure silent over)

  read_claim-Once :
      (session_id failure_id : String) (p : FlowPointer) (row : Fields) (x : Result SessionRecord)
      → parse_recovery_session py row true ≡ x
      → Keeps (Once py row) (read_claim py ctl session_id failure_id p row x)
  unfolding read_claim
  read_claim-Once session_id failure_id p row (ok claimed) e =
      run_claimed-Once row claimed failure_id p e
  read_claim-Once session_id failure_id p row (err d) e = λ r. elim (Bool-cases (is_contract d)) [
    | inl broken ↦
        rw (broken, read_claim)
          (nothing (
            Keeps-bind silent _ _ (close_malformed-Silent d session_id failure_id row)
              (λ _. Keeps-pure silent over) r))
    | inr serious ↦ rw (serious, read_claim) (nothing (Keeps-raise silent Next d r))
  ]

  -- What follows a claim that returned a row.
  after_claim-Once :
      (session_id failure_id : String) (p : FlowPointer) (row : Fields)
      → Keeps (Once py row) (
          count py ctl.out (λ s. record s { attempts_claimed = s.attempts_claimed + 1 })
          >> read_claim py ctl session_id failure_id p row (parse_recovery_session py row true))
  after_claim-Once session_id failure_id p row =
      bind-Keeps then-Once _ _ (Quiet-count py ctl Silent-Blind _)
        λ _. read_claim-Once session_id failure_id p row _ refl

  pub claim_round-Logged :
      (session_id : String) (p : FlowPointer) (failure_id : String)
      → Keeps (Logged py) (claim_round py ctl session_id p failure_id)
  unfolding claim_round claim ◌>>=◌ continue
  claim_round-Logged session_id p failure_id r = at (ctl.claim call r.world).0
    where
      call : ClaimCall
      call = record {
        failure_id = failure_id;
        recovery_session_id = session_id;
        lease_seconds = ctl.settings.lease_seconds;
      }

      at :
          (x : Result Fields)
          → Logged py r
              (continue x
                (λ row.
                  count py ctl.out (λ s. record s { attempts_claimed = s.attempts_claimed + 1 })
                  >> read_claim py ctl session_id failure_id p row
                      (parse_recovery_session py row true))
                (record r {
                  world = (ctl.claim call r.world).1;
                  claims = r.claims ++ logged_claim call x ∷ [];
                })).1
      at (ok row) =
          Claims-Once py refl (record { claims = refl; sent = refl })
            (after_claim-Once session_id failure_id p row _)
      at (err e) = Claims→Logged py (record { claims = refl; sent = refl })
