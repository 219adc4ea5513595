-- ===== src/Recovery/Attempt/Stable.antt =====
-- What an attempt keeps of a run: a relation of the run before to the run after, which every call
-- and every change of the counters respects.
use failure_resolver.Prelude.{
  ℕ, ◌≡◌, refl, String, Bool, true, false, Option, List, [], ◌∷◌, Option-cases, inl, inr,
  Bool-cases, if◌then◌else◌,
}
use failure_resolver.Json.{Fields}
use failure_resolver.Errors.{
  Error, contract, non_executable, live_state_changed, database_unavailable, not_sent, rejected,
  outcome_unknown, timeout, cancelled, value_error, type_error, assertion, other, Result, ok, err,
}
use failure_resolver.Runtime.{Runtime}
use failure_resolver.Robot.Pointer.{FlowPointer}
use failure_resolver.Recovery.Session.{SessionRecord}
use failure_resolver.Recovery.Plan.Action.{RecoveryAction}
use failure_resolver.Recovery.Plan.Continuation.{RecoveryPlan}
use failure_resolver.Recovery.Outcome.{Outcome}
use failure_resolver.Recovery.Attempt.Monad.{
  Finish, unknown, Stats, Run, M, pure, lift, raise, modify, continue, ◌>>=◌,
}
use failure_resolver.Recovery.Attempt.{
  Outside, Attempted, require_live, request, finish, wait_for_flow, count, dispatch_correction,
  dispatch_corrections, continue_flow, required_database, finish_unknown, record_failed, settle,
  attempt, is_ambiguous, give_up, interrupted, handle, execute_attempt,
}

-- Every end of `m`, returned or raised, is related to its begin.
abbrev pub Keeps : {W A : Type 0} → (Run W → Run W → Type 0) → M W A → Type 0
Keeps {W} R m = (r : Run W) → R r (m r).1

-- A relation that holds of no change, of two changes in turn, and of a change of the counters.
pub record Order {W : Type 0} (R : Run W → Run W → Type 0) : Type 0 where
  pub none : (r : Run W) → R r r
  pub both : {r r' r'' : Run W} → R r r' → R r' r'' → R r r''
  pub counted : (r : Run W) (s : Stats) → R r (record r { stats = s })

-- A change that keeps `R₁`, alone or with one behind it that keeps `R₂`, keeps `R₃`.
pub record Sequel {W : Type 0} (R₁ R₂ R₃ : Run W → Run W → Type 0) : Type 0 where
  pub alone : {r r' : Run W} → R₁ r r' → R₃ r r'
  pub both : {r r' r'' : Run W} → R₁ r r' → R₂ r' r'' → R₃ r r''

-- The rule for a `do` block whose first line keeps one relation and whose rest keeps another.
module _ {W A B : Type 0} {R₁ R₂ R₃ : Run W → Run W → Type 0} (sq : Sequel R₁ R₂ R₃) where
  continue-Keeps :
      (x : Result A) (f : A → M W B) (r r' : Run W)
      → R₁ r r'
      → ((a : A) → Keeps R₂ (f a))
      → R₃ r (continue x f r').1
  unfolding continue
  continue-Keeps (ok a) f r r' h k = sq.both h (k a r')
  continue-Keeps (err e) f r r' h k = sq.alone h

  pub bind-Keeps :
      (m : M W A) (f : A → M W B) → Keeps R₁ m → ((a : A) → Keeps R₂ (f a)) → Keeps R₃ (m >>= f)
  unfolding ◌>>=◌
  bind-Keeps m f h k r = continue-Keeps (m r).0 f r (m r).1 (h r) k

-- What a lifted result returns is known to what follows.
pub lift-Keeps :
    {W A B : Type 0} (R : Run W → Run W → Type 0) (same : (r : Run W) → R r r) (x : Result A)
    (f : A → M W B)
    → ((a : A) → x ≡ ok a → Keeps R (f a))
    → Keeps R (lift x >>= f)
unfolding ◌>>=◌ lift continue
lift-Keeps R same (ok a) f k r = k a refl r
lift-Keeps R same (err e) f k r = same r

-- A test is known to its branches.
pub if-Keeps :
    {W A : Type 0} (R : Run W → Run W → Type 0) (b : Bool) (m k : M W A)
    → (b ≡ true → Keeps R m)
    → (b ≡ false → Keeps R k)
    → Keeps R (if b then m else k)
if-Keeps R true m k h h' = h refl
if-Keeps R false m k h h' = h' refl

module _ {W : Type 0} {R : Run W → Run W → Type 0} (o : Order R) where
  module _ {A : Type 0} where
    pub Keeps-pure : (a : A) → Keeps R (pure a)
    unfolding pure
    Keeps-pure a r = o.none r

    pub Keeps-lift : (x : Result A) → Keeps R (lift x)
    unfolding lift
    Keeps-lift x r = o.none r

  pub Keeps-raise : (A : Type 0) (e : Error) → Keeps {A = A} R (raise e)
  unfolding raise
  Keeps-raise A e r = o.none r

  pub Keeps-bind :
      {A B : Type 0} (m : M W A) (f : A → M W B)
      → Keeps R m
      → ((a : A) → Keeps R (f a))
      → Keeps R (m >>= f)
  Keeps-bind = bind-Keeps (record { alone = λ h. h; both = o.both })

  pub Keeps-if :
      {A : Type 0} (b : Bool) (m k : M W A) → Keeps R m → Keeps R k → Keeps R (if b then m else k)
  Keeps-if true m k h h' = h
  Keeps-if false m k h h' = h'

module _ (py : Runtime) (out : Outside) where
  open out use {World}

  -- The calls of an attempt respect the relation.
  pub record Stable (R : Run World → Run World → Type 0) : Type 0 where
    pub order : Order R
    pub begun : (r : Run World) → R r (record r { dispatched = false })
    pub requested : (name : String) (arguments : Fields) → Keeps R (request py out name arguments)
    pub finished :
        (claimed : SessionRecord) (failure_id token : String) (result : Finish)
        → Keeps R (finish py out claimed failure_id token result)
    pub waited :
        (claimed : SessionRecord) (generation revision : ℕ)
        → Keeps R (wait_for_flow py out claimed generation revision)

  module _ {R : Run World → Run World → Type 0} (o : Order R) where
    pub Keeps-count : (f : Stats → Stats) → Keeps R (count py out f)
    unfolding count modify
    Keeps-count f r = o.counted r (f r.stats)

    pub Keeps-live : (plan : RecoveryPlan) (p : FlowPointer) → Keeps R (require_live py out plan p)
    unfolding require_live
    Keeps-live plan p r = o.none r

    pub Keeps-database : Keeps R (required_database py out)
    unfolding required_database
    Keeps-database r = o.none r

    pub Keeps-finish_unknown :
        ((claimed : SessionRecord) (failure_id token : String) (result : Finish)
          → Keeps R (finish py out claimed failure_id token result))
        → (claimed : SessionRecord) (failure_id : String)
        → Keeps R (finish_unknown py out claimed failure_id)
    unfolding finish_unknown
    Keeps-finish_unknown finished claimed failure_id =
        elim (Option-cases claimed.recovery_run_token) [
          | inl no_token ↦ rw (no_token, finish_unknown) (Keeps-pure o tt)
          | inr (token, there) ↦
              rw (there, finish_unknown)
                (Keeps-bind o _ _ Keeps-database λ _.
                  Keeps-bind o _ _ (finished claimed failure_id token unknown) λ _. Keeps-count _)
        ]

  module _ {R : Run World → Run World → Type 0} (st : Stable R) where
    o : Order R
    o = st.order

    Keeps-correction :
        (plan : RecoveryPlan) (p : FlowPointer) (a : RecoveryAction)
        → Keeps R (dispatch_correction py out plan p a)
    unfolding dispatch_correction
    Keeps-correction plan p a = Keeps-bind o _ _ (Keeps-live o plan p) λ _.
        Keeps-bind o _ _ (st.requested a.command a.arguments)
          λ receipt. Keeps-bind o _ _ (Keeps-lift o _) λ _. Keeps-count o _

    Keeps-corrections :
        (plan : RecoveryPlan) (p : FlowPointer) (actions : List RecoveryAction)
        → Keeps R (dispatch_corrections py out plan p actions)
    unfolding dispatch_corrections
    Keeps-corrections plan p [] = Keeps-pure o tt
    Keeps-corrections plan p (a ∷ actions) =
        Keeps-bind o _ _ (Keeps-correction plan p a) λ _. Keeps-corrections plan p actions

    Keeps-continue : (plan : RecoveryPlan) (p : FlowPointer) → Keeps R (continue_flow py out plan p)
    unfolding continue_flow
    Keeps-continue plan p = Keeps-bind o _ _ (Keeps-live o plan p) λ _.
        Keeps-bind o _ _ (Keeps-lift o _) λ arguments.
          Keeps-bind o _ _ (st.requested "$resume_flow" arguments) λ receipt.
            Keeps-bind o _ _ (Keeps-lift o _) λ _.
              Keeps-bind o _ _ (Keeps-lift o _)
                λ _. Keeps-bind o _ _ (Keeps-count o _) λ _. Keeps-pure o receipt

    Keeps-settle :
        (claimed : SessionRecord) (failure_id token : String) (flow : Option FlowPointer)
        (x : Outcome)
        → Keeps R (settle py out claimed failure_id token flow x)
    unfolding settle record_failed
    Keeps-settle claimed failure_id token flow Outcome.recovered =
        Keeps-bind o _ _ (st.finished claimed failure_id token _) λ row.
          Keeps-bind o _ _ (Keeps-lift o _)
            λ s. Keeps-bind o _ _ (Keeps-count o _) λ _. Keeps-pure o _
    Keeps-settle claimed failure_id token flow Outcome.failed =
        Keeps-bind o _ _ (st.finished claimed failure_id token _) λ row.
          Keeps-bind o _ _ (Keeps-lift o _)
            λ s. Keeps-bind o _ _ (Keeps-count o _) λ _. Keeps-pure o _
    Keeps-settle claimed failure_id token flow Outcome.unknown =
        Keeps-bind o _ _ (Keeps-finish_unknown o st.finished claimed failure_id) λ _. Keeps-pure o _

    Keeps-attempt :
        (claimed : SessionRecord) (failure_id token : String) (plan : RecoveryPlan)
        (p : FlowPointer)
        → Keeps R (attempt py out claimed failure_id token plan p)
    unfolding attempt
    Keeps-attempt claimed failure_id token plan p =
        Keeps-bind o _ _ (Keeps-corrections plan p plan.corrections) λ _.
          Keeps-bind o _ _ (Keeps-continue plan p) λ receipt.
            Keeps-bind o _ _ (st.finished claimed failure_id token _) λ _.
              Keeps-bind o _ _ (st.waited claimed p.generation _)
                λ flow. Keeps-settle claimed failure_id token flow _

    Keeps-give_up :
        (claimed : SessionRecord) (failure_id : String) (e : Error)
        → Keeps R (give_up py out claimed failure_id e)
    unfolding give_up
    Keeps-give_up claimed failure_id e =
        Keeps-bind o _ _ (Keeps-finish_unknown o st.finished claimed failure_id)
          λ _. Keeps-bind o _ _ (Keeps-count o _) λ _. Keeps-pure o _

    Keeps-interrupted :
        (claimed : SessionRecord) (failure_id : String)
        → Keeps R (interrupted py out claimed failure_id)
    unfolding interrupted
    Keeps-interrupted claimed failure_id r = elim (Bool-cases r.dispatched) [
      | inl sent ↦
          simp (sent, interrupted) (Keeps-finish_unknown o st.finished claimed failure_id r)
      | inr unsent ↦ simp (unsent, interrupted) (o.none r)
    ]

    Keeps-handle :
        (claimed : SessionRecord) (failure_id : String) (x : Result Attempted)
        → Keeps R (handle py out claimed failure_id x)
    unfolding handle is_ambiguous
    Keeps-handle claimed failure_id (ok a) = Keeps-pure o a
    Keeps-handle claimed failure_id (err cancelled) = Keeps-interrupted claimed failure_id
    Keeps-handle claimed failure_id (err not_sent) = Keeps-give_up claimed failure_id not_sent
    Keeps-handle claimed failure_id (err outcome_unknown) =
        Keeps-give_up claimed failure_id outcome_unknown
    Keeps-handle claimed failure_id (err timeout) = Keeps-give_up claimed failure_id timeout
    Keeps-handle claimed failure_id (err rejected) = Keeps-give_up claimed failure_id rejected
    Keeps-handle claimed failure_id (err contract) = Keeps-give_up claimed failure_id contract
    Keeps-handle claimed failure_id (err non_executable) =
        Keeps-give_up claimed failure_id non_executable
    Keeps-handle claimed failure_id (err live_state_changed) =
        Keeps-give_up claimed failure_id live_state_changed
    Keeps-handle claimed failure_id (err database_unavailable) =
        Keeps-raise o Attempted database_unavailable
    Keeps-handle claimed failure_id (err value_error) = Keeps-raise o Attempted value_error
    Keeps-handle claimed failure_id (err type_error) = Keeps-raise o Attempted type_error
    Keeps-handle claimed failure_id (err assertion) = Keeps-raise o Attempted assertion
    Keeps-handle claimed failure_id (err other) = Keeps-raise o Attempted other

    pub execute_attempt-Keeps :
        (claimed : SessionRecord) (failure_id : String) (plan : RecoveryPlan) (p : FlowPointer)
        → Keeps R (execute_attempt py out claimed failure_id plan p)
    unfolding execute_attempt
    execute_attempt-Keeps claimed failure_id plan p r =
        elim (Option-cases claimed.recovery_run_token) [
          | inl no_token ↦ rw (no_token, execute_attempt) (o.none r)
          | inr (token, there) ↦
              rw (there, execute_attempt)
                (o.both (st.begun r) (
                  o.both
                    (Keeps-attempt claimed failure_id token plan p
                      (record r { dispatched = false }))
                    (Keeps-handle claimed failure_id _ _)))
        ]
