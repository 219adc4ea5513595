-- ===== src/Recovery/Attempt/Settled.antt =====
-- How an attempt ends: what was sent, and the result that the database was given.
use mathlib.Core.Path.{subst}
use failure_resolver.Prelude.{
  Option, ◌≡◌, ◌≢◌, refl, sym, ap, ◌∙◌, String, Bool, true, false, some, List, [], ◌∷◌, ◌++◌,
  append-nil, append_assoc, if◌then◌else◌, ◌⊎◌, inl, inr,
}
use failure_resolver.Errors.{
  Error, contract, non_executable, live_state_changed, database_unavailable, not_sent, rejected,
  outcome_unknown, timeout, cancelled, value_error, type_error, assertion, other, Result, err, Done,
}
use failure_resolver.Runtime.{Runtime}
use failure_resolver.Robot.Pointer.{FlowPointer}
use failure_resolver.Recovery.Session.{SessionRecord}
use failure_resolver.Recovery.Plan.Continuation.{RecoveryPlan}
use failure_resolver.Recovery.Resume.{resume_arguments_for_plan}
use failure_resolver.Recovery.Outcome.{Outcome, classify_flow_outcome}
use failure_resolver.Recovery.Attempt.Monad.{
  Finish, awaiting_outcome, unknown, Command, Run, pure, raise, ◌>>=◌, ◌>>◌,
}
use failure_resolver.Recovery.Attempt.Rules.{
  Post, returned, raised, Extends, Wrote, EmitsBy, EmitsBy-bind, any-Post, both-Post, bind-Post,
  weaken-Post,
}
use failure_resolver.Recovery.Attempt.Sent.{
  planned, resume_of, finish_of, Emits-corrections, Emits-continue, Emits-finish, Emits-wait,
  Emits-finish_unknown, Emits-settle, Emits-count,
}
use failure_resolver.Recovery.Attempt.{
  Outside, Attempted, finish, finish_unknown, settle, attempt, is_ambiguous, give_up, after_cancel,
  interrupted, handle, execute_attempt, continue_flow, wait_for_flow,
}

nil_split {ℓ} : {A : Type ℓ} (xs ys : List A) → [] ≡ xs ++ ys → xs ≡ []
nil_split [] ys e = refl
nil_split (x ∷ xs) ys e = cc

-- A part of nothing leaves the log as it was.
same_log : {A : Type 0} (base log : List A) → Extends [] base log → log ≡ base
same_log base log (seen, rest, split, e) =
    e ∙ ap (λ l. base ++ l) (nil_split seen rest split) ∙ append-nil base

-- The result that is returned, and what was sent and given to the database for it.
abbrev pub Closing : {W : Type 0} → RecoveryPlan → FlowPointer → Run W → Outcome → Run W → Type 0
Closing plan p r o r' =
    ((o ≢ Outcome.unknown)
      × (r'.sent ≡ r.sent ++ planned plan p)
      × (r'.finishes ≡ r.finishes ++ awaiting_outcome ∷ finish_of o ∷ []))
    ⊎ ((o ≡ Outcome.unknown) × (fs : List Finish) × (r'.finishes ≡ fs ++ unknown ∷ []))

-- How an attempt that returns has ended. `r` is the run before it, and `r'` the run after it.
pub record Ended {W : Type 0} (plan : RecoveryPlan) (p : FlowPointer) (r : Run W) (a : Attempted)
    (r' : Run W) : Type 0 where
  pub in_order : Extends (planned plan p) r.sent r'.sent
  pub closing : Closing plan p r a.0 r'

-- The run after has sent a first part of the plan.
abbrev pub Sends : {W : Type 0} → RecoveryPlan → FlowPointer → Run W → Run W → Type 0
Sends plan p r r' = Extends (planned plan p) r.sent r'.sent

module _ (py : Runtime) (out : Outside) (claimed : SessionRecord) (failure_id token : String)
    (has_token : claimed.recovery_run_token ≡ some token) where
  open out use {World}

  settle_outcome :
      (flow : Option FlowPointer) (o : Outcome) (r : Run World)
      → Post (λ a _. a.0 ≡ o) (λ _ _. Unit {0}) (settle py out claimed failure_id token flow o r)
  unfolding settle pure
  settle_outcome flow Outcome.recovered r =
      bind-Post _ (any-Post _)
        (λ row r1 _.
          bind-Post _ (any-Post _)
            (λ s r2 _. bind-Post _ (any-Post _) (λ _ r3 _. returned refl) (λ _ _ _. tt))
            (λ _ _ _. tt))
        (λ _ _ _. tt)
  settle_outcome flow Outcome.failed r =
      bind-Post _ (any-Post _)
        (λ row r1 _.
          bind-Post _ (any-Post _)
            (λ s r2 _. bind-Post _ (any-Post _) (λ _ r3 _. returned refl) (λ _ _ _. tt))
            (λ _ _ _. tt))
        (λ _ _ _. tt)
  settle_outcome flow Outcome.unknown r =
      bind-Post _ (any-Post _) (λ _ r1 _. returned refl) (λ _ _ _. tt)

  settle-EmitsBy :
      (flow : Option FlowPointer) (o : Outcome)
      → EmitsBy [] (λ a. finish_of a.0 ∷ []) (settle py out claimed failure_id token flow o)
  settle-EmitsBy flow o = record {
    at = λ r.
        weaken-Post
          (both-Post ((Emits-settle py out claimed failure_id token has_token flow o).at r)
            (settle_outcome flow o r))
          (λ a r' q. subst (λ x. Wrote [] (finish_of x ∷ []) r r') (sym q.1) q.0)
          (λ _ r' q. q.0.sent);
  }

  attempt-EmitsBy :
      (plan : RecoveryPlan) (p : FlowPointer)
      → EmitsBy
          (planned plan p)
          (λ a. awaiting_outcome ∷ finish_of a.0 ∷ [])
          (attempt py out claimed failure_id token plan p)
  unfolding attempt planned
  attempt-EmitsBy plan p = EmitsBy-bind (Emits-corrections py out plan p plan.corrections) λ _.
      subst
        (λ l.
          EmitsBy {W = World} {A = Attempted} l (λ a. awaiting_outcome ∷ finish_of a.0 ∷ [])
            (continue_flow py out plan p >>= λ receipt.
              finish py out claimed failure_id token awaiting_outcome
              >> (wait_for_flow py out claimed p.generation receipt.flow_revision_at_correlated_ack
                  >>= λ outcome.
                      settle py out claimed failure_id token outcome
                        (classify_flow_outcome py outcome claimed))))
        (append-nil (resume_of (resume_arguments_for_plan plan p)))
        (EmitsBy-bind (Emits-continue py out plan p) λ receipt.
          EmitsBy-bind (Emits-finish py out claimed failure_id token awaiting_outcome) λ _.
            EmitsBy-bind
              (Emits-wait py out claimed p.generation receipt.flow_revision_at_correlated_ack)
              λ outcome. settle-EmitsBy outcome (classify_flow_outcome py outcome claimed))

  grows :
      (planned base log log' : List Command)
      → log' ≡ log
      → Extends planned base log
      → Extends planned base log'
  grows planned base log log' e (seen, rest, split, s) = (seen, rest, split, e ∙ s)

  give_up-Post :
      (plan : RecoveryPlan) (p : FlowPointer) (r mid : Run World) (e : Error)
      → Sends plan p r mid
      → Post (Ended plan p r) (λ _ r'. Sends plan p r r') (give_up py out claimed failure_id e mid)
  unfolding give_up pure
  give_up-Post plan p r mid e s =
      bind-Post _ ((Emits-finish_unknown py out claimed failure_id token has_token).at mid)
        (λ _ r1 w.
          bind-Post _ ((Emits-count py out _).at r1)
            (λ _ r2 w'. returned (record {
              in_order =
                  grows _ _ mid.sent r2.sent
                    (w'.sent ∙ append-nil r1.sent ∙ w.sent ∙ append-nil mid.sent) s;
              closing = inr (refl, mid.finishes, w'.finishes ∙ append-nil r1.finishes ∙ w.finishes);
            }))
            (λ _ r2 b.
              grows _ _ mid.sent r2.sent
                (same_log r1.sent r2.sent b.sent ∙ w.sent ∙ append-nil mid.sent) s))
        (λ _ r1 b. grows _ _ mid.sent r1.sent (same_log mid.sent r1.sent b.sent) s)

  raised_anyway :
      (plan : RecoveryPlan) (p : FlowPointer) (r : Run World) (q : Result Done × Run World)
      → Post (λ _ r'. Sends plan p r r') (λ _ r'. Sends plan p r r') q
      → Post (Ended plan p r) (λ _ r'. Sends plan p r r') (err (after_cancel q.0), q.1)
  raised_anyway plan p r _ (returned s) = raised s
  raised_anyway plan p r _ (raised s) = raised s

  raised_or_lost :
      (plan : RecoveryPlan) (p : FlowPointer) (r mid : Run World) (b : Bool)
      (q : Result Done × Run World)
      → Sends plan p r mid
      → Post (λ _ r'. Sends plan p r r') (λ _ r'. Sends plan p r r') q
      → Post
          (Ended plan p r)
          (λ _ r'. Sends plan p r r')
          (if b then (err (after_cancel q.0), q.1) else (err cancelled, mid))
  raised_or_lost plan p r mid true q s h = raised_anyway plan p r q h
  raised_or_lost plan p r mid false q s h = raised s

  interrupted-Post :
      (plan : RecoveryPlan) (p : FlowPointer) (r mid : Run World)
      → Sends plan p r mid
      → Post
          (Ended plan p r)
          (λ _ r'. Sends plan p r r')
          (interrupted py out claimed failure_id mid)
  unfolding interrupted
  interrupted-Post plan p r mid s =
      raised_or_lost plan p r mid mid.dispatched (finish_unknown py out claimed failure_id mid) s (
        weaken-Post ((Emits-finish_unknown py out claimed failure_id token has_token).at mid)
          (λ _ r1 w. grows _ _ mid.sent r1.sent (w.sent ∙ append-nil mid.sent) s)
          (λ _ r1 b. grows _ _ mid.sent r1.sent (same_log mid.sent r1.sent b.sent) s))

  Wrote-Closing :
      (plan : RecoveryPlan) (p : FlowPointer) (r : Run World) (o : Outcome) (r' : Run World)
      → Wrote (planned plan p) (awaiting_outcome ∷ finish_of o ∷ []) r r'
      → Closing plan p r o r'
  Wrote-Closing plan p r Outcome.recovered r' w = inl (λ e. cc, w.sent, w.finishes)
  Wrote-Closing plan p r Outcome.failed r' w = inl (λ e. cc, w.sent, w.finishes)
  Wrote-Closing plan p r Outcome.unknown r' w = inr (
    refl,
    r.finishes ++ awaiting_outcome ∷ [],
    w.finishes ∙ sym (append_assoc r.finishes (awaiting_outcome ∷ []) (unknown ∷ [])),
  )

  handle-Post :
      (plan : RecoveryPlan) (p : FlowPointer) (r : Run World) (q : Result Attempted × Run World)
      → Post
          (λ a r'. Wrote (planned plan p) (awaiting_outcome ∷ finish_of a.0 ∷ []) r r')
          (λ _ r'. Sends plan p r r')
          q
      → Post (Ended plan p r) (λ _ r'. Sends plan p r r') (handle py out claimed failure_id q.0 q.1)
  unfolding handle is_ambiguous pure raise
  handle-Post plan p r _ (returned {a = a} {r = r'} w) = returned (record {
    in_order = (planned plan p, [], sym (append-nil (planned plan p)), w.sent);
    closing = Wrote-Closing plan p r a.0 r' w;
  })
  handle-Post plan p r _ (raised {e = contract} {r = r'} s) = give_up-Post plan p r r' contract s
  handle-Post plan p r _ (raised {e = non_executable} {r = r'} s) =
      give_up-Post plan p r r' non_executable s
  handle-Post plan p r _ (raised {e = live_state_changed} {r = r'} s) =
      give_up-Post plan p r r' live_state_changed s
  handle-Post plan p r _ (raised {e = database_unavailable} {r = r'} s) = raised s
  handle-Post plan p r _ (raised {e = not_sent} {r = r'} s) = give_up-Post plan p r r' not_sent s
  handle-Post plan p r _ (raised {e = rejected} {r = r'} s) = give_up-Post plan p r r' rejected s
  handle-Post plan p r _ (raised {e = outcome_unknown} {r = r'} s) =
      give_up-Post plan p r r' outcome_unknown s
  handle-Post plan p r _ (raised {e = timeout} {r = r'} s) = give_up-Post plan p r r' timeout s
  handle-Post plan p r _ (raised {e = cancelled} {r = r'} s) = interrupted-Post plan p r r' s
  handle-Post plan p r _ (raised {e = value_error} {r = r'} s) = raised s
  handle-Post plan p r _ (raised {e = type_error} {r = r'} s) = raised s
  handle-Post plan p r _ (raised {e = assertion} {r = r'} s) = raised s
  handle-Post plan p r _ (raised {e = other} {r = r'} s) = raised s

-- Whatever the robot session and the database do, one attempt at a claimed session sends the plan's
-- corrections in order and then its guarded continuation: at every end, returned or raised, the
-- commands sent are a first part of those. An attempt that returns `recovered` or `failed` has sent
-- all of them, and has told the database `awaiting_outcome` and then that outcome, and nothing
-- else; one that returns `unknown` has told the database `unknown` last. `claimed` holds a run
-- token.
pub execute_attempt-Ended :
    (py : Runtime) (out : Outside) (claimed : SessionRecord) (failure_id token : String)
    (has_token : claimed.recovery_run_token ≡ some token) (plan : RecoveryPlan) (p : FlowPointer)
    (r : Run out.World)
    → Post
        (Ended plan p r)
        (λ _ r'. Sends plan p r r')
        (execute_attempt py out claimed failure_id plan p r)
unfolding execute_attempt
execute_attempt-Ended py out claimed failure_id token has_token plan p r =
    rw (has_token, execute_attempt)
      (weaken-Post
        (handle-Post py out claimed failure_id token has_token plan p
          (record r { dispatched = false }) _
          ((attempt-EmitsBy py out claimed failure_id token has_token plan p).at
            (record r { dispatched = false })))
        (λ a r' h. record { in_order = h.in_order; closing = h.closing }) (λ _ r' s. s))
