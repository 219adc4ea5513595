-- ===== src/Recovery/Attempt/Sent.antt =====
-- What an attempt sends to the robot, whatever the robot and the database do.
use failure_resolver.Prelude.{
  Option, ℕ, ◌≡◌, refl, sym, String, some, List, [], ◌∷◌, ◌++◌, map, append-nil,
}
use failure_resolver.Json.{Fields}
use failure_resolver.Errors.{Result, ok, err}
use failure_resolver.Runtime.{Runtime}
use failure_resolver.Robot.Pointer.{FlowPointer}
use failure_resolver.Recovery.Session.{SessionRecord}
use failure_resolver.Recovery.Plan.Action.{RecoveryAction}
use failure_resolver.Recovery.Plan.Continuation.{RecoveryPlan}
use failure_resolver.Recovery.Resume.{resume_arguments_for_plan}
use failure_resolver.Recovery.Outcome.{Outcome}
use failure_resolver.Recovery.Attempt.Monad.{
  Finish, recovered, failed, unknown, Command, Stats, Run, lift, modify,
}
use failure_resolver.Recovery.Attempt.Rules.{
  Post, returned, raised, Wrote, Began, Emits, Emits-pure, Emits-lift, Emits-bind, Emits-bind-lift,
}
use failure_resolver.Recovery.Attempt.{
  Outside, require_live, request, finish, wait_for_flow, count, dispatch_correction,
  dispatch_corrections, continue_flow, required_database, finish_unknown, record_failed, settle,
}

abbrev pub command_of : RecoveryAction → Command
command_of a = record { name = a.command; arguments = a.arguments }

unfoldable pub resume_of : Result Fields → List Command
resume_of (ok d) = record { name = "$resume_flow"; arguments = d } ∷ []
resume_of (err e) = []

-- The commands of the plan: its corrections, and the guarded continuation if there is one.
unfoldable pub planned : RecoveryPlan → FlowPointer → List Command
unfolding resume_of
planned plan p = map command_of plan.corrections ++ resume_of (resume_arguments_for_plan plan p)

-- The result that an outcome is finished with.
abbrev pub finish_of : Outcome → Finish
finish_of Outcome.recovered = recovered
finish_of Outcome.failed = failed
finish_of Outcome.unknown = unknown

module _ (py : Runtime) (out : Outside) where
  open out use {World}

  Emits-require_live :
      (plan : RecoveryPlan) (p : FlowPointer) → Emits [] [] (require_live py out plan p)
  unfolding require_live lift
  Emits-require_live plan p = record { at = λ r. (Emits-lift {W = World} _).at r }

  pub Emits-count : (f : Stats → Stats) → Emits [] [] (count py out f)
  unfolding count modify
  Emits-count f = record {
    at = λ r.
        returned
          (record { sent = sym (append-nil r.sent); finishes = sym (append-nil r.finishes) });
  }

  request_at :
      {A : Type 0} (c : Command) (r r' : Run World) (x : Result A)
      → r'.sent ≡ r.sent ++ c ∷ []
      → r'.finishes ≡ r.finishes ++ []
      → Post (λ _ r''. Wrote (c ∷ []) [] r r'') (λ _ r''. Began (c ∷ []) [] r r'') (x, r')
  request_at c r r' (ok a) e f = returned (record { sent = e; finishes = f })
  request_at c r r' (err _) e f =
      raised (record { sent = (c ∷ [], [], refl, e); finishes = ([], [], refl, f) })

  finish_at :
      {A : Type 0} (f : Finish) (r r' : Run World) (x : Result A)
      → r'.sent ≡ r.sent ++ []
      → r'.finishes ≡ r.finishes ++ f ∷ []
      → Post (λ _ r''. Wrote [] (f ∷ []) r r'') (λ _ r''. Began [] (f ∷ []) r r'') (x, r')
  finish_at f r r' (ok a) e h = returned (record { sent = e; finishes = h })
  finish_at f r r' (err _) e h =
      raised (record { sent = ([], [], refl, e); finishes = (f ∷ [], [], refl, h) })

  quiet_at :
      {A : Type 0} (r r' : Run World) (x : Result A)
      → r'.sent ≡ r.sent ++ []
      → r'.finishes ≡ r.finishes ++ []
      → Post (λ _ r''. Wrote [] [] r r'') (λ _ r''. Began [] [] r r'') (x, r')
  quiet_at r r' (ok a) e f = returned (record { sent = e; finishes = f })
  quiet_at r r' (err _) e f =
      raised (record { sent = ([], [], refl, e); finishes = ([], [], refl, f) })

  Emits-request :
      (name : String) (d : Fields)
      → Emits (record { name = name; arguments = d } ∷ []) [] (request py out name d)
  unfolding request
  Emits-request name d = record { at = λ r. request_at _ r _ _ refl (sym (append-nil r.finishes)) }

  pub Emits-finish :
      (claimed : SessionRecord) (failure_id run_token : String) (f : Finish)
      → Emits [] (f ∷ []) (finish py out claimed failure_id run_token f)
  unfolding finish
  Emits-finish claimed failure_id run_token f = record {
    at = λ r. finish_at f r _ _ (sym (append-nil r.sent)) refl;
  }

  pub Emits-wait :
      (claimed : SessionRecord) (g after : ℕ) → Emits [] [] (wait_for_flow py out claimed g after)
  unfolding wait_for_flow
  Emits-wait claimed g after = record {
    at = λ r. quiet_at r _ _ (sym (append-nil r.sent)) (sym (append-nil r.finishes));
  }

  Emits-required_database : Emits [] [] (required_database py out)
  unfolding required_database
  Emits-required_database = record {
    at = λ r. quiet_at r _ _ (sym (append-nil r.sent)) (sym (append-nil r.finishes));
  }

  Emits-correction :
      (plan : RecoveryPlan) (p : FlowPointer) (a : RecoveryAction)
      → Emits (command_of a ∷ []) [] (dispatch_correction py out plan p a)
  unfolding dispatch_correction
  Emits-correction plan p a = Emits-bind (Emits-require_live plan p) λ _.
      Emits-bind (Emits-request a.command a.arguments)
        λ receipt. Emits-bind (Emits-lift _) λ _. Emits-count _

  pub Emits-corrections :
      (plan : RecoveryPlan) (p : FlowPointer) (as_ : List RecoveryAction)
      → Emits (map command_of as_) [] (dispatch_corrections py out plan p as_)
  unfolding dispatch_corrections
  Emits-corrections plan p [] = Emits-pure tt
  Emits-corrections plan p (a ∷ as_) =
      Emits-bind (Emits-correction plan p a) λ _. Emits-corrections plan p as_

  -- The continuation is the one command after the corrections, with the guarded payload.
  pub Emits-continue :
      (plan : RecoveryPlan) (p : FlowPointer)
      → Emits (resume_of (resume_arguments_for_plan plan p)) [] (continue_flow py out plan p)
  unfolding continue_flow resume_of
  Emits-continue plan p = Emits-bind (Emits-require_live plan p) λ _.
      Emits-bind-lift (resume_arguments_for_plan plan p) λ d e. rw e (
        Emits-bind (Emits-request "$resume_flow" d) λ receipt.
          Emits-bind (Emits-lift _)
            λ _. Emits-bind (Emits-lift _) λ _. Emits-bind (Emits-count _) λ _. Emits-pure receipt)

  pub Emits-finish_unknown :
      (claimed : SessionRecord) (failure_id run_token : String)
      → claimed.recovery_run_token ≡ some run_token
      → Emits [] (unknown ∷ []) (finish_unknown py out claimed failure_id)
  unfolding finish_unknown
  Emits-finish_unknown claimed failure_id run_token e =
      rw (e, finish_unknown)
        (Emits-bind Emits-required_database
          λ _. Emits-bind (Emits-finish claimed failure_id run_token unknown) λ _. Emits-count _)

  pub Emits-settle :
      (claimed : SessionRecord) (failure_id run_token : String)
      → claimed.recovery_run_token ≡ some run_token
      → (flow : Option FlowPointer) (o : Outcome)
      → Emits [] (finish_of o ∷ []) (settle py out claimed failure_id run_token flow o)
  unfolding settle record_failed
  Emits-settle claimed failure_id run_token e flow Outcome.recovered =
      Emits-bind (Emits-finish claimed failure_id run_token recovered)
        λ row. Emits-bind (Emits-lift _) λ finished. Emits-bind (Emits-count _) λ _. Emits-pure _
  Emits-settle claimed failure_id run_token e flow Outcome.failed =
      Emits-bind (Emits-finish claimed failure_id run_token failed)
        λ row. Emits-bind (Emits-lift _) λ finished. Emits-bind (Emits-count _) λ _. Emits-pure _
  Emits-settle claimed failure_id run_token e flow Outcome.unknown =
      Emits-bind (Emits-finish_unknown claimed failure_id run_token e) λ _. Emits-pure _
