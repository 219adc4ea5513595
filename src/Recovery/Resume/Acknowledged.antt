-- ===== src/Recovery/Resume/Acknowledged.antt =====
-- What an accepted acknowledgement of `$resume_flow` says, and what a plan has pinned.
use mathlib.Core.Path.{subst}
use failure_resolver.Prelude.{
  ℕ, ◌+◌, ◌≡◌, refl, sym, ◌∙◌, Bool, true, false, Option, none, some, arith,
}
use failure_resolver.Prelude.Int.{pos, sub_ℕ}
use failure_resolver.Json.{Json, bool, int, str, obj, Fields, get, nat}
use failure_resolver.Json.Equal.{py_eq}
use failure_resolver.Errors.{
  Result, ok, err, ◌>>=◌, Ensures, returns, Ensures-ok, Done, raises, raise_if, contract,
  type_error,
}
use failure_resolver.Runtime.{Runtime}
use failure_resolver.Robot.Pointer.{FlowPointer}
use failure_resolver.Recovery.Flow.{ActionContext}
use failure_resolver.Recovery.Plan.{parse_recovery_plan}
use failure_resolver.Recovery.Plan.Continuation.{resume_flow, Mode, mode_text, RecoveryPlan}
use failure_resolver.Recovery.Checks.{validate_plan_for_flow}
use failure_resolver.Recovery.Checks.Live.{PinnedAt, validate_plan_for_flow-IsLive}
use failure_resolver.Recovery.Resume.{
  answers_otherwise, ack_broken, ack_at, select_mode, validate_resume_acknowledgement,
}

sub_exact : (t steps index : ℕ) → t + steps ≡ index → sub_ℕ index steps ≡ pos t
sub_exact t steps index e = ground arith

some_injective : {A : Type 0} {a b : A} → some a ≡ some b → a ≡ b
some_injective h = cc

raised_else : (t : Bool) {P : Type 0} → (t ≡ false → P) → Ensures (λ _. P) (raise_if t contract)
raised_else true h = raises contract
raised_else false h = returns (h refl)

refused : (f : Fields → Result Done) → (err contract >>= f) ≡ ok tt → ⊥
unfolding ◌>>=◌
refused f h = cc

opened :
    (d : Fields) (p : FlowPointer) (steps : ℕ) (m : Mode)
    → validate_resume_acknowledgement (obj d) p steps (some m) ≡ ok tt
    → ack_at d p steps (some m) p.action_index ≡ ok tt
unfolding validate_resume_acknowledgement ◌>>=◌
opened d p steps m h = h

-- The robot has accepted the plan's mode and rewind at the pointer's step, to go on at `target`.
pub record Acknowledges (d : Fields) (plan : RecoveryPlan) (p : FlowPointer)
    (target : ActionContext) : Type 0 where
  pub accepted : py_eq (get "accepted" d) (bool true) ≡ true
  pub mode : py_eq (get "mode" d) (str (mode_text plan.resume_mode)) ≡ true
  pub rewind_steps : py_eq (get "rewind_steps" d) (nat plan.rewind_steps) ≡ true
  pub flow_id : py_eq (get "flow_id" d) (str p.flow_id) ≡ true
  pub previous : ℕ
  pub at_previous : p.action_index ≡ some previous
  pub previous_eq : py_eq (get "previous_action_index" d) (nat previous) ≡ true
  pub target_eq : py_eq (get "target_action_index" d) (nat target.action_index) ≡ true
  pub target_pinned : plan.captured_target_context ≡ some target

ack_facts :
    (d : Fields) (p : FlowPointer) (index steps : ℕ) (m : Mode)
    → ack_broken d p index steps m ≡ false
    → (py_eq (get "accepted" d) (bool true) ≡ true)
      × (py_eq (get "mode" d) (str (mode_text m)) ≡ true)
      × (py_eq (get "rewind_steps" d) (nat steps) ≡ true)
      × (py_eq (get "previous_action_index" d) (nat index) ≡ true)
      × (py_eq (get "target_action_index" d) (int (sub_ℕ index steps)) ≡ true)
      × (py_eq (get "flow_id" d) (str p.flow_id) ≡ true)
unfolding ack_broken answers_otherwise
ack_facts d p index steps m h = ground arith

module _ (plan : RecoveryPlan) (p : FlowPointer) (d : Fields) where
  acknowledged_at :
      (current target : ActionContext)
      → p.action_index ≡ some current.action_index
      → plan.captured_target_context ≡ some target
      → target.action_index + plan.rewind_steps ≡ current.action_index
      → (at : Option ℕ) → p.action_index ≡ at
      → Ensures
          (λ _. Acknowledges d plan p target)
          (ack_at d p plan.rewind_steps (some plan.resume_mode) at)
  unfolding ack_at select_mode
  acknowledged_at current target at_index pinned before none e = raises type_error
  acknowledged_at current target at_index pinned before (some index) e =
      checked (some_injective (sym e ∙ at_index))
    where
      checked :
          index ≡ current.action_index
          → Ensures
              (λ _. Acknowledges d plan p target)
              (raise_if (ack_broken d p index plan.rewind_steps plan.resume_mode) contract)
      checked same = raised_else _ λ h.
          let (a, m, r, prev, tgt, f) = ack_facts d p index plan.rewind_steps plan.resume_mode h in
          record {
            accepted = a;
            mode = m;
            rewind_steps = r;
            flow_id = f;
            previous = index;
            at_previous = e;
            previous_eq = prev;
            target_eq =
                subst (λ z. py_eq (get "target_action_index" d) (int z) ≡ true)
                  (sub_exact target.action_index plan.rewind_steps index (before ∙ sym same)) tgt;
            target_pinned = pinned;
          }

-- If the robot's answer to the `$resume_flow` of a parsed plan is accepted, where that plan was
-- live at the pointer, then the answer accepts the plan's own mode and rewind, for the Flow and at
-- the index of the pointer, and the index that it goes on at is that of the plan's pinned target.
-- Its values are compared as Python's `==` does, so that an answer 1 stands for `true`.
pub validate_resume_acknowledgement-Acknowledges :
    (py : Runtime) (value answer : Json) (plan : RecoveryPlan) (p : FlowPointer)
    → parse_recovery_plan py value ≡ ok plan
    → plan.terminal_command ≡ resume_flow
    → validate_plan_for_flow plan p ≡ ok tt
    → validate_resume_acknowledgement answer p plan.rewind_steps (some plan.resume_mode) ≡ ok tt
    → (d : Fields) × (target : ActionContext) × (answer ≡ obj d) × Acknowledges d plan p target
unfolding validate_resume_acknowledgement
validate_resume_acknowledgement-Acknowledges py value (obj d) plan p parsed modern live h =
    let at = validate_plan_for_flow-IsLive py value plan p parsed live in
    let (_, target, pinned, _, before) =
      subst (λ t. PinnedAt t plan at.contexts at.current) modern at.pinned in
    (
      d,
      target,
      refl,
      Ensures-ok
          (acknowledged_at plan p d at.current target at.at_index pinned before p.action_index refl)
          (opened d p plan.rewind_steps plan.resume_mode h),
    )
validate_resume_acknowledgement-Acknowledges py value _ plan p parsed modern live h =
    absurd (refused _ h)
