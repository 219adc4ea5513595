-- ===== src/Recovery/Resume/Guard.antt =====
-- The one payload that is sent to continue a Flow names the live step, whatever the plan's form.
use failure_resolver.Prelude.{
  ℕ, ◌≤◌, ◌≡◌, refl, sym, ap, ◌∙◌, String, false, not, Option, none, some, arith, eq_iff,
}
use failure_resolver.Json.{Json, str, Fields, get, lookup, nat}
use failure_resolver.Json.Equal.{py_eq, float_eq}
use failure_resolver.Errors.{
  ok, contract, ◌>>=◌, Ensures, returns, raises, raise_if-Ensures, Ensures-ok,
}
use failure_resolver.Runtime.{Runtime}
use failure_resolver.Robot.Pointer.{FlowPointer}
use failure_resolver.Recovery.Flow.{ActionContext}
use failure_resolver.Recovery.Plan.Continuation.{
  Terminal, rerun, resume_flow, Mode, retry_current, rewind, mode_text, RecoveryPlan,
}
use failure_resolver.Recovery.Plan.{parse_recovery_plan}
use failure_resolver.Recovery.Plan.Shape.{IsSafe, Pins, NamesStep, parse_recovery_plan-IsSafe}
use failure_resolver.Recovery.Resume.{
  text_or_null, nat_or_null, select_mode, guarded_arguments, build_at,
  build_guarded_resume_arguments, resume_guard_broken, differs, arguments_for,
  resume_arguments_for_plan,
}

-- The payload names the step that the live pointer stands at, with the plan's mode and rewind.
pub record Guards (d : Fields) (plan : RecoveryPlan) (p : FlowPointer) : Type 0 where
  pub index : ℕ
  pub command : String
  pub at_index : p.action_index ≡ some index
  pub at_command : p.action_command ≡ some command
  pub names_index : get "current_action_index" d ≡ nat index
  pub names_command : get "current_command" d ≡ str command
  pub names_steps : get "rewind_steps" d ≡ nat plan.rewind_steps
  pub names_mode : get "mode" d ≡ str (mode_text plan.resume_mode)
  pub names_flow : get "flow_id" d ≡ str p.flow_id

py_eq-nat :
    (v : Json) (i : ℕ) (o : Option ℕ)
    → v ≡ nat i
    → not (py_eq v (nat_or_null o)) ≡ false
    → o ≡ some i
unfolding py_eq float_eq
py_eq-nat v i none e h = let h' = rw e at h in cc
py_eq-nat v i (some j) e h = let h' = rw e at h in ground arith

py_eq-str :
    (v : Json) (s : String) (o : Option String)
    → v ≡ str s
    → not (py_eq v (text_or_null o)) ≡ false
    → o ≡ some s
unfolding py_eq
py_eq-str v s none e h = let h' = rw e at h in cc
py_eq-str v s (some t) e h = let h' = rw e at h in ground (arith, eq_iff s t)

same_of_differs :
    (key : String) (d : Fields) (s t : String)
    → get key d ≡ str s
    → differs key d (str t) ≡ false
    → s ≡ t
unfolding differs
same_of_differs key d s t h e = ground (arith, py_eq-str (get key d) s (some t) h)

-- What a guard that is not broken says of the pointer.
guard_facts :
    (d : Fields) (p : FlowPointer) (m : Mode) (steps : ℕ) (c : ActionContext)
    → (n : NamesStep d m steps c) → resume_guard_broken d p ≡ false
    → (p.action_index ≡ some c.action_index)
      × (p.action_command ≡ some c.command)
      × (n.flow_id ≡ p.flow_id)
unfolding resume_guard_broken
guard_facts d p m steps c n h = ground (
  arith,
  py_eq-nat (get "current_action_index" d) c.action_index p.action_index n.action_index,
  py_eq-str (get "current_command" d) c.command p.action_command n.command,
  same_of_differs "flow_id" d n.flow_id p.flow_id n.flow,
)

legacy_payload :
    (plan : RecoveryPlan) (p : FlowPointer) (i : ℕ) (c : String)
    → plan.rewind_steps ≡ 0
    → plan.resume_mode ≡ retry_current
    → p.action_index ≡ some i
    → p.action_command ≡ some c
    → Guards (guarded_arguments p i c 0 retry_current) plan p
unfolding guarded_arguments lookup
legacy_payload plan p i c zero_steps retry ei ec = record {
  index = i;
  command = c;
  at_index = ei;
  at_command = ec;
  names_index = refl;
  names_command = refl;
  names_steps = ap nat (sym zero_steps);
  names_mode = ap (λ (m : Mode). str (mode_text m)) (sym retry);
  names_flow = refl;
}

legacy-Guards :
    (plan : RecoveryPlan) (p : FlowPointer)
    → plan.rewind_steps ≡ 0
    → plan.resume_mode ≡ retry_current
    → (i : Option ℕ) (c : Option String) → p.action_index ≡ i
    → p.action_command ≡ c
    → Ensures (λ d. Guards d plan p) (build_at p 0 (some retry_current) i c)
unfolding build_at select_mode ◌>>=◌
legacy-Guards plan p zero_steps retry none c ei ec = raises contract
legacy-Guards plan p zero_steps retry (some i) none ei ec = raises contract
legacy-Guards plan p zero_steps retry (some i) (some c) ei ec =
    returns (legacy_payload plan p i c zero_steps retry ei ec)

-- The arguments that are built name the steps and the mode that they are built for.
abbrev pub NamesRewind : Fields → ℕ → Mode → Type 0
NamesRewind d steps m = (get "rewind_steps" d ≡ nat steps) × (get "mode" d ≡ str (mode_text m))

pub build_guarded-NamesRewind :
    (p : FlowPointer) (steps : ℕ) (m : Mode)
    → Ensures (λ d. NamesRewind d steps m) (build_guarded_resume_arguments p steps (some m))
unfolding build_guarded_resume_arguments build_at select_mode guarded_arguments lookup
build_guarded-NamesRewind p steps m = at p.action_index p.action_command
  where
    at :
        (i : Option ℕ) (c : Option String)
        → Ensures (λ d. NamesRewind d steps m) (build_at p steps (some m) i c)
    at none c = raises contract
    at (some i) none = raises contract
    at (some i) (some c) = raise_if-Ensures _ _ λ _. raise_if-Ensures _ _ λ _. returns (refl, refl)

-- A plan that rewinds nothing retries the current step.
retries_of_zero : (m : Mode) (n : ℕ) → n ≡ 0 → (m ≡ rewind → 1 ≤ n) → m ≡ retry_current
retries_of_zero retry_current n e h = refl
retries_of_zero rewind n e h = absurd (omega (arith, h refl))

arguments-Guards :
    (t : Terminal) (plan : RecoveryPlan) (p : FlowPointer)
    → IsSafe plan
    → Pins t plan
    → Ensures (λ d. Guards d plan p) (arguments_for t plan p)
unfolding arguments_for build_guarded_resume_arguments
arguments-Guards rerun plan p safe (c, _, _, _, _, zero_steps) =
    legacy-Guards plan p zero_steps
      (retries_of_zero plan.resume_mode plan.rewind_steps zero_steps safe.rewinds) p.action_index
      p.action_command refl refl
arguments-Guards resume_flow plan p safe (c, t, _, _, _, _, _, _, n) = raise_if-Ensures _ _ λ h.
    let (ei, ec, ef) = guard_facts plan.terminal_arguments p _ _ c n h in
    returns (record {
      index = c.action_index;
      command = c.command;
      at_index = ei;
      at_command = ec;
      names_index = n.action_index;
      names_command = n.command;
      names_steps = n.rewind_steps;
      names_mode = n.mode;
      names_flow = n.flow ∙ ap str ef;
    })

-- Whatever payload is sent to continue a parsed plan, legacy or modern, it names the Flow, the
-- index and the command that the live pointer stands at, and the plan's own mode and rewind.
pub resume_arguments_for_plan-Guards :
    (py : Runtime) (value : Json) (plan : RecoveryPlan) (p : FlowPointer) {d : Fields}
    → parse_recovery_plan py value ≡ ok plan
    → resume_arguments_for_plan plan p ≡ ok d
    → Guards d plan p
unfolding resume_arguments_for_plan
resume_arguments_for_plan-Guards py value plan p parsed h =
    let safe = parse_recovery_plan-IsSafe py value parsed in
    Ensures-ok (arguments-Guards plan.terminal_command plan p safe safe.pins) h
