-- ===== src/Recovery/Checks/Live.antt =====
-- What the check of a plan against the live Flow establishes.
use mathlib.Core.Path.{subst}
use failure_resolver.Prelude.{
  ℕ, ◌+◌, ◌-◌, ◌≡◌, refl, sym, ap, ◌∙◌, String, Bool, true, false, not, ◌||◌, Option, none, some,
  List, [], ◌∷◌, arith, leb, ◌==◌, str_eq, eq_iff, Bool-cases, Option-cases, inl, inr, Any, here,
  there, is_some, ◌⊎◌, if◌then◌else◌,
}
use failure_resolver.Json.{Json}
use failure_resolver.Errors.{
  Result, ok, err, contract, Ensures, returns, raises, bind-Ensures, raise_if-Ensures, Ensures-ok,
  raise_if,
}
use failure_resolver.Runtime.{Runtime}
use failure_resolver.Robot.Pointer.{FlowPointer}
use failure_resolver.Recovery.Flow.{
  ActionContext, same_context, flow_action_contexts, by_index, next_after,
}
use failure_resolver.Recovery.Plan.Continuation.{Terminal, rerun, resume_flow, RecoveryPlan}
use failure_resolver.Recovery.Plan.{parse_recovery_plan}
use failure_resolver.Recovery.Plan.Shape.{IsSafe, Pins, context_eq_lem, parse_recovery_plan-IsSafe}
use failure_resolver.Recovery.Checks.{
  live_action, action_before, check_terminal, validate_at, validate_plan_for_flow,
}

-- The context is one of the Flow's enabled actions.
abbrev pub Lists : List ActionContext → ActionContext → Type 0
Lists contexts c = Any (λ x. x ≡ c) contexts

-- What the plan has pinned is what the live Flow holds around its current action.
abbrev pub PinnedAt : Terminal → RecoveryPlan → List ActionContext → ActionContext → Type 0
PinnedAt resume_flow plan contexts current =
    (plan.captured_current_context ≡ some current)
    × (t : ActionContext) × (plan.captured_target_context ≡ some t)
    × Lists contexts t
    × (t.action_index + plan.rewind_steps ≡ current.action_index)
PinnedAt rerun plan contexts current =
    (plan.legacy_retry_context ≡ some current)
    × (plan.legacy_expected_next ≡ next_after current contexts)

pub record IsLive (plan : RecoveryPlan) (p : FlowPointer) : Type 0 where
  pub running : p.completed ≡ false
  pub contexts : List ActionContext
  pub reads : flow_action_contexts p.raw ≡ ok contexts
  pub current : ActionContext
  pub at_index : p.action_index ≡ some current.action_index
  pub at_command : p.action_command ≡ some current.command
  pub listed : Lists contexts current
  pub pinned : PinnedAt plan.terminal_command plan contexts current

not-eq_false : (b : Bool) → not b ≡ false → b ≡ true
not-eq_false b h = ground arith

both_same : (a b : Bool) → (not a || not b) ≡ false → (a ≡ true) × (b ≡ true)
both_same a b h = ground arith

rejoin : (index steps i : ℕ) → leb steps index ≡ true → i ≡ index - steps → i + steps ≡ index
rejoin index steps i h e = ground arith

raise_if_only-Ensures :
    (t : Bool) {P : Type 0} → (t ≡ false → P) → Ensures (λ _. P) (raise_if t contract)
raise_if_only-Ensures true h = raises contract
raise_if_only-Ensures false h = returns (h refl)

weaken : {A P Q : Type 0} {r : Result A} → (P → Q) → Ensures (λ _. P) r → Ensures (λ _. Q) r
weaken f (returns p) = returns (f p)
weaken f (raises e) = raises e

same_context_lem : (a b : Option ActionContext) → same_context a b ≡ true → a ≡ b
unfolding same_context
same_context_lem none none h = refl
same_context_lem none (some b) h = cc
same_context_lem (some a) none h = cc
same_context_lem (some a) (some b) h = ap some (context_eq_lem a b h)

found_in_step :
    (i : ℕ) (x c : ActionContext) (later : Option ActionContext)
    → (if is_some later then later else if x.action_index == i then some x else none) ≡ some c
    → (later ≡ some c) ⊎ ((x ≡ c) × (c.action_index ≡ i))
found_in_step i x c none h = inr (ground arith)
found_in_step i x c (some d) h = inl h

-- What is found under an index has that index, and is in the list.
pub by_index_found :
    (i : ℕ) (cs : List ActionContext) (c : ActionContext)
    → by_index i cs ≡ some c
    → (c.action_index ≡ i) × Lists cs c
unfolding by_index
by_index_found i [] c h = cc
by_index_found i (x ∷ cs) c h = elim (found_in_step i x c (by_index i cs) h) [
  | inl e ↦ let (ei, m) = by_index_found i cs c e in (ei, there m)
  | inr e ↦ (e.1, here e.0)
]

if-Ensures :
    (b : Bool) (c : ActionContext) {P : ActionContext → Type 0}
    → (b ≡ true → P c)
    → Ensures P (if b then ok c else err contract)
if-Ensures true c h = returns (h refl)
if-Ensures false c h = raises contract

live_action-Ensures :
    (i : ℕ) (command : String) (cs : List ActionContext)
    → Ensures
        (λ c. (c.action_index ≡ i) × (c.command ≡ command) × Lists cs c)
        (live_action i command cs)
unfolding live_action
live_action-Ensures i command cs = elim (Option-cases (by_index i cs)) [
  | inl e ↦ rw (e, live_action) (raises contract)
  | inr (c, e) ↦
      rw (e, live_action)
        (let (ei, m) = by_index_found i cs c e in
          if-Ensures (str_eq c.command command) c (λ t. (ei, (eq_iff c.command command).0 t, m)))
]

-- The target of a rewind is the listed action that lies so many steps before.
pub before_found :
    (index steps : ℕ) (cs : List ActionContext) (t : ActionContext)
    → action_before index steps cs ≡ some t
    → (t.action_index + steps ≡ index) × Lists cs t
unfolding action_before
before_found index steps cs t h = elim (Bool-cases (leb steps index)) [
  | inl fits ↦
      let (ei, m) = by_index_found (index - steps) cs t (rw fits at h) in
      (rejoin index steps t.action_index fits ei, m)
  | inr over ↦ cc (rw over at h)
]

check-PinnedAt :
    (t : Terminal) (plan : RecoveryPlan) (cs : List ActionContext) (current : ActionContext)
    → Pins t plan
    → Ensures
        (λ _. PinnedAt t plan cs current)
        (check_terminal t plan current.action_index cs current)
unfolding check_terminal
check-PinnedAt resume_flow plan cs current (c, t, ec, et, _, _, _, _, _) =
    raise_if_only-Ensures _ (λ h.
      let (hc, ht) = both_same _ _ h in
      let found = sym (same_context_lem _ _ ht) ∙ et in
      let (ej, m) = before_found current.action_index plan.rewind_steps cs t found in
      (same_context_lem _ _ hc, t, et, m, ej))
check-PinnedAt rerun plan cs current pins = raise_if-Ensures _ _ λ h.
    raise_if_only-Ensures _
      (λ h'. (same_context_lem _ _ (both_same _ _ h).0, same_context_lem _ _ (not-eq_false _ h')))

validate_at-Ensures :
    (plan : RecoveryPlan) (p : FlowPointer) (i : Option ℕ) (c : Option String)
    → IsSafe plan
    → p.completed ≡ false
    → p.action_index ≡ i
    → p.action_command ≡ c
    → Ensures (λ _. IsLive plan p) (validate_at plan p i c)
unfolding validate_at
validate_at-Ensures plan p none c safe run ei ec = raises contract
validate_at-Ensures plan p (some i) none safe run ei ec = raises contract
validate_at-Ensures plan p (some i) (some command) safe run ei ec = bind-Ensures _ λ contexts reads.
    bind-Ensures _ λ current e.
      let (ej, ek, m) = Ensures-ok (live_action-Ensures i command contexts) e in
      weaken
        (λ pinned. record {
          running = run;
          contexts = contexts;
          reads = reads;
          current = current;
          at_index = ei ∙ ap some (sym ej);
          at_command = ec ∙ ap some (sym ek);
          listed = m;
          pinned = pinned;
        })
        (subst
          (λ k.
            Ensures (λ _. PinnedAt plan.terminal_command plan contexts current)
              (check_terminal plan.terminal_command plan k contexts current))
          ej (check-PinnedAt plan.terminal_command plan contexts current safe.pins))

-- A parsed plan that passes the check against a Flow pointer stands at a running step of that Flow:
-- the pointer's index and command are those of an enabled action of the Flow, which is the context
-- that the plan has pinned; a `$resume_flow` goes on at an enabled action that lies `rewind_steps`
-- before it, and the action that follows a `$rerun` is the one that it expects.
pub validate_plan_for_flow-IsLive :
    (py : Runtime) (value : Json) (plan : RecoveryPlan) (p : FlowPointer)
    → parse_recovery_plan py value ≡ ok plan
    → validate_plan_for_flow plan p ≡ ok tt
    → IsLive plan p
unfolding validate_plan_for_flow
validate_plan_for_flow-IsLive py value plan p parsed h =
    Ensures-ok (checked (parse_recovery_plan-IsSafe py value parsed)) h
  where
    checked : IsSafe plan → Ensures (λ _. IsLive plan p) (validate_plan_for_flow plan p)
    checked safe =
        raise_if-Ensures _ _
          λ run. validate_at-Ensures plan p p.action_index p.action_command safe run refl refl
