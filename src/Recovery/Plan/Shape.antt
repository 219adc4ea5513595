-- ===== src/Recovery/Plan/Shape.antt =====
-- What every parsed recovery plan satisfies.
use Prim.Native.Nat.{zero-le}
use failure_resolver.Prelude.{
  ℕ, suc, ◌+◌, ◌≤◌, ◌≡◌, refl, ap, ◌∙◌, Option-cases, inl, inr, String, true, false, not, ◌&&◌,
  Option, none, some, List, [], ◌∷◌, arith, length, All, map, starts_with_dollar, leb, length-map,
  eq_iff, last_of,
}
use failure_resolver.Json.{Json, null, str, nat, arr, Items, nil, cons, Fields, get}
use failure_resolver.Errors.{
  ok, err, contract, ◌>>=◌, Ensures, returns, raises, bind-Ensures, raise_if-Ensures, Ensures-ok,
}
use failure_resolver.Runtime.{Runtime}
use failure_resolver.Recovery.Inputs.{required_int_bounds, required_int_eq, required_text_eq}
use failure_resolver.Recovery.Session.{item_count}
use failure_resolver.Recovery.Flow.{ActionContext, context_eq}
use failure_resolver.Recovery.Plan.Action.{ParsedAction, RecoveryAction, correction_of}
use failure_resolver.Recovery.Plan.Continuation.{
  Terminal, rerun, resume_flow, terminal_of, Mode, retry_current, rewind, RecoveryPlan, mode_broken,
  context_broken, mode_text, mode_of, required_mode, legacy_plan, resume_plan,
}
use failure_resolver.Recovery.Plan.{
  init, check_corrections, finish_plan, assemble_plan, parse_actions, parse_recovery_plan,
}

pub context_eq_lem : (a b : ActionContext) → context_eq a b ≡ true → a ≡ b
unfolding context_eq
context_eq_lem a b h = ground (
  arith,
  eq_iff a.command b.command,
  eq_iff a.area_name b.area_name,
  eq_iff a.item_name b.item_name,
)

-- A correction is an ordinary robot command.
abbrev pub IsOrdinary : RecoveryAction → Type 0
IsOrdinary a = starts_with_dollar a.command ≡ false

-- The arguments of a `$resume_flow` name the step `c`, the mode, the steps to rewind and a Flow.
pub record NamesStep (d : Fields) (m : Mode) (steps : ℕ) (c : ActionContext) : Type 0 where
  pub mode : get "mode" d ≡ str (mode_text m)
  pub rewind_steps : get "rewind_steps" d ≡ nat steps
  pub action_index : get "current_action_index" d ≡ nat c.action_index
  pub command : get "current_command" d ≡ str c.command
  pub flow_id : String
  pub flow : get "flow_id" d ≡ str flow_id

-- What each terminal pins: the failed step with its context, and where the Flow goes on.
abbrev pub Pins : Terminal → RecoveryPlan → Type 0
Pins rerun p =
    (c : ActionContext) × (p.legacy_retry_context ≡ some c)
    × (p.legacy_retry_index ≡ some c.action_index)
    × (p.legacy_retry_command ≡ some c.command)
    × (p.legacy_expected_next_present ≡ true)
    × (p.rewind_steps ≡ 0)
Pins resume_flow p =
    (c t : ActionContext) × (p.captured_current_context ≡ some c)
    × (p.captured_target_context ≡ some t)
    × (p.captured_action_index ≡ some c.action_index)
    × (p.captured_action_command ≡ some c.command)
    × (t.action_index + p.rewind_steps ≡ c.action_index)
    × (p.resume_mode ≡ retry_current → t ≡ c)
    × NamesStep p.terminal_arguments p.resume_mode p.rewind_steps c

pub record IsSafe (p : RecoveryPlan) : Type 0 where
  pub corrections_le : length p.corrections ≤ 9
  pub ordinary : All IsOrdinary p.corrections
  pub rewind_le : p.rewind_steps ≤ 5
  pub retries : p.resume_mode ≡ retry_current → p.rewind_steps ≡ 0
  pub rewinds : p.resume_mode ≡ rewind → 1 ≤ p.rewind_steps
  pub pins : Pins p.terminal_command p

mode_retries : (m : Mode) (n : ℕ) → mode_broken m n ≡ false → m ≡ retry_current → n ≡ 0
unfolding mode_broken
mode_retries retry_current n h e = ground arith
mode_retries rewind n h e = cc

mode_rewinds : (m : Mode) (n : ℕ) → mode_broken m n ≡ false → m ≡ rewind → 1 ≤ n
unfolding mode_broken
mode_rewinds retry_current n h e = cc
mode_rewinds rewind n h e = ground arith

mode_of_lem : (v : Json) (m : Mode) → mode_of v ≡ some m → v ≡ str (mode_text m)
unfolding mode_of
mode_of_lem (str s) retry_current h = ground (arith, eq_iff s "retry_current", eq_iff s "rewind")
mode_of_lem (str s) rewind h = ground (arith, eq_iff s "retry_current", eq_iff s "rewind")
mode_of_lem null m h = cc
mode_of_lem _ m h = cc

required_mode_eq : (v : Json) (m : Mode) → required_mode v ≡ ok m → v ≡ str (mode_text m)
unfolding required_mode
required_mode_eq v m h = elim (Option-cases (mode_of v)) [
  | inl e ↦ cc (rw (e, required_mode) at h)
  | inr (m', e) ↦ mode_of_lem v m (ground arith)
]

retry≢rewind {ℓ} : {A : Type ℓ} → retry_current ≡ rewind → A
retry≢rewind e = cc

context_pins :
    (m : Mode) (steps index : ℕ) (command : String) (c t : ActionContext)
    → context_broken m steps index command c t ≡ false
    → (index ≡ c.action_index)
      × (command ≡ c.command)
      × (t.action_index + steps ≡ c.action_index)
      × (m ≡ retry_current → t ≡ c)
unfolding context_broken
context_pins retry_current steps index command c t h =
    ground (arith, eq_iff c.command command, context_eq_lem t c)
context_pins rewind steps index command c t h = ground (arith, eq_iff c.command command)

module _ (cs : List RecoveryAction) (few : length cs ≤ 9) (plain : All IsOrdinary cs) where
  legacy-Ensures : (arguments raw : Fields) → Ensures IsSafe (legacy_plan cs arguments raw)
  unfolding legacy_plan
  legacy-Ensures arguments raw = raise_if-Ensures _ _ λ c1. raise_if-Ensures _ _ λ c2.
      bind-Ensures _ λ context e1. bind-Ensures _ λ retried e2. raise_if-Ensures _ _ λ c3.
        raise_if-Ensures _ _ λ c4. bind-Ensures _ λ retry e3. bind-Ensures _ λ next e4.
          returns (record {
            corrections_le = few;
            ordinary = plain;
            rewind_le = zero-le;
            retries = λ _. refl;
            rewinds = λ e. retry≢rewind e;
            pins = (retry, refl, refl, refl, refl, refl);
          })

  resume-Ensures : (arguments raw : Fields) → Ensures IsSafe (resume_plan cs arguments raw)
  unfolding resume_plan
  resume-Ensures arguments raw = raise_if-Ensures _ _ λ c1. bind-Ensures _ λ mode e1.
      bind-Ensures _ λ steps e2. raise_if-Ensures _ _ λ fits. bind-Ensures _ λ flow e9.
        bind-Ensures _ λ _ _. bind-Ensures _ λ _ _. raise_if-Ensures _ _ λ c2. bind-Ensures _ λ _ _.
          bind-Ensures _ λ index e3. bind-Ensures _ λ command e4. bind-Ensures _ λ continuation e5.
            raise_if-Ensures _ _ λ c3. bind-Ensures _ λ expected e6. raise_if-Ensures _ _ λ c4.
              raise_if-Ensures _ _ λ c5. bind-Ensures _ λ current e7. bind-Ensures _ λ target e8.
                raise_if-Ensures _ _ λ pinned.
                  let (ei, ec, et, er) =
                    context_pins mode steps index command current target pinned in
                  returns (record {
                    corrections_le = few;
                    ordinary = plain;
                    rewind_le = (required_int_bounds _ 0 5 e2).1;
                    retries = mode_retries mode steps fits;
                    rewinds = mode_rewinds mode steps fits;
                    pins = (
                      current,
                      target,
                      refl,
                      refl,
                      ap some ei,
                      ap some ec,
                      et,
                      er,
                      record {
                        mode = required_mode_eq _ mode e1;
                        rewind_steps = required_int_eq _ 0 5 e2;
                        action_index = required_int_eq _ 0 1_000_000 e3 ∙ ap nat ei;
                        command = required_text_eq _ 128 e4 ∙ ap str ec;
                        flow_id = flow;
                        flow = required_text_eq _ 300 e9;
                      },
                    );
                  })

  finish-Ensures : (p : ParsedAction) → Ensures IsSafe (finish_plan cs p)
  unfolding finish_plan
  finish-Ensures p = go (terminal_of p.command)
    where
      go :
          (o : Option Terminal)
          → Ensures IsSafe (elim o [
            | none ↦ err contract
            | some t ↦ elim t [
              | rerun ↦ legacy_plan cs p.arguments p.raw
              | resume_flow ↦ resume_plan cs p.arguments p.raw
            ]
          ])
      go none = raises contract
      go (some rerun) = legacy-Ensures p.arguments p.raw
      go (some resume_flow) = resume-Ensures p.arguments p.raw

length-init : (p : ParsedAction) (ps : List ParsedAction) → length (init (p ∷ ps)) ≡ length ps
unfolding init
length-init p [] = refl
length-init p (q ∷ ps) = ap suc (length-init q ps)

suc-eq : (a b : ℕ) → a ≡ b → suc a ≡ b + 1
suc-eq a b e = omega arith

length_corrections :
    (p : ParsedAction) (ps : List ParsedAction)
    → suc (length ps) ≤ 10
    → length (map correction_of (init (p ∷ ps))) ≤ 9
length_corrections p ps h =
    omega (arith, length-map (init (p ∷ ps)) correction_of, length-init p ps)

at_most_ten :
    (xs : Items) (ps : List ParsedAction)
    → not (leb 1 (item_count xs) && leb (item_count xs) 10) ≡ false
    → length ps ≡ item_count xs
    → length ps ≤ 10
at_most_ten xs ps h e = ground arith

check-IsOrdinary :
    (ps : List ParsedAction) → check_corrections ps ≡ ok tt → All IsOrdinary (map correction_of ps)
unfolding check_corrections correction_of ◌>>=◌
check-IsOrdinary [] h = tt
check-IsOrdinary (p ∷ ps) h = ground (arith, check-IsOrdinary ps)

parse_actions-Ensures :
    (py : Runtime) (xs : Items) → Ensures (λ ps. length ps ≡ item_count xs) (parse_actions py xs)
unfolding parse_actions item_count
parse_actions-Ensures py nil = returns refl
parse_actions-Ensures py (cons x xs) = bind-Ensures _ λ p e. bind-Ensures _ λ ps es.
    returns (suc-eq (length ps) (item_count xs) (Ensures-ok (parse_actions-Ensures py xs) es))

assemble-Ensures : (ps : List ParsedAction) → length ps ≤ 10 → Ensures IsSafe (assemble_plan ps)
unfolding assemble_plan
assemble-Ensures [] h = raises contract
assemble-Ensures (p ∷ ps) h = raise_if-Ensures _ _ λ c1. bind-Ensures _ λ _ plain.
    finish-Ensures (map correction_of (init (p ∷ ps))) (length_corrections p ps h)
      (check-IsOrdinary (init (p ∷ ps)) plain) (last_of p ps)

plan-Ensures : (py : Runtime) (value : Json) → Ensures IsSafe (parse_recovery_plan py value)
unfolding parse_recovery_plan
plan-Ensures py (arr xs) = raise_if-Ensures _ _ λ sized. bind-Ensures _ λ ps e.
    assemble-Ensures ps (at_most_ten xs ps sized (Ensures-ok (parse_actions-Ensures py xs) e))
plan-Ensures py null = raises contract
plan-Ensures py _ = raises contract

-- A plan that parses has at most 9 corrections, none of them a meta-command, rewinds at most 5
-- steps, rewinds none exactly in the mode `retry_current`, and pins the failed step: a `$rerun`
-- with its retried action, a `$resume_flow` with a current action that its arguments name and with
-- the target that lies `rewind_steps` before it.
pub parse_recovery_plan-IsSafe :
    (py : Runtime) (value : Json) {p : RecoveryPlan}
    → parse_recovery_plan py value ≡ ok p
    → IsSafe p
parse_recovery_plan-IsSafe py value h = Ensures-ok (plan-Ensures py value) h
