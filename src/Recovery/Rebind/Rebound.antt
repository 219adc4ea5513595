-- ===== src/Recovery/Rebind/Rebound.antt =====
-- What rebinding returns.
use failure_resolver.Prelude.{
  ℕ, ◌≡◌, refl, ap, ◌∙◌, String, true, not, ◌||◌, Option, none, some, arith,
}
use failure_resolver.Json.{Json, arr, Items, nil, cons}
use failure_resolver.Errors.{
  Result, ok, err, contract, ◌>>◌, raise_if, Ensures, returns, raises, bind-Ensures,
  raise_if-Ensures, Ensures-ok, map-Ensures,
}
use failure_resolver.Runtime.{Runtime}
use failure_resolver.Robot.Pointer.{FlowPointer, parse_flow_pointer}
use failure_resolver.Recovery.Plan.{parse_recovery_plan}
use failure_resolver.Recovery.Plan.Continuation.{Terminal, rerun, resume_flow, RecoveryPlan}
use failure_resolver.Recovery.Plan.Shape.{parse_recovery_plan-IsSafe}
use failure_resolver.Recovery.Plan.Last.{parse_recovery_plan-EndsIn}
use failure_resolver.Recovery.Checks.{is_paused_at}
use failure_resolver.Recovery.Checks.Live.{IsLive, validate_plan_for_flow-IsLive}
use failure_resolver.Recovery.Resume.Guard.{build_guarded-NamesRewind}
use failure_resolver.Recovery.Rebind.{
  map_last, captured_pointer, accept_rebound, rebind_terminal, rebind_recovery_actions,
}
use failure_resolver.Recovery.Rebind.Refreshed.{refreshed_plan}
use failure_resolver.Recovery.Rebind.Moved.{Moves, required_eq, paused_index, same_names, moved}

unfoldable pub all_but_last : Items → Items
all_but_last nil = nil
all_but_last (cons x nil) = nil
all_but_last (cons x (cons y ys)) = cons x (all_but_last (cons y ys))

-- Only the last action changes.
all_but_last-map_last :
    (f : Json → Json) (xs : Items) → all_but_last (map_last f xs) ≡ all_but_last xs
unfolding all_but_last map_last
all_but_last-map_last f nil = refl
all_but_last-map_last f (cons x nil) = refl
all_but_last-map_last f (cons x (cons y nil)) = refl
all_but_last-map_last f (cons x (cons y (cons z zs))) =
    ap (cons x) (all_but_last-map_last f (cons y (cons z zs)))

-- What is bound to a pointer, of a remembered plan.
pub record Bound (py : Runtime) (actions : Items) (t : Terminal) (old : RecoveryPlan)
    (p : FlowPointer) (rebound : Items) : Type 0 where
  pub plan : RecoveryPlan
  pub parsed : parse_recovery_plan py (arr rebound) ≡ ok plan
  pub live : IsLive plan p
  pub same_terminal : plan.terminal_command ≡ t
  pub same_rewind : plan.rewind_steps ≡ old.rewind_steps
  pub same_mode : plan.resume_mode ≡ old.resume_mode
  pub moves : Moves t old plan actions rebound
  pub corrections_kept : all_but_last rebound ≡ all_but_last actions

-- The captured pointer, the remembered plan, and the plan that was bound to the pointer.
pub record Rebound (py : Runtime) (actions : Items) (flow : Json) (flow_id : String) (index : ℕ)
    (command : String) (rebound : Items) : Type 0 where
  pub pointer : FlowPointer
  pub captured : parse_flow_pointer py flow 0 0 ≡ some pointer
  pub paused : is_paused_at py pointer flow_id index command ≡ true
  pub remembered : RecoveryPlan
  pub was : parse_recovery_plan py (arr actions) ≡ ok remembered
  pub bound : Bound py actions remembered.terminal_command remembered pointer rebound

record Captured (py : Runtime) (flow : Json) (flow_id : String) (index : ℕ) (command : String)
    (p : FlowPointer) : Type 0 where
  captured : parse_flow_pointer py flow 0 0 ≡ some p
  paused : is_paused_at py p flow_id index command ≡ true

module _ (py : Runtime) where
  Captured-Ensures :
      (flow : Json) (flow_id : String) (index : ℕ) (command : String)
      → Ensures
          (Captured py flow flow_id index command)
          (captured_pointer py flow flow_id index command)
  unfolding captured_pointer
  Captured-Ensures flow flow_id index command = at _ refl
    where
      at :
          (o : Option FlowPointer)
          → parse_flow_pointer py flow 0 0 ≡ o
          → Ensures (Captured py flow flow_id index command) (elim o as (λ _. Result FlowPointer) [
            | none ↦ err contract
            | some p ↦
                raise_if (p.completed || not (is_paused_at py p flow_id index command)) contract
                >> ok p
          ])
      at none e = raises contract
      at (some p) e =
          raise_if-Ensures _ _ λ h. returns (record { captured = e; paused = ground arith })

  terminal-Ensures :
      (t : Terminal) (actions : Items) (plan : RecoveryPlan) (p : FlowPointer) (index : ℕ)
      → parse_recovery_plan py (arr actions) ≡ ok plan
      → plan.terminal_command ≡ t
      → p.action_index ≡ some index
      → Ensures (Bound py actions t plan p) (rebind_terminal py t actions plan p index)
  unfolding rebind_terminal accept_rebound
  terminal-Ensures rerun actions plan p index parsed same at = bind-Ensures _ λ u h.
      returns (record {
        plan = plan;
        parsed = parsed;
        live = validate_plan_for_flow-IsLive py (arr actions) plan p parsed h;
        same_terminal = same;
        same_rewind = refl;
        same_mode = refl;
        moves = refl;
        corrections_kept = refl;
      })
  terminal-Ensures resume_flow actions plan p index parsed same at = bind-Ensures _ λ c ec.
      bind-Ensures _ λ t et. bind-Ensures _ λ contexts reads. bind-Ensures _ λ live el.
        bind-Ensures _ λ live_target ef. raise_if-Ensures _ _ λ fits. bind-Ensures _ λ fresh built.
          bind-Ensures _ λ new parsed'. bind-Ensures _ λ u h.
            let kept =
              refreshed_plan fresh live live_target actions plan new
                (parse_recovery_plan-EndsIn py actions parsed)
                (parse_recovery_plan-EndsIn py _ parsed') in
            let terminal = kept.0 ∙ same in
            let names =
              Ensures-ok (build_guarded-NamesRewind p plan.rewind_steps plan.resume_mode) built in
            let safe = parse_recovery_plan-IsSafe py _ parsed' in
            let (same_rewind, same_mode) = same_names new plan terminal safe kept.1 names in
            let is_live = validate_plan_for_flow-IsLive py _ new p parsed' h in
            returns (record {
              plan = new;
              parsed = parsed';
              live = is_live;
              same_terminal = terminal;
              same_rewind = same_rewind;
              same_mode = same_mode;
              moves =
                  moved plan new p index contexts c t live live_target actions actions terminal
                    is_live same_rewind at reads (required_eq _ ec) (required_eq _ et)
                    (required_eq _ el) (required_eq _ ef) fits;
              corrections_kept = all_but_last-map_last _ actions;
            })

  rebind-Ensures :
      (actions : Items) (flow : Json) (flow_id : String) (index : ℕ) (command : String)
      → Ensures
          (Rebound py actions flow flow_id index command)
          (rebind_recovery_actions py actions flow flow_id index command)
  unfolding rebind_recovery_actions
  rebind-Ensures actions flow flow_id index command = bind-Ensures _ λ p ep.
      bind-Ensures _ λ plan parsed.
        let c = Ensures-ok (Captured-Ensures flow flow_id index command) ep in
        map-Ensures
          (λ rebound b. record {
            pointer = p;
            captured = c.captured;
            paused = c.paused;
            remembered = plan;
            was = parsed;
            bound = b;
          })
          (terminal-Ensures plan.terminal_command actions plan p index parsed refl
            (paused_index py p flow_id index command c.paused))

-- Actions that are rebound to a captured Flow form a plan that parses and is live at that Flow's paused
-- step, which is the failed one. It has the terminal command, the mode and the rewind of the plan that
-- the remembered actions form. A remembered `$rerun` is returned as it was; of a remembered
-- `$resume_flow` all actions but the last are, and the failed step and the target that it pins are now
-- those of the captured Flow, at any index, with the command, the area and the item of the remembered
-- ones.
pub rebind_recovery_actions-Rebound :
    (py : Runtime) (actions : Items) (flow : Json) (flow_id : String) (index : ℕ) (command : String)
    {rebound : Items}
    → rebind_recovery_actions py actions flow flow_id index command ≡ ok rebound
    → Rebound py actions flow flow_id index command rebound
rebind_recovery_actions-Rebound py actions flow flow_id index command h =
    Ensures-ok (rebind-Ensures py actions flow flow_id index command) h
