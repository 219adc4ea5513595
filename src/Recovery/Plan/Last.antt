-- ===== src/Recovery/Plan/Last.antt =====
-- What a parsed recovery plan takes from the last action of its list.
use mathlib.Core.Path.{subst}
use failure_resolver.Prelude.{
  true, arith, ◌≡◌, refl, sym, ap, ◌∙◌, String, Option, none, some, List, [], ◌∷◌, last_of, map,
}
use failure_resolver.Json.{Json, str, arr, obj, Items, nil, cons, Fields, end, field, get}
use failure_resolver.Errors.{
  ok, err, contract, Ensures, returns, raises, bind-Ensures, raise_if-Ensures, Ensures-ok,
  map-Ensures,
}
use failure_resolver.Runtime.{Runtime}
use failure_resolver.Recovery.Inputs.{required_text_eq}
use failure_resolver.Recovery.Target.{as_object}
use failure_resolver.Recovery.Plan.Action.{
  ParsedAction, parse_action, RecoveryAction, correction_of,
}
use failure_resolver.Recovery.Plan.Continuation.{
  Terminal, rerun, resume_flow, terminal_of, RecoveryPlan, is_empty_dict, legacy_plan, resume_plan,
}
use failure_resolver.Recovery.Plan.{
  init, finish_plan, assemble_plan, parse_actions, parse_recovery_plan,
}

unfoldable pub last_item : Items → Option Json
last_item nil = none
last_item (cons x nil) = some x
last_item (cons x (cons y ys)) = last_item (cons y ys)

-- The last action holds the plan's terminal command and its arguments.
pub record EndsIn (xs : Items) (plan : RecoveryPlan) : Type 0 where
  pub raw : Fields
  pub last : last_item xs ≡ some (obj raw)
  pub name : String
  pub command : get "command" raw ≡ str name
  pub terminal : terminal_of name ≡ some plan.terminal_command
  pub arguments : get "arguments" raw ≡ obj plan.terminal_arguments

as_object_eq : (v : Json) {d : Fields} → as_object v ≡ ok d → v ≡ obj d
as_object_eq (obj d) e = cc
as_object_eq Json.null e = cc
as_object_eq _ e = cc

-- What a parsed action takes from its value.
record Reads (x : Json) (p : ParsedAction) : Type 0 where
  value : x ≡ obj p.raw
  command : get "command" p.raw ≡ str p.command
  arguments : get "arguments" p.raw ≡ obj p.arguments

parse_action-Reads : (py : Runtime) (x : Json) → Ensures (Reads x) (parse_action py x)
unfolding parse_action
parse_action-Reads py x = bind-Ensures _ λ raw e. raise_if-Ensures _ _ λ _.
    bind-Ensures _ λ command ec. bind-Ensures _ λ _ _. bind-Ensures _ λ arguments ea.
      bind-Ensures _ λ _ _. raise_if-Ensures _ _ λ _. bind-Ensures _ λ _ _. bind-Ensures _ λ _ _.
        returns (record {
          value = as_object_eq x e;
          command = required_text_eq _ 128 ec;
          arguments = as_object_eq _ ea;
        })

-- The last of the parsed actions is read from the last item.
record LastRead (xs : Items) (ps : List ParsedAction) : Type 0 where
  first : ParsedAction
  others : List ParsedAction
  split : ps ≡ first ∷ others
  value : Json
  last : last_item xs ≡ some value
  reads : Reads value (last_of first others)

parse_actions-LastRead :
    (py : Runtime) (x : Json) (xs : Items)
    → Ensures (LastRead (cons x xs)) (parse_actions py (cons x xs))
unfolding parse_actions last_item
parse_actions-LastRead py x nil = bind-Ensures _ λ p e. bind-Ensures _ λ ps es. returns (record {
  first = p;
  others = ps;
  split = refl;
  value = x;
  last = refl;
  reads =
      subst (λ qs. Reads x (last_of p qs)) (alone ps es) (Ensures-ok (parse_action-Reads py x) e);
})
  where
    alone : (ps : List ParsedAction) → parse_actions py nil ≡ ok ps → [] ≡ ps
    alone ps es = cc
parse_actions-LastRead py x (cons y ys) = bind-Ensures _ λ p e. bind-Ensures _ λ ps es.
    let rest = Ensures-ok (parse_actions-LastRead py y ys) es in
    returns (record {
      first = p;
      others = ps;
      split = refl;
      value = rest.value;
      last = rest.last;
      reads = subst (λ qs. Reads rest.value (last_of p qs)) (sym rest.split) rest.reads;
    })

-- What a plan takes from the last of its parsed actions.
record Takes (p : ParsedAction) (plan : RecoveryPlan) : Type 0 where
  terminal : terminal_of p.command ≡ some plan.terminal_command
  arguments : p.arguments ≡ plan.terminal_arguments

empty_is_end : (d : Fields) → is_empty_dict d ≡ true → d ≡ end
empty_is_end end h = refl
empty_is_end (field k v d) h = cc

finish_plan-Takes :
    (cs : List RecoveryAction) (p : ParsedAction) → Ensures (Takes p) (finish_plan cs p)
unfolding finish_plan legacy_plan resume_plan
finish_plan-Takes cs p = at (terminal_of p.command) refl
  where
    at :
        (o : Option Terminal)
        → terminal_of p.command ≡ o
        → Ensures (Takes p) (elim o [
          | none ↦ err contract
          | some t ↦ elim t [
            | rerun ↦ legacy_plan cs p.arguments p.raw
            | resume_flow ↦ resume_plan cs p.arguments p.raw
          ]
        ])
    at none e = raises contract
    at (some rerun) e = raise_if-Ensures _ _ λ _. raise_if-Ensures _ _ λ is_empty.
        bind-Ensures _ λ _ _. bind-Ensures _ λ _ _. raise_if-Ensures _ _ λ _.
          raise_if-Ensures _ _ λ _. bind-Ensures _ λ _ _. bind-Ensures _ λ _ _.
            returns (record { terminal = e; arguments = empty_is_end p.arguments (ground arith) })
    at (some resume_flow) e = raise_if-Ensures _ _ λ _. bind-Ensures _ λ _ _. bind-Ensures _ λ _ _.
        raise_if-Ensures _ _ λ _. bind-Ensures _ λ _ _. bind-Ensures _ λ _ _. bind-Ensures _ λ _ _.
          raise_if-Ensures _ _ λ _. bind-Ensures _ λ _ _. bind-Ensures _ λ _ _.
            bind-Ensures _ λ _ _. bind-Ensures _ λ _ _. raise_if-Ensures _ _ λ _.
              bind-Ensures _ λ _ _. raise_if-Ensures _ _ λ _. raise_if-Ensures _ _ λ _.
                bind-Ensures _ λ _ _. bind-Ensures _ λ _ _.
                  raise_if-Ensures _ _ λ _. returns (record { terminal = e; arguments = refl })

assemble_plan-Takes :
    (p : ParsedAction) (ps : List ParsedAction)
    → Ensures (Takes (last_of p ps)) (assemble_plan (p ∷ ps))
unfolding assemble_plan
assemble_plan-Takes p ps =
    raise_if-Ensures _ _ λ _.
      bind-Ensures _ λ _ _. finish_plan-Takes (map correction_of (init (p ∷ ps))) (last_of p ps)

assembled-EndsIn :
    {xs : Items} {ps : List ParsedAction} → LastRead xs ps → Ensures (EndsIn xs) (assemble_plan ps)
assembled-EndsIn {xs} l =
    subst (λ qs. Ensures (EndsIn xs) (assemble_plan qs)) (sym l.split)
      (map-Ensures
        (λ plan takes. record {
          raw = (last_of l.first l.others).raw;
          last = l.last ∙ ap some l.reads.value;
          name = (last_of l.first l.others).command;
          command = l.reads.command;
          terminal = takes.terminal;
          arguments = l.reads.arguments ∙ ap obj takes.arguments;
        })
        (assemble_plan-Takes l.first l.others))

no_actions : (py : Runtime) (ps : List ParsedAction) → parse_actions py nil ≡ ok ps → [] ≡ ps
unfolding parse_actions
no_actions py ps e = cc

none_assembled : Ensures (EndsIn nil) (assemble_plan [])
unfolding assemble_plan
none_assembled = raises contract

plan-EndsIn : (py : Runtime) (xs : Items) → Ensures (EndsIn xs) (parse_recovery_plan py (arr xs))
unfolding parse_recovery_plan
plan-EndsIn py nil = raise_if-Ensures _ _ λ _. bind-Ensures _ λ ps es.
    subst (λ qs. Ensures (EndsIn nil) (assemble_plan qs)) (no_actions py ps es) none_assembled
plan-EndsIn py (cons x xs) =
    raise_if-Ensures _ _
      λ _. bind-Ensures _ λ ps es. assembled-EndsIn (Ensures-ok (parse_actions-LastRead py x xs) es)

pub parse_recovery_plan-EndsIn :
    (py : Runtime) (xs : Items) {plan : RecoveryPlan}
    → parse_recovery_plan py (arr xs) ≡ ok plan
    → EndsIn xs plan
parse_recovery_plan-EndsIn py xs h = Ensures-ok (plan-EndsIn py xs) h
