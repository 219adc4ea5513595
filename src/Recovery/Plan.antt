-- ===== src/Recovery/Plan.antt =====
-- `parse_recovery_plan` of recovery_executor.py.
pub mod Action
pub mod Continuation
pub mod Shape
pub mod Last
use failure_resolver.Prelude.{
  ℕ, zero, suc, ◌+◌, ◌-◌, String, Bool, true, false, not, ◌&&◌, ◌||◌, Option, none, some, List, [],
  ◌∷◌, ◌==◌, leb, if◌then◌else◌, starts_with_dollar, length, map, last_of, is_some,
}
use failure_resolver.Json.{Json, arr, Items, nil, cons, Fields, get, is_null}
use failure_resolver.Errors.{Result, ok, err, contract, ◌>>=◌, ◌>>◌, raise_if, Done}
use failure_resolver.Runtime.{Runtime}
use failure_resolver.Recovery.Session.{item_count}
use Action.{ParsedAction, parse_action, RecoveryAction, correction_of}
use Continuation.{Terminal, rerun, resume_flow, terminal_of, RecoveryPlan, legacy_plan, resume_plan}

-- The positions of the terminal commands, counted from `i`.
unfoldable pub terminal_positions : ℕ → List ParsedAction → List ℕ
terminal_positions i [] = []
terminal_positions i (p ∷ ps) =
    let rest = terminal_positions (suc i) ps in
    if is_some (terminal_of p.command) then i ∷ rest else rest

-- `positions == [n]`
unfoldable pub is_only : List ℕ → ℕ → Bool
is_only (i ∷ []) n = i == n
is_only _ n = false

-- `parsed[:-1]`
unfoldable pub init : List ParsedAction → List ParsedAction
init [] = []
init (p ∷ []) = []
init (p ∷ q ∷ ps) = p ∷ init (q ∷ ps)

-- A correction is no meta-command and carries no continuation context.
unfoldable pub check_corrections : List ParsedAction → Result Done
check_corrections [] = ok tt
check_corrections (p ∷ ps) = do
  raise_if (starts_with_dollar p.command) contract
  raise_if
      (not (is_null (get "retry_context" p.raw))
        || not (is_null (get "continuation_context" p.raw)))
      contract
  check_corrections ps

-- The plan that ends in the last of the parsed actions.
finish_plan : List RecoveryAction → ParsedAction → Result RecoveryPlan
finish_plan corrections p = elim (terminal_of p.command) [
  | none ↦ err contract
  | some t ↦ elim t [
    | rerun ↦ legacy_plan corrections p.arguments p.raw
    | resume_flow ↦ resume_plan corrections p.arguments p.raw
  ]
]

-- What follows the loop over the actions: all but the last are corrections.
unfoldable pub assemble_plan : List ParsedAction → Result RecoveryPlan
unfolding finish_plan
assemble_plan [] = err contract
assemble_plan (p ∷ ps) = do
  raise_if (not (is_only (terminal_positions 0 (p ∷ ps)) (length ps))) contract
  check_corrections (init (p ∷ ps))
  finish_plan (map correction_of (init (p ∷ ps))) (last_of p ps)

module _ (py : Runtime) where
  unfoldable pub parse_actions : Items → Result (List ParsedAction)
  parse_actions nil = ok []
  parse_actions (cons x xs) = do p ← parse_action py x; ps ← parse_actions xs; ok (p ∷ ps)

  unfoldable pub parse_recovery_plan : Json → Result RecoveryPlan
  parse_recovery_plan (arr xs) = do
    raise_if (not (leb 1 (item_count xs) && leb (item_count xs) 10)) contract
    parsed ← parse_actions xs
    assemble_plan parsed
  parse_recovery_plan _ = err contract
