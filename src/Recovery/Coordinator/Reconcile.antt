-- ===== src/Recovery/Coordinator/Reconcile.antt =====
-- `RecoveryCoordinator.reconcile` of recovery_executor.py: attempts whose lease has expired are closed
-- as unknown, and the failures that were never sent are notified again.
pub mod Swept
use failure_resolver.Prelude.{
  ℕ, ◌+◌, ◌≡◌, String, Bool, true, false, not, Option, none, some, List, [], ◌∷◌, ◌++◌,
  if◌then◌else◌,
}
use failure_resolver.Json.{Json, Fields}
use failure_resolver.Errors.{Error, cancelled, database_unavailable, Result, ok, err, Done}
use failure_resolver.Runtime.{Runtime}
use failure_resolver.Recovery.Session.{SessionRecord, parse_recovery_session}
use failure_resolver.Recovery.Attempt.Monad.{Stats}

-- The arguments of `database.expire`, but for its message.
pub record ExpireCall : Type 0 where
  pub failure_id : String
  pub recovery_session_id : String
  pub run_token : String

-- The database as `reconcile` calls it, and `notify_failure`.
pub record Reconciler : Type 1 where
  pub World : Type 0
  pub has_database : World → Bool
  pub expired_attempts : World → Result (List Fields) × World
  pub expire : ExpireCall → World → Result Done × World
  pub cold_candidates : World → Result (List Json) × World
  pub notify_failure : Json → World → World

-- The world, the calls of `expire` so far and the counters.
pub record Sweep (W : Type 0) : Type 0 where
  pub world : W
  pub expires : List ExpireCall
  pub stats : Stats

-- `record.recovery_run_token or ""`
or_empty : Option String → String
or_empty none = ""
or_empty (some t) = t

unfoldable pub call_of : SessionRecord → ExpireCall
unfolding or_empty
call_of s = record {
  failure_id = s.current_failure_id;
  recovery_session_id = s.recovery_session_id;
  run_token = or_empty s.recovery_run_token;
}

module _ {W : Type 0} where
  -- The two `except` clauses around one row.
  unfoldable pub caught : Error → Sweep W → Result Done × Sweep W
  caught cancelled s = (err cancelled, s)
  caught e s = (
    ok tt,
    record s {
      stats = record s.stats {
        execution_errors = s.stats.execution_errors + 1;
        last_error_type = some e;
      };
    },
  )

  unfoldable pub after_expire : Result Done → Sweep W → Result Done × Sweep W
  after_expire (ok d) s = (
    ok tt,
    record s {
      stats = record s.stats {
        expired_attempts_reconciled = s.stats.expired_attempts_reconciled + 1;
        attempts_unknown = s.stats.attempts_unknown + 1;
      };
    },
  )
  after_expire (err e) s = caught e s

module _ (py : Runtime) (rec : Reconciler) where
  open rec use {World}

  unfoldable pub expire_parsed : Result SessionRecord → Sweep World → Result Done × Sweep World
  expire_parsed (err e) s = caught e s
  expire_parsed (ok session) s =
      let (x, w) = rec.expire (call_of session) s.world in
      after_expire x (record s { world = w; expires = s.expires ++ call_of session ∷ [] })

  unfoldable pub go_on :
      Result Done
      → (Sweep World → Result Done × Sweep World)
      → Sweep World
      → Result Done × Sweep World
  go_on (ok d) rest s = rest s
  go_on (err e) rest s = (err e, s)

  -- The loop over the expired attempts.
  unfoldable pub expire_rows : List Fields → Sweep World → Result Done × Sweep World
  expire_rows [] s = (ok tt, s)
  expire_rows (row ∷ rows) s =
      let (x, s') = expire_parsed (parse_recovery_session py row true) s in
      go_on x (expire_rows rows) s'

  unfoldable pub notify_all : List Json → World → World
  notify_all [] w = w
  notify_all (id ∷ ids) w = notify_all ids (rec.notify_failure id w)

  unfoldable pub notify_cold : Sweep World → Result Done × Sweep World
  notify_cold s =
      let (x, w) = rec.cold_candidates s.world in
      elim x [
        | ok ids ↦ (ok tt, record s { world = notify_all ids w })
        | err e ↦ (err e, record s { world = w })
      ]

  unfoldable pub sweep : Sweep World → Result Done × Sweep World
  sweep s =
      let (x, w) = rec.expired_attempts s.world in
      elim x [
        | err e ↦ (err e, record s { world = w })
        | ok rows ↦
            let (y, s') = expire_rows rows (record s { world = w }) in go_on y notify_cold s'
      ]

  unfoldable pub reconcile : Bool → Sweep World → Result Done × Sweep World
  reconcile enabled s =
      if not enabled
      then (ok tt, s)
      else if rec.has_database s.world
      then sweep s
      else (err database_unavailable, s)
