-- ===== src/Recovery/Tests/Leases.antt =====
-- A reconciliation of two expired attempts, of which the row of one cannot be read.
use failure_resolver.Prelude.{List, [], ◌∷◌, length, none, true}
use failure_resolver.Json.{Fields, end}
use failure_resolver.Errors.{ok}
use failure_resolver.Recovery.Coordinator.Reconcile.{Reconciler, Sweep, expire_rows}
use failure_resolver.Recovery.Coordinator.Reconcile.Swept.{Swept, calls_of, expire_rows-Swept}
use failure_resolver.Recovery.Tests.Samples.{python, row}

abbrev rows : List Fields
rows = end ∷ row ∷ []

abbrev reconciler : Reconciler
reconciler = record {
  World = Unit;
  has_database = λ w. true;
  expired_attempts = λ w. (ok rows, w);
  expire = λ c w. (ok tt, w);
  cold_candidates = λ w. (ok [], w);
  notify_failure = λ id w. w;
}

abbrev idle : Sweep Unit
idle = record {
  world = tt;
  expires = [];
  stats = record {
    events_skipped = 0;
    recurrences_attached = 0;
    sessions_prepared = 0;
    attempts_claimed = 0;
    actions_accepted = 0;
    attempts_recovered = 0;
    attempts_failed = 0;
    attempts_unknown = 0;
    sessions_timed_out = 0;
    expired_attempts_reconciled = 0;
    execution_errors = 0;
    last_failure_id = none;
    last_session_id = none;
    last_error_type = none;
  };
}

expire_rows-Swept_example :
    Swept (length rows) (calls_of python rows) idle (expire_rows python reconciler rows idle)
expire_rows-Swept_example = expire_rows-Swept python reconciler rows idle
