-- ===== src/Recovery/Queue.antt =====
-- The queue of failures of recovery_executor.py: `RecoveryCoordinator.notify_failure`, the `finally`
-- of `_process_notified`, and the stop event. A Python set is a list without duplicates.
pub mod Sets
pub mod Bounded
use failure_resolver.Prelude.{
  ℕ, ◌+◌, ◌≡◌, String, Bool, true, false, not, ◌&&◌, ◌||◌, Option, none, some, List, [], ◌∷◌, ◌++◌,
  leb, str_eq, if◌then◌else◌, length,
}
use failure_resolver.Json.{Json, str, mem}
use failure_resolver.Runtime.{Runtime}
use failure_resolver.Recovery.Inputs.{uuid_text}

-- `_MAX_PENDING_FAILURES`
abbrev pub max_pending_failures : ℕ
max_pending_failures = 512

-- `started` is the log of the tasks that were created, by their failure.
pub record Queue : Type 0 where
  pub enabled : Bool
  pub stopped : Bool
  pub pending : List String
  pub dirty : List String
  pub started : List String
  pub events_skipped : ℕ
  pub events_enqueued : ℕ

-- `set.add` and `set.discard`
unfoldable pub add : String → List String → List String
add x xs = if mem x xs then xs else x ∷ xs

unfoldable pub discard : String → List String → List String
discard x [] = []
discard x (y ∷ ys) = let rest = discard x ys in if str_eq y x then rest else y ∷ rest

abbrev pub skip : Queue → Queue
skip q = record q { events_skipped = q.events_skipped + 1 }

unfoldable pub notify_canonical : String → Queue → Queue
unfolding add
notify_canonical id q =
    if mem id q.pending
    then record q { dirty = add id q.dirty }
    else if leb max_pending_failures (length q.pending)
    then skip q
    else record q {
      pending = add id q.pending;
      events_enqueued = q.events_enqueued + 1;
      started = q.started ++ id ∷ [];
    }

module _ (py : Runtime) where
  unfoldable pub notify_failure : Json → Queue → Queue
  notify_failure failure_id q =
      if not q.enabled || q.stopped
      then q
      else elim (uuid_text py failure_id) [ none ↦ skip q | some id ↦ notify_canonical id q ]

  -- The `finally` of `_process_notified`, however the processing ended.
  unfoldable pub finish_processing : String → Queue → Queue
  finish_processing id q =
      let replay = mem id q.dirty in
      let q' = record q { pending = discard id q.pending; dirty = discard id q.dirty } in
      if replay && not q.stopped then notify_failure (str id) q' else q'

  -- What happens to the queue: a notification, the end of the processing of a pending failure, and
  -- the stop event of `stop`.
  pub data Step : Queue → Queue → Type 0 where
    notified : (failure_id : Json) (q : Queue) → Step q (notify_failure failure_id q)
    processed :
        (id : String) (q : Queue) → mem id q.pending ≡ true → Step q (finish_processing id q)
    stop : (q : Queue) → Step q (record q { stopped = true })

  abbrev pub fresh : Bool → Queue
  fresh enabled = record {
    enabled = enabled;
    stopped = false;
    pending = [];
    dirty = [];
    started = [];
    events_skipped = 0;
    events_enqueued = 0;
  }

  pub data Reachable : Queue → Type 0 where
    new : (enabled : Bool) → Reachable (fresh enabled)
    after : {q q' : Queue} → Reachable q → Step q q' → Reachable q'
