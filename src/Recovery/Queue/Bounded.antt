-- ===== src/Recovery/Queue/Bounded.antt =====
-- The invariant of the queue of failures, and that no notification of a pending failure is lost.
use failure_resolver.Prelude.{
  ◌≡◌, ◌≤◌, refl, String, Bool, true, false, not, ◌&&◌, ◌||◌, some, [], ◌∷◌, ◌++◌, leb, length,
  arith, Bool-cases, Option-cases, inl, inr, length-append,
}
use failure_resolver.Json.{Json, str, mem}
use failure_resolver.Runtime.{Runtime}
use failure_resolver.Recovery.Inputs.{uuid_text}
use failure_resolver.Recovery.Queue.{
  max_pending_failures, Queue, add, discard, notify_canonical, notify_failure, finish_processing,
  Step, notified, processed, stop, Reachable, new, after,
}
use failure_resolver.Recovery.Queue.Sets.{
  Distinct, Within, mem-discard_gone, discard-Distinct, length-discard_le, length-discard_lt,
  mem-add, mem-cons_keeps, add-Within, discard-Within,
}

pub record IsValid (q : Queue) : Type 0 where
  pub bounded : length q.pending ≤ max_pending_failures
  pub distinct : Distinct q.pending
  pub dirty_pending : Within q.dirty q.pending
  pub counted : q.events_enqueued ≡ length q.started

notify_canonical-IsValid : (id : String) (q : Queue) → IsValid q → IsValid (notify_canonical id q)
unfolding notify_canonical
notify_canonical-IsValid id q v = elim (Bool-cases (mem id q.pending)) [
  | inl there ↦
      rw (there, notify_canonical)
        (record {
          bounded = v.bounded;
          distinct = v.distinct;
          dirty_pending = add-Within id q.dirty q.pending v.dirty_pending there;
          counted = v.counted;
        })
  | inr gone ↦ elim (Bool-cases (leb max_pending_failures (length q.pending))) [
    | inl full ↦
        rw (gone, full, notify_canonical)
          (record {
            bounded = v.bounded;
            distinct = v.distinct;
            dirty_pending = v.dirty_pending;
            counted = v.counted;
          })
    | inr free ↦
        rw (gone, free, notify_canonical)
          (record {
            bounded = ground arith;
            distinct = (gone, v.distinct);
            dirty_pending = λ x m. mem-cons_keeps x id q.pending (v.dirty_pending x m);
            counted = ground (arith, length-append q.started (id ∷ []));
          })
  ]
]

module _ (py : Runtime) where
  notify_failure-IsValid : (f : Json) (q : Queue) → IsValid q → IsValid (notify_failure py f q)
  unfolding notify_failure
  notify_failure-IsValid f q v = elim (Bool-cases (not q.enabled || q.stopped)) [
    | inl off ↦ rw (off, notify_failure) v
    | inr on ↦ elim (Option-cases (uuid_text py f)) [
      | inl no_id ↦
          rw (on, no_id, notify_failure)
            (record {
              bounded = v.bounded;
              distinct = v.distinct;
              dirty_pending = v.dirty_pending;
              counted = v.counted;
            })
      | inr (id, found) ↦ rw (on, found, notify_failure) (notify_canonical-IsValid id q v)
    ]
  ]

  finish_processing-IsValid :
      (id : String) (q : Queue) → IsValid q → IsValid (finish_processing py id q)
  unfolding finish_processing
  finish_processing-IsValid id q v = elim (Bool-cases (mem id q.dirty && not q.stopped)) [
    | inl again ↦ rw (again, finish_processing) (notify_failure-IsValid (str id) _ discarded)
    | inr once ↦ rw (once, finish_processing) discarded
  ]
    where
      discarded : IsValid (record q { pending = discard id q.pending; dirty = discard id q.dirty })
      discarded = record {
        bounded = ground (arith, length-discard_le id q.pending, v.bounded);
        distinct = discard-Distinct id q.pending v.distinct;
        dirty_pending = discard-Within id q.dirty q.pending v.dirty_pending;
        counted = v.counted;
      }

  Step-IsValid : {q q' : Queue} → Step py q q' → IsValid q → IsValid q'
  Step-IsValid (notified f q) v = notify_failure-IsValid f q v
  Step-IsValid (processed id q pending) v = finish_processing-IsValid id q v
  Step-IsValid (stop q) v = record {
    bounded = v.bounded;
    distinct = v.distinct;
    dirty_pending = v.dirty_pending;
    counted = v.counted;
  }

-- After any notifications, ends of processing and stops, at most 512 failures are pending, none of
-- them twice, every failure that is marked for a replay is pending, and the counter of enqueued
-- events is the number of tasks that were started.
pub Reachable-IsValid : (py : Runtime) {q : Queue} → Reachable py q → IsValid q
Reachable-IsValid py (new enabled) = record {
  bounded = ground arith;
  distinct = tt;
  dirty_pending = λ x h. h;
  counted = refl;
}
Reachable-IsValid py (after reached step) = Step-IsValid py step (Reachable-IsValid py reached)

takes :
    (enabled stopped : Bool) → enabled ≡ true → stopped ≡ false → (not enabled || stopped) ≡ false
takes enabled stopped e s = ground arith

replays : (marked stopped : Bool) → marked ≡ true → stopped ≡ false → (marked && not stopped) ≡ true
replays marked stopped m s = ground arith

-- A notification of a pending failure only marks it.
notify_pending :
    (py : Runtime) (f : Json) (id : String) (q : Queue)
    → q.enabled ≡ true
    → q.stopped ≡ false
    → uuid_text py f ≡ some id
    → mem id q.pending ≡ true
    → notify_failure py f q ≡ record q { dirty = add id q.dirty }
unfolding notify_failure notify_canonical
notify_pending py f id q on running found pending =
    rw (takes _ _ on running, found, pending, notify_failure, notify_canonical) refl

-- A notification of another failure starts its task, where there is room.
notify_starts :
    (py : Runtime) (f : Json) (id : String) (q : Queue)
    → q.enabled ≡ true
    → q.stopped ≡ false
    → uuid_text py f ≡ some id
    → mem id q.pending ≡ false
    → leb max_pending_failures (length q.pending) ≡ false
    → (notify_failure py f q).started ≡ q.started ++ id ∷ []
unfolding notify_failure notify_canonical
notify_starts py f id q on running found gone free =
    rw (takes _ _ on running, found, gone, free, notify_failure, notify_canonical) refl

-- The end of the processing of a marked failure starts it again.
finish_marked :
    (py : Runtime) (id : String) (q : Queue)
    → q.enabled ≡ true
    → q.stopped ≡ false
    → uuid_text py (str id) ≡ some id
    → mem id q.pending ≡ true
    → length q.pending ≤ max_pending_failures
    → mem id q.dirty ≡ true
    → (finish_processing py id q).started ≡ q.started ++ id ∷ []
unfolding finish_processing
finish_marked py id q on running stable pending bounded marked =
    rw (replays _ _ marked running, finish_processing)
      (notify_starts py (str id) id
        (record q { pending = discard id q.pending; dirty = discard id q.dirty }) on running stable
        (mem-discard_gone id q.pending) free)
  where
    free : leb max_pending_failures (length (discard id q.pending)) ≡ false
    free = ground (arith, length-discard_lt id q.pending pending, bounded)

-- A notification that arrives while its failure is processed is not lost, and not refused for want
-- of room: if the processing ends next, in a reachable queue that is enabled and not stopped, exactly
-- one new task is started, of that failure. The identifier is well-formed, and its canonical text is
-- canonical itself.
pub finish_processing-notify_failure :
    (py : Runtime) (failure_id : Json) (id : String) {q : Queue}
    → Reachable py q
    → q.enabled ≡ true
    → q.stopped ≡ false
    → uuid_text py failure_id ≡ some id
    → uuid_text py (str id) ≡ some id
    → mem id q.pending ≡ true
    → (finish_processing py id (notify_failure py failure_id q)).started ≡ q.started ++ id ∷ []
finish_processing-notify_failure py failure_id id {q} reached on running found stable pending =
    rw (notify_pending py failure_id id q on running found pending) (
      finish_marked py id (record q { dirty = add id q.dirty }) on running stable pending
        ((Reachable-IsValid py reached).bounded) (mem-add id q.dirty))
