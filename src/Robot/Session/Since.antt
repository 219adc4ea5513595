-- ===== src/Robot/Session/Since.antt =====
-- What a session holds of a registered request, over all that happens to it meanwhile.
use failure_resolver.Prelude.{
  ℕ, ◌+◌, ◌≡◌, ◌≤◌, String, true, not, Option, none, some, List, [], ◌∷◌, str_eq, All, Bool-cases,
  Option-cases, inl, inr, arith, strip, is_empty,
}
use failure_resolver.Json.{Json, null, str, obj, Fields, get, lookup}
use failure_resolver.Errors.{Result, ok, err, cancelled, outcome_unknown, Done}
use failure_resolver.Runtime.{Runtime}
use failure_resolver.Robot.Pointer.{text}
use failure_resolver.Robot.Frames.{CommandReceipt}
use failure_resolver.Robot.Session.{
  Future, waiting, answered, failed, Pending, Session, activate_connection, settle_future,
  settle_at, answer, settle_response, reject_all, answer_error, reject_pending_unknown,
  close_connection, response_section, commands_section, publish_commands, flow_section,
  publish_flow, invalidate_connection,
}
use failure_resolver.Robot.Session.Request.{
  Ticket, pop_pending, pop, register_request, is_current, dispatch, future_of, conclude,
}
use failure_resolver.Robot.Session.History.{
  Step, activated, closed, answered_to, commands_shown, flow_shown, registered, dispatched,
  concluded, Runs, same, more,
}

-- A receipt between two states, given by their connections and their Flow revisions.
pub record Between (g n g' n' : ℕ) (r : CommandReceipt) : Type 0 where
  pub generation_from : g ≤ r.generation
  pub generation_to : r.generation ≤ g'
  pub revision_from : n ≤ r.flow_revision_at_correlated_ack
  pub revision_to : r.flow_revision_at_correlated_ack ≤ n'

unfoldable pub Fine : (g n g' n' : ℕ) → Future → Type 0
Fine g n g' n' (answered r) = Between g n g' n' r
Fine g n g' n' _ = Unit

module _ (g n : ℕ) (id : String) where
  unfoldable pub Kept : ℕ → ℕ → Pending → Type 0
  unfolding Fine
  Kept g' n' p = str_eq p.request_id id ≡ true → Fine g n g' n' p.future

  -- What the session holds of the request `id`, that was registered at connection `g` and revision `n`.
  pub record Since (s : Session) : Type 0 where
    pub generation : g ≤ s.generation
    pub revision : n ≤ s.flow_revision
    pub kept : All (Kept s.generation s.flow_revision) s.pending

  Fine-later :
      (g' n' g'' n'' : ℕ) (f : Future) → g' ≤ g'' → n' ≤ n'' → Fine g n g' n' f → Fine g n g'' n'' f
  unfolding Fine
  Fine-later g' n' g'' n'' waiting hg hn k = tt
  Fine-later g' n' g'' n'' (failed e) hg hn k = tt
  Fine-later g' n' g'' n'' (answered r) hg hn k = record {
    generation_from = k.generation_from;
    generation_to = ground (arith, k.generation_to);
    revision_from = k.revision_from;
    revision_to = ground (arith, k.revision_to);
  }

  Kept-later :
      (g' n' g'' n'' : ℕ) (ps : List Pending)
      → g' ≤ g''
      → n' ≤ n''
      → All (Kept g' n') ps
      → All (Kept g'' n'') ps
  unfolding Kept
  Kept-later g' n' g'' n'' [] hg hn k = tt
  Kept-later g' n' g'' n'' (p ∷ ps) hg hn k =
      (λ e. Fine-later g' n' g'' n'' p.future hg hn (k.0 e), Kept-later g' n' g'' n'' ps hg hn k.1)

  Fine-settle :
      (g' n' : ℕ) (f new : Future)
      → Fine g n g' n' f
      → Fine g n g' n' new
      → Fine g n g' n' (settle_future f new)
  unfolding settle_future
  Fine-settle g' n' waiting new k h = h
  Fine-settle g' n' (answered r) new k h = k
  Fine-settle g' n' (failed e) new k h = k

  Kept-settle_at :
      (g' n' : ℕ) (i : String) (new : Future) (ps : List Pending)
      → Fine g n g' n' new
      → All (Kept g' n') ps
      → All (Kept g' n') (settle_at i new ps)
  unfolding settle_at Kept
  Kept-settle_at g' n' i new [] h k = tt
  Kept-settle_at g' n' i new (p ∷ ps) h k = elim (Bool-cases (str_eq p.request_id i)) [
    | inl hit ↦ simp (hit, settle_at) ((λ e. Fine-settle g' n' p.future new (k.0 e) h), k.1)
    | inr miss ↦ simp (miss, settle_at) (k.0, Kept-settle_at g' n' i new ps h k.1)
  ]

  Kept-reject_all :
      (g' n' : ℕ) (ps : List Pending) → All (Kept g' n') ps → All (Kept g' n') (reject_all ps)
  unfolding reject_all Kept Fine
  Kept-reject_all g' n' [] k = tt
  Kept-reject_all g' n' (p ∷ ps) k = (
    λ e. Fine-settle g' n' p.future (failed outcome_unknown) (k.0 e) tt,
    Kept-reject_all g' n' ps k.1,
  )

  Kept-pop :
      (g' n' : ℕ) (i : String) (ps : List Pending)
      → All (Kept g' n') ps
      → All (Kept g' n') (pop_pending i ps)
  unfolding pop_pending
  Kept-pop g' n' i [] k = tt
  Kept-pop g' n' i (p ∷ ps) k = elim (Bool-cases (str_eq p.request_id i)) [
    | inl hit ↦ rw (hit, pop_pending) (Kept-pop g' n' i ps k.1)
    | inr miss ↦ rw (miss, pop_pending) (k.0, Kept-pop g' n' i ps k.1)
  ]

  -- A request that is just registered has no other entry.
  pub Kept-fresh : (g' n' : ℕ) (ps : List Pending) → All (Kept g' n') (pop_pending id ps)
  unfolding pop_pending Kept
  Kept-fresh g' n' [] = tt
  Kept-fresh g' n' (p ∷ ps) = elim (Bool-cases (str_eq p.request_id id)) [
    | inl hit ↦ rw (hit, pop_pending) (Kept-fresh g' n' ps)
    | inr miss ↦ rw (miss, pop_pending) (λ e. cc, Kept-fresh g' n' ps)
  ]

  pub future_of-Fine :
      (g' n' : ℕ) (ps : List Pending) → All (Kept g' n') ps → Fine g n g' n' (future_of id ps)
  unfolding future_of Kept Fine
  future_of-Fine g' n' [] k = tt
  future_of-Fine g' n' (p ∷ ps) k = elim (Bool-cases (str_eq p.request_id id)) [
    | inl hit ↦ rw (hit, future_of) (k.0 hit)
    | inr miss ↦ rw (miss, future_of) (future_of-Fine g' n' ps k.1)
  ]

  -- More pending requests may be dropped or settled; the connection and the revision stay.
  with-Kept :
      {s : Session} (ps : List Pending)
      → Since s
      → All (Kept s.generation s.flow_revision) ps
      → Since (record s { pending = ps })
  with-Kept ps v k = record { generation = v.generation; revision = v.revision; kept = k }

  answer_error-Fine :
      (e : Json) (response : Fields) {s : Session}
      → Since s
      → Fine g n s.generation s.flow_revision (answer_error e response s)
  unfolding answer_error Fine
  answer_error-Fine null response {s} v = record {
    generation_from = v.generation;
    generation_to = omega arith;
    revision_from = v.revision;
    revision_to = omega arith;
  }
  answer_error-Fine (str e) response {s} v = elim (Bool-cases (is_empty (strip e))) [
    | inl blank ↦ rw (blank) tt
    | inr full ↦ rw (full) tt
  ]
  answer_error-Fine _ response {s} v = tt

  answer-Fine :
      (response : Fields) {s : Session}
      → Since s
      → Fine g n s.generation s.flow_revision (answer response s)
  unfolding answer Fine
  answer-Fine response {s} v = at (lookup "error" response)
    where
      at :
          (o : Option Json)
          → Fine g n s.generation s.flow_revision (elim o as (λ _. Future) [
            | none ↦ failed outcome_unknown
            | some e ↦ answer_error e response s
          ])
      at none = tt
      at (some e) = answer_error-Fine e response v

  pop-Since : (i : String) {s : Session} → Since s → Since (pop i s)
  unfolding pop
  pop-Since i {s} v =
      with-Kept (pop_pending i s.pending) v
        (Kept-pop s.generation s.flow_revision i s.pending v.kept)

  activate-Since : (w : ℕ) {s : Session} → Since s → Since (activate_connection w s)
  unfolding activate_connection
  activate-Since w {s} v = record {
    generation = ground (arith, v.generation);
    revision = v.revision;
    kept =
        Kept-later s.generation s.flow_revision (s.generation + 1) s.flow_revision s.pending
          (omega arith) (omega arith) v.kept;
  }

  close-Since : {s : Session} → Since s → Since (close_connection s)
  unfolding reject_pending_unknown invalidate_connection
  close-Since {s} v = record {
    generation = v.generation;
    revision = v.revision;
    kept = Kept-reject_all s.generation s.flow_revision s.pending v.kept;
  }

  response-Since : (payload : Fields) {s : Session} → Since s → Since (response_section payload s)
  unfolding response_section settle_response
  response-Since payload {s} v = at (get "response" payload)
    where
      at :
          (r : Json)
          → Since (elim r as (λ _. Session) [ obj response ↦ settle_response response s | _ ↦ s ])
      at (obj response) = elim (Option-cases (text (get "request_id" response))) [
        | inl no_id ↦ simp (no_id, settle_response) v
        | inr (i, named) ↦
            simp (named, settle_response)
              (with-Kept (settle_at i (answer response s) s.pending) v (
                Kept-settle_at s.generation s.flow_revision i (answer response s) s.pending
                  (answer-Fine response v) v.kept))
      ]
      at _ = v

  commands-Since : (payload : Fields) {s : Session} → Since s → Since (commands_section payload s)
  unfolding commands_section publish_commands
  commands-Since payload {s} v = at (get "commands" payload)
    where
      at :
          (r : Json)
          → Since (elim r as (λ _. Session) [ obj commands ↦ publish_commands commands s | _ ↦ s ])
      at (obj commands) = record { generation = v.generation; revision = v.revision; kept = v.kept }
      at _ = v

  flow-Since :
      (py : Runtime) (payload : Fields) {s : Session} → Since s → Since (flow_section py payload s)
  unfolding flow_section publish_flow
  flow-Since py payload {s} v = elim (Option-cases (lookup "flow" payload)) [
    | inl absent ↦ simp (absent, flow_section) v
    | inr (flow, there) ↦
        simp (there, flow_section)
          (record {
            generation = v.generation;
            revision = ground (arith, v.revision);
            kept =
                Kept-later s.generation s.flow_revision s.generation (s.flow_revision + 1) s.pending
                  (omega arith) (omega arith) v.kept;
          })
  ]

  register-Since :
      (i command : String) {s : Session} → Since s → Since (register_request i command s).1
  unfolding register_request Kept Fine
  register-Since i command {s} v = elim (Bool-cases s.connected) [
    | inr off ↦ simp (off, register_request) v
    | inl on ↦ elim (Option-cases s.websocket) [
      | inl no_socket ↦ simp (on, no_socket, register_request) v
      | inr (w, here) ↦ elim (Bool-cases (is_empty (strip command))) [
        | inl blank ↦ simp (on, here, blank, register_request) v
        | inr full ↦
            simp (on, here, full, register_request)
              (record {
                generation = v.generation;
                revision = v.revision;
                kept = (λ _. tt, Kept-pop s.generation s.flow_revision i s.pending v.kept);
              })
      ]
    ]
  ]

  dispatch-Since :
      (t : Ticket) (sent : Result Done) {s : Session} → Since s → Since (dispatch t sent s).1
  unfolding dispatch
  dispatch-Since t sent {s} v = elim (Bool-cases (not (is_current t s))) [
    | inl gone ↦ rw (gone, dispatch) (pop-Since t.request_id v)
    | inr here ↦ rw (here, dispatch) (at sent)
  ]
    where
      at :
          (x : Result Done)
          → Since
              (elim x as (λ _. Result Done × Session) [
                | ok d ↦ (ok d, s)
                | err e ↦ elim e [
                  | cancelled ↦ (err cancelled, s)
                  | _ ↦ (err outcome_unknown, pop t.request_id s)
                ]
              ]).1
      at (ok d) = v
      at (err cancelled) = v
      at (err _) = pop-Since t.request_id v

  Step-Since : (py : Runtime) {s s' : Session} → Step py s s' → Since s → Since s'
  unfolding conclude
  Step-Since py (activated w s) v = activate-Since w v
  Step-Since py (closed s) v = close-Since v
  Step-Since py (answered_to payload s) v = response-Since payload v
  Step-Since py (commands_shown payload s on) v = commands-Since payload v
  Step-Since py (flow_shown payload s on) v = flow-Since py payload v
  Step-Since py (registered i command s) v = register-Since i command v
  Step-Since py (dispatched t sent s) v = dispatch-Since t sent v
  Step-Since py (concluded t s) v = pop-Since t.request_id v

  pub Runs-Since : (py : Runtime) {s s' : Session} → Runs py s s' → Since s → Since s'
  Runs-Since py same v = v
  Runs-Since py (more r st) v = Step-Since py st (Runs-Since py r v)
