-- ===== src/Robot/Session/Consistent.antt =====
-- The invariant of a robot session.
use failure_resolver.Prelude.{
  ℕ, ◌+◌, ◌≡◌, ◌≤◌, refl, String, true, false, not, ◌&&◌, Option, none, some, List, [], ◌∷◌, ◌++◌,
  length, any, All, All-append, All-drop, Bool-cases, Option-cases, inl, inr, arith, is_some, strip,
  is_empty,
}
use failure_resolver.Json.{Json, obj, Fields, get, lookup}
use failure_resolver.Errors.{Result, ok, err, cancelled, outcome_unknown, Done}
use failure_resolver.Runtime.{Runtime}
use failure_resolver.Robot.Pointer.{FlowPointer, text, parse_flow_pointer}
use failure_resolver.Robot.Pointer.Reading.{parse_flow_pointer-IsReading}
use failure_resolver.Robot.Frames.{CommandsFrame, FlowFrame}
use failure_resolver.Robot.Session.{
  flow_history_limit, Pending, Session, fresh, activate_connection, invalidate_connection,
  settle_at, answer, settle_response, reject_pending_unknown, close_connection, publish_commands,
  publish_flow, response_section, commands_section, flow_section,
}
use failure_resolver.Robot.Session.Request.{
  Ticket, pop_pending, pop, register_request, is_current, dispatch, conclude,
}
use failure_resolver.Robot.Session.History.{
  IsTag, Tagged, Step, activated, closed, answered_to, commands_shown, flow_shown, registered,
  dispatched, concluded, Reachable, new, after,
}
use failure_resolver.Robot.Session.Wait.Fresh.{Rising}
use failure_resolver.Robot.Session.Settled.{
  is_waiting, still_waiting, settle_at-waiting, pop_pending-waiting, reject_all-waiting,
}
use failure_resolver.Robot.Session.Window.{
  Counted, Rising-append, Rising-drop, Counted-later, append_frame-cases, append_frame-bounded,
}

-- The frame of commands, if there is one, is of the connection.
abbrev pub IsShownBy : ℕ → Option CommandsFrame → Type 0
IsShownBy generation none = Unit
IsShownBy generation (some c) = c.generation ≡ generation

pub record IsConsistent (s : Session) : Type 0 where
  pub bounded : length s.flow_history ≤ flow_history_limit
  pub rising : Rising 0 s.flow_history
  pub counted : All (Counted s.generation s.flow_revision) s.flow_history
  pub tagged : All Tagged s.flow_history
  pub latest : IsTag s.generation s.flow_revision s.latest_flow
  pub shown : IsShownBy s.generation s.latest_commands_frame
  pub online : (is_some s.latest_flow && not s.connected) ≡ false
  pub settled : (any is_waiting s.pending && not s.connected) ≡ false

-- Other pending requests, of which none waits that did not.
with_pending :
    {s : Session} (ps : List Pending)
    → (any is_waiting ps ≡ true → any is_waiting s.pending ≡ true)
    → IsConsistent s
    → IsConsistent (record s { pending = ps })
with_pending {s} ps f v = record {
  bounded = v.bounded;
  rising = v.rising;
  counted = v.counted;
  tagged = v.tagged;
  latest = v.latest;
  shown = v.shown;
  online = v.online;
  settled = still_waiting _ _ s.connected f v.settled;
}

activate-IsConsistent :
    (w : ℕ) {s : Session} → IsConsistent s → IsConsistent (activate_connection w s)
unfolding activate_connection
activate-IsConsistent w {s} v = record {
  bounded = v.bounded;
  rising = v.rising;
  counted =
      Counted-later s.generation (s.generation + 1) s.flow_revision s.flow_revision s.flow_history
        (omega arith) (omega arith) v.counted;
  tagged = v.tagged;
  latest = tt;
  shown = tt;
  online = refl;
  settled = ground arith;
}

close-IsConsistent : {s : Session} → IsConsistent s → IsConsistent (close_connection s)
unfolding reject_pending_unknown invalidate_connection
close-IsConsistent {s} v = record {
  bounded = v.bounded;
  rising = v.rising;
  counted = v.counted;
  tagged = v.tagged;
  latest = tt;
  shown = tt;
  online = refl;
  settled = ground (arith, reject_all-waiting s.pending);
}

response-IsConsistent :
    (payload : Fields) {s : Session} → IsConsistent s → IsConsistent (response_section payload s)
unfolding response_section settle_response
response-IsConsistent payload {s} v = at (get "response" payload)
  where
    at :
        (r : Json)
        → IsConsistent
            (elim r as (λ _. Session) [ obj response ↦ settle_response response s | _ ↦ s ])
    at (obj response) = elim (Option-cases (text (get "request_id" response))) [
      | inl no_id ↦ rw (no_id, settle_response) v
      | inr (id, named) ↦
          rw (named, settle_response)
            (with_pending (settle_at id (answer response s) s.pending)
              (settle_at-waiting id (answer response s) s.pending) v)
    ]
    at _ = v

commands-IsConsistent :
    (payload : Fields) {s : Session} → IsConsistent s → IsConsistent (commands_section payload s)
unfolding commands_section publish_commands
commands-IsConsistent payload {s} v = at (get "commands" payload)
  where
    at :
        (r : Json)
        → IsConsistent
            (elim r as (λ _. Session) [ obj commands ↦ publish_commands commands s | _ ↦ s ])
    at (obj commands) = record {
      bounded = v.bounded;
      rising = v.rising;
      counted = v.counted;
      tagged = v.tagged;
      latest = v.latest;
      shown = refl;
      online = v.online;
      settled = v.settled;
    }
    at _ = v

-- A parsed pointer carries the connection and the revision that it was parsed with.
parsed-IsTag :
    (py : Runtime) (flow : Json) (revision generation : ℕ) (o : Option FlowPointer)
    → parse_flow_pointer py flow revision generation ≡ o
    → IsTag generation revision o
parsed-IsTag py flow revision generation none e = tt
parsed-IsTag py flow revision generation (some p) e =
    let r = parse_flow_pointer-IsReading py flow revision generation e in
    (r.generation_eq, r.revision_eq)

publish_flow-IsConsistent :
    (py : Runtime) (flow : Json) {s : Session}
    → s.connected ≡ true
    → IsConsistent s
    → IsConsistent (publish_flow py flow s)
unfolding publish_flow
publish_flow-IsConsistent py flow {s} on v = record {
  bounded = append_frame-bounded frame s.flow_history v.bounded;
  rising = append_frame-cases (Rising 0) frame s.flow_history risen (Rising-drop 0 _ risen);
  counted =
      append_frame-cases (All (Counted s.generation (s.flow_revision + 1))) frame s.flow_history
        known (All-drop (Counted s.generation (s.flow_revision + 1)) 1 _ known);
  tagged =
      append_frame-cases (All Tagged) frame s.flow_history labelled (All-drop Tagged 1 _ labelled);
  latest = tag;
  shown = v.shown;
  online = ground (arith, on);
  settled = v.settled;
}
  where
    frame : FlowFrame
    frame = record {
      revision = s.flow_revision + 1;
      generation = s.generation;
      pointer = parse_flow_pointer py flow (s.flow_revision + 1) s.generation;
    }

    tag :
        IsTag s.generation
          (s.flow_revision + 1)
          (parse_flow_pointer py flow (s.flow_revision + 1) s.generation)
    tag = parsed-IsTag py flow (s.flow_revision + 1) s.generation _ refl

    risen : Rising 0 (s.flow_history ++ frame ∷ [])
    risen =
        Rising-append 0 s.flow_history frame s.flow_revision s.generation v.rising v.counted
          (omega arith) (omega arith)

    known : All (Counted s.generation (s.flow_revision + 1)) (s.flow_history ++ frame ∷ [])
    known =
        All-append (Counted s.generation (s.flow_revision + 1)) s.flow_history (frame ∷ [])
          (Counted-later s.generation s.generation s.flow_revision (s.flow_revision + 1)
            s.flow_history (omega arith) (omega arith) v.counted)
          ((omega arith, omega arith), tt)

    labelled : All Tagged (s.flow_history ++ frame ∷ [])
    labelled = All-append Tagged s.flow_history (frame ∷ []) v.tagged (tag, tt)

flow-IsConsistent :
    (py : Runtime) (payload : Fields) {s : Session}
    → s.connected ≡ true
    → IsConsistent s
    → IsConsistent (flow_section py payload s)
unfolding flow_section
flow-IsConsistent py payload {s} on v = elim (Option-cases (lookup "flow" payload)) [
  | inl absent ↦ rw (absent, flow_section) v
  | inr (flow, there) ↦ rw (there, flow_section) (publish_flow-IsConsistent py flow on v)
]

pop-IsConsistent : (id : String) {s : Session} → IsConsistent s → IsConsistent (pop id s)
unfolding pop
pop-IsConsistent id {s} v =
    with_pending (pop_pending id s.pending) (pop_pending-waiting id s.pending) v

register-IsConsistent :
    (id command : String) {s : Session}
    → IsConsistent s
    → IsConsistent (register_request id command s).1
unfolding register_request
register-IsConsistent id command {s} v = elim (Bool-cases s.connected) [
  | inr off ↦ simp (off, register_request) v
  | inl on ↦ elim (Option-cases s.websocket) [
    | inl no_socket ↦ simp (on, no_socket, register_request) v
    | inr (w, here) ↦ elim (Bool-cases (is_empty (strip command))) [
      | inl blank ↦ simp (on, here, blank, register_request) v
      | inr full ↦
          simp (on, here, full, register_request)
            (record {
              bounded = v.bounded;
              rising = v.rising;
              counted = v.counted;
              tagged = v.tagged;
              latest = v.latest;
              shown = v.shown;
              online = ground arith;
              settled = ground (arith, on);
            })
    ]
  ]
]

dispatch-IsConsistent :
    (t : Ticket) (sent : Result Done) {s : Session}
    → IsConsistent s
    → IsConsistent (dispatch t sent s).1
unfolding dispatch
dispatch-IsConsistent t sent {s} v = elim (Bool-cases (not (is_current t s))) [
  | inl gone ↦ rw (gone, dispatch) (pop-IsConsistent t.request_id v)
  | inr here ↦ rw (here, dispatch) (at sent)
]
  where
    at :
        (x : Result Done)
        → IsConsistent
            (elim x as (λ _. Result Done × Session) [
              | ok d ↦ (ok d, s)
              | err e ↦ elim e [
                | cancelled ↦ (err cancelled, s)
                | _ ↦ (err outcome_unknown, pop t.request_id s)
              ]
            ]).1
    at (ok d) = v
    at (err cancelled) = v
    at (err _) = pop-IsConsistent t.request_id v

conclude-IsConsistent : (t : Ticket) {s : Session} → IsConsistent s → IsConsistent (conclude t s).1
unfolding conclude
conclude-IsConsistent t v = pop-IsConsistent t.request_id v

-- One lemma per step.
Step-IsConsistent :
    (py : Runtime) {s s' : Session} → Step py s s' → IsConsistent s → IsConsistent s'
Step-IsConsistent py (activated w s) v = activate-IsConsistent w v
Step-IsConsistent py (closed s) v = close-IsConsistent v
Step-IsConsistent py (answered_to payload s) v = response-IsConsistent payload v
Step-IsConsistent py (commands_shown payload s on) v = commands-IsConsistent payload v
Step-IsConsistent py (flow_shown payload s on) v = flow-IsConsistent py payload on v
Step-IsConsistent py (registered id command s) v = register-IsConsistent id command v
Step-IsConsistent py (dispatched t sent s) v = dispatch-IsConsistent t sent v
Step-IsConsistent py (concluded t s) v = conclude-IsConsistent t v

fresh-IsConsistent : IsConsistent fresh
fresh-IsConsistent = record {
  bounded = omega arith;
  rising = tt;
  counted = tt;
  tagged = tt;
  latest = tt;
  shown = tt;
  online = refl;
  settled = refl;
}

-- In every state that a session reaches by connections that begin and end, messages, and the sections
-- of requests in any order: at most 512 frames are remembered, their revisions rise strictly, none is
-- of a later connection or revision than the session counts, and the pointer of each carries its
-- frame's connection and revision; the latest Flow and the latest commands are of the present
-- connection, the latest Flow of the latest revision; and while there is no connection there is no
-- latest Flow and no request that still waits.
pub Reachable-IsConsistent : (py : Runtime) {s : Session} → Reachable py s → IsConsistent s
Reachable-IsConsistent py new = fresh-IsConsistent
Reachable-IsConsistent py (after r st) = Step-IsConsistent py st (Reachable-IsConsistent py r)
