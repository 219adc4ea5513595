-- ===== src/Robot/Session.antt =====
-- `RobotSession` of robot_session.py: the state of one reconnecting connection, what each message
-- changes in it, and what a request and a wait read of it. The text of a message, the socket and the
-- identifiers of requests come from outside; each section between two awaits is one function.
pub mod Request
pub mod Wait
pub mod History
pub mod Settled
pub mod Window
pub mod Consistent
pub mod Since
pub mod Receipt
use failure_resolver.Prelude.{
  ℕ, ◌+◌, ◌≡◌, String, Bool, true, false, not, ◌&&◌, Option, none, some, List, [], ◌∷◌, ◌++◌, leb,
  str_eq, if◌then◌else◌, strip, is_empty, length, drop,
}
use failure_resolver.Json.{Json, null, str, obj, Fields, lookup, get, contains}
use failure_resolver.Errors.{Error, rejected, outcome_unknown}
use failure_resolver.Runtime.{Runtime}
use failure_resolver.Robot.Pointer.{FlowPointer, text, parse_flow_pointer}
use failure_resolver.Robot.Frames.{CommandsFrame, CommandReceipt, FlowFrame}

-- `_FLOW_HISTORY_LIMIT`
abbrev pub flow_history_limit : ℕ
flow_history_limit = 512

-- The future of a request: not done, with a result, or with an exception.
pub data Future : Type 0 where
  waiting : Future
  answered : CommandReceipt → Future
  failed : Error → Future

pub record Pending : Type 0 where
  pub request_id : String
  pub future : Future

-- `websocket` is the connection's identity; the oldest frame of the history stands first.
pub record Session : Type 0 where
  pub websocket : Option ℕ
  pub connected : Bool
  pub generation : ℕ
  pub flow_revision : ℕ
  pub latest_flow : Option FlowPointer
  pub flow_history : List FlowFrame
  pub commands_revision : ℕ
  pub latest_commands_frame : Option CommandsFrame
  pub pending : List Pending

-- The state that `__init__` sets.
abbrev pub fresh : Session
fresh = record {
  websocket = none;
  connected = false;
  generation = 0;
  flow_revision = 0;
  latest_flow = none;
  flow_history = [];
  commands_revision = 0;
  latest_commands_frame = none;
  pending = [];
}

-- `_activate_connection`
unfoldable pub activate_connection : ℕ → Session → Session
activate_connection websocket s = record s {
  websocket = some websocket;
  generation = s.generation + 1;
  latest_flow = none;
  latest_commands_frame = none;
  connected = true;
}

-- `_invalidate_connection`
unfoldable pub invalidate_connection : Session → Session
invalidate_connection s = record s {
  websocket = none;
  connected = false;
  latest_flow = none;
  latest_commands_frame = none;
}

-- `deque.append`, with a `maxlen`.
unfoldable pub append_frame : FlowFrame → List FlowFrame → List FlowFrame
append_frame f history =
    let grown = history ++ f ∷ [] in
    if leb (length grown) flow_history_limit then grown else drop 1 grown

-- `future.set_result` and `future.set_exception`, of a future that is not done.
unfoldable pub settle_future : Future → Future → Future
settle_future waiting new = new
settle_future (answered r) new = answered r
settle_future (failed e) new = failed e

unfoldable pub settle_at : String → Future → List Pending → List Pending
unfolding settle_future
settle_at id new [] = []
settle_at id new (p ∷ ps) =
    let rest = settle_at id new ps in
    if str_eq p.request_id id
    then record p { future = settle_future p.future new } ∷ ps
    else p ∷ rest

-- What a correlated response settles its future with.
unfoldable pub answer_error : Json → Fields → Session → Future
answer_error null response s = answered (record {
  result = get "result" response;
  generation = s.generation;
  flow_revision_at_correlated_ack = s.flow_revision;
})
answer_error (str e) response s =
    if is_empty (strip e) then failed outcome_unknown else failed rejected
answer_error _ response s = failed outcome_unknown

unfoldable pub answer : Fields → Session → Future
unfolding answer_error
answer response s = elim (lookup "error" response) [
  | none ↦ failed outcome_unknown
  | some e ↦ answer_error e response s
]

-- `_settle_response`
unfoldable pub settle_response : Fields → Session → Session
unfolding settle_at answer
settle_response response s = elim (text (get "request_id" response)) [
  | none ↦ s
  | some id ↦ record s { pending = settle_at id (answer response s) s.pending }
]

-- `_reject_pending_unknown`
unfoldable pub reject_all : List Pending → List Pending
unfolding settle_future
reject_all [] = []
reject_all (p ∷ ps) =
    record p { future = settle_future p.future (failed outcome_unknown) } ∷ reject_all ps

unfoldable pub reject_pending_unknown : Session → Session
reject_pending_unknown s = record s { pending = reject_all s.pending }

-- The `finally` of `run`, where the session still has the socket of the connection that ended.
abbrev pub close_connection : Session → Session
close_connection s = reject_pending_unknown (invalidate_connection s)

-- The sections of `_handle_message`, in their order.
unfoldable pub publish_commands : Fields → Session → Session
publish_commands commands s = record s {
  commands_revision = s.commands_revision + 1;
  latest_commands_frame = some (record {
    revision = s.commands_revision + 1;
    generation = s.generation;
    commands = commands;
  });
}

unfoldable pub response_section : Fields → Session → Session
response_section payload s = elim (get "response" payload) [
  | obj response ↦ settle_response response s
  | _ ↦ s
]

unfoldable pub commands_section : Fields → Session → Session
commands_section payload s = elim (get "commands" payload) [
  | obj commands ↦ publish_commands commands s
  | _ ↦ s
]

module _ (py : Runtime) where
  unfoldable pub publish_flow : Json → Session → Session
  unfolding append_frame
  publish_flow flow s =
      let pointer = parse_flow_pointer py flow (s.flow_revision + 1) s.generation in
      record s {
        flow_revision = s.flow_revision + 1;
        latest_flow = pointer;
        flow_history =
            append_frame
              (record {
                revision = s.flow_revision + 1;
                generation = s.generation;
                pointer = pointer;
              })
              s.flow_history;
      }

  unfoldable pub flow_section : Fields → Session → Session
  flow_section payload s = elim (lookup "flow" payload) [
    | none ↦ s
    | some flow ↦ publish_flow flow s
  ]

  -- A payload that is an object; any other is ignored.
  unfoldable pub handle_payload : Fields → Session → Session
  handle_payload payload s =
      flow_section payload (commands_section payload (response_section payload s))

  unfoldable pub handle_message : String → Session → Session
  handle_message message s = elim (py.loads message) [
    | none ↦ s
    | some v ↦ elim v [ obj payload ↦ handle_payload payload s | _ ↦ s ]
  ]
