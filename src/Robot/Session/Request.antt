-- ===== src/Robot/Session/Request.antt =====
-- `RobotSession.request_command`, by its sections: the request is registered, sent under the lock if
-- the connection is still the same, and its future is read when it is done or the time is over.
use failure_resolver.Prelude.{
  ℕ, String, Bool, false, not, ◌&&◌, ◌||◌, Option, none, some, List, [], ◌∷◌, ◌==◌, str_eq,
  if◌then◌else◌, strip, is_empty,
}
use failure_resolver.Json.{Json, null, str, obj, Fields, end, field}
use failure_resolver.Errors.{
  Result, ok, err, not_sent, outcome_unknown, cancelled, value_error, Done,
}
use failure_resolver.Robot.Frames.{CommandReceipt}
use failure_resolver.Robot.Session.{Session, Future, waiting, answered, failed, Pending}

-- What a request keeps over its awaits: its identifier, its socket and its connection.
pub record Ticket : Type 0 where
  pub request_id : String
  pub websocket : ℕ
  pub generation : ℕ

-- `self._pending.pop(request_id, None)`
unfoldable pub pop_pending : String → List Pending → List Pending
pop_pending id [] = []
pop_pending id (p ∷ ps) =
    let rest = pop_pending id ps in if str_eq p.request_id id then rest else p ∷ rest

unfoldable pub pop : String → Session → Session
unfolding pop_pending
pop id s = record s { pending = pop_pending id s.pending }

-- The message that is sent.
unfoldable pub request_payload : String → String → Fields → String → Json
request_payload command sysid arguments request_id = obj (
    field "command" (str (strip command)) (
      field "arguments" (obj arguments) (
        field "request_id" (str request_id) (
          field "sysid" (str sysid) (
            field "sender"
              (obj (
                field "name" (str "failure-resolver")
                  (field "email" null (field "image" null end))))
              end)))))

-- Up to the first await. The identifier is a new one.
unfoldable pub register_request : String → String → Session → Result Ticket × Session
unfolding pop_pending
register_request request_id command s =
    if not s.connected then (err not_sent, s) else elim s.websocket [
      | none ↦ (err not_sent, s)
      | some websocket ↦ if is_empty (strip command) then (err value_error, s) else (
        ok (record { request_id = request_id; websocket = websocket; generation = s.generation }),
        record s {
          pending =
              record { request_id = request_id; future = waiting }
              ∷ pop_pending request_id s.pending;
        },
      )
    ]

same_socket : Option ℕ → ℕ → Bool
same_socket none w = false
same_socket (some v) w = v == w

-- The session still has the connection of the ticket.
unfoldable pub is_current : Ticket → Session → Bool
unfolding same_socket
is_current t s =
    same_socket s.websocket t.websocket && s.connected && (s.generation == t.generation)

-- Behind the send lock, with what the socket's `send` returned or raised. Only a cancellation leaves
-- the request registered.
unfoldable pub dispatch : Ticket → Result Done → Session → Result Done × Session
dispatch t sent s = if not (is_current t s) then (err not_sent, pop t.request_id s) else elim sent [
  | ok d ↦ (ok d, s)
  | err e ↦ elim e [
    | cancelled ↦ (err cancelled, s)
    | _ ↦ (err outcome_unknown, pop t.request_id s)
  ]
]

-- What a request returns for its future; one that still waits has run out of time.
unfoldable pub read_future : Ticket → Future → Session → Result CommandReceipt
read_future t waiting s = err outcome_unknown
read_future t (failed e) s = err e
read_future t (answered r) s =
    if not s.connected || not (s.generation == t.generation) then err outcome_unknown else ok r

unfoldable pub future_of : String → List Pending → Future
future_of id [] = waiting
future_of id (p ∷ ps) =
    let rest = future_of id ps in if str_eq p.request_id id then p.future else rest

-- The end of the request, which takes it off the pending ones.
unfoldable pub conclude : Ticket → Session → Result CommandReceipt × Session
conclude t s = (read_future t (future_of t.request_id s.pending) s, pop t.request_id s)
