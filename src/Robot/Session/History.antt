-- ===== src/Robot/Session/History.antt =====
-- The states that a robot session reaches, and what holds in all of them.
use failure_resolver.Prelude.{ℕ, ◌≡◌, String, true, Option, none, some}
use failure_resolver.Json.{Fields}
use failure_resolver.Errors.{Result, Done}
use failure_resolver.Runtime.{Runtime}
use failure_resolver.Robot.Pointer.{FlowPointer}
use failure_resolver.Robot.Frames.{FlowFrame}
use failure_resolver.Robot.Session.{
  Session, fresh, activate_connection, close_connection, response_section, commands_section,
  flow_section,
}
use failure_resolver.Robot.Session.Request.{Ticket, register_request, dispatch, conclude}

-- The pointer of a frame, if there is one, has the connection and the revision of its frame.
abbrev pub IsTag : ℕ → ℕ → Option FlowPointer → Type 0
IsTag generation revision none = Unit
IsTag generation revision (some p) = (p.generation ≡ generation) × (p.revision ≡ revision)

abbrev pub Tagged : FlowFrame → Type 0
Tagged f = IsTag f.generation f.revision f.pointer

module _ (py : Runtime) where
  -- What happens to a session: a connection begins or ends, a message is handled, and the sections
  -- of the requests.
  pub data Step : Session → Session → Type 0 where
    activated : (websocket : ℕ) (s : Session) → Step s (activate_connection websocket s)
    closed : (s : Session) → Step s (close_connection s)
    answered_to : (payload : Fields) (s : Session) → Step s (response_section payload s)
    commands_shown :
        (payload : Fields) (s : Session) → s.connected ≡ true → Step s (commands_section payload s)
    flow_shown :
        (payload : Fields) (s : Session) → s.connected ≡ true → Step s (flow_section py payload s)
    registered : (id command : String) (s : Session) → Step s (register_request id command s).1
    dispatched : (t : Ticket) (sent : Result Done) (s : Session) → Step s (dispatch t sent s).1
    concluded : (t : Ticket) (s : Session) → Step s (conclude t s).1

  pub data Reachable : Session → Type 0 where
    new : Reachable fresh
    after : {s s' : Session} → Reachable s → Step s s' → Reachable s'

  -- Any number of steps.
  pub data Runs : Session → Session → Type 0 where
    same : {s : Session} → Runs s s
    more : {s s' s'' : Session} → Runs s s' → Step s' s'' → Runs s s''
