-- ===== src/Server.antt =====
-- binance_orders/src/server.cpp: the acceptor, and the list of the sessions that it keeps alive.
pub mod Sessions
pub mod Dangling
mod Examples
use binance_monitor.Base.{
  ltb, if◌then◌else◌, length, ◌*◌, ◌≡◌, Bool, true, false, Option, List, [], ◌∷◌, ◌++◌,
}
use binance_monitor.Session.{Response}
use binance_monitor.Session.Socket.{SessionSocket, is_closed}
use binance_monitor.Session.Socket

module _ (Request : Type 0) (handle_requests : Request → Option Response) where
  -- `accepting` is set while an accept is under way. `erased` lists the sessions that were erased: the
  -- list holds their only reference.
  pub record Server : Type 0 where
    pub is_open : Bool
    pub accepting : Bool
    pub sessions : List (SessionSocket Request handle_requests)
    pub erased : List (SessionSocket Request handle_requests)

  -- The constructor: an argument is set where opening the socket, setting its option, binding it or
  -- listening fails.
  unfoldable pub server : (not_opened not_set not_bound not_listening : Bool) → Server
  server not_opened not_set not_bound not_listening = record {
    is_open =
        if not_opened
        then false
        else if not_set
        then false
        else if not_bound
        then false
        else if not_listening
        then false
        else true;
    accepting = false;
    sessions = [];
    erased = [];
  }

  accept_connections : Server → Server
  accept_connections s = record s { accepting = true }

  unfoldable pub run : Server → Server
  unfolding accept_connections
  run s = if s.is_open then accept_connections s else s

  -- `std::remove_if` and `erase`: the sessions that stay, and those that go.
  pub open_sessions :
      List (SessionSocket Request handle_requests) → List (SessionSocket Request handle_requests)
  open_sessions [] = []
  open_sessions (session ∷ sessions) =
      let rest = open_sessions sessions in
      if is_closed Request handle_requests session then rest else session ∷ rest

  pub closed_sessions :
      List (SessionSocket Request handle_requests) → List (SessionSocket Request handle_requests)
  closed_sessions [] = []
  closed_sessions (session ∷ sessions) =
      let rest = closed_sessions sessions in
      if is_closed Request handle_requests session then session ∷ rest else rest

  remove_closed : Server → Server
  unfolding open_sessions closed_sessions
  remove_closed s =
      if ltb 20 (length s.sessions)
      then record s {
        sessions = open_sessions s.sessions;
        erased = s.erased ++ closed_sessions s.sessions;
      }
      else s

  add_session : Server → Server
  add_session s = record s { sessions = s.sessions ++ Socket.run Request handle_requests ∷ [] }

  -- The handler of an accept, which failed or has a socket.
  pub on_connection_accepted : (failed : Bool) → Server → Server
  unfolding accept_connections remove_closed add_session
  on_connection_accepted failed s =
      accept_connections (if failed then s else add_session (remove_closed s))

  -- An accept ends, or one of the sessions makes a step.
  pub data Step
      (SessionStep : SessionSocket Request handle_requests
        → SessionSocket Request handle_requests
        → Type 0)
      : Server → Server → Type 0 where
    accepts :
        {s t : Server} (failed : Bool)
        → s.accepting ≡ true
        → t ≡ on_connection_accepted failed (record s { accepting = false })
        → Step SessionStep s t
    moves :
        {s t : Server} (before after : List (SessionSocket Request handle_requests))
        {a b : SessionSocket Request handle_requests}
        → s.sessions ≡ before ++ a ∷ after
        → SessionStep a b
        → t ≡ record s { sessions = before ++ b ∷ after }
        → Step SessionStep s t

  pub data Reach
      (SessionStep : SessionSocket Request handle_requests
        → SessionSocket Request handle_requests
        → Type 0)
      (s : Server) : Server → Type 0 where
    here : Reach SessionStep s s
    next : {t u : Server} → Reach SessionStep s t → Step SessionStep t u → Reach SessionStep s u
