-- ===== src/Session/Socket.antt =====
-- binance_orders/src/session.cpp, lines 69 to 184: the socket of one client. A request is read, first
-- its header and then its body, and answered, and the next one is read. The handlers of the requests
-- are a parameter here; `none` is a request that they read past its end.
pub mod Serving
pub mod Leaks
use binance_monitor.Base.{
  ◌>>=◌, Text, ◌*◌, ◌≡◌, Bool, true, false, not, Option, none, some, List, [], ◌∷◌, ◌++◌,
}
use binance_monitor.Session.{Response, get_error, server_error}

pub data Operation : Type 0 where
  read_header read_body write write_last : Operation

-- How an operation ends. `failed` has the message of the error code.
pub data Ending : Type 0 where
  done end_of_stream : Ending
  body_limit failed : Text → Ending

module _ (Request : Type 0) (handle_requests : Request → Option Response) where
  -- `request` is what was read, where a body was read.
  pub record Completion : Type 0 where
    pub ending : Ending
    pub request : Request

  -- `received` lists the requests that were read, and `sent` the responses whose writing was started.
  pub record SessionSocket : Type 0 where
    pub is_open : Bool
    pub resp : Option Response
    pub pending : Option Operation
    pub received : List Request
    pub sent : List Response

  http_read_data : SessionSocket → SessionSocket
  http_read_data s = record s { pending = some read_header }

  -- The constructor, and `run`.
  unfoldable pub run : SessionSocket
  unfolding http_read_data
  run =
      http_read_data
        (record { is_open = true; resp = none; pending = none; received = []; sent = [] })

  unfoldable pub is_closed : SessionSocket → Bool
  is_closed s = not s.is_open

  shutdown_socket : SessionSocket → SessionSocket
  shutdown_socket s = record s { is_open = false }

  -- `error_handler` and `send_response`
  send : Operation → Response → SessionSocket → SessionSocket
  send op response s = record s {
    resp = some response;
    pending = some op;
    sent = s.sent ++ response ∷ [];
  }

  report_failure : Text → SessionSocket → SessionSocket
  unfolding send
  report_failure message s = send write_last (get_error message server_error 500) s

  on_header_read : Ending → SessionSocket → SessionSocket
  unfolding shutdown_socket report_failure
  on_header_read done s = record s { pending = some read_body }
  on_header_read end_of_stream s = shutdown_socket s
  on_header_read (body_limit message) s = report_failure message s
  on_header_read (failed message) s = report_failure message s

  on_data_read : Ending → Request → SessionSocket → Option SessionSocket
  unfolding shutdown_socket report_failure send
  on_data_read done request s = handle_requests request >>= λ response.
      some (send write response (record s { received = s.received ++ request ∷ [] }))
  on_data_read end_of_stream request s = some (shutdown_socket s)
  on_data_read (body_limit message) request s = some (report_failure message s)
  on_data_read (failed message) request s = some (report_failure message s)

  -- A failure is logged, and nothing else happens.
  on_data_written : Ending → SessionSocket → SessionSocket
  unfolding http_read_data
  on_data_written done s = http_read_data (record s { resp = none })
  on_data_written _ s = s

  unfoldable pub complete : Operation → Completion → SessionSocket → Option SessionSocket
  unfolding on_header_read on_data_read on_data_written shutdown_socket
  complete read_header c s = some (on_header_read c.ending s)
  complete read_body c s = on_data_read c.ending c.request s
  complete write c s = some (on_data_written c.ending s)
  complete write_last c s = some (shutdown_socket s)

  unfoldable pub drive : List Completion → SessionSocket → Option SessionSocket
  unfolding complete
  drive [] s = some s
  drive (c ∷ cs) s = elim s.pending [
    | none ↦ some s
    | some op ↦ complete op c (record s { pending = none }) >>= λ later. drive cs later
  ]

  -- The end of the operation under way; or the expiry of the stream, which closes the socket before
  -- that operation ends.
  pub data Step : SessionSocket → SessionSocket → Type 0 where
    completes :
        {s t : SessionSocket} (op : Operation) (c : Completion)
        → s.pending ≡ some op
        → complete op c (record s { pending = none }) ≡ some t
        → Step s t
    expires :
        {s t : SessionSocket} (op : Operation)
        → s.pending ≡ some op
        → t ≡ record s { is_open = false }
        → Step s t

  pub data Reach (s : SessionSocket) : SessionSocket → Type 0 where
    here : Reach s s
    next : {t u : SessionSocket} → Reach s t → Step t u → Reach s u
