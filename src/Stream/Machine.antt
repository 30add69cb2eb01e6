-- ===== src/Stream/Machine.antt =====
-- The completion handlers of `user_data_stream_t`, and the runs of the event loop.
mod Examples
pub mod Stopped
pub mod Setup
pub mod Tags
use binance_monitor.Base.{
  if◌then◌else◌, ◌>>=◌, Text, text, lookup, ◌*◌, ◌≡◌, false, Option, none, some, List, [], ◌∷◌,
  ◌++◌,
}
use binance_monitor.Json.{JsonLibrary}
use binance_monitor.Reports.{interpret_generic_messages}
use binance_monitor.Stream.{
  UserDataStream, Operation, Completion, start, needs, rest_resolve, rest_connect, rest_handshake,
  rest_write, rest_read, ws_resolve, ws_connect, ws_ssl_handshake, ws_handshake, ws_read,
  error_wait, listen_key_wait, posted, ws_close, rest_api_initiate_connection, rest_api_connect_to,
  rest_api_perform_ssl_connection, rest_api_get_listen_key, rest_api_receive_response,
  ws_initiate_connection, ws_connect_to_names, ws_perform_ssl_handshake, ws_upgrade_to_websocket,
  ws_wait_for_messages, activate_listen_key_keepalive, on_periodic_time_timeout,
  on_ws_connection_severed, close_frame, stop, listen_key_expired,
}

-- `if (ec) return spdlog::error(...)`
abbrev unless_failed : Completion → UserDataStream → Option UserDataStream → Option UserDataStream
unless_failed c s r = if c.failed then some s else r

-- The answer to the request for a listen key: the key, an object without one, or an exception.
pub data Answer : Type 0 where
  found : Text → Answer
  no_key thrown : Answer

module _ (lib : JsonLibrary) where
  open lib use {parse, get_object, get_string}

  unfoldable pub listen_key_answer : Text → Answer
  listen_key_answer body = elim (parse body >>= get_object) [
    | none ↦ thrown
    | some result ↦ elim (lookup (text "listenKey") result) [
      | none ↦ no_key
      | some value ↦ elim (get_string value) [ none ↦ thrown | some key ↦ found key ]
    ]
  ]

  -- `rest_api_on_data_received`, behind its test of the error code.
  on_answer : Answer → UserDataStream → Option UserDataStream
  on_answer (found key) s = some (
      ws_initiate_connection
        (record s { listen_key = some key; http_response = false; ssl_web_stream = false }))
  on_answer no_key s = some (record s { http_response = false })
  on_answer thrown s =
      some (ws_initiate_connection (record s { http_response = false; ssl_web_stream = false }))

  -- The handshake with the socket is done.
  on_upgraded : UserDataStream → Option UserDataStream
  on_upgraded s =
      (if s.listen_key_timer then some s else activate_listen_key_keepalive s)
      >>= ws_wait_for_messages

  -- `ws_interpret_generic_messages`
  on_message : Text → UserDataStream → Option UserDataStream
  on_message body s = needs s.buffer (
      ws_wait_for_messages
        (record s { appended = s.appended ++ interpret_generic_messages lib s.host_info body }))

  pub complete : Operation → Completion → UserDataStream → Option UserDataStream
  unfolding rest_api_connect_to rest_api_perform_ssl_connection rest_api_get_listen_key
      rest_api_receive_response on_answer ws_initiate_connection ws_connect_to_names
      ws_perform_ssl_handshake ws_upgrade_to_websocket on_upgraded activate_listen_key_keepalive
      on_periodic_time_timeout ws_wait_for_messages on_ws_connection_severed on_message
      rest_api_initiate_connection listen_key_expired
  complete rest_resolve c s = unless_failed c s (some (rest_api_connect_to s))
  complete rest_connect c s = unless_failed c s (rest_api_perform_ssl_connection c.sni s)
  complete rest_handshake c s = unless_failed c s (rest_api_get_listen_key s)
  complete rest_write c s = unless_failed c s (rest_api_receive_response s)
  complete rest_read c s =
      unless_failed c s (needs s.http_response (on_answer (listen_key_answer c.body) s))
  complete ws_resolve c s = unless_failed c s (ws_connect_to_names s)
  complete ws_connect c s = unless_failed c s (ws_perform_ssl_handshake c.sni s)
  complete ws_ssl_handshake c s =
      unless_failed c s (needs s.ssl_web_stream (ws_upgrade_to_websocket s))
  complete ws_handshake c s = unless_failed c s (on_upgraded s)
  complete ws_read c s = if c.failed then some (on_ws_connection_severed s) else on_message c.body s
  complete error_wait c s = unless_failed c s (some (rest_api_initiate_connection s))
  complete listen_key_wait c s = unless_failed c s (listen_key_expired s)
  complete posted c s = on_periodic_time_timeout s
  complete ws_close c s = some s

  -- One step of the event loop. The order of completions and their results are the environment's;
  -- a close frame is seen while a message is read.
  pub data Step (s : UserDataStream) : UserDataStream → Type 0 where
    completes :
        {t : UserDataStream} (before after : List Operation) (op : Operation) (c : Completion)
        → s.pending ≡ before ++ op ∷ after
        → complete op c (record s { pending = before ++ after }) ≡ some t
        → Step s t
    closes :
        {t : UserDataStream} (before after : List Operation)
        → s.pending ≡ before ++ ws_read ∷ after
        → t ≡ close_frame s
        → Step s t
    stops : {t : UserDataStream} → t ≡ stop s → Step s t

  pub data Reach (s : UserDataStream) : UserDataStream → Type 0 where
    here : Reach s s
    next : {t u : UserDataStream} → Reach s t → Step t u → Reach s u

  -- The operations complete in the order in which they were started.
  pub drive : List Completion → UserDataStream → Option UserDataStream
  drive [] s = some s
  drive (c ∷ cs) s = elim s.pending [
    | [] ↦ some s
    | op ∷ rest ↦ complete op c (record s { pending = rest }) >>= drive cs
  ]
