-- ===== src/Stream.antt =====
-- binance_orders/src/user_data_stream.cpp, lines 20 to 368: the connection state machine of
-- `user_data_stream_t`. A handler runs when an asynchronous operation completes; it changes the
-- object's state and starts further operations. `none` is undefined behaviour: an empty
-- `std::optional` that is dereferenced.
pub mod Machine
use binance_monitor.Base.{
  if◌then◌else◌, Text, ◌*◌, Bool, true, false, Option, none, some, List, [], ◌∷◌, ◌++◌,
}
use binance_monitor.Records.{HostInfo, UserStreamResult}
use binance_monitor.Json.{JsonLibrary}
use binance_monitor.Reports.{interpret_generic_messages}

-- What the object has asked Asio, Beast and OpenSSL to do. `posted` is the `net::post` of
-- `on_periodic_time_timeout`.
pub data Operation : Type 0 where
  rest_resolve rest_connect rest_handshake rest_write rest_read : Operation
  ws_resolve ws_connect ws_ssl_handshake ws_handshake ws_read : Operation
  error_wait listen_key_wait posted ws_close : Operation

-- How an operation ends. `sni` is the result of `SSL_set_tlsext_host_name` in the handler, and
-- `body` what was received.
pub record Completion : Type 0 where
  pub failed : Bool
  pub sni : Bool
  pub body : Text

-- `listen_key_keepalive_t` is made from a listen key and an API key.
pub record Keepalive : Type 0 where
  pub listen_key : Text
  pub api_key : Text

-- The optional members that are only present or absent are truth values. `pending` lists the
-- operations under way, and `appended` what the object has put into the shared container.
pub record UserDataStream : Type 0 where
  pub host_info : HostInfo
  pub resolver : Bool
  pub ssl_web_stream : Bool
  pub buffer : Bool
  pub http_request : Option Text
  pub http_response : Bool
  pub on_error_timer : Bool
  pub listen_key_timer : Bool
  pub listen_key_keepalive : Option Keepalive
  pub listen_key : Option Text
  pub stopped : Bool
  pub pending : List Operation
  pub appended : List UserStreamResult

abbrev pub user_data_stream : HostInfo → UserDataStream
user_data_stream host = record {
  host_info = host;
  resolver = false;
  ssl_web_stream = false;
  buffer = false;
  http_request = none;
  http_response = false;
  on_error_timer = false;
  listen_key_timer = false;
  listen_key_keepalive = none;
  listen_key = none;
  stopped = false;
  pending = [];
  appended = [];
}

abbrev pub start : Operation → UserDataStream → UserDataStream
start op s = record s { pending = s.pending ++ op ∷ [] }

-- `*optional`, where it has a value.
abbrev pub needs : Bool → Option UserDataStream → Option UserDataStream
needs true r = r
needs false r = none

unfoldable pub rest_api_initiate_connection : UserDataStream → UserDataStream
rest_api_initiate_connection s =
    if s.stopped
    then s
    else start rest_resolve
        (record s { listen_key_timer = false; on_error_timer = false; resolver = true })

unfoldable pub run : UserDataStream → UserDataStream
unfolding rest_api_initiate_connection
run s = rest_api_initiate_connection s

unfoldable pub stop : UserDataStream → UserDataStream
stop s =
    if s.ssl_web_stream
    then start ws_close (record s { stopped = true })
    else record s { stopped = true }

rest_api_connect_to : UserDataStream → UserDataStream
rest_api_connect_to s = start rest_connect (record s { resolver = false; ssl_web_stream = true })

rest_api_perform_ssl_connection : Bool → UserDataStream → Option UserDataStream
rest_api_perform_ssl_connection sni s =
    needs s.ssl_web_stream (some (if sni then start rest_handshake s else s))

-- `rest_api_prepare_request` and `rest_api_send_request`; of the request only the API key varies.
rest_api_get_listen_key : UserDataStream → Option UserDataStream
rest_api_get_listen_key s =
    needs s.ssl_web_stream
      (some (start rest_write (record s { http_request = some s.host_info.api_key })))

rest_api_receive_response : UserDataStream → Option UserDataStream
rest_api_receive_response s = needs s.ssl_web_stream (
    some (
      start rest_read
        (record s { http_request = none; listen_key = none; buffer = true; http_response = true })))

ws_initiate_connection : UserDataStream → UserDataStream
ws_initiate_connection s = if s.stopped then s else elim s.listen_key [
  | none ↦ s
  | some key ↦ start ws_resolve (record s { ssl_web_stream = true; resolver = true })
]

ws_connect_to_names : UserDataStream → Option UserDataStream
ws_connect_to_names s =
    needs s.ssl_web_stream (some (start ws_connect (record s { resolver = false })))

ws_perform_ssl_handshake : Bool → UserDataStream → Option UserDataStream
ws_perform_ssl_handshake sni s =
    needs s.ssl_web_stream (some (if sni then start ws_ssl_handshake s else s))

-- `listen_key_.value()` throws where there is no key; the exception leaves the event loop.
ws_upgrade_to_websocket : UserDataStream → Option UserDataStream
ws_upgrade_to_websocket s = elim s.listen_key [
  | none ↦ none
  | some key ↦ needs s.ssl_web_stream (some (start ws_handshake s))
]

ws_wait_for_messages : UserDataStream → Option UserDataStream
ws_wait_for_messages s = needs s.ssl_web_stream (some (start ws_read (record s { buffer = true })))

on_periodic_time_timeout : UserDataStream → Option UserDataStream
on_periodic_time_timeout s = needs s.listen_key_timer (some (start listen_key_wait s))

activate_listen_key_keepalive : UserDataStream → Option UserDataStream
unfolding on_periodic_time_timeout
activate_listen_key_keepalive s = on_periodic_time_timeout (record s { listen_key_timer = true })

-- The wait for the new timer is started; what it replaces is cancelled and ends with an error.
on_ws_connection_severed : UserDataStream → UserDataStream
on_ws_connection_severed s = start error_wait (record s {
  ssl_web_stream = false;
  listen_key = none;
  listen_key_timer = false;
  listen_key_keepalive = none;
  buffer = false;
  on_error_timer = true;
})

-- The close frame that the control callback of the socket is told of.
pub close_frame : UserDataStream → UserDataStream
unfolding on_ws_connection_severed
close_frame s = if s.stopped then s else on_ws_connection_severed s

-- The handler of the 30 minute timer.
listen_key_expired : UserDataStream → Option UserDataStream
listen_key_expired s =
    if s.ssl_web_stream
    then elim s.listen_key [
      | none ↦ none
      | some key ↦ needs s.listen_key_timer (
          some (
            start posted (record s {
              listen_key_keepalive =
                  some (record { listen_key = key; api_key = s.host_info.api_key });
            })))
    ]
    else some s
