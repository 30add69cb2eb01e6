-- ===== src/Prices/Stream.antt =====
-- binance_prices/src/market_data_stream.cpp: the connection state machine of `market_data_stream_t`.
-- `none` is undefined behaviour: an empty `std::optional` that is dereferenced.
pub mod Defined
pub mod Recovery
use binance_monitor.Base.{
  if◌then◌else◌, ◌>>=◌, Text, ℕ, ◌+◌, ◌-◌, ◌*◌, ◌<◌, ◌≡◌, Bool, true, false, Option, none, some,
  List, [], ◌∷◌,
}
use binance_monitor.Json.{JsonLibrary}
use binance_monitor.Prices.{
  PushedSubscriptionData, interpret_generic_messages, process_pushed_instruments_data,
}

pub data Operation : Type 0 where
  rest_resolve rest_connect rest_handshake rest_write rest_read : Operation
  ws_resolve ws_connect ws_ssl_handshake ws_handshake ws_read : Operation

-- How an operation ends; `aborted` is `operation_aborted`, which also counts as a failure. `sni` is
-- the result of `SSL_set_tlsext_host_name` in the handler, and `body` what was received.
pub record Completion : Type 0 where
  pub failed : Bool
  pub aborted : Bool
  pub sni : Bool
  pub body : Text

-- The optional members are truth values. One operation is under way at a time, save for `orphans`:
-- reads whose stream a close frame has destroyed. `listed` and `container` are the shared containers.
pub record MarketDataStream (Price : Type 0) : Type 0 where
  pub resolver : Bool
  pub ssl_web_stream : Bool
  pub buffer : Bool
  pub http_request : Bool
  pub http_response : Bool
  pub pending : Option Operation
  pub orphans : ℕ
  pub listed : List Text
  pub container : List (PushedSubscriptionData Price)

module _ {Price : Type 0} where
  -- `*optional`, where it has a value.
  abbrev pub needs : Bool → Option (MarketDataStream Price) → Option (MarketDataStream Price)
  needs true r = r
  needs false r = none

  rest_api_initiate_connection : MarketDataStream Price → MarketDataStream Price
  rest_api_initiate_connection s = record s { resolver = true; pending = some rest_resolve }

  -- The constructor, and `run`.
  unfoldable pub run : MarketDataStream Price
  unfolding rest_api_initiate_connection
  run = rest_api_initiate_connection (record {
    resolver = false;
    ssl_web_stream = false;
    buffer = false;
    http_request = false;
    http_response = false;
    pending = none;
    orphans = 0;
    listed = [];
    container = [];
  })

  rest_api_connect_to_resolved_names : MarketDataStream Price → MarketDataStream Price
  rest_api_connect_to_resolved_names s = record s {
    resolver = false;
    ssl_web_stream = true;
    pending = some rest_connect;
  }

  rest_api_perform_ssl_handshake : Bool → MarketDataStream Price → Option (MarketDataStream Price)
  rest_api_perform_ssl_handshake sni s =
      needs s.ssl_web_stream (some (if sni then record s { pending = some rest_handshake } else s))

  -- `rest_api_prepare_request` and `rest_api_send_request`
  rest_api_get_all_available_instruments : MarketDataStream Price → Option (MarketDataStream Price)
  rest_api_get_all_available_instruments s =
      needs s.ssl_web_stream (some (record s { http_request = true; pending = some rest_write }))

  rest_api_receive_response : MarketDataStream Price → Option (MarketDataStream Price)
  rest_api_receive_response s = needs s.ssl_web_stream (
      some (record s {
        http_request = false;
        buffer = true;
        http_response = true;
        pending = some rest_read;
      }))

  initiate_websocket_connection : MarketDataStream Price → MarketDataStream Price
  initiate_websocket_connection s = record s { resolver = true; pending = some ws_resolve }

  websock_connect_to_resolved_names : MarketDataStream Price → MarketDataStream Price
  websock_connect_to_resolved_names s = record s {
    resolver = false;
    ssl_web_stream = true;
    pending = some ws_connect;
  }

  negotiate_websocket_connection : MarketDataStream Price → MarketDataStream Price
  negotiate_websocket_connection s = record s {
    http_request = false;
    http_response = false;
    pending = some ws_ssl_handshake;
  }

  websock_perform_ssl_handshake : Bool → MarketDataStream Price → Option (MarketDataStream Price)
  unfolding negotiate_websocket_connection
  websock_perform_ssl_handshake sni s =
      needs s.ssl_web_stream (some (if sni then negotiate_websocket_connection s else s))

  perform_websocket_handshake : MarketDataStream Price → Option (MarketDataStream Price)
  perform_websocket_handshake s =
      needs s.ssl_web_stream (some (record s { pending = some ws_handshake }))

  wait_for_messages : MarketDataStream Price → Option (MarketDataStream Price)
  wait_for_messages s =
      needs s.ssl_web_stream (some (record s { buffer = true; pending = some ws_read }))

  -- A close frame, which is seen while a message is read.
  pub close_frame : MarketDataStream Price → MarketDataStream Price
  unfolding initiate_websocket_connection
  close_frame s =
      initiate_websocket_connection (record s { ssl_web_stream = false; orphans = s.orphans + 1 })

module _ (lib : JsonLibrary) {Price : Type 0} (stod : Text → Option Price) where
  open lib use {parse, get_array}

  -- `rest_api_on_data_received`, behind its test of the error code.
  rest_api_on_data_received : Text → MarketDataStream Price → MarketDataStream Price
  unfolding initiate_websocket_connection
  rest_api_on_data_received body s =
      elim (parse body >>= get_array >>= λ token_list.
      process_pushed_instruments_data lib stod token_list s.listed) [
        | none ↦ s
        | some listed ↦ initiate_websocket_connection (record s { listed = listed })
      ]

  -- `interpret_generic_messages`, with the wait for the next message.
  on_message : Text → MarketDataStream Price → Option (MarketDataStream Price)
  unfolding wait_for_messages
  on_message body s = needs s.buffer (
      wait_for_messages
        (record s { container = interpret_generic_messages lib stod body s.container }))

  -- The handler of `wait_for_messages`.
  on_read : Completion → MarketDataStream Price → Option (MarketDataStream Price)
  unfolding initiate_websocket_connection on_message
  on_read c s =
      if c.aborted
      then some s
      else if c.failed
      then some (initiate_websocket_connection (record s { ssl_web_stream = false }))
      else on_message c.body s

  abbrev unless_failed :
      Completion
      → MarketDataStream Price
      → Option (MarketDataStream Price)
      → Option (MarketDataStream Price)
  unless_failed c s r = if c.failed then some s else r

  unfoldable pub complete :
      Operation → Completion → MarketDataStream Price → Option (MarketDataStream Price)
  unfolding rest_api_connect_to_resolved_names rest_api_perform_ssl_handshake
      rest_api_get_all_available_instruments rest_api_receive_response rest_api_on_data_received
      websock_connect_to_resolved_names websock_perform_ssl_handshake perform_websocket_handshake
      wait_for_messages on_read
  complete rest_resolve c s = unless_failed c s (some (rest_api_connect_to_resolved_names s))
  complete rest_connect c s = unless_failed c s (rest_api_perform_ssl_handshake c.sni s)
  complete rest_handshake c s = unless_failed c s (rest_api_get_all_available_instruments s)
  complete rest_write c s = unless_failed c s (rest_api_receive_response s)
  complete rest_read c s =
      unless_failed c s (needs s.http_response (some (rest_api_on_data_received c.body s)))
  complete ws_resolve c s = unless_failed c s (some (websock_connect_to_resolved_names s))
  complete ws_connect c s = unless_failed c s (websock_perform_ssl_handshake c.sni s)
  complete ws_ssl_handshake c s =
      unless_failed c s (needs s.ssl_web_stream (perform_websocket_handshake s))
  complete ws_handshake c s = unless_failed c s (wait_for_messages s)
  complete ws_read c s = on_read c s

  -- The operation under way ends; or a close frame comes; or a read whose stream is gone ends, which
  -- is aborted.
  pub data Step (s : MarketDataStream Price) : MarketDataStream Price → Type 0 where
    completes :
        {t : MarketDataStream Price} (op : Operation) (c : Completion)
        → s.pending ≡ some op
        → complete op c (record s { pending = none }) ≡ some t
        → Step s t
    closes : {t : MarketDataStream Price} → s.pending ≡ some ws_read → t ≡ close_frame s → Step s t
    orphan_ends :
        {t : MarketDataStream Price} (c : Completion)
        → 0 < s.orphans
        → c.aborted ≡ true
        → complete ws_read c (record s { orphans = s.orphans - 1 }) ≡ some t
        → Step s t

  pub data Reach (s : MarketDataStream Price) : MarketDataStream Price → Type 0 where
    here : Reach s s
    next : {t u : MarketDataStream Price} → Reach s t → Step t u → Reach s u

  pub drive : List Completion → MarketDataStream Price → Option (MarketDataStream Price)
  unfolding complete
  drive [] s = some s
  drive (c ∷ cs) s = elim s.pending [
    | none ↦ some s
    | some op ↦ complete op c (record s { pending = none }) >>= λ later. drive cs later
  ]
