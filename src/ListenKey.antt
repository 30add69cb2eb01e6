-- ===== src/ListenKey.antt =====
-- binance_orders/src/listen_key_keepalive.cpp: the request that renews a listen key. A failure of any
-- step is logged, and ends the attempt.
mod Examples
pub mod Renewal
use binance_monitor.Base.{
  if◌then◌else◌, Text, text, ◌*◌, Bool, true, false, Option, none, some, List, [], ◌∷◌, ◌++◌,
}

pub data Operation : Type 0 where
  resolve connect handshake write read : Operation

-- `sni` is the result of `SSL_set_tlsext_host_name`, and `body` the answer received.
pub record Completion : Type 0 where
  pub failed : Bool
  pub sni : Bool
  pub body : Text

-- Of the request the target and the API key vary.
pub record Request : Type 0 where
  pub target : Text
  pub api_key : Text

-- `sent` lists the requests whose writing was started, and `logged` the answers that were logged.
pub record ListenKeyKeepalive : Type 0 where
  pub buffer : Bool
  pub http_request : Option Request
  pub http_response : Option Text
  pub resolver : Bool
  pub ssl_stream : Bool
  pub listen_key : Text
  pub api_key : Text
  pub pending : Option Operation
  pub sent : List Request
  pub logged : List Text

-- The constructor, and `run`.
resolve_name : ListenKeyKeepalive → ListenKeyKeepalive
resolve_name s = record s { resolver = true; pending = some resolve }

pub run : (listen_key api_key : Text) → ListenKeyKeepalive
unfolding resolve_name
run listen_key api_key = resolve_name (record {
  buffer = false;
  http_request = none;
  http_response = none;
  resolver = false;
  ssl_stream = false;
  listen_key = listen_key;
  api_key = api_key;
  pending = none;
  sent = [];
  logged = [];
})

connect_to_names : ListenKeyKeepalive → ListenKeyKeepalive
connect_to_names s = record s { resolver = false; ssl_stream = true; pending = some connect }

perform_ssl_connection : Bool → ListenKeyKeepalive → ListenKeyKeepalive
perform_ssl_connection sni s = if sni then record s { pending = some handshake } else s

pub renewal : (listen_key api_key : Text) → Request
renewal listen_key api_key = record {
  target = text "/api/v3/userDataStream?listenKey=" ++ listen_key;
  api_key = api_key;
}

-- `prepare_request` and `send_request`
renew_listen_key : ListenKeyKeepalive → ListenKeyKeepalive
renew_listen_key s = record s {
  http_request = some (renewal s.listen_key s.api_key);
  pending = some write;
  sent = s.sent ++ renewal s.listen_key s.api_key ∷ [];
}

receive_response : ListenKeyKeepalive → ListenKeyKeepalive
receive_response s = record s {
  http_request = none;
  buffer = true;
  http_response = some [];
  pending = some read;
}

on_data_received : Text → ListenKeyKeepalive → ListenKeyKeepalive
on_data_received body s = record s {
  logged = s.logged ++ body ∷ [];
  http_response = none;
  buffer = false;
}

on_complete : Operation → Completion → ListenKeyKeepalive → ListenKeyKeepalive
unfolding connect_to_names perform_ssl_connection renew_listen_key receive_response on_data_received
on_complete resolve c s = if c.failed then s else connect_to_names s
on_complete connect c s = if c.failed then s else perform_ssl_connection c.sni s
on_complete handshake c s = if c.failed then s else renew_listen_key s
on_complete write c s = if c.failed then s else receive_response s
on_complete read c s = if c.failed then s else on_data_received c.body s

pub complete : Completion → ListenKeyKeepalive → ListenKeyKeepalive
unfolding on_complete
complete c s = elim s.pending [
  | none ↦ s
  | some op ↦ on_complete op c (record s { pending = none })
]

pub drive : List Completion → ListenKeyKeepalive → ListenKeyKeepalive
unfolding complete
drive [] s = s
drive (c ∷ cs) s = drive cs (complete c s)
