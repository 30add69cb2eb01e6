-- ===== src/ChatUpdate.antt =====
-- binance_orders/src/chat_update.cpp: the request for the updates of the Telegram bot. A handler runs
-- when the operation under way completes; every way ends in the callback.
pub mod Settles
mod Examples
use binance_monitor.Base.{
  if◌then◌else◌, Text, ◌*◌, Bool, true, false, Option, none, some, List, [], ◌∷◌, ◌++◌,
}

pub data Operation : Type 0 where
  resolve connect handshake write read : Operation

-- `message` is the text of the error code, `sni` the result of `SSL_set_tlsext_host_name`, and `body`
-- the answer received.
pub record Completion : Type 0 where
  pub failed : Bool
  pub sni : Bool
  pub message : Text
  pub body : Text

-- `called` lists the calls of `completion_cb_`: the response and the error message.
pub record ChatUpdate : Type 0 where
  pub resolver : Bool
  pub ssl_stream : Bool
  pub http_request : Bool
  pub buffer : Bool
  pub http_response : Option Text
  pub pending : Option Operation
  pub called : List (Text × Text)

-- The constructor and `run`.
pub run : ChatUpdate
run = record {
  resolver = true;
  ssl_stream = false;
  http_request = false;
  buffer = false;
  http_response = none;
  pending = some resolve;
  called = [];
}

set_error : Text → ChatUpdate → ChatUpdate
set_error error_message s = record s { called = s.called ++ ([], error_message) ∷ [] }

set_result : Text → ChatUpdate → ChatUpdate
set_result msg s = record s { called = s.called ++ (msg, []) ∷ [] }

connect_to_resolved_names : ChatUpdate → ChatUpdate
connect_to_resolved_names s = record s {
  resolver = false;
  ssl_stream = true;
  pending = some connect;
}

perform_ssl_handshake : Completion → ChatUpdate → ChatUpdate
unfolding set_error
perform_ssl_handshake c s =
    if c.sni then record s { pending = some handshake } else set_error c.message s

get_bot_updates : ChatUpdate → ChatUpdate
get_bot_updates s = record s { http_request = true; pending = some write }

receive_http_response : ChatUpdate → ChatUpdate
receive_http_response s = record s {
  http_request = false;
  buffer = true;
  http_response = some [];
  pending = some read;
}

-- The handlers, without the operation that has ended.
on_complete : Operation → Completion → ChatUpdate → ChatUpdate
unfolding connect_to_resolved_names perform_ssl_handshake get_bot_updates receive_http_response
    set_error set_result
on_complete resolve c s = if c.failed then set_error c.message s else connect_to_resolved_names s
on_complete connect c s = if c.failed then set_error c.message s else perform_ssl_handshake c s
on_complete handshake c s = if c.failed then set_error c.message s else get_bot_updates s
on_complete write c s = if c.failed then set_error c.message s else receive_http_response s
on_complete read c s =
    if c.failed
    then set_error c.message s
    else set_result c.body (record s { http_response = some c.body })

pub complete : Completion → ChatUpdate → ChatUpdate
unfolding on_complete
complete c s = elim s.pending [
  | none ↦ s
  | some op ↦ on_complete op c (record s { pending = none })
]

pub drive : List Completion → ChatUpdate → ChatUpdate
unfolding complete
drive [] s = s
drive (c ∷ cs) s = drive cs (complete c s)
