-- ===== src/Telegram.antt =====
-- binance_orders/src/tg_message_sender.cpp: the connection that sends Telegram messages one after
-- another. A handler runs when an asynchronous operation completes. `none` is undefined behaviour:
-- `front` of an empty deque.
mod Examples
pub mod Payload
pub mod Routing
pub mod Order
pub mod Failures
use binance_monitor.Base.{
  ltb, if◌then◌else◌, ◌>>=◌, length, Text, is_empty, ℕ, suc, ◌*◌, Bool, true, false, not, ◌&&◌,
  Option, none, some, List, [], ◌∷◌, ◌++◌,
}

pub record TgPayload : Type 0 where
  pub text : Text
  pub chat_id : Text

-- The asynchronous operation under way.
pub data Operation : Type 0 where
  resolve connect handshake write read : Operation

-- `failed` is the error code of the handler, and `sni` the result of `SSL_set_tlsext_host_name`.
pub record Completion : Type 0 where
  pub failed : Bool
  pub sni : Bool

-- `requests` lists the payloads that were made into a request, and `answers` counts the calls of
-- `completion_callback_`.
pub record TgMessageSender : Type 0 where
  pub ssl_web_stream : Bool
  pub http_request : Option TgPayload
  pub payloads : List TgPayload
  pub operation_completed : Bool
  pub pending : Option Operation
  pub requests : List TgPayload
  pub answers : ℕ

-- The constructor, and `start`.
initiate_connection : TgMessageSender → TgMessageSender
initiate_connection s = record s { pending = some resolve }

pub start : TgPayload → TgMessageSender
unfolding initiate_connection
start payload = initiate_connection (record {
  ssl_web_stream = false;
  http_request = none;
  payloads = payload ∷ [];
  operation_completed = false;
  pending = none;
  requests = [];
  answers = 0;
})

pub available_with_less_tasks : TgMessageSender → Bool
available_with_less_tasks s = not s.operation_completed && ltb (length s.payloads) 20

pub add_payload : TgPayload → TgMessageSender → TgMessageSender
add_payload payload s = record s { payloads = s.payloads ++ payload ∷ [] }

reestablish_connection : TgMessageSender → TgMessageSender
unfolding initiate_connection
reestablish_connection s = initiate_connection (record s { ssl_web_stream = false })

connect_to_server : TgMessageSender → TgMessageSender
connect_to_server s = record s { ssl_web_stream = true; pending = some connect }

perform_ssl_handshake : Bool → TgMessageSender → TgMessageSender
perform_ssl_handshake sni s =
    if sni then record s { pending = some handshake } else record s { pending = none }

prepare_payload : TgMessageSender → Option TgMessageSender
prepare_payload s = elim s.http_request [
  | some request ↦ some s
  | none ↦ elim s.payloads [
    | [] ↦ none
    | payload ∷ rest ↦ some (record s {
      http_request = some payload;
      payloads = rest;
      requests = s.requests ++ payload ∷ [];
    })
  ]
]

pub send_request : TgMessageSender → Option TgMessageSender
unfolding prepare_payload
send_request s = prepare_payload s >>= λ t. some (record t { pending = some write })

receive_data : TgMessageSender → TgMessageSender
receive_data s = record s { pending = some read }

send_next_request : TgMessageSender → Option TgMessageSender
unfolding send_request
send_next_request s =
    if is_empty s.payloads
    then some (record s { operation_completed = true; pending = none })
    else send_request (record s { operation_completed = false })

give_up : TgMessageSender → TgMessageSender
give_up s = record s { operation_completed = true; pending = none }

-- The handler of each operation.
on_complete : Operation → Completion → TgMessageSender → Option TgMessageSender
unfolding give_up connect_to_server perform_ssl_handshake send_request reestablish_connection
    receive_data send_next_request
on_complete resolve c s = some (if c.failed then give_up s else connect_to_server s)
on_complete connect c s = some (if c.failed then give_up s else perform_ssl_handshake c.sni s)
on_complete handshake c s = if c.failed then some (give_up s) else send_request s
on_complete write c s =
    let sent = record s { http_request = none } in
    some (if c.failed then reestablish_connection sent else receive_data sent)
on_complete read c s =
    if c.failed
    then some (reestablish_connection s)
    else send_next_request (record s { http_request = none; answers = suc s.answers })

-- The handler of the pending operation, if there is one.
pub complete : Completion → TgMessageSender → Option TgMessageSender
unfolding on_complete
complete c s = elim s.pending [ none ↦ some s | some op ↦ on_complete op c s ]

pub drive : List Completion → TgMessageSender → Option TgMessageSender
unfolding complete
drive [] s = some s
drive (c ∷ cs) s = complete c s >>= drive cs
