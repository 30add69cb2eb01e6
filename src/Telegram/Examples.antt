-- ===== src/Telegram/Examples.antt =====
-- Examples: a sender with two messages.
use binance_monitor.Base.{
  ◌==◌, if◌then◌else◌, length, Text, text, ◌≤◌, ◌≡◌, refl, Bool, true, false, not, ◌&&◌, some, List,
  [], ◌∷◌, ◌++◌, arith,
}
use binance_monitor.Telegram.{
  TgPayload, TgMessageSender, Operation, start, add_payload, available_with_less_tasks, drive,
}
use binance_monitor.Telegram.Order.{started, accepted, Reach-order}
use binance_monitor.Telegram.Failures.{succeeds, answered, add_payloads, finished, drive_delivers}
use binance_monitor.Url.{decode_url}
use binance_monitor.Url.Find.{Lacks}
use binance_monitor.Records.{TgCachedMap, WsOrderInfo, order}
use binance_monitor.Json.Arena.{arena}
use binance_monitor.Telegram.Payload.{prepare_telegram_payload, ReplacesAll}
use binance_monitor.Telegram.Payload.Decoded.{
  order_message, IsClean, decode_url-prepare_telegram_payload,
}
use binance_monitor.Telegram.Routing.{on_tg_update_completion}
use binance_monitor.Telegram.Routing.Chats.{Keeps, on_tg_update_completion-Keeps}

abbrev hello : TgPayload
hello = record { text = text "hello"; chat_id = text "17" }

abbrev bye : TgPayload
bye = record { text = text "bye"; chat_id = text "17" }

Reach-order_example :
    ((add_payload bye (start hello)).requests ++ (add_payload bye (start hello)).payloads
      ≡ hello ∷ bye ∷ [])
    × (length (add_payload bye (start hello)).payloads ≤ 20)
unfolding available_with_less_tasks start
Reach-order_example = Reach-order (accepted bye (started hello) refl)

drive_delivers_example :
    drive
      (succeeds ∷ succeeds ∷ succeeds ∷ answered (bye ∷ []))
      (add_payloads (bye ∷ []) (start hello))
    ≡ some (finished (hello ∷ bye ∷ []) (length (hello ∷ bye ∷ [])))
drive_delivers_example = drive_delivers hello (bye ∷ [])

abbrev sender : Operation → List TgPayload → TgMessageSender
sender op payloads = record {
  ssl_web_stream = true;
  http_request = some hello;
  payloads = payloads;
  operation_completed = false;
  pending = some op;
  requests = hello ∷ [];
  answers = 0;
}

abbrev chats : TgCachedMap
chats = (text "desk", record { database_id = 4; telegram_chat_id = text "17" }) ∷ []

on_tg_update_completion-Keeps_example :
    Keeps chats (on_tg_update_completion arena chats (text "{}") [])
on_tg_update_completion-Keeps_example = on_tg_update_completion-Keeps arena chats (text "{}") []

-- A replacement of every occurrence of the first byte of `old`.
replace_byte : Text → Text → Text → Text
replace_byte [] old new = []
replace_byte (c ∷ s) [] new = c ∷ s
replace_byte (c ∷ s) (d ∷ old) new =
    let rest = replace_byte s (d ∷ old) new in if c == d then new ++ rest else c ∷ rest

replace_byte-ReplacesAll : ReplacesAll replace_byte
unfolding replace_byte
replace_byte-ReplacesAll = record {
  nothing = λ d new. refl;
  kept = λ c d s new different. ground arith;
  replaced = λ d s new. ground arith;
}

abbrev bought : WsOrderInfo
bought = record {
  instrument_id = text "BTCUSDT";
  order_side = text "BUY";
  order_type = text "LIMIT";
  time_in_force = text "GTC";
  quantity_purchased = text "1.0";
  order_price = text "9.5";
  stop_price = text "0";
  execution_type = text "NEW";
  order_status = text "NEW";
  reject_reason = text "NONE";
  order_id = text "4";
  last_filled_quantity = text "0";
  cummulative_filled_quantity = text "0";
  last_executed_price = text "0";
  commission_amount = text "0.1";
  commission_asset = text "BNB";
  trade_id = text "-1";
  event_time = [];
  transaction_time = text "2022-01-01 00:00:00";
  created_time = [];
  for_aliased_account = text "ann";
  telegram_group = text "desk";
}

no_percent : Text → Bool
no_percent [] = true
no_percent (c ∷ s) = not (c == b'%') && no_percent s

lacks_percent : (s : Text) → no_percent s ≡ true → Lacks b'%' s
unfolding no_percent
lacks_percent [] h = tt
lacks_percent (c ∷ s) h = ground (arith, lacks_percent s)

bought-IsClean : IsClean bought
unfolding text no_percent
bought-IsClean = record {
  order_id = lacks_percent bought.order_id refl;
  instrument_id = lacks_percent bought.instrument_id refl;
  order_price = lacks_percent bought.order_price refl;
  quantity_purchased = lacks_percent bought.quantity_purchased refl;
  last_filled_quantity = lacks_percent bought.last_filled_quantity refl;
  order_side = lacks_percent bought.order_side refl;
  order_type = lacks_percent bought.order_type refl;
  commission_amount = lacks_percent bought.commission_amount refl;
  commission_asset = lacks_percent bought.commission_asset refl;
  execution_type = lacks_percent bought.execution_type refl;
  order_status = lacks_percent bought.order_status refl;
  created_time = lacks_percent bought.created_time refl;
  transaction_time = lacks_percent bought.transaction_time refl;
}

decode_url-prepare_telegram_payload_example :
    decode_url (prepare_telegram_payload replace_byte (order bought)) ≡ some (order_message bought)
decode_url-prepare_telegram_payload_example =
    decode_url-prepare_telegram_payload replace_byte-ReplacesAll bought bought-IsClean
