-- ===== src/Reports.antt =====
-- binance_orders/src/user_data_stream.cpp, lines 370 to 479: the three kinds of messages of the
-- user data stream, each turned into what is appended to the shared stream container.
mod Examples
pub mod Atomic
use binance_monitor.Base.{
  if◌then◌else◌, ◌>>=◌, Text, text, text_eq, ℤ, to_string, to_size, Map, lookup, ◌*◌, ◌/◌, Option,
  none, some, List, [], ◌∷◌, ◌++◌, map,
}
use binance_monitor.Records.{
  WsOrderInfo, WsBalanceInfo, WsAccountUpdate, UserStreamResult, order, balance, account, HostInfo,
}
use binance_monitor.Json.{JsonLibrary, string_value, integer_value}
use binance_monitor.Time.{timet_to_string}

-- `process_timet`: the text stays empty where the time cannot be printed. The argument is an
-- `int64_t` that is passed as a `std::size_t`.
pub process_timet : ℤ → Text
process_timet time_t_value_ms = elim (timet_to_string (to_size time_t_value_ms / 1000)) [
  | some t ↦ t
  | none ↦ []
]

module _ (lib : JsonLibrary) where
  open lib use {Json, parse, get_object, get_array, get_string, is_string, is_number, float_text}

  -- The "N" field: a string, a number, or anything else, which leaves the text empty.
  pub commission_asset : Map Json → Option Text
  commission_asset object = elim (lookup (text "N") object) [
    | none ↦ some []
    | some asset ↦
        if is_string asset
        then get_string asset
        else if is_number asset
        then float_text asset
        else some []
  ]

  pub order_info : HostInfo → Map Json → Option WsOrderInfo
  order_info host object = do
    instrument_id ← string_value lib object (text "s")
    order_side ← string_value lib object (text "S")
    order_type ← string_value lib object (text "o")
    time_in_force ← string_value lib object (text "f")
    quantity_purchased ← string_value lib object (text "q")
    order_price ← string_value lib object (text "p")
    stop_price ← string_value lib object (text "P")
    execution_type ← string_value lib object (text "x")
    order_status ← string_value lib object (text "X")
    reject_reason ← string_value lib object (text "r")
    last_filled_quantity ← string_value lib object (text "l")
    commission_amount ← string_value lib object (text "n")
    last_executed_price ← string_value lib object (text "L")
    cummulative_filled_quantity ← string_value lib object (text "z")
    order_id ← integer_value lib object (text "i")
    trade_id ← integer_value lib object (text "t")
    asset ← commission_asset object
    event_time ← integer_value lib object (text "E")
    transaction_time ← integer_value lib object (text "T")
    created_time ← integer_value lib object (text "O")
    some (record {
      instrument_id = instrument_id;
      order_side = order_side;
      order_type = order_type;
      time_in_force = time_in_force;
      quantity_purchased = quantity_purchased;
      order_price = order_price;
      stop_price = stop_price;
      execution_type = execution_type;
      order_status = order_status;
      reject_reason = reject_reason;
      order_id = to_string order_id;
      last_filled_quantity = last_filled_quantity;
      cummulative_filled_quantity = cummulative_filled_quantity;
      last_executed_price = last_executed_price;
      commission_amount = commission_amount;
      commission_asset = asset;
      trade_id = to_string trade_id;
      event_time = process_timet event_time;
      transaction_time = process_timet transaction_time;
      created_time = process_timet created_time;
      for_aliased_account = host.account_alias;
      telegram_group = host.tg_group_name;
    })

  pub balance_info : HostInfo → Map Json → Option WsBalanceInfo
  balance_info host object = do
    amount ← string_value lib object (text "d")
    instrument_id ← string_value lib object (text "a")
    event_time ← integer_value lib object (text "E")
    clear_time ← integer_value lib object (text "T")
    some (record {
      instrument_id = instrument_id;
      balance = amount;
      event_time = process_timet event_time;
      clear_time = process_timet clear_time;
      for_aliased_account = host.account_alias;
      telegram_group = host.tg_group_name;
    })

  -- One round of the loop over the balances. `shared` is the record `data` of the source, which the
  -- rounds share; each overwrites the three fields of its asset.
  pub account_item : WsAccountUpdate → Json → Option WsAccountUpdate
  account_item shared json_item = do
    asset_item ← get_object json_item
    instrument_id ← string_value lib asset_item (text "a")
    free_amount ← string_value lib asset_item (text "f")
    locked_amount ← string_value lib asset_item (text "l")
    some (record shared {
      instrument_id = instrument_id;
      free_amount = free_amount;
      locked_amount = locked_amount;
    })

  -- `updates` grows by one with every round, and `shared` is what the round before left.
  pub account_items :
      WsAccountUpdate → List Json → List WsAccountUpdate → Option (List WsAccountUpdate)
  account_items shared [] updates = some updates
  account_items shared (json_item ∷ rest) updates = do
    update ← account_item shared json_item
    account_items update rest (updates ++ update ∷ [])

  pub account_updates : HostInfo → Map Json → Option (List WsAccountUpdate)
  account_updates host object = do
    event_time ← integer_value lib object (text "E")
    last_account_update ← integer_value lib object (text "u")
    balances_json ← lookup (text "B") object
    balances_array ← get_array balances_json
    account_items
        (record {
          instrument_id = [];
          free_amount = [];
          locked_amount = [];
          event_time = process_timet event_time;
          last_account_update = process_timet last_account_update;
          for_aliased_account = host.account_alias;
          telegram_group = host.tg_group_name;
        })
        balances_array []

  -- What `ws_process_*` appends to the container for one event type.
  pub process_event : HostInfo → Text → Map Json → Option (List UserStreamResult)
  process_event host event_type root =
      if text_eq event_type (text "executionReport")
      then (order_info host root >>= λ o. some (order o ∷ []))
      else if text_eq event_type (text "balanceUpdate")
      then (balance_info host root >>= λ b. some (balance b ∷ []))
      else if text_eq event_type (text "outboundAccountPosition")
      then (account_updates host root >>= λ us. some (map account us))
      else some []

  -- The body of the `try` block of `ws_interpret_generic_messages`.
  pub interpret_message : HostInfo → Text → Option (List UserStreamResult)
  interpret_message host buffer = do
    json ← parse buffer
    root ← get_object json
    elim (lookup (text "e") root) [
      | none ↦ some []
      | some event ↦ get_string event >>= λ event_type. process_event host event_type root
    ]

  -- An exception is logged, and appends nothing.
  pub interpret_generic_messages : HostInfo → Text → List UserStreamResult
  interpret_generic_messages host buffer = elim (interpret_message host buffer) [
    | none ↦ []
    | some items ↦ items
  ]
