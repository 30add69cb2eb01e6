-- ===== src/Records.antt =====
-- The records that the threads of binance_orders exchange: include/orders_info.hpp,
-- include/host_info.hpp and include/request_handler.hpp.
use binance_monitor.Base.{Text, Map, ℕ}

pub record WsOrderInfo : Type 0 where
  pub instrument_id : Text
  pub order_side : Text
  pub order_type : Text
  pub time_in_force : Text
  pub quantity_purchased : Text
  pub order_price : Text
  pub stop_price : Text
  pub execution_type : Text
  pub order_status : Text
  pub reject_reason : Text
  pub order_id : Text
  pub last_filled_quantity : Text
  pub cummulative_filled_quantity : Text
  pub last_executed_price : Text
  pub commission_amount : Text
  pub commission_asset : Text
  pub trade_id : Text
  pub event_time : Text
  pub transaction_time : Text
  pub created_time : Text
  pub for_aliased_account : Text
  pub telegram_group : Text

pub record WsBalanceInfo : Type 0 where
  pub instrument_id : Text
  pub balance : Text
  pub event_time : Text
  pub clear_time : Text
  pub for_aliased_account : Text
  pub telegram_group : Text

pub record WsAccountUpdate : Type 0 where
  pub instrument_id : Text
  pub free_amount : Text
  pub locked_amount : Text
  pub event_time : Text
  pub last_account_update : Text
  pub for_aliased_account : Text
  pub telegram_group : Text

pub record TgChatId : Type 0 where
  pub database_id : ℕ
  pub telegram_chat_id : Text

-- `tg_ccached_map_t`
abbrev pub TgCachedMap : Type 0
TgCachedMap = Map TgChatId

-- `user_stream_result_t`
pub data UserStreamResult : Type 0 where
  order : WsOrderInfo → UserStreamResult
  balance : WsBalanceInfo → UserStreamResult
  account : WsAccountUpdate → UserStreamResult

pub data HostChanged : Type 0 where
  no_changes host_removed tg_group_changed : HostChanged

pub record HostInfo : Type 0 where
  pub account_alias : Text
  pub api_key : Text
  pub secret_key : Text
  pub tg_group_name : Text
  pub changes : HostChanged
