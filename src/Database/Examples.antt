-- ===== src/Database/Examples.antt =====
-- Examples: a host, the tables of an account, the table of the chats, and a database that is lost.
use binance_monitor.Base.{Text, text, ◌≡◌, refl, true, some, []}
use binance_monitor.Records.{WsOrderInfo, WsBalanceInfo, HostInfo, no_changes, TgChatId}
use binance_monitor.Database.Sql.{read_insert}
use binance_monitor.Database.Sql.Scan.{is_plain}
use binance_monitor.Database.{host_sql_statement}
use binance_monitor.Database.HostRows.{host_row, read_insert-host}
use binance_monitor.Database.Connection.{DatabaseConnector}

abbrev ann : HostInfo
ann = record {
  account_alias = text "ann";
  api_key = text "k1";
  secret_key = text "s1";
  tg_group_name = text "desk";
  changes = no_changes;
}

read_insert-host_example :
    read_insert (host_sql_statement ann)
    ≡ some (record { table = text "hosts"; columns = host_row ann })
unfolding text is_plain
read_insert-host_example =
    read_insert-host ann (refl, (refl, tt)) (refl, (refl, tt)) (refl, (refl, (refl, tt)))
      (refl, (refl, (refl, (refl, tt))))

abbrev an_order : WsOrderInfo
an_order = record {
  instrument_id = text "BTCUSDT";
  order_side = text "BUY";
  order_type = text "LIMIT";
  time_in_force = text "GTC";
  quantity_purchased = text "1";
  order_price = text "2";
  stop_price = text "0";
  execution_type = text "NEW";
  order_status = text "NEW";
  reject_reason = text "NONE";
  order_id = text "7";
  last_filled_quantity = text "0";
  cummulative_filled_quantity = text "0";
  last_executed_price = text "0";
  commission_amount = text "0";
  commission_asset = [];
  trade_id = text "1";
  event_time = [];
  transaction_time = [];
  created_time = [];
  for_aliased_account = text "ann";
  telegram_group = text "desk";
}

abbrev a_balance : WsBalanceInfo
a_balance = record {
  instrument_id = text "BTC";
  balance = text "0.5";
  event_time = [];
  clear_time = [];
  for_aliased_account = text "ann";
  telegram_group = text "desk";
}

abbrev new_chat : Text × TgChatId
new_chat = (text "desk", record { database_id = 0; telegram_chat_id = text "42" })

abbrev connector : DatabaseConnector
connector = record {
  db_config = record {
    db_username = text "u";
    db_password = text "p";
    db_dns = text "d";
    bot_token = [];
  };
  is_running = true;
  logins = [];
}
