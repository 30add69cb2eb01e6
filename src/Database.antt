-- ===== src/Database.antt =====
-- The texts of the statements that binance_orders/src/database_connector.cpp executes.
pub mod Sql
pub mod Values
pub mod Rows
pub mod HostRows
pub mod Connection
pub mod Cache
mod Schema
mod Examples
use binance_monitor.Base.{if◌then◌else◌, Text, text, is_empty, ◌*◌, not, List, [], ◌∷◌, ◌++◌}
use binance_monitor.Records.{WsOrderInfo, WsBalanceInfo, HostInfo}

-- What `_format` makes of a literal: its pieces and the arguments in turn.
unfoldable pub concat : List Text → Text
concat [] = []
concat (piece ∷ pieces) = piece ++ concat pieces

unfoldable pub string_or_null : Text → Text
string_or_null str = if is_empty str then text "NULL" else b'\'' ∷ (str ++ b'\'' ∷ [])

-- `add_new_host`
unfoldable pub host_sql_statement : HostInfo → Text
unfolding concat
host_sql_statement host_info = concat (
    text "INSERT INTO hosts(api_key, secret_key, alias, tg_group) VALUES('"
    ∷ host_info.api_key
    ∷ text "', '"
    ∷ host_info.secret_key
    ∷ text "','"
    ∷ host_info.account_alias
    ∷ text "', '"
    ∷ host_info.tg_group_name
    ∷ text "')"
    ∷ [])

-- `add_new_balance`
unfoldable pub balance_sql_statement : Text → WsBalanceInfo → Text
unfolding concat string_or_null
balance_sql_statement table_name balance = concat (
    text "INSERT INTO "
    ∷ table_name
    ∷ text " (instrument_id, balance, event_time, clear_time)VALUES ('"
    ∷ balance.instrument_id
    ∷ text "', '"
    ∷ balance.balance
    ∷ text "', "
    ∷ string_or_null balance.event_time
    ∷ text ", "
    ∷ string_or_null balance.clear_time
    ∷ text ")"
    ∷ [])

order_columns : Text
unfolding concat
order_columns = concat (
    text " (instrument_id, order_side, order_type,"
    ∷ text "time_in_force, quantity_purchased, order_price, stop_price, "
    ∷ text "execution_type, order_status, reject_reason, order_id, "
    ∷ text "last_filled_quantity, cummulative_filled_quantity, last_executed_price,"
    ∷ text "commission_amount, commission_asset, trade_id, event_time, "
    ∷ text "transaction_time, created_time) VALUES('"
    ∷ [])

-- `add_new_order`
unfoldable pub order_sql_statement : Text → WsOrderInfo → Text
unfolding concat string_or_null order_columns
order_sql_statement tablename order = concat (
    text "INSERT INTO "
    ∷ tablename
    ∷ order_columns
    ∷ order.instrument_id
    ∷ text "', '"
    ∷ order.order_side
    ∷ text "', '"
    ∷ order.order_type
    ∷ text "', '"
    ∷ order.time_in_force
    ∷ text "', '"
    ∷ order.quantity_purchased
    ∷ text "', '"
    ∷ order.order_price
    ∷ text "', '"
    ∷ order.stop_price
    ∷ text "', '"
    ∷ order.execution_type
    ∷ text "', '"
    ∷ order.order_status
    ∷ text "', '"
    ∷ order.reject_reason
    ∷ text "', '"
    ∷ order.order_id
    ∷ text "', '"
    ∷ order.last_filled_quantity
    ∷ text "', '"
    ∷ order.cummulative_filled_quantity
    ∷ text "', '"
    ∷ order.last_executed_price
    ∷ text "', '"
    ∷ order.commission_amount
    ∷ text "', "
    ∷ string_or_null order.commission_asset
    ∷ text ", '"
    ∷ order.trade_id
    ∷ text "', "
    ∷ string_or_null order.event_time
    ∷ text ", "
    ∷ string_or_null order.transaction_time
    ∷ text ", "
    ∷ string_or_null order.created_time
    ∷ text ")"
    ∷ [])

-- A line of the tables: a column of text with its default.
column : Text → Text → Text
unfolding concat
column name default = concat (
    text "\t`"
    ∷ name
    ∷ text "` VARCHAR(50) NULL DEFAULT "
    ∷ default
    ∷ text " COLLATE 'utf8mb4_unicode_ci',\n"
    ∷ [])

date_column : Text → Text → Text
unfolding concat
date_column indent name =
    concat (indent ∷ text "`" ∷ name ∷ text "` DATETIME NULL DEFAULT NULL,\n" ∷ [])

last_line : Text
unfolding concat
last_line = text "    PRIMARY KEY (`id`) USING BTREE) COLLATE='utf8mb4_unicode_ci' ENGINE=InnoDB"

-- `create_balance_table`
unfoldable pub balance_table_sql_statement : Text → Text
unfolding concat column date_column last_line
balance_table_sql_statement table_name = concat (
    text "CREATE TABLE if not exists `"
    ∷ table_name
    ∷ text "` (\n\t`id` INT(10) NOT NULL AUTO_INCREMENT,\n"
    ∷ column (text "instrument_id") (text "NULL")
    ∷ column (text "balance") (text "NULL")
    ∷ date_column (text "    ") (text "event_time")
    ∷ date_column (text "\t") (text "clear_time")
    ∷ last_line
    ∷ [])

-- `create_order_table`
unfoldable pub order_table_sql_statement : Text → Text
unfolding concat column date_column last_line
order_table_sql_statement tablename = concat (
    text "CREATE TABLE if not exists `"
    ∷ tablename
    ∷ text "` (\n\t`id` INT(10) NOT NULL AUTO_INCREMENT,\n"
    ∷ column (text "instrument_id") (text "''")
    ∷ column (text "order_side") (text "''")
    ∷ column (text "order_type") (text "''")
    ∷ column (text "time_in_force") (text "''")
    ∷ column (text "quantity_purchased") (text "''")
    ∷ column (text "order_price") (text "''")
    ∷ column (text "stop_price") (text "''")
    ∷ column (text "execution_type") (text "''")
    ∷ column (text "order_status") (text "''")
    ∷ column (text "reject_reason") (text "''")
    ∷ column (text "order_id") (text "''")
    ∷ column (text "last_filled_quantity") (text "''")
    ∷ column (text "cummulative_filled_quantity") (text "''")
    ∷ column (text "last_executed_price") (text "''")
    ∷ column (text "commission_amount") (text "''")
    ∷ column (text "commission_asset") (text "''")
    ∷ column (text "trade_id") (text "''")
    ∷ date_column (text "\t") (text "transaction_time")
    ∷ date_column (text "\t") (text "event_time")
    ∷ date_column (text "\t") (text "created_time")
    ∷ last_line
    ∷ [])
