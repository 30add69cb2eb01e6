-- ===== src/Database/Schema.antt =====
-- The columns of the tables that database_connector.cpp creates, and the rows that it inserts.
use binance_monitor.Base.{
  get_elem?, drop, Text, text, text_eq, Map, ◌≡◌, Bool, true, ◌&&◌, Option, some, List, [], ◌∷◌,
}
use binance_monitor.Containers.{contains}
use binance_monitor.Database.Sql.{Token, word, mark, backquoted}

pub has_columns : Map (Option Text) → List Text → Bool
unfolding contains
has_columns [] names = true
has_columns ((name, value) ∷ row) names = contains text_eq name names && has_columns row names

-- The names of a CREATE: first the table, and then the columns, among them all those of the row.
pub record Fits (table : Text) (row : Map (Option Text)) (names : List Text) : Type 0 where
  pub same_table : get_elem? names 0 ≡ some table
  pub all_columns : has_columns row (drop 1 names) ≡ true

-- What follows "CREATE TABLE if not exists `".
from_name : List Token → List Text
unfolding backquoted
from_name ts = backquoted (
    word (text "CREATE")
    ∷ word (text "TABLE")
    ∷ word (text "if")
    ∷ word (text "not")
    ∷ word (text "exists")
    ∷ mark b'`'
    ∷ ts)

order_table_columns : List Text
order_table_columns =
    text "id"
    ∷ text "instrument_id"
    ∷ text "order_side"
    ∷ text "order_type"
    ∷ text "time_in_force"
    ∷ text "quantity_purchased"
    ∷ text "order_price"
    ∷ text "stop_price"
    ∷ text "execution_type"
    ∷ text "order_status"
    ∷ text "reject_reason"
    ∷ text "order_id"
    ∷ text "last_filled_quantity"
    ∷ text "cummulative_filled_quantity"
    ∷ text "last_executed_price"
    ∷ text "commission_amount"
    ∷ text "commission_asset"
    ∷ text "trade_id"
    ∷ text "transaction_time"
    ∷ text "event_time"
    ∷ text "created_time"
    ∷ text "id"
    ∷ []

balance_table_columns : List Text
balance_table_columns =
    text "id"
    ∷ text "instrument_id"
    ∷ text "balance"
    ∷ text "event_time"
    ∷ text "clear_time"
    ∷ text "id"
    ∷ []
