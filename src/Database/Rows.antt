-- ===== src/Database/Rows.antt =====
-- The statements of database_connector.cpp for orders and balances, and the rows that they are
-- made for.
use binance_monitor.Base.{
  ◌>>=◌, Text, text, text_eq, Map, ◌≡◌, ap, ◌∙◌, ◌≢◌, Option, some, List, [], ◌∷◌, ◌++◌,
}
use binance_monitor.Records.{WsOrderInfo, WsBalanceInfo}
use binance_monitor.Database.Sql.{
  Token, word, tokens, Row, read_columns, pair_up, read_body, read_tokens, read_insert,
}
use binance_monitor.Database.Sql.Scan.{IsPlain, IsName, tokens-name}
use binance_monitor.Database.Values.{
  Value, literal, nullable, stored, print_from, ArePlain, read_values-print,
}
use binance_monitor.Database.{balance_sql_statement, order_sql_statement, order_columns}

-- The values of an order after its instrument, as the statement prints them.
abbrev pub order_values : WsOrderInfo → List Value
order_values o =
    literal o.order_side
    ∷ literal o.order_type
    ∷ literal o.time_in_force
    ∷ literal o.quantity_purchased
    ∷ literal o.order_price
    ∷ literal o.stop_price
    ∷ literal o.execution_type
    ∷ literal o.order_status
    ∷ literal o.reject_reason
    ∷ literal o.order_id
    ∷ literal o.last_filled_quantity
    ∷ literal o.cummulative_filled_quantity
    ∷ literal o.last_executed_price
    ∷ literal o.commission_amount
    ∷ nullable o.commission_asset
    ∷ literal o.trade_id
    ∷ nullable o.event_time
    ∷ nullable o.transaction_time
    ∷ nullable o.created_time
    ∷ []

-- The row of an order, a column for each of its members but the account and its group.
unfoldable pub order_row : WsOrderInfo → Map (Option Text)
order_row o =
    (text "instrument_id", some o.instrument_id)
    ∷ (text "order_side", some o.order_side)
    ∷ (text "order_type", some o.order_type)
    ∷ (text "time_in_force", some o.time_in_force)
    ∷ (text "quantity_purchased", some o.quantity_purchased)
    ∷ (text "order_price", some o.order_price)
    ∷ (text "stop_price", some o.stop_price)
    ∷ (text "execution_type", some o.execution_type)
    ∷ (text "order_status", some o.order_status)
    ∷ (text "reject_reason", some o.reject_reason)
    ∷ (text "order_id", some o.order_id)
    ∷ (text "last_filled_quantity", some o.last_filled_quantity)
    ∷ (text "cummulative_filled_quantity", some o.cummulative_filled_quantity)
    ∷ (text "last_executed_price", some o.last_executed_price)
    ∷ (text "commission_amount", some o.commission_amount)
    ∷ (text "commission_asset", stored (nullable o.commission_asset))
    ∷ (text "trade_id", some o.trade_id)
    ∷ (text "event_time", stored (nullable o.event_time))
    ∷ (text "transaction_time", stored (nullable o.transaction_time))
    ∷ (text "created_time", stored (nullable o.created_time))
    ∷ []

unfoldable pub balance_row : WsBalanceInfo → Map (Option Text)
balance_row b =
    (text "instrument_id", some b.instrument_id)
    ∷ (text "balance", some b.balance)
    ∷ (text "event_time", stored (nullable b.event_time))
    ∷ (text "clear_time", stored (nullable b.clear_time))
    ∷ []

abbrev pub paired : Text → List Text → Option (List (Option Text)) → Option Row
paired table ws read =
    read >>= λ vs. pair_up ws vs >>= λ row. some (record { table = table; columns = row })

-- After "INSERT INTO ".
abbrev from_table : List Token → Option Row
from_table ts = read_tokens (word (text "INSERT") ∷ word (text "INTO") ∷ ts)

-- The statement for a balance is read as its row in the table that is named. The name is one of a
-- table, and no value holds a quote or a backslash.
pub read_insert-balance :
    (table_name : Text) (b : WsBalanceInfo)
    → IsName table_name
    → table_name ≢ []
    → IsPlain b.instrument_id
    → IsPlain b.balance
    → IsPlain b.event_time
    → IsPlain b.clear_time
    → read_insert (balance_sql_statement table_name b)
      ≡ some (record { table = table_name; columns = balance_row b })
unfolding read_insert balance_sql_statement tokens read_tokens text text_eq read_columns read_body
    pair_up balance_row print_from
read_insert-balance table b name some_name p q r s =
    let values : List Value =
      literal b.balance ∷ nullable b.event_time ∷ nullable b.clear_time ∷ [] in
    let rest : Text =
      text " (instrument_id, balance, event_time, clear_time)VALUES ('"
      ++ (b.instrument_id ++ b'\'' ∷ print_from values) in
    ap from_table (tokens-name table rest name some_name)
    ∙ ap
        (paired table
          (text "instrument_id" ∷ text "balance" ∷ text "event_time" ∷ text "clear_time" ∷ []))
        (read_values-print b.instrument_id values p (q, (r, (s, tt))))

order_names : List Text
order_names =
    text "instrument_id"
    ∷ text "order_side"
    ∷ text "order_type"
    ∷ text "time_in_force"
    ∷ text "quantity_purchased"
    ∷ text "order_price"
    ∷ text "stop_price"
    ∷ text "execution_type"
    ∷ text "order_status"
    ∷ text "reject_reason"
    ∷ text "order_id"
    ∷ text "last_filled_quantity"
    ∷ text "cummulative_filled_quantity"
    ∷ text "last_executed_price"
    ∷ text "commission_amount"
    ∷ text "commission_asset"
    ∷ text "trade_id"
    ∷ text "event_time"
    ∷ text "transaction_time"
    ∷ text "created_time"
    ∷ []

-- The statement for an order is read as its row, every value under the name of its member, in the
-- table that is named. The name is one of a table, and no value holds a quote or a backslash.
pub read_insert-order :
    (tablename : Text) (o : WsOrderInfo)
    → IsName tablename
    → tablename ≢ []
    → IsPlain o.instrument_id
    → ArePlain (order_values o)
    → read_insert (order_sql_statement tablename o)
      ≡ some (record { table = tablename; columns = order_row o })
unfolding read_insert order_sql_statement tokens read_tokens text text_eq read_columns read_body
    pair_up order_row order_names order_columns print_from
read_insert-order table o name some_name p ps =
    let rest : Text = order_columns ++ (o.instrument_id ++ b'\'' ∷ print_from (order_values o)) in
    ap from_table (tokens-name table rest name some_name)
    ∙ ap (paired table order_names) (read_values-print o.instrument_id (order_values o) p ps)
