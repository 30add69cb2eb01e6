-- ===== src/Telegram/Payload.antt =====
-- `prepare_telegram_payload` of binance_orders/src/telegram_process.cpp: the text of a message, in the
-- form in which it stands in a URL. `boost::replace_all` is a parameter.
pub mod Decoded
use binance_monitor.Base.{if◌then◌else◌, Text, text, is_empty, ℕ, ◌*◌, ◌≡◌, ◌≢◌, [], ◌∷◌, ◌++◌}
use binance_monitor.Records.{
  WsOrderInfo, WsBalanceInfo, WsAccountUpdate, UserStreamResult, order, balance, account,
}

-- `label + value + "%0A"`
pub line : Text → Text → Text
line label value = label ++ (value ++ text "%0A")

pub order_payload : WsOrderInfo → Text
order_payload o =
    text "Exchange: Binance%0A"
    ++ (line (text "OrderID: ") o.order_id
        ++ (line (text "Token: ") o.instrument_id
            ++ (line (text "Price: ") o.order_price
                ++ (line (text "Qty: ") o.quantity_purchased
                    ++ (line (text "LastFilled: ") o.last_filled_quantity
                        ++ (line (text "Side: ") o.order_side
                            ++ (line (text "Type: ") o.order_type
                                ++ ((if is_empty o.commission_asset
                                      then []
                                      else line (text "Fee: ") (
                                          o.commission_amount
                                          ++ (text " ( " ++ (o.commission_asset ++ text " )"))))
                                    ++ (line (text "ExeType: ") o.execution_type
                                        ++ (line (text "State: ") o.order_status
                                            ++ (line (text "CreatedTime: ") o.created_time
                                                ++ line (text "TransactionTime: ")
                                                    o.transaction_time)))))))))))

pub balance_payload : WsBalanceInfo → Text
balance_payload b =
    text "Exchange: Binance%0A"
    ++ (text "Type: BalanceUpdate%0A"
        ++ (line (text "Token: ") b.instrument_id
            ++ (line (text "Time: ") b.clear_time ++ line (text "Balance: ") b.balance)))

pub account_payload : WsAccountUpdate → Text
account_payload a =
    text "Exchange: Binance%0A"
    ++ (text "Type: AccountUpdate%0A"
        ++ (line (text "Token: ") a.instrument_id
            ++ (line (text "Free: ") a.free_amount
                ++ (line (text "Locked: ") a.locked_amount
                    ++ (line (text "EventTime: ") a.event_time
                        ++ line (text "LastUpdateTime: ") a.last_account_update)))))

module _ (replace_all : Text → Text → Text → Text) where
  pub prepare_telegram_payload : UserStreamResult → Text
  unfolding order_payload balance_payload account_payload
  prepare_telegram_payload (order o) = replace_all (order_payload o) (text " ") (text "%20")
  prepare_telegram_payload (balance b) = replace_all (balance_payload b) (text " ") (text "%20")
  prepare_telegram_payload (account a) = replace_all (account_payload a) (text " ") (text "%20")

-- What `boost::replace_all` does where the text that is searched is one byte.
pub record ReplacesAll (replace_all : Text → Text → Text → Text) : Type 0 where
  pub nothing : (d : ℕ) (new : Text) → replace_all [] (d ∷ []) new ≡ []
  pub kept :
      (c d : ℕ) (s new : Text)
      → c ≢ d
      → replace_all (c ∷ s) (d ∷ []) new ≡ c ∷ replace_all s (d ∷ []) new
  pub replaced :
      (d : ℕ) (s new : Text) → replace_all (d ∷ s) (d ∷ []) new ≡ new ++ replace_all s (d ∷ []) new
