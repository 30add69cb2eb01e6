-- ===== src/Saver/Examples.antt =====
-- An example: two reports of a new account.
use binance_monitor.Base.{All, text, text_eq, lookup, ◌≡◌, refl, [], ◌∷◌}
use binance_monitor.Database.Sql.Scan.{is_plain}
use binance_monitor.Saver.Stored.{IsPlainReport, Inserts, persistent_orders_saver-Inserts}
use binance_monitor.Records.{UserStreamResult, balance, TgCachedMap}
use binance_monitor.Saver.{Saver, group_of_report, persistent_orders_saver}
use binance_monitor.Saver.Messages.{waiting-persistent_orders_saver}
use binance_monitor.Telegram.Routing.Delivery.{waiting}
use binance_monitor.Saver.Tables.{IsOrdered, persistent_orders_saver-IsOrdered}

abbrev deposit : UserStreamResult
deposit = balance (record {
  instrument_id = text "BTC";
  balance = text "0.5";
  event_time = [];
  clear_time = [];
  for_aliased_account = text "Ann-1";
  telegram_group = text "desk";
})

persistent_orders_saver-IsOrdered_example :
    IsOrdered
      (persistent_orders_saver
        (λ t old new. t)
        (λ m. m)
        (deposit ∷ deposit ∷ [])
        (record {
          account_table_map = [];
          chats_id_map = [];
          message_senders = [];
          statements = [];
        })).statements
persistent_orders_saver-IsOrdered_example =
    persistent_orders_saver-IsOrdered (λ t old new. t) (λ m. m) (deposit ∷ deposit ∷ []) []

plain : IsPlainReport deposit
unfolding text is_plain
plain = ((refl, (refl, (refl, tt))), (refl, (refl, (refl, tt))), tt, tt)

persistent_orders_saver-Inserts_example :
    All Inserts
      (persistent_orders_saver
        (λ t old new. t)
        (λ m. m)
        (deposit ∷ deposit ∷ [])
        (record {
          account_table_map = [];
          chats_id_map = [];
          message_senders = [];
          statements = [];
        })).statements
unfolding text is_plain
persistent_orders_saver-Inserts_example =
    persistent_orders_saver-Inserts (λ t old new. t) (λ m. m) (deposit ∷ deposit ∷ []) []
      (plain, (plain, tt))

abbrev chats : TgCachedMap
chats = (text "desk", record { database_id = 7; telegram_chat_id = text "-100" }) ∷ []

abbrev fresh : Saver
fresh = record {
  account_table_map = [];
  chats_id_map = chats;
  message_senders = [];
  statements = [];
}

waiting-persistent_orders_saver_example :
    waiting
      (persistent_orders_saver
        (λ t old new. t)
        (λ m. m)
        (deposit ∷ deposit ∷ [])
        fresh).message_senders
    ≡ 2
unfolding waiting group_of_report lookup text text_eq
waiting-persistent_orders_saver_example =
    waiting-persistent_orders_saver (λ t old new. t) (λ m. m) (deposit ∷ deposit ∷ []) fresh
      (
        (record { database_id = 7; telegram_chat_id = text "-100" }, refl),
        ((record { database_id = 7; telegram_chat_id = text "-100" }, refl), tt),
      )
