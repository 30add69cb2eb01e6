-- ===== src/Saver.antt =====
-- `persistent_orders_saver` of binance_orders/src/background_threads.cpp: each report is sent to its
-- Telegram group and then written to the tables of its account. The tables are created when the first
-- report of an account arrives. `get_alphanum_tablename` is from binance_orders/src/session.cpp.
mod Examples
pub mod Tables
pub mod Stored
pub mod Written
pub mod Messages
pub mod Streams
use binance_monitor.Base.{
  leb, if◌then◌else◌, Text, text, is_empty, Map, lookup, assign, ℕ, ◌+◌, ◌*◌, Bool, ◌&&◌, ◌||◌,
  none, some, List, [], ◌∷◌, ◌++◌,
}
use binance_monitor.Records.{
  WsOrderInfo, WsBalanceInfo, WsAccountUpdate, UserStreamResult, order, balance, account,
  TgCachedMap,
}
use binance_monitor.Telegram.{TgMessageSender}
use binance_monitor.Telegram.Payload.{prepare_telegram_payload}
use binance_monitor.Telegram.Routing.{send_telegram_message}

-- `std::isalnum` and `std::tolower` in the "C" locale.
pub is_alnum : ℕ → Bool
is_alnum c =
    (leb b'0' c && leb c b'9') || ((leb b'A' c && leb c b'Z') || (leb b'a' c && leb c b'z'))

to_lower : ℕ → ℕ
to_lower c = if leb b'A' c && leb c b'Z' then c + 32 else c

pub get_alphanum_tablename : Text → Text
unfolding is_alnum to_lower
get_alphanum_tablename [] = []
get_alphanum_tablename (c ∷ str) =
    let rest = get_alphanum_tablename str in if is_alnum c then to_lower c ∷ rest else rest

-- The calls of the database connector.
pub data Statement : Type 0 where
  create_order_table create_balance_table : Text → Statement
  add_new_order : Text → WsOrderInfo → Statement
  add_new_balance : Text → WsBalanceInfo → Statement

-- The local variables of the thread, and the calls so far, the last one first.
pub record Saver : Type 0 where
  pub account_table_map : Map Text
  pub chats_id_map : TgCachedMap
  pub message_senders : List TgMessageSender
  pub statements : List Statement

pub alias_of : UserStreamResult → Text
alias_of (order o) = o.for_aliased_account
alias_of (balance b) = b.for_aliased_account
alias_of (account a) = a.for_aliased_account

pub group_of_report : UserStreamResult → Text
group_of_report (order o) = o.telegram_group
group_of_report (balance b) = b.telegram_group
group_of_report (account a) = a.telegram_group

-- `account_table_map[...]`, which is empty where the account is new.
pub table_alias : Text → Map Text → Text
table_alias alias tables = elim (lookup alias tables) [ none ↦ [] | some known ↦ known ]

pub orders_tablename : Text → Text
orders_tablename alias = alias ++ text "_orders"

pub balance_tablename : Text → Text
balance_tablename alias = alias ++ text "_balance"

-- The tables of the account, created if its name is not known.
with_tables : Text → Saver → Text × Saver
unfolding table_alias orders_tablename balance_tablename
with_tables alias s =
    let known = table_alias alias s.account_table_map in
    let made = get_alphanum_tablename alias in
    if is_empty known
    then (
      made,
      record s {
        account_table_map = assign alias made s.account_table_map;
        statements =
            create_balance_table (balance_tablename made)
            ∷ create_order_table (orders_tablename made)
            ∷ s.statements;
      },
    )
    else (known, s)

-- An account update is not written.
write_report : UserStreamResult → Text → Saver → Saver
unfolding orders_tablename balance_tablename
write_report (order o) alias s = record s {
  statements = add_new_order (orders_tablename alias) o ∷ s.statements;
}
write_report (balance b) alias s = record s {
  statements = add_new_balance (balance_tablename alias) b ∷ s.statements;
}
write_report (account a) alias s = s

module _ (replace_all : Text → Text → Text → Text) (updated : TgCachedMap → TgCachedMap) where
  notify : UserStreamResult → Saver → Saver
  unfolding group_of_report
  notify item s =
      let (senders, chats) =
        send_telegram_message updated (prepare_telegram_payload replace_all item)
          (group_of_report item) (s.message_senders, s.chats_id_map) in
      record s { message_senders = senders; chats_id_map = chats }

  -- One round of the loop.
  pub save_item : UserStreamResult → Saver → Saver
  unfolding notify with_tables write_report
  save_item item s =
      let (alias, ready) = with_tables (alias_of item) (notify item s) in
      write_report item alias ready

  pub persistent_orders_saver : List UserStreamResult → Saver → Saver
  persistent_orders_saver [] s = s
  persistent_orders_saver (item ∷ items) s = persistent_orders_saver items (save_item item s)
