-- ===== src/Saver/Streams.antt =====
-- From the stream of a host to the rows of its account: user_data_stream.cpp, the shared container and
-- persistent_orders_saver.
use binance_monitor.Base.{All, Text, ◌≡◌, refl, ◌∙◌, List, [], ◌∷◌, ◌++◌}
use binance_monitor.Records.{HostInfo, UserStreamResult, order, balance, account, TgCachedMap}
use binance_monitor.Json.{JsonLibrary}
use binance_monitor.Reports.Atomic.{IsTagged}
use binance_monitor.Stream.{UserDataStream, user_data_stream, run}
use binance_monitor.Stream.Machine.{Reach}
use binance_monitor.Stream.Machine.Tags.{stream_tags}
use binance_monitor.Saver.{Statement, alias_of, persistent_orders_saver}
use binance_monitor.Saver.Written.{rows, row_of, rows_of, rows-persistent_orders_saver}

-- The rows of reports that are all from one account.
pub rows_of_account : Text → List UserStreamResult → List Statement
rows_of_account alias [] = []
rows_of_account alias (item ∷ items) = row_of alias item ++ rows_of_account alias items

module _ (lib : JsonLibrary) where
  alias_of-IsTagged :
      (host : HostInfo) (item : UserStreamResult)
      → IsTagged lib host item
      → alias_of item ≡ host.account_alias
  unfolding alias_of
  alias_of-IsTagged host (order o) (same, group) = same
  alias_of-IsTagged host (balance b) (same, group) = same
  alias_of-IsTagged host (account a) (same, group) = same

  rows_of-IsTagged :
      (host : HostInfo) (items : List UserStreamResult)
      → All (IsTagged lib host) items
      → rows_of items ≡ rows_of_account host.account_alias items
  unfolding rows_of rows_of_account
  rows_of-IsTagged host [] h = refl
  rows_of-IsTagged host (item ∷ items) (h, hs) =
      rw (alias_of-IsTagged host item h, rows_of-IsTagged host items hs) refl

  -- Whatever the running stream of a host receives, in whatever order its operations end: where it alone
  -- fills the container, the saver writes a row for each order and each balance update that the stream
  -- has appended, in their order, and all in the tables named after the account of the host.
  pub stream_rows :
      (replace_all : Text → Text → Text → Text) (updated : TgCachedMap → TgCachedMap)
      (host : HostInfo) (t : UserDataStream) (chats : TgCachedMap)
      → Reach lib (run (user_data_stream host)) t
      → rows
          (persistent_orders_saver replace_all updated t.appended (record {
            account_table_map = [];
            chats_id_map = chats;
            message_senders = [];
            statements = [];
          })).statements
        ≡ rows_of_account host.account_alias t.appended
  stream_rows replace_all updated host t chats r =
      rows-persistent_orders_saver replace_all updated t.appended chats
      ∙ rows_of-IsTagged host t.appended (stream_tags lib host t r)
