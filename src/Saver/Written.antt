-- ===== src/Saver/Written.antt =====
-- The rows that the saver writes, against the reports that it took from the container.
use binance_monitor.Base.{
  Bool-cases, All, Text, text_eq, is_empty, text_eq_sound, Map, lookup, assign, ◌≡◌, refl, sym, ap,
  ◌∙◌, inl, inr, false, List, [], ◌∷◌, ◌++◌, append-nil, append_assoc,
}
use binance_monitor.Records.{UserStreamResult, order, balance, account, TgCachedMap}
use binance_monitor.Saver.{
  Statement, create_order_table, create_balance_table, add_new_order, add_new_balance, Saver,
  alias_of, table_alias, orders_tablename, balance_tablename, get_alphanum_tablename, with_tables,
  write_report, notify, save_item, persistent_orders_saver,
}

-- The rows among the statements, the first one first.
pub rows : List Statement → List Statement
rows [] = []
rows (create_order_table t ∷ statements) = rows statements
rows (create_balance_table t ∷ statements) = rows statements
rows (add_new_order t o ∷ statements) = rows statements ++ add_new_order t o ∷ []
rows (add_new_balance t b ∷ statements) = rows statements ++ add_new_balance t b ∷ []

-- The row of a report, in the table of its account.
pub row_of : Text → UserStreamResult → List Statement
row_of alias (order o) = add_new_order (orders_tablename (get_alphanum_tablename alias)) o ∷ []
row_of alias (balance b) = add_new_balance (balance_tablename (get_alphanum_tablename alias)) b ∷ []
row_of alias (account a) = []

unfoldable pub rows_of : List UserStreamResult → List Statement
rows_of [] = []
rows_of (item ∷ items) = row_of (alias_of item) item ++ rows_of items

-- The known tables are named after their accounts.
abbrev AreNamed : Map Text → Type 0
AreNamed tables = All (λ known. known.1 ≡ get_alphanum_tablename known.0) tables

assign-AreNamed :
    (alias : Text) (tables : Map Text)
    → AreNamed tables
    → AreNamed (assign alias (get_alphanum_tablename alias) tables)
unfolding assign
assign-AreNamed alias [] h = (refl, tt)
assign-AreNamed alias ((k, v) ∷ tables) (h, hs) = elim (Bool-cases (text_eq k alias)) [
  | inl same ↦ rw same (sym (ap get_alphanum_tablename (text_eq_sound k alias same)), hs)
  | inr other ↦ rw other (h, assign-AreNamed alias tables hs)
]

known-AreNamed :
    (alias : Text) (tables : Map Text)
    → AreNamed tables
    → is_empty (table_alias alias tables) ≡ false
    → table_alias alias tables ≡ get_alphanum_tablename alias
unfolding table_alias lookup
known-AreNamed alias [] h e = cc
known-AreNamed alias ((k, v) ∷ tables) (h, hs) e = elim (Bool-cases (text_eq k alias)) [
  | inl same ↦ rw (table_alias, same) (h ∙ ap get_alphanum_tablename (text_eq_sound k alias same))
  | inr other ↦
      rw (table_alias, other) (known-AreNamed alias tables hs (rw (table_alias, other) at e))
]

-- A saver whose tables are named after their accounts, and which has written these rows.
record HasWritten (written : List Statement) (s : Saver) : Type 0 where
  named : AreNamed s.account_table_map
  same : rows s.statements ≡ written

with_tables-HasWritten :
    (alias : Text) (written : List Statement) (s : Saver)
    → HasWritten written s
    → ((with_tables alias s).0 ≡ get_alphanum_tablename alias)
      × HasWritten written (with_tables alias s).1
unfolding with_tables rows
with_tables-HasWritten alias written s w =
    elim (Bool-cases (is_empty (table_alias alias s.account_table_map))) [
      | inl new ↦
          rw (with_tables, new)
            (
              refl,
              record { named = assign-AreNamed alias s.account_table_map w.named; same = w.same },
            )
      | inr known ↦
          rw (with_tables, known) (known-AreNamed alias s.account_table_map w.named known, w)
    ]

write_report-HasWritten :
    (item : UserStreamResult) (alias table : Text) (written : List Statement) (s : Saver)
    → table ≡ get_alphanum_tablename alias
    → HasWritten written s
    → HasWritten (written ++ row_of alias item) (write_report item table s)
unfolding write_report rows row_of
write_report-HasWritten (order o) alias table written s e w = record {
  named = w.named;
  same = rw (w.same, e) refl;
}
write_report-HasWritten (balance b) alias table written s e w = record {
  named = w.named;
  same = rw (w.same, e) refl;
}
write_report-HasWritten (account a) alias table written s e w = record {
  named = w.named;
  same = rw (w.same, append-nil written) refl;
}

module _ (replace_all : Text → Text → Text → Text) (updated : TgCachedMap → TgCachedMap) where
  Saver-HasWritten :
      (items : List UserStreamResult) (written : List Statement) (s : Saver)
      → HasWritten written s
      → HasWritten (written ++ rows_of items) (persistent_orders_saver replace_all updated items s)
  unfolding persistent_orders_saver save_item notify rows_of
  Saver-HasWritten [] written s w = record {
    named = w.named;
    same = w.same ∙ sym (append-nil written);
  }
  Saver-HasWritten (item ∷ items) written s w =
      let (table, ready) =
        with_tables-HasWritten (alias_of item) written (notify replace_all updated item s)
          (record { named = w.named; same = w.same }) in
      let later =
        Saver-HasWritten items (written ++ row_of (alias_of item) item)
          (save_item replace_all updated item s)
          (write_report-HasWritten item (alias_of item) _ written _ table ready) in
      record {
        named = later.named;
        same = later.same ∙ append_assoc written (row_of (alias_of item) item) (rows_of items);
      }

  -- From the start of the saver on, the rows that it writes are those of the orders and of the balance
  -- updates that it takes, one for each, in their order, and each in the tables named after the account
  -- of its report.
  pub rows-persistent_orders_saver :
      (items : List UserStreamResult) (chats : TgCachedMap)
      → rows
          (persistent_orders_saver replace_all updated items (record {
            account_table_map = [];
            chats_id_map = chats;
            message_senders = [];
            statements = [];
          })).statements
        ≡ rows_of items
  unfolding rows
  rows-persistent_orders_saver items chats =
      (Saver-HasWritten items [] _ (record { named = tt; same = refl })).same
