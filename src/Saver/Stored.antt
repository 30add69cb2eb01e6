-- ===== src/Saver/Stored.antt =====
-- The statements of the saver of background_threads.cpp, and what their texts are read as.
use binance_monitor.Base.{
  Bool-cases, All, All-append, Text, text, text_eq, is_empty, Map, lookup, assign, ℕ, ◌≡◌, refl,
  ◌≢◌, inl, inr, true, some, List, [], ◌∷◌, ◌++◌, arith,
}
use binance_monitor.Records.{UserStreamResult, order, balance, account, TgCachedMap}
use binance_monitor.Database.{order_sql_statement, balance_sql_statement}
use binance_monitor.Database.Sql.{read_insert, is_word}
use binance_monitor.Database.Sql.Scan.{IsPlain, IsName}
use binance_monitor.Database.Values.{ArePlain}
use binance_monitor.Database.Rows.{
  order_values, order_row, balance_row, read_insert-order, read_insert-balance,
}
use binance_monitor.Saver.{
  is_alnum, to_lower, Statement, create_order_table, create_balance_table, add_new_order,
  add_new_balance, Saver, alias_of, table_alias, orders_tablename, balance_tablename,
  get_alphanum_tablename, with_tables, write_report, notify, save_item, persistent_orders_saver,
}

-- No value of the report holds a quote or a backslash.
abbrev pub IsPlainReport : UserStreamResult → Type 0
IsPlainReport (order o) = IsPlain o.instrument_id × ArePlain (order_values o)
IsPlainReport (balance b) =
    IsPlain b.instrument_id × IsPlain b.balance × IsPlain b.event_time × IsPlain b.clear_time
IsPlainReport (account a) = Unit

-- The text that is executed inserts the row of the report.
abbrev pub Inserts : Statement → Type 0
Inserts (create_order_table t) = Unit
Inserts (create_balance_table t) = Unit
Inserts (add_new_order t o) =
    read_insert (order_sql_statement t o) ≡ some (record { table = t; columns = order_row o })
Inserts (add_new_balance t b) =
    read_insert (balance_sql_statement t b) ≡ some (record { table = t; columns = balance_row b })

lower-is_word : (c : ℕ) → is_alnum c ≡ true → is_word (to_lower c) ≡ true
unfolding is_alnum to_lower is_word
lower-is_word c h = ground arith

get_alphanum_tablename-IsName : (alias : Text) → IsName (get_alphanum_tablename alias)
unfolding get_alphanum_tablename
get_alphanum_tablename-IsName [] = tt
get_alphanum_tablename-IsName (c ∷ alias) = elim (Bool-cases (is_alnum c)) [
  | inl kept ↦ rw kept (lower-is_word c kept, get_alphanum_tablename-IsName alias)
  | inr dropped ↦ rw dropped (get_alphanum_tablename-IsName alias)
]

-- Every known table is a name.
abbrev AreNames : Map Text → Type 0
AreNames tables = All (λ known. IsName known.1) tables

assign-AreNames :
    (alias made : Text) (tables : Map Text)
    → IsName made
    → AreNames tables
    → AreNames (assign alias made tables)
unfolding assign
assign-AreNames alias made [] n h = (n, tt)
assign-AreNames alias made ((k, v) ∷ tables) n (h, hs) = elim (Bool-cases (text_eq k alias)) [
  | inl same ↦ rw same (n, hs)
  | inr other ↦ rw other (h, assign-AreNames alias made tables n hs)
]

table_alias-IsName :
    (alias : Text) (tables : Map Text) → AreNames tables → IsName (table_alias alias tables)
unfolding table_alias lookup
table_alias-IsName alias [] h = tt
table_alias-IsName alias ((k, v) ∷ tables) (h, hs) = elim (Bool-cases (text_eq k alias)) [
  | inl same ↦ rw (table_alias, same) h
  | inr other ↦ rw (table_alias, other) (table_alias-IsName alias tables hs)
]

-- The names of the tables that the map holds, and the statements so far.
record IsSound (s : Saver) : Type 0 where
  names : AreNames s.account_table_map
  inserted : All Inserts s.statements

IsName-orders : (alias : Text) → IsName alias → IsName (orders_tablename alias)
unfolding orders_tablename text is_word
IsName-orders alias n =
    All-append (λ c. is_word c ≡ true) alias (text "_orders") n
      (refl, (refl, (refl, (refl, (refl, (refl, (refl, tt)))))))

IsName-balance : (alias : Text) → IsName alias → IsName (balance_tablename alias)
unfolding balance_tablename text is_word
IsName-balance alias n =
    All-append (λ c. is_word c ≡ true) alias (text "_balance") n
      (refl, (refl, (refl, (refl, (refl, (refl, (refl, (refl, tt))))))))

not_empty : (xs ys : Text) → ys ≢ [] → xs ++ ys ≢ []
not_empty [] ys h = h
not_empty (x ∷ xs) ys h = λ e. cc

with_tables-IsSound :
    (alias : Text) (s : Saver)
    → IsSound s
    → IsName (with_tables alias s).0 × IsSound (with_tables alias s).1
unfolding with_tables
with_tables-IsSound alias s sound =
    elim (Bool-cases (is_empty (table_alias alias s.account_table_map))) [
      | inl new ↦
          rw (with_tables, new)
            (
              made,
              record {
                names =
                    assign-AreNames alias (get_alphanum_tablename alias) s.account_table_map made
                      sound.names;
                inserted = (tt, (tt, sound.inserted));
              },
            )
      | inr known ↦
          rw (with_tables, known) (table_alias-IsName alias s.account_table_map sound.names, sound)
    ]
  where
    made : IsName (get_alphanum_tablename alias)
    made = get_alphanum_tablename-IsName alias

write_report-IsSound :
    (item : UserStreamResult) (alias : Text) (s : Saver)
    → IsPlainReport item
    → IsName alias
    → IsSound s
    → IsSound (write_report item alias s)
unfolding write_report orders_tablename balance_tablename text
write_report-IsSound (order o) alias s (p, ps) n sound = record {
  names = sound.names;
  inserted = (
    read_insert-order (orders_tablename alias) o (IsName-orders alias n)
        (not_empty alias (text "_orders") (λ e. cc)) p ps,
    sound.inserted,
  );
}
write_report-IsSound (balance b) alias s (p, q, r, t) n sound = record {
  names = sound.names;
  inserted = (
    read_insert-balance (balance_tablename alias) b (IsName-balance alias n)
        (not_empty alias (text "_balance") (λ e. cc)) p q r t,
    sound.inserted,
  );
}
write_report-IsSound (account a) alias s p n sound = sound

module _ (replace_all : Text → Text → Text → Text) (updated : TgCachedMap → TgCachedMap) where
  Saver-IsSound :
      (items : List UserStreamResult) (s : Saver)
      → All IsPlainReport items
      → IsSound s
      → IsSound (persistent_orders_saver replace_all updated items s)
  unfolding persistent_orders_saver save_item notify
  Saver-IsSound [] s p sound = sound
  Saver-IsSound (item ∷ items) s (p, ps) sound =
      let (n, ready) =
        with_tables-IsSound (alias_of item) (notify replace_all updated item s)
          (record { names = sound.names; inserted = sound.inserted }) in
      Saver-IsSound items (save_item replace_all updated item s) ps
        (write_report-IsSound item _ _ p n ready)

  -- Whatever reports arrive from the start of the saver on, if no value of theirs holds a quote or a
  -- backslash, the text of every statement that the saver executes for a row inserts the row of its
  -- report into the table that it names.
  pub persistent_orders_saver-Inserts :
      (items : List UserStreamResult) (chats : TgCachedMap)
      → All IsPlainReport items
      → All Inserts
          (persistent_orders_saver replace_all updated items (record {
            account_table_map = [];
            chats_id_map = chats;
            message_senders = [];
            statements = [];
          })).statements
  persistent_orders_saver-Inserts items chats p =
      (Saver-IsSound items _ p (record { names = tt; inserted = tt })).inserted
