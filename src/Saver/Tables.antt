-- ===== src/Saver/Tables.antt =====
-- The tables that the saver of background_threads.cpp creates, and those that it writes to.
use binance_monitor.Base.{
  if◌then◌else◌, Bool-cases, Text, text_eq, is_empty, text_eq_refl, Map, lookup, assign,
  lookup-assign, ℕ, ◌≡◌, refl, sym, ap, ◌∙◌, subst, ◌≢◌, inl, inr, Bool, true, false, ◌||◌, List,
  [], ◌∷◌, ◌++◌, arith,
}
use binance_monitor.Records.{UserStreamResult, order, balance, account, TgCachedMap}
use binance_monitor.Saver.{
  is_alnum, Statement, create_order_table, create_balance_table, add_new_order, add_new_balance,
  Saver, alias_of, table_alias, orders_tablename, balance_tablename, get_alphanum_tablename,
  with_tables, write_report, notify, save_item, persistent_orders_saver,
}

creates : Text → Statement → Bool
creates table (create_order_table t) = text_eq t table
creates table (create_balance_table t) = text_eq t table
creates table (add_new_order t o) = false
creates table (add_new_balance t b) = false

pub created : Text → List Statement → Bool
unfolding creates
created table [] = false
created table (c ∷ older) = creates table c || created table older

-- The last statement stands first.
abbrev pub IsOrdered : List Statement → Type 0
IsOrdered [] = Unit
IsOrdered (create_order_table t ∷ older) = IsOrdered older
IsOrdered (create_balance_table t ∷ older) = IsOrdered older
IsOrdered (add_new_order t o ∷ older) = (created t older ≡ true) × IsOrdered older
IsOrdered (add_new_balance t b ∷ older) = (created t older ≡ true) × IsOrdered older

abbrev HasTables : Text → List Statement → Type 0
HasTables alias statements =
    (created (orders_tablename alias) statements ≡ true)
    × (created (balance_tablename alias) statements ≡ true)

-- The tables of every account that the map names are there.
pub record IsReady (s : Saver) : Type 0 where
  pub ordered : IsOrdered s.statements
  pub tables :
      (alias : Text)
      → is_empty (table_alias alias s.account_table_map) ≡ false
      → HasTables (table_alias alias s.account_table_map) s.statements

created-cons :
    (table : Text) (c : Statement) (older : List Statement)
    → created table older ≡ true
    → created table (c ∷ older) ≡ true
unfolding created
created-cons table c older h = ground arith

HasTables-cons :
    (alias : Text) (c : Statement) (older : List Statement)
    → HasTables alias older
    → HasTables alias (c ∷ older)
HasTables-cons alias c older h = (
  created-cons (orders_tablename alias) c older h.0,
  created-cons (balance_tablename alias) c older h.1,
)

HasTables-made :
    (alias : Text) (older : List Statement)
    → HasTables alias (
        create_balance_table (balance_tablename alias)
        ∷ create_order_table (orders_tablename alias)
        ∷ older)
unfolding created creates
HasTables-made alias older = (
  rw (text_eq_refl (orders_tablename alias))
      (or_true (text_eq (balance_tablename alias) (orders_tablename alias))),
  rw (text_eq_refl (balance_tablename alias)) refl,
)
  where
    or_true : (b : Bool) → b || true ≡ true
    or_true true = refl
    or_true false = refl

table_alias-assign :
    (alias other made : Text) (m : Map Text)
    → table_alias other (assign alias made m)
      ≡ (if text_eq alias other then made else table_alias other m)
unfolding table_alias
table_alias-assign alias other made m = elim (Bool-cases (text_eq alias other)) [
  | inl same ↦ rw (table_alias, lookup-assign other alias made m, same) refl
  | inr different ↦ rw (table_alias, lookup-assign other alias made m, different) refl
]

-- The saver with the tables of an account just made.
abbrev with_new : Text → Saver → Saver
with_new alias s = record s {
  account_table_map = assign alias (get_alphanum_tablename alias) s.account_table_map;
  statements =
      create_balance_table (balance_tablename (get_alphanum_tablename alias))
      ∷ create_order_table (orders_tablename (get_alphanum_tablename alias))
      ∷ s.statements;
}

with_new-IsReady : (alias : Text) (s : Saver) → IsReady s → IsReady (with_new alias s)
with_new-IsReady alias s ready = record {
  ordered = ready.ordered;
  tables = λ other known. elim (Bool-cases (text_eq alias other)) [
    | inl same ↦
        subst (λ name. HasTables name (with_new alias s).statements)
          (sym (
            table_alias-assign alias other made s.account_table_map
            ∙ ap (λ b. if b then made else table_alias other s.account_table_map) same))
          (HasTables-made made s.statements)
    | inr different ↦
        let unchanged =
          table_alias-assign alias other made s.account_table_map
          ∙ ap (λ b. if b then made else table_alias other s.account_table_map) different in
        subst (λ name. HasTables name (with_new alias s).statements) (sym unchanged)
          (HasTables-cons _ _ _
            (HasTables-cons _ _ _ (ready.tables other (sym (ap is_empty unchanged) ∙ known))))
  ];
}
  where
    made : Text
    made = get_alphanum_tablename alias

with_tables-IsReady :
    (alias : Text) (s : Saver)
    → IsReady s
    → IsReady (with_tables alias s).1
      × HasTables (with_tables alias s).0 (with_tables alias s).1.statements
unfolding with_tables
with_tables-IsReady alias s ready =
    elim (Bool-cases (is_empty (table_alias alias s.account_table_map))) [
      | inl new ↦
          rw (with_tables, new)
            (
              with_new-IsReady alias s ready,
              HasTables-made (get_alphanum_tablename alias) s.statements,
            )
      | inr known ↦ rw (with_tables, known) (ready, ready.tables alias known)
    ]

write_report-IsReady :
    (item : UserStreamResult) (alias : Text) (s : Saver)
    → IsReady s
    → HasTables alias s.statements
    → IsReady (write_report item alias s)
unfolding write_report
write_report-IsReady (order o) alias s ready has = record {
  ordered = (has.0, ready.ordered);
  tables = λ other known. HasTables-cons _ _ _ (ready.tables other known);
}
write_report-IsReady (balance b) alias s ready has = record {
  ordered = (has.1, ready.ordered);
  tables = λ other known. HasTables-cons _ _ _ (ready.tables other known);
}
write_report-IsReady (account a) alias s ready has = ready

module _ (replace_all : Text → Text → Text → Text) (updated : TgCachedMap → TgCachedMap) where
  save_item-IsReady :
      (item : UserStreamResult) (s : Saver)
      → IsReady s
      → IsReady (save_item replace_all updated item s)
  unfolding save_item notify
  save_item-IsReady item s ready =
      let (later, has) =
        with_tables-IsReady (alias_of item) (notify replace_all updated item s)
          (record { ordered = ready.ordered; tables = ready.tables }) in
      write_report-IsReady item _ _ later has

  Saver-IsReady :
      (items : List UserStreamResult) (s : Saver)
      → IsReady s
      → IsReady (persistent_orders_saver replace_all updated items s)
  unfolding persistent_orders_saver
  Saver-IsReady [] s ready = ready
  Saver-IsReady (item ∷ items) s ready =
      Saver-IsReady items (save_item replace_all updated item s) (save_item-IsReady item s ready)

  -- Whatever reports arrive from the start of the saver on, every row is written to a table that an
  -- earlier statement creates.
  pub persistent_orders_saver-IsOrdered :
      (items : List UserStreamResult) (chats : TgCachedMap)
      → IsOrdered
          (persistent_orders_saver replace_all updated items (record {
            account_table_map = [];
            chats_id_map = chats;
            message_senders = [];
            statements = [];
          })).statements
  unfolding table_alias lookup
  persistent_orders_saver-IsOrdered items chats =
      (Saver-IsReady items _
        (record { ordered = tt; tables = λ alias known. absurd (apart known) })).ordered
    where
      apart : true ≢ false
      apart e = cc

-- A byte that is neither a letter nor a digit leaves no trace in the name of a table: accounts whose
-- aliases differ only by such bytes write to the same tables.
get_alphanum_tablename-punctuation :
    (a b : Text) (c : ℕ)
    → is_alnum c ≡ false
    → get_alphanum_tablename (a ++ c ∷ b) ≡ get_alphanum_tablename (a ++ b)
unfolding get_alphanum_tablename
get_alphanum_tablename-punctuation [] b c h = rw h refl
get_alphanum_tablename-punctuation (x ∷ a) b c h =
    rw (get_alphanum_tablename-punctuation a b c h) refl
