-- ===== src/Database/Cache/Table.antt =====
-- A table for the examples: a list in which a later row stands in front of those that it replaces.
use binance_monitor.Base.{
  if◌then◌else◌, Bool-cases, length, Text, text_eq, text_eq_refl, text_eq_iff, lookup, ℕ, ◌+◌, ◌≡◌,
  refl, sym, ap, ◌∙◌, inl, inr, Bool, true, false, Option, none, some, List, [], ◌∷◌, arith,
}
use binance_monitor.Records.{TgChatId}
use binance_monitor.Database.Cache.{CacheStatement, insert_id, update_id, AreDistinct, CacheTable}

abbrev Rows : Type 0
Rows = List (Text × TgChatId)

without : Text → Rows → Rows
without name [] = []
without name ((k, r) ∷ rows) =
    let rest = without name rows in if text_eq k name then rest else (k, r) ∷ rest

current : Rows → Rows
unfolding without
current [] = []
current ((k, r) ∷ rows) = (k, r) ∷ without k (current rows)

lookup-without :
    (name other : Text) (rows : Rows)
    → lookup other (without name rows) ≡ (if text_eq name other then none else lookup other rows)
unfolding lookup without
lookup-without name other [] = ground arith
lookup-without name other ((k, r) ∷ rows) = ground (
  arith,
  text_eq_iff name other,
  text_eq_iff k name,
  text_eq_iff k other,
  lookup-without name other rows,
)

without-AreDistinct :
    (name : Text) (rows : Rows) → AreDistinct rows → AreDistinct (without name rows)
unfolding without
without-AreDistinct name [] d = tt
without-AreDistinct name ((k, r) ∷ rows) (new, d) = elim (Bool-cases (text_eq k name)) [
  | inl same ↦ rw same (without-AreDistinct name rows d)
  | inr other ↦
      rw other
        (lookup-without name k rows ∙ missing (text_eq name k), without-AreDistinct name rows d)
]
  where
    missing : (b : Bool) → (if b then none else lookup k rows) ≡ none
    missing true = refl
    missing false = new

current-AreDistinct : (rows : Rows) → AreDistinct (current rows)
unfolding current
current-AreDistinct [] = tt
current-AreDistinct ((k, r) ∷ rows) = (
  lookup-without k k (current rows) ∙ rw (text_eq_refl k) refl,
  without-AreDistinct k (current rows) (current-AreDistinct rows),
)

lookup-current : (name : Text) (rows : Rows) → lookup name (current rows) ≡ lookup name rows
unfolding lookup current
lookup-current name [] = refl
lookup-current name ((k, r) ∷ rows) =
    ground (arith, lookup-without k name (current rows), lookup-current name rows)

run_statement : CacheStatement → Rows → Option Rows
run_statement (insert_id id name) rows = elim (lookup name rows) [
  | none ↦ some ((name, record { database_id = length rows + 1; telegram_chat_id = id }) ∷ rows)
  | some r ↦ none
]
run_statement (update_id id name number) rows =
    some ((name, record { database_id = number; telegram_chat_id = id }) ∷ rows)

-- A row in front of the others.
lookup-cons :
    (name other : Text) (r : TgChatId) (rows : Rows)
    → lookup other (current ((name, r) ∷ rows))
      ≡ (if text_eq name other then some r else lookup other (current rows))
unfolding lookup
lookup-cons name other r rows =
    lookup-current other ((name, r) ∷ rows)
    ∙ ap (λ (o : Option TgChatId). if text_eq name other then some r else o)
        (sym (lookup-current other rows))

table_inserts :
    (id name : Text) (t : Rows)
    → lookup name (current t) ≡ none
    → (t' : Rows) × (run_statement (insert_id id name) t ≡ some t')
      × ((n : ℕ) × (lookup name (current t')
            ≡ some (record { database_id = n; telegram_chat_id = id })))
      × ((other : Text)
          → text_eq name other ≡ false
          → lookup other (current t') ≡ lookup other (current t))
unfolding run_statement
table_inserts id name t missing =
    let r : TgChatId = record { database_id = length t + 1; telegram_chat_id = id } in
    let new : lookup name t ≡ none = sym (lookup-current name t) ∙ missing in
    (
      (name, r) ∷ t,
      rw (run_statement, new) refl,
      (length t + 1, lookup-cons name name r t ∙ rw (text_eq_refl name) refl),
      λ other apart. lookup-cons name other r t ∙ rw apart refl,
    )

table_refuses :
    (id name : Text) (t : Rows) (r : TgChatId)
    → lookup name (current t) ≡ some r
    → run_statement (insert_id id name) t ≡ none
unfolding run_statement
table_refuses id name t r found = rw (run_statement, sym (lookup-current name t) ∙ found) refl

table_updates :
    (id name : Text) (t : Rows) (r : TgChatId)
    → lookup name (current t) ≡ some r
    → (t' : Rows) × (run_statement (update_id id name r.database_id) t ≡ some t')
      × (lookup name (current t') ≡ some (record r { telegram_chat_id = id }))
      × ((other : Text)
          → text_eq name other ≡ false
          → lookup other (current t') ≡ lookup other (current t))
unfolding run_statement
table_updates id name t r found =
    let new : TgChatId = record r { telegram_chat_id = id } in
    (
      (name, new) ∷ t,
      refl,
      lookup-cons name name new t ∙ rw (text_eq_refl name) refl,
      λ other apart. lookup-cons name other new t ∙ rw apart refl,
    )

unfoldable pub list_table : CacheTable
unfolding current run_statement current-AreDistinct table_inserts table_refuses table_updates
    lookup-without without-AreDistinct lookup-current lookup-cons
list_table = record {
  State = Rows;
  execute = run_statement;
  rows = current;
  unique_names = current-AreDistinct;
  inserts = table_inserts;
  refuses_taken_name = table_refuses;
  updates = table_updates;
}

unfoldable pub empty_table : list_table.State
unfolding list_table
empty_table = []
