-- ===== src/Database/Cache.antt =====
-- The table of the chats of binance_orders/src/database_connector.cpp: `get_tg_cached_ids` and
-- `insert_update_cached_ids`.
pub mod Reload
pub mod Table
use binance_monitor.Base.{
  ◌==◌, if◌then◌else◌, Text, text, text_eq, decimal, lookup, assign, ℕ, ◌*◌, ◌≡◌, false, Option,
  none, some, List, [], ◌∷◌,
}
use binance_monitor.Records.{TgChatId, TgCachedMap}
use binance_monitor.Database.{concat}

-- The two statements, with the values that stand in their texts.
pub data CacheStatement : Type 0 where
  insert_id : (group_id group_name : Text) → CacheStatement
  update_id : (group_id group_name : Text) (id : ℕ) → CacheStatement

pub cached_id_statement : Text → TgChatId → CacheStatement
cached_id_statement chat_name chat_info =
    if chat_info.database_id == 0
    then insert_id chat_info.telegram_chat_id chat_name
    else update_id chat_info.telegram_chat_id chat_name chat_info.database_id

pub cached_id_sql_statement : CacheStatement → Text
unfolding concat
cached_id_sql_statement (insert_id group_id group_name) = concat (
    text "INSERT INTO `tg_id_cache`(group_id, group_name)VALUES ('"
    ∷ group_id
    ∷ text "', '"
    ∷ group_name
    ∷ text "')"
    ∷ [])
cached_id_sql_statement (update_id group_id group_name id) = concat (
    text "UPDATE `tg_id_cache` SET group_id='"
    ∷ group_id
    ∷ text "', group_name='"
    ∷ group_name
    ∷ text "' WHERE id='"
    ∷ decimal id id
    ∷ text "'"
    ∷ [])

-- The loop over what the query for the chats gives.
read_chats : List (Text × TgChatId) → TgCachedMap → TgCachedMap
read_chats [] result = result
read_chats ((chat_name, chat_info) ∷ rows) result =
    read_chats rows (assign chat_name chat_info result)

pub get_tg_cached_ids : List (Text × TgChatId) → TgCachedMap
unfolding read_chats
get_tg_cached_ids rows = read_chats rows []

-- The names of the rows are all different.
abbrev pub AreDistinct : List (Text × TgChatId) → Type 0
AreDistinct [] = Unit
AreDistinct ((name, chat) ∷ rows) = (lookup name rows ≡ none) × AreDistinct rows

-- The table in the database: what its statements do, by the unique index on the names, the key and the
-- numbers that the database gives out. `none` is an exception.
pub record CacheTable : Type 1 where
  pub State : Type 0
  pub execute : CacheStatement → State → Option State
  pub rows : State → List (Text × TgChatId)
  pub unique_names : (t : State) → AreDistinct (rows t)
  pub inserts :
      (id name : Text) (t : State)
      → lookup name (rows t) ≡ none
      → (t' : State) × (execute (insert_id id name) t ≡ some t')
        × ((n : ℕ) × (lookup name (rows t')
              ≡ some (record { database_id = n; telegram_chat_id = id })))
        × ((other : Text)
            → text_eq name other ≡ false
            → lookup other (rows t') ≡ lookup other (rows t))
  pub refuses_taken_name :
      (id name : Text) (t : State) (r : TgChatId)
      → lookup name (rows t) ≡ some r
      → execute (insert_id id name) t ≡ none
  pub updates :
      (id name : Text) (t : State) (r : TgChatId)
      → lookup name (rows t) ≡ some r
      → (t' : State) × (execute (update_id id name r.database_id) t ≡ some t')
        × (lookup name (rows t') ≡ some (record r { telegram_chat_id = id }))
        × ((other : Text)
            → text_eq name other ≡ false
            → lookup other (rows t') ≡ lookup other (rows t))

module _ (table : CacheTable) where
  open table use {State, execute}

  -- An exception is logged, and the next chat is taken.
  store_one : Text → TgChatId → State → State
  unfolding cached_id_statement
  store_one chat_name chat_info t = elim (execute (cached_id_statement chat_name chat_info) t) [
    | none ↦ t
    | some t' ↦ t'
  ]

  pub insert_update_cached_ids : TgCachedMap → State → State
  unfolding store_one
  insert_update_cached_ids [] t = t
  insert_update_cached_ids ((chat_name, chat_info) ∷ chats) t =
      insert_update_cached_ids chats (store_one chat_name chat_info t)
