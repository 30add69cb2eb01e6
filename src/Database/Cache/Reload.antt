-- ===== src/Database/Cache/Reload.antt =====
-- The chats of database_connector.cpp that are stored, and those that the next start loads.
use binance_monitor.Base.{
  Bool-cases, Option-cases, Text, text_eq, text_eq_sound, lookup, assign, lookup-assign, ◌≡◌, refl,
  ap, ◌∙◌, subst, ◌≢◌, ◌⊎◌, inl, inr, false, Option, none, some, List, [], ◌∷◌,
}
use binance_monitor.Records.{TgChatId, TgCachedMap}
use binance_monitor.Database.Cache.{
  cached_id_statement, read_chats, get_tg_cached_ids, AreDistinct, CacheTable, store_one,
  insert_update_cached_ids,
}

lookup-read_chats :
    (name : Text) (rows : List (Text × TgChatId)) (result : TgCachedMap)
    → AreDistinct rows
    → lookup name (read_chats rows result)
      ≡ elim (lookup name rows) [ none ↦ lookup name result | some r ↦ some r ]
unfolding read_chats lookup
lookup-read_chats name [] result d = refl
lookup-read_chats name ((k, r) ∷ rows) result (new, d) = elim (Bool-cases (text_eq k name)) [
  | inl same ↦
      rw
        (
          same,
          lookup-read_chats name rows (assign k r result) d,
          subst (λ n. lookup n rows ≡ none) (text_eq_sound k name same) new,
          lookup-assign name k r result,
          same,
        )
        refl
  | inr other ↦ rw other (
      lookup-read_chats name rows (assign k r result) d
      ∙ ap (λ (o : Option TgChatId). elim (lookup name rows) [ none ↦ o | some c ↦ some c ])
          (lookup-assign name k r result ∙ rw other refl))
]

lookup-get_tg_cached_ids :
    (name : Text) (rows : List (Text × TgChatId))
    → AreDistinct rows
    → lookup name (get_tg_cached_ids rows) ≡ lookup name rows
unfolding get_tg_cached_ids lookup
lookup-get_tg_cached_ids name rows d =
    lookup-read_chats name rows [] d
    ∙ elim (Option-cases (lookup name rows)) [ inl e ↦ rw e refl | inr (r, e) ↦ rw e refl ]

module _ (table : CacheTable) where
  open table use {State, execute, rows, unique_names, inserts, updates, refuses_taken_name}

  -- The number that is known for a chat is that of its row: none for a chat that has no row yet.
  abbrev pub IsInStep : List (Text × TgChatId) → Text × TgChatId → Type 0
  IsInStep rs entry =
      ((entry.1.database_id ≡ 0) × (lookup entry.0 rs ≡ none))
      ⊎ ((entry.1.database_id ≢ 0)
          × ((r : TgChatId) × (lookup entry.0 rs ≡ some r) × (r.database_id ≡ entry.1.database_id)))

  abbrev pub IsStored : List (Text × TgChatId) → Text × TgChatId → Type 0
  IsStored rs entry =
      (r : TgChatId) × (lookup entry.0 rs ≡ some r)
      × (r.telegram_chat_id ≡ entry.1.telegram_chat_id)

  abbrev Keeps : Text → State → State → Type 0
  Keeps name t t' =
      (other : Text) → text_eq name other ≡ false → lookup other (rows t') ≡ lookup other (rows t)

  store_one-done :
      (name : Text) (chat : TgChatId) (t t' : State)
      → execute (cached_id_statement name chat) t ≡ some t'
      → t' ≡ store_one table name chat t
  unfolding store_one
  store_one-done name chat t t' e = rw (store_one, e) refl

  store_one-refused :
      (name : Text) (chat : TgChatId) (t : State)
      → execute (cached_id_statement name chat) t ≡ none
      → t ≡ store_one table name chat t
  unfolding store_one
  store_one-refused name chat t e = rw (store_one, e) refl

  -- The number of a chat stays zero in memory after its row is inserted, so that storing it once more
  -- is a second insertion, which the unique index refuses: a change of its Telegram id is not stored.
  pub second_insert_lost :
      (name old_id new_id : Text) (t : State)
      → lookup name (rows t) ≡ none
      → IsStored
          (get_tg_cached_ids (
            rows (
              insert_update_cached_ids table
                ((name, record { database_id = 0; telegram_chat_id = new_id }) ∷ [])
                (insert_update_cached_ids table
                  ((name, record { database_id = 0; telegram_chat_id = old_id }) ∷ [])
                  t))))
          (name, record { database_id = 0; telegram_chat_id = old_id })
  unfolding insert_update_cached_ids store_one cached_id_statement
  second_insert_lost name old_id new_id t missing =
      let (t', done, (n, found), others) = inserts old_id name t missing in
      let old : TgChatId = record { database_id = 0; telegram_chat_id = old_id } in
      let new : TgChatId = record { database_id = 0; telegram_chat_id = new_id } in
      let refused = refuses_taken_name new_id name t' _ found in
      subst (λ (u : State). IsStored (get_tg_cached_ids (rows u)) (name, old))
        (store_one-refused name new t' refused
          ∙ ap (store_one table name new) (store_one-done name old t t' done))
        (
          record { database_id = n; telegram_chat_id = old_id },
          lookup-get_tg_cached_ids name (rows t') (unique_names t') ∙ found,
          refl,
        )
