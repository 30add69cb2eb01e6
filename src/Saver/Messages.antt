-- ===== src/Saver/Messages.antt =====
-- From the reports that the saver takes to the messages that wait in the senders of telegram_process.cpp.
use binance_monitor.Base.{
  Bool-cases, length, All, Text, is_empty, lookup, ◌+◌, ◌≡◌, refl, sym, ap, ◌∙◌, subst, inl, inr,
  some, List, [], ◌∷◌, arith,
}
use binance_monitor.Records.{UserStreamResult, order, balance, account, TgChatId, TgCachedMap}
use binance_monitor.Telegram.Payload.{prepare_telegram_payload}
use binance_monitor.Telegram.Routing.Delivery.{
  waiting, waiting-send_telegram_message, send_telegram_message-known, finds-known,
}
use binance_monitor.Saver.{
  Saver, alias_of, group_of_report, table_alias, with_tables, write_report, notify, save_item,
  persistent_orders_saver,
}

-- The chat of the report's group is known.
abbrev pub IsKnown : TgCachedMap → UserStreamResult → Type 0
IsKnown chats item = (chat : TgChatId) × (lookup (group_of_report item) chats ≡ some chat)

-- The parts of the saver that concern the messages.
record SameMessages (s t : Saver) : Type 0 where
  senders : t.message_senders ≡ s.message_senders
  chats : t.chats_id_map ≡ s.chats_id_map

with_tables-SameMessages : (alias : Text) (s : Saver) → SameMessages s (with_tables alias s).1
unfolding with_tables
with_tables-SameMessages alias s =
    elim (Bool-cases (is_empty (table_alias alias s.account_table_map))) [
      | inl new ↦ rw (with_tables, new) (record { senders = refl; chats = refl })
      | inr known ↦ rw (with_tables, known) (record { senders = refl; chats = refl })
    ]

write_report-SameMessages :
    (item : UserStreamResult) (alias : Text) (s : Saver)
    → SameMessages s (write_report item alias s)
unfolding write_report
write_report-SameMessages (order o) alias s = record { senders = refl; chats = refl }
write_report-SameMessages (balance b) alias s = record { senders = refl; chats = refl }
write_report-SameMessages (account a) alias s = record { senders = refl; chats = refl }

module _ (replace_all : Text → Text → Text → Text) (updated : TgCachedMap → TgCachedMap) where
  save_item-waiting :
      (item : UserStreamResult) (s : Saver)
      → IsKnown s.chats_id_map item
      → (waiting (save_item replace_all updated item s).message_senders
          ≡ waiting s.message_senders + 1)
        × ((save_item replace_all updated item s).chats_id_map ≡ s.chats_id_map)
  unfolding save_item notify
  save_item-waiting item s (chat, known) =
      let told = notify replace_all updated item s in
      let ready = with_tables-SameMessages (alias_of item) told in
      let done =
        write_report-SameMessages item (with_tables (alias_of item) told).0
          (with_tables (alias_of item) told).1 in
      let message = prepare_telegram_payload replace_all item in
      (
        ap waiting (done.senders ∙ ready.senders)
            ∙ waiting-send_telegram_message updated message (group_of_report item) s.message_senders
                s.chats_id_map
            ∙ ap (λ n. waiting s.message_senders + n)
                (finds-known s.chats_id_map updated (group_of_report item) chat known),
        done.chats
            ∙ ready.chats
            ∙ send_telegram_message-known updated message (group_of_report item) s.message_senders
                s.chats_id_map chat known,
      )

  -- Where the chats of all groups are known, every report that the saver takes makes one message wait more,
  -- in the senders that have not finished: none is lost, whichever sender is chosen and whichever are erased.
  -- No operation of a sender ends in between.
  pub waiting-persistent_orders_saver :
      (items : List UserStreamResult) (s : Saver)
      → All (IsKnown s.chats_id_map) items
      → waiting (persistent_orders_saver replace_all updated items s).message_senders
        ≡ waiting s.message_senders + length items
  unfolding persistent_orders_saver
  waiting-persistent_orders_saver [] s known = omega arith
  waiting-persistent_orders_saver (item ∷ items) s (known, all) =
      let (one_more, same) = save_item-waiting item s known in
      waiting-persistent_orders_saver items (save_item replace_all updated item s)
        (subst (λ chats. All (IsKnown chats) items) (sym same) all)
      ∙ ap (λ n. n + length items) one_more
      ∙ omega arith
