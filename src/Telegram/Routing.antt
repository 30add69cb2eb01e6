-- ===== src/Telegram/Routing.antt =====
-- `send_telegram_message` and `on_tg_update_completion` of binance_orders/src/telegram_process.cpp.
pub mod Delivery
pub mod Chats
use binance_monitor.Base.{
  ltb, if◌then◌else◌, ◌>>=◌, length, Text, text, text_eq, is_empty, to_string, Map, lookup, assign,
  ◌*◌, Option, none, some, List, [], ◌∷◌, ◌++◌,
}
use binance_monitor.Records.{TgChatId, TgCachedMap}
use binance_monitor.Json.{JsonLibrary, string_value, integer_value}
use binance_monitor.Telegram.{
  TgPayload, TgMessageSender, start, available_with_less_tasks, add_payload,
}

-- The first sender that has room gets the payload; `none` if there is no such sender.
offer : TgPayload → List TgMessageSender → Option (List TgMessageSender)
offer payload [] = none
offer payload (sender ∷ senders) =
    let rest = offer payload senders in
    if available_with_less_tasks sender
    then some (add_payload payload sender ∷ senders)
    else (rest >>= λ others. some (sender ∷ others))

-- `std::remove_if` and `erase`
without_completed : List TgMessageSender → List TgMessageSender
without_completed [] = []
without_completed (sender ∷ senders) =
    let rest = without_completed senders in
    if sender.operation_completed then rest else sender ∷ rest

-- From the payload on, once the chat is known.
deliver : TgPayload → List TgMessageSender → List TgMessageSender
unfolding offer without_completed
deliver payload senders = elim (offer payload senders) [
  | some given ↦ given
  | none ↦
      (if ltb 3 (length senders) then without_completed senders else senders) ++ start payload ∷ []
]

-- `updated` is what `tg_get_new_updates` makes of the known chats.
pub send_telegram_message :
    (updated : TgCachedMap → TgCachedMap) (message tg_name : Text)
    → List TgMessageSender × TgCachedMap
    → List TgMessageSender × TgCachedMap
unfolding deliver
send_telegram_message updated message tg_name (senders, chat_ids) = elim (lookup tg_name chat_ids) [
  | some chat ↦
      (deliver (record { text = message; chat_id = chat.telegram_chat_id }) senders, chat_ids)
  | none ↦
      let known = updated chat_ids in
      elim (lookup tg_name known) [
        | some chat ↦
            (deliver (record { text = message; chat_id = chat.telegram_chat_id }) senders, known)
        | none ↦ (senders, known)
      ]
]

module _ (lib : JsonLibrary) where
  open lib use {Json, parse, get_object, get_array, get_boolean}

  -- The title under which a chat is stored; it stays empty for the other types of chat.
  chat_title : Map Json → Text → Option Text
  chat_title chat chat_type =
      if text_eq chat_type (text "group")
      then string_value lib chat (text "title")
      else if text_eq chat_type (text "private")
      then string_value lib chat (text "username")
      else some []

  -- `chat_ids[title].telegram_chat_id = id`
  store_chat : Text → Text → TgCachedMap → TgCachedMap
  store_chat title id chat_ids = elim (lookup title chat_ids) [
    | some chat ↦ assign title (record chat { telegram_chat_id = id }) chat_ids
    | none ↦ assign title (record { database_id = 0; telegram_chat_id = id }) chat_ids
  ]

  -- One round of the loop over the results; `none` is an exception.
  note_message : Json → TgCachedMap → Option TgCachedMap
  unfolding chat_title store_chat
  note_message json_message chat_ids = get_object json_message >>= λ item.
      elim (lookup (text "message") item) [
        | none ↦ some chat_ids
        | some message ↦ get_object message >>= λ message_object.
            elim (lookup (text "chat") message_object) [
              | none ↦ some chat_ids
              | some chat_item ↦ get_object chat_item >>= λ chat.
                  integer_value lib chat (text "id") >>= λ chat_id.
                  string_value lib chat (text "type") >>= λ chat_type.
                  chat_title chat chat_type >>= λ title.
                  some (store_chat title (to_string chat_id) chat_ids)
            ]
      ]

  -- An exception ends the loop and keeps what was stored before.
  note_messages : List Json → TgCachedMap → TgCachedMap
  note_messages [] chat_ids = chat_ids
  note_messages (m ∷ messages) chat_ids = elim (note_message m chat_ids) [
    | none ↦ chat_ids
    | some known ↦ note_messages messages known
  ]

  -- The array of results; `none` where the answer is an error, or reading it throws.
  result_list : Text → Option (List Json)
  result_list response = parse response >>= get_object >>= λ json_object.
      lookup (text "ok") json_object >>= get_boolean >>= λ is_ok.
      (if is_ok then (lookup (text "result") json_object >>= get_array) else none)

  pub on_tg_update_completion : TgCachedMap → (response error_msg : Text) → TgCachedMap
  unfolding result_list note_messages
  on_tg_update_completion chat_ids response error_msg =
      if is_empty error_msg
      then elim (result_list response) [
        | none ↦ chat_ids
        | some messages ↦ note_messages messages chat_ids
      ]
      else chat_ids
