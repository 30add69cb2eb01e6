-- ===== src/Telegram/Routing/Chats.antt =====
-- The known chats of telegram_process.cpp, before and after an update.
use binance_monitor.Base.{
  if◌then◌else◌, Bool-cases, Option-cases, ◌>>=◌, some_inj, Ensures, Ensures-bind, Text, text,
  text_eq, is_empty, text_eq_sound, to_string, lookup, assign, lookup-assign, ◌≡◌, refl, sym, ap,
  ◌∙◌, subst, inl, inr, Bool, true, false, Option, none, some, List, [], ◌∷◌,
}
use binance_monitor.Records.{TgChatId, TgCachedMap}
use binance_monitor.Json.{JsonLibrary, string_value, integer_value}
use binance_monitor.Telegram.Routing.{
  store_chat, note_message, note_messages, chat_title, result_list, on_tg_update_completion,
}

-- Every chat that was known still is, under the same row of the database.
pub record Keeps (before after : TgCachedMap) : Type 0 where
  pub still :
      (title : Text) (chat : TgChatId)
      → lookup title before ≡ some chat
      → (now : TgChatId) × (lookup title after ≡ some now) × (now.database_id ≡ chat.database_id)

Keeps-refl : (m : TgCachedMap) → Keeps m m
Keeps-refl m = record { still = λ title chat e. (chat, e, refl) }

Keeps-trans : (a b c : TgCachedMap) → Keeps a b → Keeps b c → Keeps a c
Keeps-trans a b c h k = record {
  still = λ title chat e.
      let (now, there, same) = h.still title chat e in
      let (later, found, same') = k.still title now there in (later, found, same' ∙ same);
}

-- Storing under a title keeps the chats if it keeps the row of that title.
assign-Keeps :
    (title : Text) (chat : TgChatId) (m : TgCachedMap)
    → ((c : TgChatId) → lookup title m ≡ some c → chat.database_id ≡ c.database_id)
    → Keeps m (assign title chat m)
assign-Keeps title chat m row = record {
  still = λ other c e. elim (Bool-cases (text_eq title other)) [
    | inl same ↦ (
      chat,
      lookup-assign other title chat m ∙ ap (λ b. if b then some chat else lookup other m) same,
      row c (subst (λ t. lookup t m ≡ some c) (sym (text_eq_sound title other same)) e),
    )
    | inr different ↦ (
      c,
      lookup-assign other title chat m
          ∙ ap (λ b. if b then some chat else lookup other m) different
          ∙ e,
      refl,
    )
  ];
}

module _ (lib : JsonLibrary) where
  open lib use {Json, get_object}

  store_chat-Keeps : (title id : Text) (m : TgCachedMap) → Keeps m (store_chat lib title id m)
  unfolding store_chat
  store_chat-Keeps title id m = elim (Option-cases (lookup title m)) [
    | inl new ↦ rw (store_chat, new) (assign-Keeps title _ m λ c e. cc (sym new ∙ e))
    | inr (chat, e) ↦
        rw (store_chat, e)
          (assign-Keeps title _ m
            λ c e'. ap (λ (x : TgChatId). x.database_id) (some_inj (sym e ∙ e')))
  ]

  note_message-Keeps : (j : Json) (m : TgCachedMap) → Ensures (Keeps m) (note_message lib j m)
  unfolding note_message
  note_message-Keeps j m =
      Ensures-bind (Keeps m) (get_object j) _ λ item. in_message (lookup (text "message") item)
    where
      in_chat :
          (chat_item : Option Json)
          → Ensures (Keeps m) (elim chat_item [
            | none ↦ some m
            | some chat_json ↦ get_object chat_json >>= λ chat.
                integer_value lib chat (text "id") >>= λ chat_id.
                string_value lib chat (text "type") >>= λ chat_type.
                chat_title lib chat chat_type >>= λ title.
                some (store_chat lib title (to_string chat_id) m)
          ])
      in_chat none = Keeps-refl m
      in_chat (some chat_json) = Ensures-bind (Keeps m) (get_object chat_json) _ λ chat.
          Ensures-bind (Keeps m) (integer_value lib chat (text "id")) _ λ chat_id.
            Ensures-bind (Keeps m) (string_value lib chat (text "type")) _ λ chat_type.
              Ensures-bind (Keeps m) (chat_title lib chat chat_type) _
                λ title. store_chat-Keeps title (to_string chat_id) m

      in_message :
          (message : Option Json)
          → Ensures (Keeps m) (elim message [
            | none ↦ some m
            | some message_json ↦ get_object message_json >>= λ message_object.
                elim (lookup (text "chat") message_object) [
                  | none ↦ some m
                  | some chat_json ↦ get_object chat_json >>= λ chat.
                      integer_value lib chat (text "id") >>= λ chat_id.
                      string_value lib chat (text "type") >>= λ chat_type.
                      chat_title lib chat chat_type >>= λ title.
                      some (store_chat lib title (to_string chat_id) m)
                ]
          ])
      in_message none = Keeps-refl m
      in_message (some message_json) =
          Ensures-bind (Keeps m) (get_object message_json) _
            λ message_object. in_chat (lookup (text "chat") message_object)

  note_messages-Keeps : (js : List Json) (m : TgCachedMap) → Keeps m (note_messages lib js m)
  unfolding note_messages
  note_messages-Keeps [] m = Keeps-refl m
  note_messages-Keeps (j ∷ js) m = elim (Option-cases (note_message lib j m)) [
    | inl threw ↦ rw (note_messages, threw) (Keeps-refl m)
    | inr (known, e) ↦
        rw (note_messages, e)
          (Keeps-trans m known _ (subst (Ensures (Keeps m)) e (note_message-Keeps j m))
            (note_messages-Keeps js known))
  ]

  -- Whatever the Telegram server answers, every chat that was known is known afterwards, under the
  -- same row of the database.
  pub on_tg_update_completion-Keeps :
      (m : TgCachedMap) (response error_msg : Text)
      → Keeps m (on_tg_update_completion lib m response error_msg)
  unfolding on_tg_update_completion
  on_tg_update_completion-Keeps m response error_msg =
      Keeps-if (is_empty error_msg) _ m (Keeps-elim (result_list lib response)) (Keeps-refl m)
    where
      Keeps-if :
          (b : Bool) (x y : TgCachedMap) → Keeps m x → Keeps m y → Keeps m (if b then x else y)
      Keeps-if true x y hx hy = hx
      Keeps-if false x y hx hy = hy

      Keeps-elim :
          (o : Option (List Json))
          → Keeps m (elim o [ none ↦ m | some messages ↦ note_messages lib messages m ])
      Keeps-elim none = Keeps-refl m
      Keeps-elim (some messages) = note_messages-Keeps messages m
