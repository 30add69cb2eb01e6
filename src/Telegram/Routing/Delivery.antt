-- ===== src/Telegram/Routing/Delivery.antt =====
-- How many messages wait in the senders of telegram_process.cpp.
use binance_monitor.Base.{
  ltb, if◌then◌else◌, Bool-cases, Option-cases, some_inj, length, length-append, Text, lookup, ℕ,
  suc, ◌+◌, ◌≡◌, refl, ap, ◌∙◌, subst, inl, inr, Bool, true, false, none, some, List, [], ◌∷◌, ◌++◌,
  arith,
}
use binance_monitor.Records.{TgChatId, TgCachedMap}
use binance_monitor.Telegram.{
  TgPayload, TgMessageSender, start, initiate_connection, available_with_less_tasks, add_payload,
}
use binance_monitor.Telegram.Routing.{offer, without_completed, deliver, send_telegram_message}

-- The messages that wait in senders that are not done.
unfoldable pub waiting : List TgMessageSender → ℕ
waiting [] = 0
waiting (s ∷ senders) =
    let rest = waiting senders in if s.operation_completed then rest else length s.payloads + rest

waiting-append : (xs ys : List TgMessageSender) → waiting (xs ++ ys) ≡ waiting xs + waiting ys
unfolding waiting
waiting-append [] ys = omega arith
waiting-append (s ∷ xs) ys = ground (arith, waiting-append xs ys)

waiting-without_completed :
    (xs : List TgMessageSender) → waiting (without_completed xs) ≡ waiting xs
unfolding waiting without_completed
waiting-without_completed [] = refl
waiting-without_completed (s ∷ xs) = ground (arith, waiting-without_completed xs)

available-unfinished :
    (s : TgMessageSender) → available_with_less_tasks s ≡ true → s.operation_completed ≡ false
unfolding available_with_less_tasks
available-unfinished s h = ground arith

waiting-cons :
    (s : TgMessageSender) (xs : List TgMessageSender)
    → waiting (s ∷ xs)
      ≡ (if s.operation_completed then waiting xs else length s.payloads + waiting xs)
unfolding waiting
waiting-cons s xs = refl

-- Where a payload was accepted, one more waits.
waiting-offer :
    (payload : TgPayload) (xs given : List TgMessageSender)
    → offer payload xs ≡ some given
    → waiting given ≡ suc (waiting xs)
unfolding offer add_payload
waiting-offer payload [] given e = cc
waiting-offer payload (s ∷ xs) given e = elim (Bool-cases (available_with_less_tasks s)) [
  | inl free ↦
      subst (λ l. waiting l ≡ suc (waiting (s ∷ xs))) (some_inj (rw free at e))
        (rw
          (
            waiting-cons (add_payload payload s) xs,
            waiting-cons s xs,
            available-unfinished s free,
            length-append s.payloads (payload ∷ []),
          )
          (omega arith))
  | inr busy ↦ elim (Option-cases (offer payload xs)) [
    | inl none_free ↦ cc (rw (busy, none_free) at e)
    | inr (others, there) ↦
        subst (λ l. waiting l ≡ suc (waiting (s ∷ xs))) (some_inj (rw (busy, there) at e))
          (rw (waiting-cons s others, waiting-cons s xs, waiting-offer payload xs others there)
            (one_more s.operation_completed (length s.payloads) (waiting xs)))
  ]
]
  where
    one_more :
        (b : Bool) (m n : ℕ) → (if b then suc n else m + suc n) ≡ suc (if b then n else m + n)
    one_more true m n = refl
    one_more false m n = omega arith

waiting-started :
    (payload : TgPayload) (xs : List TgMessageSender)
    → waiting (xs ++ start payload ∷ []) ≡ suc (waiting xs)
unfolding waiting start initiate_connection
waiting-started payload xs = omega (arith, waiting-append xs (start payload ∷ []))

waiting-pruned :
    (b : Bool) (xs : List TgMessageSender)
    → waiting (if b then without_completed xs else xs) ≡ waiting xs
waiting-pruned true xs = waiting-without_completed xs
waiting-pruned false xs = refl

waiting-deliver :
    (payload : TgPayload) (xs : List TgMessageSender)
    → waiting (deliver payload xs) ≡ suc (waiting xs)
unfolding deliver
waiting-deliver payload xs = elim (Option-cases (offer payload xs)) [
  | inl full ↦
      rw (deliver, full)
        (waiting-started payload _ ∙ ap (λ n. suc n) (waiting-pruned (ltb 3 (length xs)) xs))
  | inr (given, e) ↦ rw (deliver, e) (waiting-offer payload xs given e)
]

-- 1 where the chat is found, if need be after an update.
pub finds : TgCachedMap → (TgCachedMap → TgCachedMap) → Text → ℕ
finds chat_ids updated tg_name = elim (lookup tg_name chat_ids) [
  | some _ ↦ 1
  | none ↦ elim (lookup tg_name (updated chat_ids)) [ some _ ↦ 1 | none ↦ 0 ]
]

-- A message for a chat that is known, if need be after one update of the chats, makes the number of
-- messages that wait in unfinished senders grow by one, however the senders are chosen and pruned; a
-- message for an unknown chat leaves it.
pub waiting-send_telegram_message :
    (updated : TgCachedMap → TgCachedMap) (message tg_name : Text) (senders : List TgMessageSender)
    (chat_ids : TgCachedMap)
    → waiting (send_telegram_message updated message tg_name (senders, chat_ids)).0
      ≡ waiting senders + finds chat_ids updated tg_name
unfolding send_telegram_message finds
waiting-send_telegram_message updated message tg_name senders chat_ids =
    elim (Option-cases (lookup tg_name chat_ids)) [
      | inr (chat, e) ↦
          rw (send_telegram_message, finds, e)
            (omega (
              arith,
              waiting-deliver (record { text = message; chat_id = chat.telegram_chat_id }) senders,
            ))
      | inl unknown ↦ elim (Option-cases (lookup tg_name (updated chat_ids))) [
        | inr (chat, e) ↦
            rw (send_telegram_message, finds, unknown, e)
              (omega (
                arith,
                waiting-deliver (record { text = message; chat_id = chat.telegram_chat_id })
                    senders,
              ))
        | inl missing ↦ rw (send_telegram_message, finds, unknown, missing) (omega arith)
      ]
    ]

pub finds-known :
    (chat_ids : TgCachedMap) (updated : TgCachedMap → TgCachedMap) (tg_name : Text)
    (chat : TgChatId)
    → lookup tg_name chat_ids ≡ some chat
    → finds chat_ids updated tg_name ≡ 1
unfolding finds
finds-known chat_ids updated tg_name chat e = rw (finds, e) refl

-- A chat that is known leaves the map of the chats.
pub send_telegram_message-known :
    (updated : TgCachedMap → TgCachedMap) (message tg_name : Text) (senders : List TgMessageSender)
    (chat_ids : TgCachedMap) (chat : TgChatId)
    → lookup tg_name chat_ids ≡ some chat
    → (send_telegram_message updated message tg_name (senders, chat_ids)).1 ≡ chat_ids
unfolding send_telegram_message
send_telegram_message-known updated message tg_name senders chat_ids chat e =
    rw (send_telegram_message, e) refl
