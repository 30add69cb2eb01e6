-- ===== src/Telegram/Order.antt =====
-- The order of the messages of a sender of tg_message_sender.cpp.
use binance_monitor.Base.{
  if◌then◌else◌, Ensures, Ensures-if, length, length-append, is_empty, suc, ◌≤◌, ◌<◌, ◌≡◌, refl,
  sym, ap, ◌∙◌, subst, Bool, true, false, Option, none, some, List, [], ◌∷◌, ◌++◌, append_assoc,
  arith,
}
use binance_monitor.Telegram.{
  TgPayload, TgMessageSender, Completion, Operation, resolve, connect, handshake, write, read,
  start, available_with_less_tasks, add_payload, send_request, prepare_payload, send_next_request,
  reestablish_connection, perform_ssl_handshake, give_up, connect_to_server, receive_data,
  initiate_connection, on_complete, complete,
}

-- The senders that handlers and callers can make, with the payloads that they were given.
pub data Reach : List TgPayload → TgMessageSender → Type 0 where
  started : (payload : TgPayload) → Reach (payload ∷ []) (start payload)
  accepted :
      {added : List TgPayload} {s : TgMessageSender} (payload : TgPayload)
      → Reach added s
      → available_with_less_tasks s ≡ true
      → Reach (added ++ payload ∷ []) (add_payload payload s)
  completed :
      {added : List TgPayload} {s t : TgMessageSender} (c : Completion)
      → Reach added s
      → complete c s ≡ some t
      → Reach added t

-- A handler only moves payloads from the queue to the requests.
abbrev Moves : TgMessageSender → TgMessageSender → Type 0
Moves s t =
    (t.requests ++ t.payloads ≡ s.requests ++ s.payloads) × (length t.payloads ≤ length s.payloads)

stays : (s : TgMessageSender) → Moves s s
stays s = (refl, omega arith)

send_request-Moves : (s : TgMessageSender) → Ensures (Moves s) (send_request s)
unfolding send_request prepare_payload
send_request-Moves s = go s.http_request s.payloads refl
  where
    go :
        (request : Option TgPayload) (queue : List TgPayload)
        → s.payloads ≡ queue
        → Ensures (Moves s) (send_request (record s { http_request = request; payloads = queue }))
    go (some p) queue e = (rw e refl, rw e (omega arith))
    go none [] e = tt
    go none (p ∷ queue) e = (rw e (append_assoc s.requests (p ∷ []) queue), rw e (omega arith))

if-Moves :
    (s : TgMessageSender) (b : Bool) (x y : TgMessageSender)
    → Moves s x
    → Moves s y
    → Moves s (if b then x else y)
if-Moves s true x y hx hy = hx
if-Moves s false x y hx hy = hy

on_complete-Moves :
    (op : Operation) (c : Completion) (s : TgMessageSender) → Ensures (Moves s) (on_complete op c s)
unfolding on_complete give_up connect_to_server perform_ssl_handshake reestablish_connection
    receive_data send_next_request initiate_connection
on_complete-Moves resolve c s =
    if-Moves s c.failed (give_up s) (connect_to_server s) (stays s) (stays s)
on_complete-Moves connect c s =
    if-Moves s c.failed (give_up s) (perform_ssl_handshake c.sni s) (stays s) (
      if-Moves s c.sni (record s { pending = some handshake }) (record s { pending = none })
        (stays s) (stays s))
on_complete-Moves handshake c s =
    Ensures-if (Moves s) c.failed (some (give_up s)) (send_request s) (stays s)
      (send_request-Moves s)
on_complete-Moves write c s =
    let sent = record s { http_request = none } in
    if-Moves s c.failed (reestablish_connection sent) (receive_data sent) (stays s) (stays s)
on_complete-Moves read c s =
    let answered = record s { http_request = none; answers = suc s.answers } in
    Ensures-if (Moves s) c.failed (some (reestablish_connection s)) (send_next_request answered)
      (stays s)
      (Ensures-if (Moves s) (is_empty s.payloads) _
        (send_request (record answered { operation_completed = false })) (stays s)
        (send_request-Moves (record answered { operation_completed = false })))

complete-Moves : (c : Completion) (s : TgMessageSender) → Ensures (Moves s) (complete c s)
unfolding complete
complete-Moves c s = go s.pending
  where
    go :
        (pending : Option Operation)
        → Ensures (Moves s) (complete c (record s { pending = pending }))
    go none = stays s
    go (some op) = on_complete-Moves op c (record s { pending = some op })

free_space : (s : TgMessageSender) → available_with_less_tasks s ≡ true → length s.payloads < 20
unfolding available_with_less_tasks
free_space s free = ground arith

-- In every reachable sender the payloads made into requests, followed by the queue, are the payloads
-- added, in their order, and the queue is never longer than 20.
pub Reach-order :
    {added : List TgPayload} {s : TgMessageSender}
    → Reach added s
    → (s.requests ++ s.payloads ≡ added) × (length s.payloads ≤ 20)
unfolding start initiate_connection add_payload
Reach-order (started payload) = (refl, omega arith)
Reach-order (accepted {added = added} {s = s} payload r free) =
    let (order, _) = Reach-order r in
    (
      sym (append_assoc s.requests s.payloads (payload ∷ [])) ∙ ap (λ l. l ++ payload ∷ []) order,
      omega (arith, length-append s.payloads (payload ∷ []), free_space s free),
    )
Reach-order (completed {s = s} c r e) =
    let (order, bound) = Reach-order r in
    let (same, shorter) = subst (Ensures (Moves s)) e (complete-Moves c s) in
    (same ∙ order, omega arith)
