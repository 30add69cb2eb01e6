-- ===== src/Telegram/Failures.antt =====
-- What becomes of a message and of its sender when the connection fails.
use binance_monitor.Base.{
  ◌>>=◌, length, ℕ, suc, ◌+◌, ◌≡◌, refl, sym, ap, ◌∙◌, true, false, Option, none, some, List, [],
  ◌∷◌, ◌++◌, append-nil, append_assoc, arith,
}
use binance_monitor.Telegram.{
  TgPayload, TgMessageSender, Completion, connect, handshake, write, start,
  available_with_less_tasks, add_payload, send_request, prepare_payload, send_next_request,
  reestablish_connection, perform_ssl_handshake, connect_to_server, receive_data,
  initiate_connection, on_complete, complete, drive,
}

abbrev pub succeeds : Completion
succeeds = record { failed = false; sni = true }

abbrev pub fails : Completion
fails = record { failed = true; sni = true }

abbrev pub without_sni : Completion
without_sni = record { failed = false; sni = false }

-- After a failed write and a successful reconnection the sender takes the next message from the
-- queue: the message that was being written is dropped.
reconnect_drops_request :
    (s : TgMessageSender)
    → s.pending ≡ some write
    → drive (fails ∷ succeeds ∷ succeeds ∷ succeeds ∷ []) s
      ≡ send_request
          (record s { http_request = none; ssl_web_stream = true; pending = some handshake })
unfolding drive complete on_complete reestablish_connection connect_to_server perform_ssl_handshake
    initiate_connection send_request
reconnect_drops_request s p = rw p (
    bind_some (
      send_request
        (record s { http_request = none; ssl_web_stream = true; pending = some handshake })))
  where
    bind_some : (o : Option TgMessageSender) → o >>= (λ x. some x) ≡ o
    bind_some none = refl
    bind_some (some t) = refl

-- If the queue is empty when a write fails, the reconnection ends in undefined behaviour: the front
-- of an empty queue.
reconnect_undefined :
    (s : TgMessageSender)
    → s.pending ≡ some write
    → s.payloads ≡ []
    → drive (fails ∷ succeeds ∷ succeeds ∷ succeeds ∷ []) s ≡ none
unfolding send_request prepare_payload
reconnect_undefined s p empty = reconnect_drops_request s p ∙ rw empty refl

-- If setting the server name fails after the connection, the sender never does anything again,
-- whatever completes, and is as available to new messages as it was before.
sni_failure_stuck :
    (s : TgMessageSender) (cs : List Completion)
    → s.pending ≡ some connect
    → (drive (without_sni ∷ cs) s ≡ some (record s { pending = none }))
      × (available_with_less_tasks (record s { pending = none }) ≡ available_with_less_tasks s)
unfolding drive complete on_complete perform_ssl_handshake available_with_less_tasks
sni_failure_stuck s cs p = (rw p (idle cs), refl)
  where
    idle :
        (cs : List Completion)
        → drive cs (record s { pending = none }) ≡ some (record s { pending = none })
    idle [] = refl
    idle (c ∷ cs) = idle cs

pub add_payloads : List TgPayload → TgMessageSender → TgMessageSender
add_payloads [] s = s
add_payloads (payload ∷ payloads) s = add_payloads payloads (add_payload payload s)

-- Two completions for each message and for the one being written: the write, and the answer read.
pub answered : List TgPayload → List Completion
answered [] = succeeds ∷ succeeds ∷ []
answered (x ∷ xs) = succeeds ∷ succeeds ∷ answered xs

sending : List TgPayload → List TgPayload → ℕ → TgPayload → TgMessageSender
sending requests payloads answers p = record {
  ssl_web_stream = true;
  http_request = some p;
  payloads = payloads;
  operation_completed = false;
  pending = some write;
  requests = requests;
  answers = answers;
}

pub finished : List TgPayload → ℕ → TgMessageSender
finished requests answers = record {
  ssl_web_stream = true;
  http_request = none;
  payloads = [];
  operation_completed = true;
  pending = none;
  requests = requests;
  answers = answers;
}

plus_zero : (a : ℕ) → a + 0 ≡ a
plus_zero a = omega arith

zero_plus : (a : ℕ) → 0 + a ≡ a
zero_plus a = omega arith

drive-sending :
    (payloads requests : List TgPayload) (answers : ℕ) (p : TgPayload)
    → drive (answered payloads) (sending requests payloads answers p)
      ≡ some (finished (requests ++ payloads) (suc (answers + length payloads)))
unfolding drive complete on_complete receive_data send_next_request send_request prepare_payload
    answered sending finished
drive-sending [] requests answers p =
    ap (λ n. some (finished requests (suc n))) (sym (plus_zero answers))
    ∙ ap (λ r. some (finished r (suc (answers + 0)))) (sym (append-nil requests))
drive-sending (q ∷ payloads) requests answers p =
    drive-sending payloads (requests ++ q ∷ []) (suc answers) q
    ∙ ap (λ r. some (finished r (suc (suc answers + length payloads))))
        (append_assoc requests (q ∷ []) payloads)
    ∙ ap (λ n. some (finished (requests ++ q ∷ payloads) (suc n)))
        (suc_plus answers (length payloads))
  where
    suc_plus : (a b : ℕ) → suc a + b ≡ a + suc b
    suc_plus a b = omega arith

payloads-add_payloads :
    (payloads : List TgPayload) (s : TgMessageSender)
    → add_payloads payloads s ≡ record s { payloads = s.payloads ++ payloads }
unfolding add_payloads add_payload
payloads-add_payloads [] s = ap (λ q. record s { payloads = q }) (sym (append-nil s.payloads))
payloads-add_payloads (x ∷ payloads) s =
    payloads-add_payloads payloads (add_payload x s)
    ∙ ap (λ q. record s { payloads = q }) (append_assoc s.payloads (x ∷ []) payloads)

-- Without failures a sender makes one request of each of its messages, in their order, gets one
-- answer for each, and then reports that it is done. The messages after the first were added before
-- the connection was there.
pub drive_delivers :
    (p : TgPayload) (payloads : List TgPayload)
    → drive (succeeds ∷ succeeds ∷ succeeds ∷ answered payloads) (add_payloads payloads (start p))
      ≡ some (finished (p ∷ payloads) (length (p ∷ payloads)))
unfolding drive complete on_complete connect_to_server perform_ssl_handshake send_request
    prepare_payload sending finished start initiate_connection
drive_delivers p payloads =
    ap (drive (succeeds ∷ succeeds ∷ succeeds ∷ answered payloads))
      (payloads-add_payloads payloads (start p))
    ∙ drive-sending payloads (p ∷ []) 0 p
    ∙ ap (λ n. some (finished (p ∷ payloads) (suc n))) (zero_plus (length payloads))
