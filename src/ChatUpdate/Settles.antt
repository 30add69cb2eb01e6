-- ===== src/ChatUpdate/Settles.antt =====
-- Runs of chat_update.cpp, and the calls of its callback.
use binance_monitor.Base.{
  length, length-append, ℕ, ◌-◌, ◌≤◌, ◌<◌, ◌≡◌, refl, ap, ◌∙◌, Option, none, some, List, [], ◌∷◌,
  arith,
}
use binance_monitor.ChatUpdate.{
  ChatUpdate, Completion, Operation, resolve, connect, handshake, write, read, run, set_error,
  set_result, connect_to_resolved_names, perform_ssl_handshake, get_bot_updates,
  receive_http_response, on_complete, complete, drive,
}

-- The operations still to come, at most.
rank : Option Operation → ℕ
rank none = 0
rank (some resolve) = 5
rank (some connect) = 4
rank (some handshake) = 3
rank (some write) = 2
rank (some read) = 1

-- The callback was called if nothing is under way, and not before.
abbrev IsOnce : ChatUpdate → Type 0
IsOnce s = length s.called ≡ elim s.pending [ none ↦ 1 | some op ↦ 0 ]

on_complete-progress :
    (op : Operation) (c : Completion) (s : ChatUpdate)
    → s.pending ≡ none
    → length s.called ≡ 0
    → IsOnce (on_complete op c s) × (rank (on_complete op c s).pending < rank (some op))
unfolding on_complete rank connect_to_resolved_names perform_ssl_handshake get_bot_updates
    receive_http_response set_error set_result
on_complete-progress resolve c s h e = ground (arith, length-append s.called (([], c.message) ∷ []))
on_complete-progress connect c s h e = ground (arith, length-append s.called (([], c.message) ∷ []))
on_complete-progress handshake c s h e =
    ground (arith, length-append s.called (([], c.message) ∷ []))
on_complete-progress write c s h e = ground (arith, length-append s.called (([], c.message) ∷ []))
on_complete-progress read c s h e = ground (
  arith,
  length-append s.called (([], c.message) ∷ []),
  length-append s.called ((c.body, []) ∷ []),
)

complete-progress :
    (c : Completion) (s : ChatUpdate)
    → IsOnce s
    → IsOnce (complete c s) × (rank (complete c s).pending ≤ rank s.pending - 1)
unfolding complete rank
complete-progress c s once = go s.pending once
  where
    go :
        (pending : Option Operation)
        → length s.called ≡ elim pending [ none ↦ 1 | some op ↦ 0 ]
        → IsOnce (complete c (record s { pending = pending }))
          × (rank (complete c (record s { pending = pending })).pending ≤ rank pending - 1)
    go none h = (h, omega arith)
    go (some op) h =
        let (later, lower) = on_complete-progress op c (record s { pending = none }) refl h in
        (later, omega arith)

drive-settles :
    (cs : List Completion) (s : ChatUpdate)
    → IsOnce s
    → rank s.pending ≤ length cs
    → IsOnce (drive cs s) × (rank (drive cs s).pending ≡ 0)
unfolding drive
drive-settles [] s once le = (once, omega arith)
drive-settles (c ∷ cs) s once le =
    let (later, lower) = complete-progress c s once in
    drive-settles cs (complete c s) later (omega arith)

-- After at most five completions, whatever they bring, nothing is under way, and the callback was
-- called exactly once.
pub drive_once :
    (cs : List Completion)
    → 5 ≤ length cs
    → ((drive cs run).pending ≡ none) × (length (drive cs run).called ≡ 1)
unfolding run rank
drive_once cs enough =
    let (once, settled) = drive-settles cs run refl enough in
    let nothing = idle (drive cs run).pending settled in
    (nothing, once ∙ ap (λ (p : Option Operation). elim p [ none ↦ 1 | some op ↦ 0 ]) nothing)
  where
    idle : (p : Option Operation) → rank p ≡ 0 → p ≡ none
    idle none h = refl
    idle (some resolve) h = cc
    idle (some connect) h = cc
    idle (some handshake) h = cc
    idle (some write) h = cc
    idle (some read) h = cc
