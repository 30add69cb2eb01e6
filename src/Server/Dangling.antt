-- ===== src/Server/Dangling.antt =====
-- The handlers of the sessions of server.cpp, which hold plain pointers, and the erased sessions.
use binance_monitor.Base.{
  ltb, Bool-cases, length, length-append, All, ◌<◌, ◌≡◌, refl, sym, ap, ◌∙◌, ◌⊎◌, inl, inr, true,
  false, Option, none, some, List, [], ◌∷◌, ◌++◌, append_assoc, arith,
}
use binance_monitor.Session.{Response}
use binance_monitor.Session.Socket.{
  SessionSocket, expires, Completion, Operation, is_closed, complete,
}
use binance_monitor.Session.Socket
use binance_monitor.Server.{
  Server, closed_sessions, remove_closed, add_session, accept_connections, on_connection_accepted,
  Step, accepts, moves, Reach, here, next,
}

module _ (Request : Type 0) (handle_requests : Request → Option Response) where
  abbrev pub Idle : SessionSocket Request handle_requests → Type 0
  Idle s = s.pending ≡ none

  -- Open, or nothing is under way.
  abbrev IsQuiet : SessionSocket Request handle_requests → Type 0
  IsQuiet s = (s.is_open ≡ true) ⊎ Idle s

  -- The steps of a session whose stream never expires while an operation is under way.
  pub data Completes
      : SessionSocket Request handle_requests → SessionSocket Request handle_requests → Type 0 where
    completes :
        {s t : SessionSocket Request handle_requests} (op : Operation)
        (c : Completion Request handle_requests)
        → s.pending ≡ some op
        → complete Request handle_requests op c (record s { pending = none }) ≡ some t
        → Completes s t

  record IsSafe (s : Server Request handle_requests) : Type 0 where
    quiet : All IsQuiet s.sessions
    erased : All Idle s.erased

  closed_sessions-append :
      (xs ys : List (SessionSocket Request handle_requests))
      → closed_sessions Request handle_requests (xs ++ ys)
        ≡ closed_sessions Request handle_requests xs ++ closed_sessions Request handle_requests ys
  unfolding closed_sessions
  closed_sessions-append [] ys = refl
  closed_sessions-append (x ∷ xs) ys = elim (Bool-cases (is_closed Request handle_requests x)) [
    | inl closed ↦ rw closed (
        ap (λ (zs : List (SessionSocket Request handle_requests)). x ∷ zs)
          (closed_sessions-append xs ys))
    | inr still_open ↦ rw still_open (closed_sessions-append xs ys)
  ]

  -- If the stream of a session expires while an operation is under way, and there are more than twenty
  -- sessions, the next accept may come before the end of that operation: it erases the session, and the
  -- handler of the operation has a pointer to a session that is gone.
  pub expired_session_erased :
      (s : Server Request handle_requests)
      (before after : List (SessionSocket Request handle_requests))
      (a : SessionSocket Request handle_requests) (op : Operation)
      → s.accepting ≡ true
      → s.sessions ≡ before ++ a ∷ after
      → a.pending ≡ some op
      → 20 < length s.sessions
      → (t : Server Request handle_requests) × Reach Request handle_requests
          (Socket.Step Request handle_requests)
          s
          t
        × ((front back : List (SessionSocket Request handle_requests)) × (t.erased
              ≡ front ++ record a { is_open = false } ∷ back))
  unfolding on_connection_accepted accept_connections remove_closed add_session is_closed
  expired_session_erased s before after a op accepting at p many =
      let expired : SessionSocket Request handle_requests = record a { is_open = false } in
      let there : Server Request handle_requests = record s {
        sessions = before ++ expired ∷ after;
      } in
      let enough : ltb 20 (length (before ++ expired ∷ after)) ≡ true = ground (
        arith,
        length-append before (expired ∷ after),
        length-append before (a ∷ after),
        ap (length {A = SessionSocket Request handle_requests}) at,
      ) in
      (
        on_connection_accepted Request handle_requests false (record there { accepting = false }),
        next (next here (moves before after at (expires op p refl) refl))
            (accepts false accepting refl),
        (
          s.erased ++ closed_sessions Request handle_requests before,
          closed_sessions Request handle_requests after,
          rw enough (
              ap (λ (zs : List (SessionSocket Request handle_requests)). s.erased ++ zs)
                (closed_sessions-append before (expired ∷ after))
              ∙ goes before after),
        ),
      )
    where
      goes :
          (before after : List (SessionSocket Request handle_requests))
          → s.erased
              ++ (closed_sessions Request handle_requests before
                  ++ closed_sessions Request handle_requests (record a { is_open = false } ∷ after))
            ≡ (s.erased ++ closed_sessions Request handle_requests before)
              ++ record a { is_open = false } ∷ closed_sessions Request handle_requests after
      goes before after = sym (
          append_assoc s.erased (closed_sessions Request handle_requests before)
            (record a { is_open = false } ∷ closed_sessions Request handle_requests after))
