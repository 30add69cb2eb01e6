-- ===== src/Server/Sessions.antt =====
-- How many sessions the server keeps, and which ones it erases.
use binance_monitor.Base.{
  ltb, Bool-cases, length, length-append, ◌≤◌, ◌≡◌, refl, ap, ◌∙◌, ◌⊎◌, inl, inr, true, false,
  Option, List, [], ◌∷◌, ◌++◌, arith,
}
use binance_monitor.Session.{Response}
use binance_monitor.Session.Socket.{SessionSocket, is_closed}
use binance_monitor.Session.Socket
use binance_monitor.Server.{
  Server, open_sessions, remove_closed, add_session, accept_connections, on_connection_accepted,
}

module _ (Request : Type 0) (handle_requests : Request → Option Response) where
  abbrev Session : Type 0
  Session = SessionSocket Request handle_requests

  open_sessions-append :
      (xs ys : List Session)
      → open_sessions Request handle_requests (xs ++ ys)
        ≡ open_sessions Request handle_requests xs ++ open_sessions Request handle_requests ys
  unfolding open_sessions
  open_sessions-append [] ys = refl
  open_sessions-append (x ∷ xs) ys = elim (Bool-cases (is_closed Request handle_requests x)) [
    | inl closed ↦ rw closed (open_sessions-append xs ys)
    | inr still_open ↦
        rw still_open (ap (λ (zs : List Session). x ∷ zs) (open_sessions-append xs ys))
  ]

  open_sessions-idempotent :
      (xs : List Session)
      → open_sessions Request handle_requests (open_sessions Request handle_requests xs)
        ≡ open_sessions Request handle_requests xs
  unfolding open_sessions
  open_sessions-idempotent [] = refl
  open_sessions-idempotent (x ∷ xs) = elim (Bool-cases (is_closed Request handle_requests x)) [
    | inl closed ↦ rw closed (open_sessions-idempotent xs)
    | inr still_open ↦
        rw (still_open, open_sessions, still_open)
          (ap (λ (zs : List Session). x ∷ zs) (open_sessions-idempotent xs))
  ]

  abbrev new_session : List Session
  new_session = Socket.run Request handle_requests ∷ []

  open_sessions-new : open_sessions Request handle_requests new_session ≡ new_session
  unfolding open_sessions Socket.run is_closed
  open_sessions-new = refl

  -- After an accept that has a socket no open session is gone, and the new one is there; there are 21
  -- sessions at most, or else no closed one. After an accept that failed the sessions are the same.
  pub on_connection_accepted-sessions :
      (s : Server Request handle_requests)
      → (open_sessions Request handle_requests
            (on_connection_accepted Request handle_requests false s).sessions
          ≡ open_sessions Request handle_requests s.sessions
            ++ Socket.run Request handle_requests ∷ [])
        × ((length (on_connection_accepted Request handle_requests false s).sessions ≤ 21)
            ⊎ ((on_connection_accepted Request handle_requests false s).sessions
                ≡ open_sessions Request handle_requests s.sessions
                  ++ Socket.run Request handle_requests ∷ []))
        × ((on_connection_accepted Request handle_requests true s).sessions ≡ s.sessions)
  unfolding on_connection_accepted accept_connections remove_closed add_session
  on_connection_accepted-sessions s = elim (Bool-cases (ltb 20 (length s.sessions))) [
    | inl many ↦ rw many (
      open_sessions-append (open_sessions Request handle_requests s.sessions) new_session
          ∙ rw (open_sessions-idempotent s.sessions, open_sessions-new) refl,
      inr refl,
      refl,
    )
    | inr few ↦ rw few (
      open_sessions-append s.sessions new_session ∙ rw open_sessions-new refl,
      inl (ground (arith, length-append s.sessions new_session)),
      refl,
    )
  ]
