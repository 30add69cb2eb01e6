-- ===== src/Server/Examples.antt =====
-- Examples: a server that answers every request, which is a number, by the same response.
use binance_monitor.Base.{
  length, replicate, text, ℕ, ◌≤◌, ◌≡◌, refl, ◌⊎◌, true, false, Option, some, List, [], ◌∷◌, ◌++◌,
  arith,
}
use binance_monitor.Session.{Response, get_error, no_error}
use binance_monitor.Session.Socket
use binance_monitor.Session.Socket.{SessionSocket, Operation, read_header}
use binance_monitor.Server.{Server, server, run, open_sessions, on_connection_accepted, Reach}
use binance_monitor.Server.Sessions.{on_connection_accepted-sessions}
use binance_monitor.Server.Dangling.{expired_session_erased}

abbrev login : ℕ → Option Response
login request = some (get_error (text "login") no_error 200)

abbrev opened : Server ℕ login
opened = run ℕ login (server ℕ login false false false false)

abbrev accepted : Server ℕ login
accepted = on_connection_accepted ℕ login false (record opened { accepting = false })

abbrev waiting : SessionSocket ℕ login
waiting = Socket.run ℕ login

abbrev crowded : Server ℕ login
crowded = record {
  is_open = true;
  accepting = true;
  sessions = waiting ∷ replicate 20 waiting;
  erased = [];
}

expired_session_erased_example :
    (t : Server ℕ login) × Reach ℕ login (Socket.Step ℕ login) crowded t
    × ((front back : List (SessionSocket ℕ login)) × (t.erased
          ≡ front ++ record waiting { is_open = false } ∷ back))
unfolding Socket.run
expired_session_erased_example =
    expired_session_erased ℕ login crowded [] (replicate 20 waiting) waiting read_header refl refl
      refl (omega arith)

on_connection_accepted-sessions_example :
    (open_sessions ℕ login (on_connection_accepted ℕ login false crowded).sessions
      ≡ open_sessions ℕ login crowded.sessions ++ waiting ∷ [])
    × ((length (on_connection_accepted ℕ login false crowded).sessions ≤ 21)
        ⊎ ((on_connection_accepted ℕ login false crowded).sessions
            ≡ open_sessions ℕ login crowded.sessions ++ waiting ∷ []))
    × ((on_connection_accepted ℕ login true crowded).sessions ≡ crowded.sessions)
on_connection_accepted-sessions_example = on_connection_accepted-sessions ℕ login crowded
