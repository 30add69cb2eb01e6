-- ===== src/Session/Examples.antt =====
-- Examples: requests against the routes of the program. Verbs are numbers, with 2 for GET and 4 for POST.
use binance_monitor.Base.{
  ◌==◌, text, text_eq, Map, lookup, ℕ, ◌≡◌, refl, true, Option, some, List, [], ◌∷◌,
}
use binance_monitor.Records.{HostInfo, no_changes}
use binance_monitor.Json.Arena.{arena}
use binance_monitor.Url.{decode_url}
use binance_monitor.Url.Search.{find-FindsFirst}
use binance_monitor.Session.{
  Rule, index_page, upload, rule, is_route, add_endpoint, add_endpoint_interfaces,
}
use binance_monitor.Session.{Response, get_error, no_error, server_error}
use binance_monitor.Session.Socket
use binance_monitor.Session.Socket.{
  SessionSocket, Completion, Ending, failed, read_header, write, write_last, is_closed, completes,
  here, next,
}
use binance_monitor.Session.Socket.Serving.{IsServed, Reach-IsServed, Answers, rounds}
use binance_monitor.Session.Clients.{StringRequest, answer, client_served}

abbrev endpoints : Map (Rule ◌==◌)
endpoints =
    (text "/", record { verbs = 2 ∷ []; route_callback = index_page })
    ∷ (text "/upload", record { verbs = 4 ∷ []; route_callback = upload })
    ∷ []

interfaces : add_endpoint_interfaces ◌==◌ 2 4 ≡ some endpoints
unfolding add_endpoint_interfaces add_endpoint rule is_route lookup text text_eq
interfaces = refl

abbrev ann : HostInfo
ann = record {
  account_alias = text "ann";
  api_key = text "k1";
  secret_key = text "s1";
  tg_group_name = text "desk";
  changes = no_changes;
}

-- A client whose requests are numbers, of which the handlers answer all.
abbrev login : ℕ → Option Response
login request = some (get_error (text "login") no_error 200)

abbrev requests : List (StringRequest ℕ)
requests =
    record { method = 2; target = text "/"; body = [] }
    ∷ record { method = 4; target = text "/upload?x=1"; body = text "hosts" }
    ∷ []

client_served_example :
    (t : SessionSocket (StringRequest ℕ) (answer arena (λ h. true) find-FindsFirst ◌==◌ endpoints))
    × (Socket.drive
          (StringRequest ℕ)
          (answer arena (λ h. true) find-FindsFirst ◌==◌ endpoints)
          (rounds
            (StringRequest ℕ)
            (answer arena (λ h. true) find-FindsFirst ◌==◌ endpoints)
            requests)
          (Socket.run (StringRequest ℕ) (answer arena (λ h. true) find-FindsFirst ◌==◌ endpoints))
        ≡ some t)
    × (t.is_open ≡ true)
    × (t.pending ≡ some read_header)
    × (t.received ≡ requests)
    × Answers
        (StringRequest ℕ)
        (answer arena (λ h. true) find-FindsFirst ◌==◌ endpoints)
        requests
        t.sent
unfolding decode_url text
client_served_example =
    client_served arena (λ h. true) find-FindsFirst ◌==◌ endpoints requests
      ((text "/", refl), ((text "/upload?x=1", refl), tt))

abbrev refused_read : Completion ℕ login
refused_read = record { ending = failed (text "reset"); request = 0 }

abbrev after_failure : SessionSocket ℕ login
after_failure = record {
  is_open = true;
  resp = some (get_error (text "reset") server_error 500);
  pending = some write_last;
  received = [];
  sent = get_error (text "reset") server_error 500 ∷ [];
}

Reach-IsServed_example : IsServed ℕ login after_failure
unfolding Socket.run Socket.complete
Reach-IsServed_example =
    Reach-IsServed ℕ login (next here (completes read_header refused_read refl refl))

abbrev writing : SessionSocket ℕ login
writing = record after_failure { pending = some write }
