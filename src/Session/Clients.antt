-- ===== src/Session/Clients.antt =====
-- A client of the program: the socket of session.cpp with the handlers of its routes.
use binance_monitor.Base.{
  Option-cases, ◌>>=◌, All, Text, Map, ℕ, ◌≡◌, refl, inl, inr, Bool, true, Option, some, List, [],
  ◌∷◌,
}
use binance_monitor.Records.{HostInfo}
use binance_monitor.Json.{JsonLibrary}
use binance_monitor.Url.{decode_url}
use binance_monitor.Url.Find.{FindsFirst}
use binance_monitor.Session.{Response, Rule, handle_requests}
use binance_monitor.Session.Routes.{handle_requests-total}
use binance_monitor.Session.Socket.{SessionSocket, Completion, read_header}
use binance_monitor.Session.Socket
use binance_monitor.Session.Socket.Serving.{Answers, rounds, drive_serves}

-- `string_request_t`
pub record StringRequest (Verb : Type 0) : Type 0 where
  pub method : Verb
  pub target : Text
  pub body : Text

module _ (lib : JsonLibrary) (add_new_host : HostInfo → Bool) {find : Text → Text → ℕ → Option ℕ}
    (law : FindsFirst find) {Verb : Type 0} (same_verb : Verb → Verb → Bool)
    (endpoints : Map (Rule same_verb)) where
  -- The response to a request.
  abbrev pub answer : StringRequest Verb → Option Response
  answer request =
      handle_requests lib add_new_host find same_verb endpoints request.method request.target
        request.body
      >>= λ outcome. some outcome.response

  abbrev pub IsDecodable : StringRequest Verb → Type 0
  IsDecodable request = (decoded : Text) × (decode_url request.target ≡ some decoded)

  answer-some :
      (request : StringRequest Verb)
      → IsDecodable request
      → (r : Response) × (answer request ≡ some r)
  answer-some request (decoded, e) =
      let total =
        handle_requests-total lib add_new_host law same_verb endpoints request.method request.target
          request.body decoded e in
      elim (Option-cases (
        handle_requests lib add_new_host find same_verb endpoints request.method request.target
          request.body)) [
            | inl past_end ↦ absurd (total past_end)
            | inr (outcome, answered) ↦ (outcome.response, rw answered refl)
          ]

  answers :
      (requests : List (StringRequest Verb))
      → All IsDecodable requests
      → (rs : List Response) × Answers (StringRequest Verb) answer requests rs
  answers [] all = ([], refl)
  answers (request ∷ requests) (decodable, all) =
      let (r, e) = answer-some request decodable in
      let (rs, es) = answers requests all in (r ∷ rs, (e, es))

  -- A client that sends requests one after another, whatever their methods and bodies, without a failure
  -- of the socket, gets the response of the handlers to each of them, in their order, and is still
  -- served. The targets can be decoded.
  pub client_served :
      (requests : List (StringRequest Verb))
      → All IsDecodable requests
      → (t : SessionSocket (StringRequest Verb) answer) × (Socket.drive
            (StringRequest Verb)
            answer
            (rounds (StringRequest Verb) answer requests)
            (Socket.run (StringRequest Verb) answer)
          ≡ some t)
        × (t.is_open ≡ true)
        × (t.pending ≡ some read_header)
        × (t.received ≡ requests)
        × Answers (StringRequest Verb) answer requests t.sent
  client_served requests all =
      let (rs, es) = answers requests all in
      let (t, ran, is_open, waits, received, sent) =
        drive_serves (StringRequest Verb) answer requests rs es in
      (t, ran, is_open, waits, received, rw sent es)
