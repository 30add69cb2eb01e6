-- ===== src/Session/Socket/Serving.antt =====
-- The requests that a socket of session.cpp has read, and the responses that it has sent.
use binance_monitor.Base.{
  Option-cases, some_inj, Ensures, Text, ◌≡◌, refl, sym, ◌∙◌, subst, ◌⊎◌, inl, inr, true, false,
  Option, none, some, List, [], ◌∷◌, ◌++◌, append-nil, append_assoc,
}
use binance_monitor.Session.{Response, get_error, server_error}
use binance_monitor.Session.Socket.{
  Operation, read_header, read_body, write, write_last, Ending, done, end_of_stream, body_limit,
  failed, Completion, SessionSocket, run, http_read_data, shutdown_socket, send, report_failure,
  on_header_read, on_data_read, on_data_written, complete, drive, Step, completes, expires, Reach,
  here, next,
}

module _ (Request : Type 0) (handle_requests : Request → Option Response) where
  -- The response whose writing ends the connection.
  abbrev pub last_response : Text → Response
  last_response message = get_error message server_error 500

  -- The answers to the requests, in their order.
  abbrev pub Answers : List Request → List Response → Type 0
  Answers [] rs = rs ≡ []
  Answers (request ∷ requests) [] = ⊥
  Answers (request ∷ requests) (r ∷ rs) = (handle_requests request ≡ some r) × Answers requests rs

  Answers-concat :
      (requests : List Request) (rs : List Response) (request : Request) (r : Response)
      → Answers requests rs
      → handle_requests request ≡ some r
      → Answers (requests ++ request ∷ []) (rs ++ r ∷ [])
  Answers-concat [] [] request r a e = (e, refl)
  Answers-concat [] (x ∷ rs) request r a e = cc
  Answers-concat (q ∷ requests) [] request r a e = absurd a
  Answers-concat (q ∷ requests) (x ∷ rs) request r (h, a) e =
      (h, Answers-concat requests rs request r a e)

  -- What may be under way after the last response.
  abbrev pub IsLast : Option Operation → Type 0
  IsLast none = Unit
  IsLast (some read_header) = ⊥
  IsLast (some read_body) = ⊥
  IsLast (some write) = ⊥
  IsLast (some write_last) = Unit

  abbrev IsServing : Option Operation → Type 0
  IsServing none = Unit
  IsServing (some read_header) = Unit
  IsServing (some read_body) = Unit
  IsServing (some write) = Unit
  IsServing (some write_last) = ⊥

  -- All requests that were read are answered; after that at most one error, and then nothing more.
  abbrev pub IsServed : SessionSocket Request handle_requests → Type 0
  IsServed s =
      (Answers s.received s.sent × IsServing s.pending)
      ⊎ ((rs : List Response) × (message : Text) × Answers s.received rs
          × (s.sent ≡ rs ++ last_response message ∷ [])
          × IsLast s.pending)

  complete-IsServed :
      (op : Operation) (c : Completion Request handle_requests)
      (s : SessionSocket Request handle_requests)
      → s.pending ≡ none
      → Answers s.received s.sent
      → IsServing (some op)
      → Ensures IsServed (complete Request handle_requests op c s)
  unfolding complete on_header_read on_data_read on_data_written shutdown_socket report_failure send
      http_read_data
  complete-IsServed op c s p a i = go op c.ending i
    where
      go :
          (op : Operation) (ending : Ending)
          → IsServing (some op)
          → Ensures IsServed (complete Request handle_requests op (record c { ending = ending }) s)
      go read_header done i = inl (a, tt)
      go read_header end_of_stream i = inl (a, rw p tt)
      go read_header (body_limit m) i = inr (s.sent, m, a, refl, tt)
      go read_header (failed m) i = inr (s.sent, m, a, refl, tt)
      go read_body done i = elim (Option-cases (handle_requests c.request)) [
        | inl n ↦ rw n tt
        | inr (r, h) ↦ rw h (inl (Answers-concat s.received s.sent c.request r a h, tt))
      ]
      go read_body end_of_stream i = inl (a, rw p tt)
      go read_body (body_limit m) i = inr (s.sent, m, a, refl, tt)
      go read_body (failed m) i = inr (s.sent, m, a, refl, tt)
      go write done i = inl (a, tt)
      go write end_of_stream i = inl (a, rw p tt)
      go write (body_limit m) i = inl (a, rw p tt)
      go write (failed m) i = inl (a, rw p tt)
      go write_last e i = absurd i

  last_completes :
      (op : Operation) (c : Completion Request handle_requests)
      (s t : SessionSocket Request handle_requests)
      → IsLast (some op)
      → complete Request handle_requests op c s ≡ some t
      → record s { is_open = false } ≡ t
  unfolding complete shutdown_socket
  last_completes read_header c s t l e = absurd l
  last_completes read_body c s t l e = absurd l
  last_completes write c s t l e = absurd l
  last_completes write_last c s t l e = some_inj e

  Step-IsServed :
      {s t : SessionSocket Request handle_requests}
      → IsServed s
      → Step Request handle_requests s t
      → IsServed t
  Step-IsServed {s} {t} (inl (a, i)) (completes op c p e) =
      subst (Ensures IsServed) e
        (complete-IsServed op c (record s { pending = none }) refl a (subst IsServing p i))
  Step-IsServed {s} {t} (inr (rs, m, a, sent, l)) (completes op c p e) =
      subst IsServed (last_completes op c (record s { pending = none }) t (subst IsLast p l) e)
        (inr (rs, m, a, sent, tt))
  Step-IsServed h (expires op p e) = subst IsServed (sym e) h

  -- In every reachable state the responses sent are those to the requests that were read, in their
  -- order, followed by at most one error; after the error nothing more is read.
  pub Reach-IsServed :
      {s : SessionSocket Request handle_requests}
      → Reach Request handle_requests (run Request handle_requests) s
      → IsServed s
  unfolding run http_read_data
  Reach-IsServed here = inl (refl, tt)
  Reach-IsServed (next r st) = Step-IsServed (Reach-IsServed r) st

  -- The completions of a client that sends the requests one after another.
  pub rounds : List Request → List (Completion Request handle_requests)
  rounds [] = []
  rounds (request ∷ requests) =
      let ended : Completion Request handle_requests = record {
        ending = done;
        request = request;
      } in
      ended ∷ ended ∷ ended ∷ rounds requests

  serves :
      (requests : List Request) (rs : List Response) (s : SessionSocket Request handle_requests)
      → s.pending ≡ some read_header
      → Answers requests rs
      → (t : SessionSocket Request handle_requests) × (drive Request handle_requests
            (rounds requests)
            s
          ≡ some t)
        × (t.is_open ≡ s.is_open)
        × (t.pending ≡ some read_header)
        × (t.received ≡ s.received ++ requests)
        × (t.sent ≡ s.sent ++ rs)
  unfolding drive complete rounds on_header_read on_data_read on_data_written send http_read_data
  serves [] rs s p a =
      (s, refl, refl, p, sym (append-nil s.received), rw (a, append-nil s.sent) refl)
  serves (q ∷ requests) [] s p a = absurd a
  serves (q ∷ requests) (r ∷ rs) s p (h, a) =
      let later : SessionSocket Request handle_requests = record s {
        resp = none;
        pending = some read_header;
        received = s.received ++ q ∷ [];
        sent = s.sent ++ r ∷ [];
      } in
      let (t, e, o, w, got, sent) = serves requests rs later refl a in
      (
        t,
        rw (p, h) e,
        o,
        w,
        got ∙ append_assoc s.received (q ∷ []) requests,
        sent ∙ append_assoc s.sent (r ∷ []) rs,
      )

  -- A client whose requests are sent one after another, without a failure, has each of them answered,
  -- in their order, and is still served. The requests are those that the handlers answer.
  pub drive_serves :
      (requests : List Request) (rs : List Response)
      → Answers requests rs
      → (t : SessionSocket Request handle_requests) × (drive Request handle_requests
            (rounds requests)
            (run Request handle_requests)
          ≡ some t)
        × (t.is_open ≡ true)
        × (t.pending ≡ some read_header)
        × (t.received ≡ requests)
        × (t.sent ≡ rs)
  unfolding run http_read_data
  drive_serves requests rs a = serves requests rs (run Request handle_requests) refl a
