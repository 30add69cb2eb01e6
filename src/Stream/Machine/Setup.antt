-- ===== src/Stream/Machine/Setup.antt =====
-- The way to the open socket, and what a failure on it leaves.
use binance_monitor.Base.{
  ◌>>=◌, All, Text, ◌≡◌, Bool, true, false, none, some, List, [], ◌∷◌, arith,
}
use binance_monitor.Records.{HostInfo}
use binance_monitor.Json.{JsonLibrary}
use binance_monitor.Stream.{
  UserDataStream, Operation, Completion, user_data_stream, run, rest_resolve, ws_read, error_wait,
  listen_key_wait, posted, ws_close, rest_api_initiate_connection,
}
use binance_monitor.Stream.Machine.{listen_key_answer, found, complete, drive}

abbrev ok_with : Text → Completion
ok_with body = record { failed = false; sni = true; body = body }

-- The nine completions from `run` to the first wait for a message, without a failure. The fifth
-- brings the answer to the request for a listen key.
abbrev pub good_run : Text → List Completion
good_run body =
    ok_with []
    ∷ ok_with []
    ∷ ok_with []
    ∷ ok_with []
    ∷ ok_with body
    ∷ ok_with []
    ∷ ok_with []
    ∷ ok_with []
    ∷ ok_with []
    ∷ []

module _ (lib : JsonLibrary) where
  -- If every operation of the setup succeeds and the answer holds a listen key, the stream waits
  -- for messages with that key, and the renewal timer runs.
  pub drive_ready :
      (host : HostInfo) (body key : Text)
      → listen_key_answer lib body ≡ found key
      → drive lib (good_run body) (run (user_data_stream host))
        ≡ some (record (user_data_stream host) {
          ssl_web_stream = true;
          buffer = true;
          listen_key_timer = true;
          listen_key = some key;
          pending = listen_key_wait ∷ ws_read ∷ [];
        })
  unfolding drive complete run
  drive_ready host body key e = ground arith

  abbrev pub is_setup : Operation → Bool
  is_setup error_wait = false
  is_setup listen_key_wait = false
  is_setup posted = false
  is_setup ws_read = false
  is_setup ws_close = false
  is_setup _ = true

  -- The reconnection after a failed read: all of the old connection is reset, the ten second timer
  -- runs, and when it expires a new listen key is asked for.
  reconnects :
      (s : UserDataStream) (c w : Completion)
      → s.stopped ≡ false
      → c.failed ≡ true
      → w.failed ≡ false
      → drive lib (c ∷ w ∷ []) (record s { pending = ws_read ∷ [] })
        ≡ some (record s {
          resolver = true;
          ssl_web_stream = false;
          buffer = false;
          on_error_timer = false;
          listen_key_timer = false;
          listen_key_keepalive = none;
          listen_key = none;
          pending = rest_resolve ∷ [];
        })
  unfolding drive complete rest_api_initiate_connection
  reconnects s c w h e f = ground arith

  abbrev OnlyCloses : UserDataStream → Type 0
  OnlyCloses s = All (λ op. op ≡ ws_close) s.pending

  -- Between the renewal of the listen key and its posted continuation the connection may fail: the
  -- continuation then uses a timer that is no longer there.
  renewal_race :
      (s : UserDataStream) (key : Text) (expired failed later : Completion)
      → s.ssl_web_stream ≡ true
      → s.listen_key ≡ some key
      → s.listen_key_timer ≡ true
      → expired.failed ≡ false
      → failed.failed ≡ true
      → (complete lib listen_key_wait expired s
          >>= complete lib ws_read failed
          >>= complete lib posted later)
        ≡ none
  unfolding complete
  renewal_race s key expired failed later a b d e f = ground arith
