-- ===== src/Prices/Stream/Recovery.antt =====
-- The way to the messages, and back to them after a failure.
use binance_monitor.Base.{◌>>=◌, Text, ◌+◌, ◌≡◌, true, false, Option, some, List, [], ◌∷◌, arith}
use binance_monitor.Json.{JsonLibrary}
use binance_monitor.Prices.{process_pushed_instruments_data}
use binance_monitor.Prices.Stream.{
  MarketDataStream, Completion, ws_read, run, close_frame, complete, drive,
}

abbrev pub ok_with : Text → Completion
ok_with body = record { failed = false; aborted = false; sni = true; body = body }

-- The four completions of the way to a WebSocket.
abbrev pub connected : List Completion
connected = ok_with [] ∷ ok_with [] ∷ ok_with [] ∷ ok_with [] ∷ []

module _ (lib : JsonLibrary) {Price : Type 0} (stod : Text → Option Price) where
  open lib use {parse, get_array}

  -- If every operation of the setup succeeds and the answer is a list of instruments, these are listed,
  -- and the stream waits for messages.
  pub drive_ready :
      (body : Text) (listed : List Text)
      → (parse body >>= get_array >>= λ token_list.
          process_pushed_instruments_data lib stod token_list [])
        ≡ some listed
      → drive lib stod
          (ok_with [] ∷ ok_with [] ∷ ok_with [] ∷ ok_with [] ∷ ok_with body ∷ connected)
          run
        ≡ some (record run {
          resolver = false;
          ssl_web_stream = true;
          buffer = true;
          pending = some ws_read;
          listed = listed;
        })
  unfolding drive complete run
  drive_ready body listed e = ground arith

  -- The stream waits for messages again, over a new connection.
  abbrev pub waiting_again : MarketDataStream Price → MarketDataStream Price
  waiting_again s = record s {
    resolver = false;
    ssl_web_stream = true;
    buffer = true;
    http_request = false;
    http_response = false;
    pending = some ws_read;
  }

  -- After a failed read that is no abort, and after a close frame, four operations that succeed lead to
  -- the next wait for a message, over a new connection; the messages that came before stay in the
  -- container.
  pub reconnects :
      (s : MarketDataStream Price) (c : Completion)
      → s.pending ≡ some ws_read
      → c.failed ≡ true
      → c.aborted ≡ false
      → (drive lib stod (c ∷ connected) s ≡ some (waiting_again s))
        × (drive lib stod connected (close_frame s)
            ≡ some (record (waiting_again s) { orphans = s.orphans + 1 }))
  unfolding drive complete close_frame
  reconnects s c p f a = ground arith
