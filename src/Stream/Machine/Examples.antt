-- ===== src/Stream/Machine/Examples.antt =====
-- Examples: runs of one stream.
use binance_monitor.Base.{All, Text, text, text_eq, lookup, ◌≡◌, refl, true, false, some, [], ◌∷◌}
use binance_monitor.Records.{HostInfo, no_changes}
use binance_monitor.Json.Arena.{arena}
use binance_monitor.Stream.{
  UserDataStream, Completion, user_data_stream, run, rest_resolve, rest_connect, rest_handshake,
  rest_write, rest_read, ws_resolve, ws_connect, ws_ssl_handshake, ws_handshake, ws_read,
  listen_key_wait,
}
use binance_monitor.Stream.Machine.{
  listen_key_answer, complete, drive, completes, Reach, here, next,
}
use binance_monitor.Stream.Machine.Setup.{good_run, drive_ready}
use binance_monitor.Stream.Machine.Tags.{stream_tags}
use binance_monitor.Saver.{persistent_orders_saver}
use binance_monitor.Saver.Written.{rows}
use binance_monitor.Saver.Streams.{rows_of_account, stream_rows}
use binance_monitor.Reports.{interpret_generic_messages}
use binance_monitor.Reports.Atomic.{IsTagged}

abbrev host : HostInfo
host = record {
  account_alias = text "ann";
  api_key = text "key";
  secret_key = text "secret";
  tg_group_name = text "desk";
  changes = no_changes;
}

abbrev key : Text
key = text "pqia91ma19a5s61cv6a81va65sdf19v8"

abbrev done : Completion
done = record { failed = false; sni = true; body = [] }

abbrev failure : Completion
failure = record { failed = true; sni = true; body = [] }

drive_ready_example :
    drive arena (good_run (text "key")) (run (user_data_stream host))
    ≡ some (record (user_data_stream host) {
      ssl_web_stream = true;
      buffer = true;
      listen_key_timer = true;
      listen_key = some key;
      pending = listen_key_wait ∷ ws_read ∷ [];
    })
unfolding listen_key_answer arena text text_eq lookup
drive_ready_example = drive_ready arena host (text "key") key refl

abbrev reading : UserDataStream
reading = record (user_data_stream host) {
  ssl_web_stream = true;
  buffer = true;
  listen_key_timer = true;
  listen_key = some key;
  pending = listen_key_wait ∷ ws_read ∷ [];
}

answer : Text → Completion
answer body = record { failed = false; sni = true; body = body }

-- The setup succeeds, and then one message arrives.
abbrev after_message : Text → UserDataStream
after_message body = record reading {
  pending = listen_key_wait ∷ ws_read ∷ [];
  appended = interpret_generic_messages arena host body;
}

run_to_message : (body : Text) → Reach arena (run (user_data_stream host)) (after_message body)
unfolding run complete listen_key_answer arena text text_eq lookup answer
run_to_message body =
    next
      (next
        (next
          (next
            (next
              (next
                (next
                  (next
                    (next (next here (completes [] [] rest_resolve (answer []) refl refl))
                      (completes [] [] rest_connect (answer []) refl refl))
                    (completes [] [] rest_handshake (answer []) refl refl))
                  (completes [] [] rest_write (answer []) refl refl))
                (completes [] [] rest_read (answer (text "key")) refl refl))
              (completes [] [] ws_resolve (answer []) refl refl))
            (completes [] [] ws_connect (answer []) refl refl))
          (completes [] [] ws_ssl_handshake (answer []) refl refl))
        (completes [] [] ws_handshake (answer []) refl refl))
      (completes (listen_key_wait ∷ []) [] ws_read (answer body) refl refl)

stream_tags_example : All (IsTagged arena host) (after_message (text "{}")).appended
stream_tags_example =
    stream_tags arena host (after_message (text "{}")) (run_to_message (text "{}"))

stream_rows_example :
    rows
      (persistent_orders_saver
        (λ t old new. t)
        (λ m. m)
        (after_message (text "deposit")).appended
        (record {
          account_table_map = [];
          chats_id_map = [];
          message_senders = [];
          statements = [];
        })).statements
    ≡ rows_of_account host.account_alias (after_message (text "deposit")).appended
stream_rows_example =
    stream_rows arena (λ t old new. t) (λ m. m) host (after_message (text "deposit")) []
      (run_to_message (text "deposit"))
