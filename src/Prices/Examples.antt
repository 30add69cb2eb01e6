-- ===== src/Prices/Examples.antt =====
-- Examples: a message with a ticker, and a stream that is closed. Prices are their texts.
use binance_monitor.Base.{Text, text, lookup, ◌+◌, ◌≡◌, refl, ◌≢◌, true, false, none, some, [], ◌∷◌}
use binance_monitor.Json.Arena.{arena}
use binance_monitor.Prices.{background_price_saver, to_upper}
use binance_monitor.Prices.Latest.{
  prices, last_prices, interpret_messages, all_tickers, latest_prices,
}
use binance_monitor.Prices.Stream.{
  MarketDataStream, Completion, rest_resolve, ws_read, run, complete, close_frame, drive, here,
}
use binance_monitor.Prices.Stream.Defined.{Reach-defined}
use binance_monitor.Prices.Stream.Recovery.{connected, waiting_again, reconnects}

upper : to_upper (text "ethUSDT") ≡ text "ETHUSDT"
unfolding to_upper text
upper = refl

latest_prices_example :
    prices (
      lookup (text "ETH") (
        background_price_saver []
          (interpret_messages arena {Price = Text} some (text "tickers" ∷ text "key" ∷ []) [])
          []))
    ≡ last_prices (text "ETH") (all_tickers arena some (text "tickers" ∷ text "key" ∷ []))
latest_prices_example = latest_prices arena some [] (text "ETH") (text "tickers" ∷ text "key" ∷ [])

abbrev failed_read : Completion
failed_read = record { failed = true; aborted = false; sni = true; body = [] }

Reach-defined_example :
    complete arena {Price = Text} some rest_resolve failed_read (record run { pending = none })
    ≢ none
unfolding run
Reach-defined_example = Reach-defined arena {Price = Text} some rest_resolve failed_read here refl

abbrev reading : MarketDataStream Text
reading = record run { pending = some ws_read; ssl_web_stream = true; buffer = true }

reconnects_example :
    (drive arena some (failed_read ∷ connected) reading ≡ some (waiting_again arena some reading))
    × (drive arena some connected (close_frame reading)
        ≡ some (record (waiting_again arena some reading) { orphans = reading.orphans + 1 }))
reconnects_example = reconnects arena some reading failed_read refl refl refl
