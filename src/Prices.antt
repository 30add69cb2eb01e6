-- ===== src/Prices.antt =====
-- The prices of binance_prices: the messages of src/market_data_stream.cpp, lines 260 to 294, and the
-- saver thread of src/websock_launcher.cpp. A `double` is of any type; `stod` reads one, or throws.
pub mod Latest
pub mod Stream
mod Examples
use binance_monitor.Base.{
  leb, if◌then◌else◌, ◌>>=◌, Text, text, text_eq, Map, lookup, assign, ◌-◌, ◌*◌, ◌&&◌, Option, none,
  some, List, [], ◌∷◌, ◌++◌,
}
use binance_monitor.Json.{JsonLibrary, string_value}
use binance_monitor.Containers.{append_list, insert_list}

-- `pushed_subscription_data_t`
pub record PushedSubscriptionData (Price : Type 0) : Type 0 where
  pub instrument_id : Text
  pub current_price : Price
  pub open_24h : Price

module _ (lib : JsonLibrary) {Price : Type 0} (stod : Text → Option Price) where
  open lib use {Json, parse, get_object, get_array}

  -- `process_pushed_instruments_data`: the symbols, or an exception.
  pub instruments : List Json → Option (List Text)
  instruments [] = some []
  instruments (data_json ∷ data_list) = do
    data_object ← get_object data_json
    instrument_id ← string_value lib data_object (text "symbol")
    more ← instruments data_list
    some (instrument_id ∷ more)

  pub process_pushed_instruments_data : List Json → List Text → Option (List Text)
  unfolding instruments
  process_pushed_instruments_data data_list listed =
      instruments data_list >>= λ symbols. some (insert_list text_eq symbols listed)

  ticker : Json → Option (PushedSubscriptionData Price)
  ticker data_json = do
    data_object ← get_object data_json
    instrument_id ← string_value lib data_object (text "s")
    current_price ← string_value lib data_object (text "c") >>= stod
    open_24h ← string_value lib data_object (text "o") >>= stod
    some (record {
      instrument_id = instrument_id;
      current_price = current_price;
      open_24h = open_24h;
    })

  -- The loop of `process_pushed_tickers_data`.
  pub pushed_list :
      List Json → List (PushedSubscriptionData Price) → Option (List (PushedSubscriptionData Price))
  unfolding ticker
  pushed_list [] collected = some collected
  pushed_list (data_json ∷ data_list) collected =
      ticker data_json >>= λ one. pushed_list data_list (collected ++ one ∷ [])

  -- `process_pushed_tickers_data`; `none` is an exception, before anything is appended.
  process_pushed_tickers_data :
      List Json → List (PushedSubscriptionData Price) → Option (List (PushedSubscriptionData Price))
  unfolding pushed_list append_list
  process_pushed_tickers_data data_list container =
      pushed_list data_list [] >>= λ pushed. some (append_list pushed container)

  -- `interpret_generic_messages`, without the wait that follows: an exception is logged.
  pub interpret_generic_messages :
      Text → List (PushedSubscriptionData Price) → List (PushedSubscriptionData Price)
  unfolding process_pushed_tickers_data
  interpret_generic_messages body container =
      elim (parse body >>= get_array >>= λ object_list.
      process_pushed_tickers_data object_list container) [ none ↦ container | some filled ↦ filled ]

-- `boost::to_upper` in the "C" locale.
unfoldable pub to_upper : Text → Text
to_upper [] = []
to_upper (c ∷ cs) = (if leb b'a' c && leb c b'z' then c - 32 else c) ∷ to_upper cs

module _ {Price : Type 0} (zero_price : Price) where
  -- `pushed_subs[...]`: a new entry has an empty name and zero prices.
  entry : Text → Map (PushedSubscriptionData Price) → PushedSubscriptionData Price
  entry symbol pushed_subs = elim (lookup symbol pushed_subs) [
    | none ↦ record { instrument_id = []; current_price = zero_price; open_24h = zero_price }
    | some known ↦ known
  ]

  -- A round of `background_price_saver`.
  pub save_price :
      PushedSubscriptionData Price
      → Map (PushedSubscriptionData Price)
      → Map (PushedSubscriptionData Price)
  unfolding entry
  save_price item pushed_subs =
      let symbol = to_upper item.instrument_id in
      assign symbol
        (record (entry symbol pushed_subs) {
          current_price = item.current_price;
          open_24h = item.open_24h;
        })
        pushed_subs

  pub background_price_saver :
      List (PushedSubscriptionData Price)
      → Map (PushedSubscriptionData Price)
      → Map (PushedSubscriptionData Price)
  unfolding save_price
  background_price_saver [] pushed_subs = pushed_subs
  background_price_saver (item ∷ items) pushed_subs =
      background_price_saver items (save_price item pushed_subs)
