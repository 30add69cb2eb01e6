-- ===== src/Prices/Latest.antt =====
-- The prices that websock_launcher.cpp keeps, against the messages of market_data_stream.cpp.
use binance_monitor.Base.{
  if◌then◌else◌, Bool-cases, Option-cases, ◌>>=◌, Text, text_eq, Map, lookup, lookup-assign, ◌≡◌,
  refl, sym, ap, ◌∙◌, inl, inr, Bool, true, false, Option, none, some, List, [], ◌∷◌, ◌++◌,
  append-nil, append_assoc,
}
use binance_monitor.Json.{JsonLibrary}
use binance_monitor.Containers.{append_list}
use binance_monitor.Prices.{
  PushedSubscriptionData, ticker, pushed_list, process_pushed_tickers_data,
  interpret_generic_messages, to_upper, entry, save_price, background_price_saver,
}

-- The first one, if it is there.
abbrev pub or_else {ℓ} : {A : Type ℓ} → Option A → Option A → Option A
or_else none b = b
or_else (some a) b = some a

-- The prices of a symbol that a map shows.
abbrev pub prices :
    {Price : Type 0} → Option (PushedSubscriptionData Price) → Option (Price × Price)
prices none = none
prices (some d) = some (d.current_price, d.open_24h)

-- The prices of the last ticker of a symbol, in whatever case it is written.
pub last_prices :
    {Price : Type 0} → Text → List (PushedSubscriptionData Price) → Option (Price × Price)
last_prices symbol [] = none
last_prices symbol (item ∷ items) = or_else (last_prices symbol items) (
    if text_eq (to_upper item.instrument_id) symbol
    then some (item.current_price, item.open_24h)
    else none)

module _ {Price : Type 0} (zero_price : Price) where
  prices-save_price :
      (symbol : Text) (item : PushedSubscriptionData Price)
      (pushed_subs : Map (PushedSubscriptionData Price))
      → prices (lookup symbol (save_price zero_price item pushed_subs)) ≡ (
          if text_eq (to_upper item.instrument_id) symbol
          then some (item.current_price, item.open_24h)
          else prices (lookup symbol pushed_subs))
  unfolding save_price
  prices-save_price symbol item pushed_subs =
      let name = to_upper item.instrument_id in
      let stored : PushedSubscriptionData Price = record (entry zero_price name pushed_subs) {
        current_price = item.current_price;
        open_24h = item.open_24h;
      } in
      ap prices (lookup-assign symbol name stored pushed_subs)
      ∙ elim (Bool-cases (text_eq name symbol)) [
        | inl same ↦ rw same refl
        | inr other ↦ rw other refl
      ]

  prices-background_price_saver :
      (symbol : Text) (items : List (PushedSubscriptionData Price))
      (pushed_subs : Map (PushedSubscriptionData Price))
      → prices (lookup symbol (background_price_saver zero_price items pushed_subs))
        ≡ or_else (last_prices symbol items) (prices (lookup symbol pushed_subs))
  unfolding background_price_saver last_prices
  prices-background_price_saver symbol [] pushed_subs = refl
  prices-background_price_saver symbol (item ∷ items) pushed_subs =
      prices-background_price_saver symbol items (save_price zero_price item pushed_subs)
      ∙ rw (prices-save_price symbol item pushed_subs)
          (regroup (last_prices symbol items) (text_eq (to_upper item.instrument_id) symbol))
    where
      regroup :
          (later : Option (Price × Price)) (same : Bool)
          → or_else later (
              if same
              then some (item.current_price, item.open_24h)
              else prices (lookup symbol pushed_subs))
            ≡ or_else
                (or_else later (if same then some (item.current_price, item.open_24h) else none))
                (prices (lookup symbol pushed_subs))
      regroup none true = refl
      regroup none false = refl
      regroup (some p) same = refl

module _ (lib : JsonLibrary) {Price : Type 0} (stod : Text → Option Price) where
  open lib use {Json, parse, get_array}

  -- The tickers of a list, if every one of them is well-formed.
  tickers : List Json → Option (List (PushedSubscriptionData Price))
  tickers [] = some []
  tickers (data_json ∷ data_list) =
      ticker lib stod data_json >>= λ one. tickers data_list >>= λ more. some (one ∷ more)

  -- The tickers of a message: none where it is malformed in any place.
  pub tickers_of : Text → List (PushedSubscriptionData Price)
  unfolding tickers
  tickers_of body = elim (parse body >>= get_array >>= tickers) [ none ↦ [] | some items ↦ items ]

  pub all_tickers : List Text → List (PushedSubscriptionData Price)
  all_tickers [] = []
  all_tickers (body ∷ messages) = tickers_of body ++ all_tickers messages

  pub interpret_messages :
      List Text → List (PushedSubscriptionData Price) → List (PushedSubscriptionData Price)
  interpret_messages [] container = container
  interpret_messages (body ∷ messages) container =
      interpret_messages messages (interpret_generic_messages lib stod body container)

  pushed_list-tickers :
      (data_list : List Json) (collected : List (PushedSubscriptionData Price))
      → pushed_list lib stod data_list collected
        ≡ (tickers data_list >>= λ items. some (collected ++ items))
  unfolding pushed_list tickers
  pushed_list-tickers [] collected = rw append-nil refl
  pushed_list-tickers (data_json ∷ data_list) collected =
      elim (Option-cases (ticker lib stod data_json)) [
        | inl thrown ↦ rw thrown refl
        | inr (one, read) ↦ rw read (
            pushed_list-tickers data_list (collected ++ one ∷ []) ∙ regroup one (tickers data_list))
      ]
    where
      regroup :
          (one : PushedSubscriptionData Price) (rest : Option (List (PushedSubscriptionData Price)))
          → (rest >>= λ items. some ((collected ++ one ∷ []) ++ items))
            ≡ ((rest >>= λ more. some (one ∷ more)) >>= λ items. some (collected ++ items))
      regroup one none = refl
      regroup one (some more) = rw append_assoc refl

  interpret-list :
      (container : List (PushedSubscriptionData Price)) (list : Option (List Json))
      → elim (list >>= λ object_list. process_pushed_tickers_data lib stod object_list container)
          as (λ _. List (PushedSubscriptionData Price)) [ none ↦ container | some filled ↦ filled ]
        ≡ container ++ elim (list >>= tickers) as (λ _. List (PushedSubscriptionData Price)) [
          | none ↦ []
          | some items ↦ items
        ]
  unfolding process_pushed_tickers_data append_list
  interpret-list container none = sym (append-nil container)
  interpret-list container (some data_list) =
      rw (pushed_list-tickers data_list []) (given (tickers data_list))
    where
      given :
          (read : Option (List (PushedSubscriptionData Price)))
          → elim ((read >>= λ items. some ([] ++ items)) >>= λ pushed. some (container ++ pushed))
              as (λ _. List (PushedSubscriptionData Price)) [
                | none ↦ container
                | some filled ↦ filled
              ]
            ≡ container ++ elim read as (λ _. List (PushedSubscriptionData Price)) [
              | none ↦ []
              | some items ↦ items
            ]
      given none = sym (append-nil container)
      given (some items) = refl

  interpret_messages-all_tickers :
      (messages : List Text) (container : List (PushedSubscriptionData Price))
      → interpret_messages messages container ≡ container ++ all_tickers messages
  unfolding interpret_messages all_tickers tickers_of interpret_generic_messages
  interpret_messages-all_tickers [] container = sym (append-nil container)
  interpret_messages-all_tickers (body ∷ messages) container =
      interpret_messages-all_tickers messages (interpret_generic_messages lib stod body container)
      ∙ rw (interpret-list container (parse body >>= get_array))
          (append_assoc container (tickers_of body) (all_tickers messages))

  -- Whatever messages arrive from the start on, once the saver has worked through the container the
  -- prices of every symbol are those of its last ticker, a message with a malformed ticker in any place
  -- left out.
  pub latest_prices :
      (zero_price : Price) (symbol : Text) (messages : List Text)
      → prices
          (lookup symbol (background_price_saver zero_price (interpret_messages messages []) []))
        ≡ last_prices symbol (all_tickers messages)
  unfolding lookup
  latest_prices zero_price symbol messages = rw (interpret_messages-all_tickers messages []) (
      prices-background_price_saver zero_price symbol (all_tickers messages) []
      ∙ nothing_else (last_prices symbol (all_tickers messages)))
    where
      nothing_else : (o : Option (Price × Price)) → or_else o none ≡ o
      nothing_else none = refl
      nothing_else (some p) = refl
