-- ===== src/Database/HostRows.antt =====
-- The statement of `add_new_host`, whose values come from an upload.
use binance_monitor.Base.{Text, text, text_eq, Map, ◌≡◌, ap, ◌∙◌, Option, some, List, [], ◌∷◌, ◌++◌}
use binance_monitor.Records.{HostInfo}
use binance_monitor.Database.Sql.{
  Token, quoted, mark, in_quote, tokens, Row, read_columns, read_value, read_values, pair_up,
  read_body, read_tokens, read_insert,
}
use binance_monitor.Database.Sql.Scan.{IsPlain, tokens-plain}
use binance_monitor.Database.{host_sql_statement}
use binance_monitor.Database.Rows.{paired}

pub host_row : HostInfo → Map (Option Text)
host_row h =
    (text "api_key", some h.api_key)
    ∷ (text "secret_key", some h.secret_key)
    ∷ (text "alias", some h.account_alias)
    ∷ (text "tg_group", some h.tg_group_name)
    ∷ []

abbrev host_names : List Text
host_names = text "api_key" ∷ text "secret_key" ∷ text "alias" ∷ text "tg_group" ∷ []

tokens-value :
    (s rest : Text)
    → IsPlain s
    → tokens (in_quote []) (s ++ (text "', '" ++ rest))
      ≡ quoted s ∷ mark b',' ∷ tokens (in_quote []) rest
unfolding tokens text
tokens-value s rest p = tokens-plain s [] (text ", '" ++ rest) p

tokens-unspaced :
    (s rest : Text)
    → IsPlain s
    → tokens (in_quote []) (s ++ (text "','" ++ rest))
      ≡ quoted s ∷ mark b',' ∷ tokens (in_quote []) rest
unfolding tokens text
tokens-unspaced s rest p = tokens-plain s [] (text ",'" ++ rest) p

abbrev from_values : List Token → Option Row
from_values ts = paired (text "hosts") host_names (read_values ts)

-- The statement for a host is read as its row, if no value holds a quote or a backslash.
pub read_insert-host :
    (h : HostInfo)
    → IsPlain h.api_key
    → IsPlain h.secret_key
    → IsPlain h.account_alias
    → IsPlain h.tg_group_name
    → read_insert (host_sql_statement h)
      ≡ some (record { table = text "hosts"; columns = host_row h })
unfolding read_insert host_sql_statement tokens read_tokens text text_eq read_columns read_body
    pair_up host_row read_values read_value
read_insert-host h p q r s =
    let last : Text = h.tg_group_name ++ (text "')" ++ []) in
    let alias : Text = h.account_alias ++ (text "', '" ++ last) in
    ap from_values (
      tokens-value h.api_key (h.secret_key ++ (text "','" ++ alias)) p
      ∙ ap (λ (ts : List Token). quoted h.api_key ∷ mark b',' ∷ ts)
          (tokens-unspaced h.secret_key alias q
            ∙ ap (λ (ts : List Token). quoted h.secret_key ∷ mark b',' ∷ ts)
                (tokens-value h.account_alias last r
                  ∙ ap (λ (ts : List Token). quoted h.account_alias ∷ mark b',' ∷ ts)
                      (tokens-plain h.tg_group_name [] (b')' ∷ []) s))))
