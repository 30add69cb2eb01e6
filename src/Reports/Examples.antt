-- ===== src/Reports/Examples.antt =====
-- An example: an account position with two balances.
use binance_monitor.Base.{◌>>=◌, text, Map, lookup, ◌≡◌, [], ◌∷◌}
use binance_monitor.Records.{HostInfo, no_changes}
use binance_monitor.Json.{integer_value}
use binance_monitor.Json.Arena.{arena}
use binance_monitor.Reports.{account_item, account_updates}
use binance_monitor.Reports.Atomic.{traverse, blank, account_updates-traverse}

abbrev host : HostInfo
host = record {
  account_alias = text "ann";
  api_key = text "key";
  secret_key = text "secret";
  tg_group_name = text "desk";
  changes = no_changes;
}

unfoldable position : Map arena.Json
unfolding arena
position = (text "e", 1) ∷ (text "E", 2) ∷ (text "u", 3) ∷ (text "B", 4) ∷ []

account_updates-traverse_example : account_updates arena host position ≡ (
    integer_value arena position (text "E") >>= λ event_time.
    integer_value arena position (text "u") >>= λ last_update.
    lookup (text "B") position >>= λ balances. arena.get_array balances >>= λ items.
    traverse (account_item arena (blank arena host event_time last_update)) items)
account_updates-traverse_example = account_updates-traverse arena host position
