-- ===== src/Hosts/Examples.antt =====
-- Examples: two hosts, and a table in which one changed its group, one left and one is new.
use binance_monitor.Base.{Text, text, List, [], ◌∷◌}
use binance_monitor.Records.{HostInfo, no_changes}
use binance_monitor.Stream.{user_data_stream}
use binance_monitor.Hosts.{HostRow}
use binance_monitor.Hosts.Launcher.{Launcher}

abbrev host : Text → Text → HostInfo
host alias group = record {
  account_alias = alias;
  api_key = text "key";
  secret_key = text "secret";
  tg_group_name = group;
  changes = no_changes;
}

abbrev row : Text → Text → HostRow
row alias group = record {
  alias = alias;
  api_key = text "key";
  secret_key = text "secret";
  tg_group = group;
}

abbrev before : List HostInfo
before = host (text "ann") (text "desk") ∷ host (text "bob") (text "desk") ∷ []

abbrev first : List HostRow
first = row (text "ann") (text "desk") ∷ row (text "bob") (text "desk") ∷ []

abbrev table : List HostRow
table = row (text "ann") (text "alerts") ∷ row (text "eve") (text "desk") ∷ []

abbrev launcher : Launcher
launcher = record {
  websocks =
      user_data_stream (host (text "ann") (text "desk"))
      ∷ user_data_stream (host (text "bob") (text "desk"))
      ∷ [];
  released = [];
}
