-- ===== src/Programs/Examples.antt =====
-- Examples: a configuration file with one entry, and a table with two hosts.
use binance_monitor.Base.{
  Text, text, text_eq, lookup, ℕ, ◌≡◌, refl, Bool, true, false, Option, none, some, List, [], ◌∷◌,
}
use binance_monitor.Json.Arena.{arena}
use binance_monitor.Json.{string_value}
use binance_monitor.Session.{Response}
use binance_monitor.Records.{HostInfo, no_changes}
use binance_monitor.Hosts.{HostRow}
use binance_monitor.Hosts.Launcher.{Launcher, websock_launcher}
use binance_monitor.Hosts.Launcher.Mirror.{hosts_of}
use binance_monitor.Hosts.Rounds.{started}
use binance_monitor.Database.Connection.{DbConfig}
use binance_monitor.Programs.{CommandLineInterface, Environment, Program}
use binance_monitor.Containers.{append_list}
use binance_monitor.Stream.{user_data_stream}
use binance_monitor.Reports.Atomic.{traverse}
use binance_monitor.Session.{json_success, host_of_json, upload_handler}
use binance_monitor.Session.Uploads.{accepted, refused}
use binance_monitor.Programs.Uploads.{add_new_host, upload_starts_streams}
use binance_monitor.Programs.Start

abbrev accepts : Text → Bool
accepts login = true

abbrev refuses : ℕ → Option Response
refuses request = none

abbrev row : Text → Text → HostRow
row alias group = record {
  alias = alias;
  api_key = text "key";
  secret_key = text "secret";
  tg_group = group;
}

abbrev arguments : CommandLineInterface
arguments = record { launch_type = text "development" }

abbrev environment : Environment arena accepts ℕ refuses
unfolding arena
environment = record {
  file = some ((text "database", 22) ∷ (text "bot_token", 29) ∷ []);
  bad_address = false;
  not_opened = false;
  not_set = false;
  not_bound = false;
  not_listening = false;
  table = row (text "ann") (text "desk") ∷ row (text "bob") (text "desk") ∷ [];
  throws_after = none;
  hardware_concurrency = 8;
}

abbrev config : DbConfig
config = record {
  db_username = text "u";
  db_password = text "p";
  db_dns = text "d";
  bot_token = text "token";
}

abbrev running_program : Program arena accepts ℕ refuses
unfolding arena
running_program = Start.started arena accepts ℕ refuses environment config

abbrev ann : HostInfo
ann = record {
  account_alias = text "ann";
  api_key = text "key";
  secret_key = text "secret";
  tg_group_name = [];
  changes = no_changes;
}

abbrev later : List HostRow
later = row (text "ann") (text "alerts") ∷ row (text "eve") (text "desk") ∷ []

abbrev uploaded : HostInfo
uploaded = record {
  account_alias = text "ann";
  api_key = text "k1";
  secret_key = text "s1";
  tg_group_name = text "desk";
  changes = no_changes;
}

abbrev before : Launcher
before = record { websocks = user_data_stream ann ∷ []; released = [] }

upload_starts_streams_example :
    ((upload_handler arena (add_new_host arena accepts) (text "hosts")).response
      ≡ json_success (refused (add_new_host arena accepts) (uploaded ∷ [])))
    × (hosts_of
          (websock_launcher
            (append_list
              (upload_handler arena (add_new_host arena accepts) (text "hosts")).appended
              [])
            before).websocks
        ≡ ann ∷ accepted (add_new_host arena accepts) (uploaded ∷ []))
unfolding arena traverse host_of_json text text_eq string_value lookup
upload_starts_streams_example =
    upload_starts_streams arena accepts (text "hosts") (14 ∷ []) (uploaded ∷ []) before refl refl
