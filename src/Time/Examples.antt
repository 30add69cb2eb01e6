-- ===== src/Time/Examples.antt =====
-- Examples: a leap day.
use binance_monitor.Base.{Text, ◌≡◌, some, arith}
use binance_monitor.Time.{timet_to_string}
use binance_monitor.Time.RoundTrip.{read_time, read_time-timet_to_string}

read_time-timet_to_string_example :
    (s : Text) × (timet_to_string 1582977845 ≡ some s) × (read_time s ≡ 1582977845)
read_time-timet_to_string_example = read_time-timet_to_string 1582977845 (omega arith)
