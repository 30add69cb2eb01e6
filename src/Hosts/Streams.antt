-- ===== src/Hosts/Streams.antt =====
-- The streams and the table of hosts, end to end: one round of the monitor, then the launcher.
use binance_monitor.Base.{◌≡◌, ap, ◌∙◌, none, List}
use binance_monitor.Records.{HostInfo}
use binance_monitor.Hosts.{monitor_round, HostRow, get_available_hosts}
use binance_monitor.Hosts.Accounts.{IsDistinct}
use binance_monitor.Hosts.Table.{group_of, group_of-monitor_round}
use binance_monitor.Hosts.Launcher.{Launcher, websock_launcher}
use binance_monitor.Hosts.Launcher.Mirror.{hosts_of}
use binance_monitor.Hosts.Launcher.Mirror.Round.{launcher_mirrors_monitor}

-- After the monitor has read the whole table, whose rows are of different accounts, and the launcher
-- has worked through the container, the streams are those of the accounts of the table, with their
-- groups. Before, the streams were those of the monitor's previous hosts, of different accounts.
stream_groups :
    (table : List HostRow) (previous : List HostInfo) (l : Launcher) (host : HostInfo)
    → IsDistinct previous
    → hosts_of l.websocks ≡ previous
    → IsDistinct (get_available_hosts table none)
    → group_of
        (hosts_of
          (websock_launcher
            (monitor_round (get_available_hosts table none) previous).host_container
            l).websocks)
        host
      ≡ group_of (get_available_hosts table none) host
stream_groups table previous l host distinct same rows =
    ap (λ hosts. group_of hosts host) (launcher_mirrors_monitor table none previous l distinct same)
    ∙ group_of-monitor_round (get_available_hosts table none) previous host rows
