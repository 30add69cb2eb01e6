-- ===== src/Hosts/Launcher.antt =====
-- `process_host_changes` of background_threads.cpp, and the loops that call it.
pub mod Mirror
pub mod Twice
use binance_monitor.Base.{if◌then◌else◌, ◌*◌, List, [], ◌∷◌, ◌++◌}
use binance_monitor.Records.{HostInfo, HostChanged, no_changes, host_removed, tg_group_changed}
use binance_monitor.Stream.{UserDataStream, user_data_stream, run, stop}
use binance_monitor.Hosts.{same_account}

-- The streams that `websocks` holds, and those that only their own handlers still hold.
pub record Launcher : Type 0 where
  pub websocks : List UserDataStream
  pub released : List UserDataStream

-- `std::find_if`, then `stop` and `erase` of what it found, or nothing.
stop_found : HostInfo → List UserDataStream → List UserDataStream × List UserDataStream
stop_found host [] = ([], [])
stop_found host (w ∷ websocks) =
    let (kept, stopped) = stop_found host websocks in
    if same_account host w.host_info then (websocks, stop w ∷ []) else (w ∷ kept, stopped)

regroup_found : HostInfo → List UserDataStream → List UserDataStream
regroup_found host [] = []
regroup_found host (w ∷ websocks) =
    let rest = regroup_found host websocks in
    if same_account host w.host_info
    then record w { host_info = record w.host_info { tg_group_name = host.tg_group_name } }
      ∷ websocks
    else w ∷ rest

pub process_host_changes : HostInfo → Launcher → Launcher
unfolding stop_found regroup_found
process_host_changes host l = elim host.changes [
  | no_changes ↦ record l { websocks = l.websocks ++ run (user_data_stream host) ∷ [] }
  | host_removed ↦
      let (kept, stopped) = stop_found host l.websocks in
      record l { websocks = kept; released = l.released ++ stopped }
  | tg_group_changed ↦ record l { websocks = regroup_found host l.websocks }
]

-- `websock_launcher` over the items that it gets.
pub websock_launcher : List HostInfo → Launcher → Launcher
websock_launcher [] l = l
websock_launcher (item ∷ items) l = websock_launcher items (process_host_changes item l)

-- `launch_websocket_listeners`, which `launch_previous_hosts` calls.
unfoldable pub launch_previous_hosts : List HostInfo → List UserDataStream → List UserDataStream
launch_previous_hosts [] websocks = websocks
launch_previous_hosts (host ∷ hosts) websocks =
    launch_previous_hosts hosts (websocks ++ run (user_data_stream host) ∷ [])
