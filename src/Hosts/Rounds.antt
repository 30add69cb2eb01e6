-- ===== src/Hosts/Rounds.antt =====
-- The streams and the table of hosts from the start of the program on: the hosts that are launched at
-- the start, any number of rounds of the monitor, and the launcher.
use binance_monitor.Base.{
  Option-cases, All, ℕ, ◌≡◌, refl, sym, ap, ◌∙◌, inl, inr, Option, none, List, [], ◌∷◌, ◌++◌,
  append-nil, append_assoc,
}
use binance_monitor.Records.{HostInfo}
use binance_monitor.Stream.{UserDataStream, user_data_stream, run}
use binance_monitor.Hosts.{
  Monitor, find_host, remaining_hosts, monitor_round, HostRow, get_available_hosts,
}
use binance_monitor.Hosts.Accounts.{IsDistinct, IsUnchanged, find_host-none-cons, find_host-cons}
use binance_monitor.Hosts.Table.{group_of, group_of-monitor_round}
use binance_monitor.Hosts.Launcher.{Launcher, websock_launcher, launch_previous_hosts}
use binance_monitor.Hosts.Launcher.Mirror.{
  hosts_of, hosts_of-append, apply_changes, apply_changes-none, apply_changes-append,
  hosts_of-websock_launcher,
}
use binance_monitor.Hosts.Launcher.Mirror.Round.{
  available-IsUnchanged, Seen-monitor_round, apply_changes-monitor_round,
}

-- The rounds of the monitor: for each the table, and after how many rows the query throws, if it does.
-- The container collects what no launcher has taken yet.
pub monitor_rounds : List (List HostRow × Option ℕ) → Monitor → Monitor
monitor_rounds [] m = m
monitor_rounds ((table, throws_after) ∷ rounds) m =
    let round = monitor_round (get_available_hosts table throws_after) m.previous_hosts in
    monitor_rounds rounds (record {
      previous_hosts = round.previous_hosts;
      host_container = m.host_container ++ round.host_container;
    })

abbrev pub started : List HostRow → Monitor
started table = record { previous_hosts = get_available_hosts table none; host_container = [] }

abbrev pub launched : List HostRow → Launcher
launched table = record {
  websocks = launch_previous_hosts (get_available_hosts table none) [];
  released = [];
}

pub hosts_of-launch_previous_hosts :
    (hosts : List HostInfo) (websocks : List UserDataStream)
    → hosts_of (launch_previous_hosts hosts websocks) ≡ hosts_of websocks ++ hosts
unfolding launch_previous_hosts run
hosts_of-launch_previous_hosts [] websocks = sym (append-nil (hosts_of websocks))
hosts_of-launch_previous_hosts (h ∷ hosts) websocks =
    hosts_of-launch_previous_hosts hosts (websocks ++ run (user_data_stream h) ∷ [])
    ∙ ap (λ (hs : List HostInfo). hs ++ hosts) (hosts_of-append websocks (run (user_data_stream h)))
    ∙ append_assoc (hosts_of websocks) (h ∷ []) hosts

find_host-remaining_hosts :
    (new_hosts hosts : List HostInfo) (y : HostInfo)
    → find_host hosts y ≡ none
    → find_host (remaining_hosts new_hosts hosts) y ≡ none
unfolding remaining_hosts
find_host-remaining_hosts new_hosts [] y e = e
find_host-remaining_hosts new_hosts (h ∷ hosts) y e =
    let (other, later) = find_host-none-cons h hosts y e in
    elim (Option-cases (find_host new_hosts h)) [
      | inl gone ↦ rw (remaining_hosts, gone) (find_host-remaining_hosts new_hosts hosts y later)
      | inr (found, there) ↦
          rw (remaining_hosts, there)
            (rw (find_host-cons h (remaining_hosts new_hosts hosts) y, other)
              (find_host-remaining_hosts new_hosts hosts y later))
    ]

IsDistinct-remaining_hosts :
    (new_hosts hosts : List HostInfo)
    → IsDistinct hosts
    → IsDistinct (remaining_hosts new_hosts hosts)
unfolding remaining_hosts
IsDistinct-remaining_hosts new_hosts [] d = tt
IsDistinct-remaining_hosts new_hosts (h ∷ hosts) (new, d) =
    elim (Option-cases (find_host new_hosts h)) [
      | inl gone ↦ rw (remaining_hosts, gone) (IsDistinct-remaining_hosts new_hosts hosts d)
      | inr (found, there) ↦
          rw (remaining_hosts, there)
            (
              find_host-remaining_hosts new_hosts hosts h new,
              IsDistinct-remaining_hosts new_hosts hosts d,
            )
    ]

IsDistinct-monitor_round :
    (new_hosts previous : List HostInfo)
    → IsDistinct previous
    → All IsUnchanged new_hosts
    → IsDistinct (monitor_round new_hosts previous).previous_hosts
unfolding monitor_round
IsDistinct-monitor_round new_hosts previous d unchanged =
    IsDistinct-remaining_hosts new_hosts _
      (Seen-monitor_round previous new_hosts d unchanged).distinct

-- The monitor's hosts are of different accounts, and follow from the first ones by the changes in the
-- container.
record Follows (first : List HostInfo) (m : Monitor) : Type 0 where
  changed : apply_changes m.host_container first ≡ m.previous_hosts
  distinct : IsDistinct m.previous_hosts

monitor_rounds-Follows :
    (first : List HostInfo) (rounds : List (List HostRow × Option ℕ)) (m : Monitor)
    → Follows first m
    → Follows first (monitor_rounds rounds m)
unfolding monitor_rounds
monitor_rounds-Follows first [] m f = f
monitor_rounds-Follows first ((table, throws_after) ∷ rounds) m f =
    let new_hosts = get_available_hosts table throws_after in
    let unchanged = available-IsUnchanged table throws_after in
    monitor_rounds-Follows first rounds _ (record {
      changed =
          apply_changes-append m.host_container
            (monitor_round new_hosts m.previous_hosts).host_container first
          ∙ ap (apply_changes (monitor_round new_hosts m.previous_hosts).host_container) f.changed
          ∙ apply_changes-monitor_round m.previous_hosts new_hosts f.distinct unchanged;
      distinct = IsDistinct-monitor_round new_hosts m.previous_hosts f.distinct unchanged;
    })

monitor_rounds-append :
    (rounds more : List (List HostRow × Option ℕ)) (m : Monitor)
    → monitor_rounds (rounds ++ more) m ≡ monitor_rounds more (monitor_rounds rounds m)
unfolding monitor_rounds
monitor_rounds-append [] more m = refl
monitor_rounds-append ((table, throws_after) ∷ rounds) more m = monitor_rounds-append rounds more _

-- From the start of the program on, after any number of rounds, in which the table may be anything and
-- queries may throw, and a last one that reads the whole table: once the launcher has worked through the
-- container, the streams are those of the accounts of the table, with their groups. The launch at the
-- start and the monitor read the same table first, and all its hosts are launched before the launcher takes
-- an item. The rows of the table at the start, and those of the last one, are of different accounts.
pub streams_follow_table :
    (first : List HostRow) (rounds : List (List HostRow × Option ℕ)) (table : List HostRow)
    (host : HostInfo)
    → IsDistinct (get_available_hosts first none)
    → IsDistinct (get_available_hosts table none)
    → group_of
        (hosts_of
          (websock_launcher
            (monitor_rounds (rounds ++ (table, none) ∷ []) (started first)).host_container
            (launched first)).websocks)
        host
      ≡ group_of (get_available_hosts table none) host
unfolding monitor_rounds
streams_follow_table first rounds table host distinct rows =
    let hosts = get_available_hosts first none in
    let end = monitor_rounds (rounds ++ (table, none) ∷ []) (started first) in
    let all_rounds =
      monitor_rounds-Follows hosts (rounds ++ (table, none) ∷ []) (started first)
        (record { changed = apply_changes-none hosts; distinct = distinct }) in
    ap (λ hs. group_of hs host)
      (hosts_of-websock_launcher end.host_container (launched first)
        ∙ ap (apply_changes end.host_container) (hosts_of-launch_previous_hosts hosts [])
        ∙ all_rounds.changed
        ∙ ap (λ (m : Monitor). m.previous_hosts)
            (monitor_rounds-append rounds ((table, none) ∷ []) (started first)))
    ∙ group_of-monitor_round (get_available_hosts table none)
        (monitor_rounds rounds (started first)).previous_hosts host rows
