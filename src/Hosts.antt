-- ===== src/Hosts.antt =====
-- The threads of binance_orders/src/background_threads.cpp that follow the table of hosts:
-- `monitor_database_host_table_changes`, which compares the table with what it saw last, and
-- `websock_launcher`, which starts, changes and stops one stream for each host.
mod Examples
pub mod Launcher
pub mod Table
pub mod Accounts
pub mod Streams
pub mod Rounds
use binance_monitor.Base.{
  if◌then◌else◌, take, Text, text_eq, ℕ, ◌*◌, Bool, not, ◌&&◌, Option, none, some, List, [], ◌∷◌,
  ◌++◌, map,
}
use binance_monitor.Records.{HostInfo, HostChanged, no_changes, host_removed, tg_group_changed}
use binance_monitor.Stream.{UserDataStream, user_data_stream, run, stop}

-- `operator==` of `host_info_t`
unfoldable pub same_account : HostInfo → HostInfo → Bool
same_account first second =
    text_eq first.account_alias second.account_alias
    && (text_eq first.api_key second.api_key && text_eq first.secret_key second.secret_key)

pub changes_made_to_host : HostInfo → HostInfo → Bool
changes_made_to_host original new_host = not (
    text_eq original.tg_group_name new_host.tg_group_name
    && text_eq original.account_alias new_host.account_alias)

-- `std::find` over a list of hosts
unfoldable pub find_host : List HostInfo → HostInfo → Option HostInfo
unfolding same_account
find_host [] host = none
find_host (h ∷ hosts) host = if same_account h host then some h else find_host hosts host

-- The assignments through the iterator that `std::find` gave.
pub assign_found : HostInfo → List HostInfo → List HostInfo
unfolding same_account
assign_found new_host [] = []
assign_found new_host (h ∷ hosts) =
    let rest = assign_found new_host hosts in
    if same_account h new_host
    then record h { tg_group_name = new_host.tg_group_name; account_alias = new_host.account_alias }
      ∷ hosts
    else h ∷ rest

-- The previous hosts, and what the round has given to `host_container`.
pub record Monitor : Type 0 where
  pub previous_hosts : List HostInfo
  pub host_container : List HostInfo

-- One iteration of the loop over the new hosts.
notice_host : HostInfo → Monitor → Monitor
notice_host new_host m = elim (find_host m.previous_hosts new_host) [
  | none ↦ record {
    previous_hosts = m.previous_hosts ++ new_host ∷ [];
    host_container = m.host_container ++ new_host ∷ [];
  }
  | some old_host ↦
      if changes_made_to_host old_host new_host
      then record {
        previous_hosts = assign_found new_host m.previous_hosts;
        host_container = m.host_container ++ record new_host { changes = tg_group_changed } ∷ [];
      }
      else m
]

pub notice_hosts : List HostInfo → Monitor → Monitor
notice_hosts [] m = m
notice_hosts (h ∷ hosts) m = notice_hosts hosts (notice_host h m)

-- The loop that erases: what it leaves, and what it gives to `host_container`.
remaining_hosts : List HostInfo → List HostInfo → List HostInfo
remaining_hosts new_hosts [] = []
remaining_hosts new_hosts (h ∷ hosts) =
    let rest = remaining_hosts new_hosts hosts in
    elim (find_host new_hosts h) [ none ↦ rest | some _ ↦ h ∷ rest ]

removals : List HostInfo → List HostInfo → List HostInfo
removals new_hosts [] = []
removals new_hosts (h ∷ hosts) =
    let rest = removals new_hosts hosts in
    elim (find_host new_hosts h) [
      | none ↦ record h { changes = host_removed } ∷ rest
      | some _ ↦ rest
    ]

-- One round of `monitor_database_host_table_changes` over what the table holds now.
pub monitor_round : List HostInfo → List HostInfo → Monitor
unfolding notice_hosts remaining_hosts removals
monitor_round new_hosts previous =
    let seen = notice_hosts new_hosts (record { previous_hosts = previous; host_container = [] }) in
    record {
      previous_hosts = remaining_hosts new_hosts seen.previous_hosts;
      host_container = seen.host_container ++ removals new_hosts seen.previous_hosts;
    }

-- A row of the table: alias, api_key, secret_key and tg_group.
pub record HostRow : Type 0 where
  pub alias : Text
  pub api_key : Text
  pub secret_key : Text
  pub tg_group : Text

unfoldable pub host_of_row : HostRow → HostInfo
host_of_row row = record {
  account_alias = row.alias;
  api_key = row.api_key;
  secret_key = row.secret_key;
  tg_group_name = row.tg_group;
  changes = no_changes;
}

-- `get_available_hosts`. Where the query throws, after some number of rows, the exception is caught
-- and the rows read so far are returned.
unfoldable pub get_available_hosts :
    (table : List HostRow) (throws_after : Option ℕ) → List HostInfo
unfolding host_of_row
get_available_hosts table none = map host_of_row table
get_available_hosts table (some n) = map host_of_row (take n table)
