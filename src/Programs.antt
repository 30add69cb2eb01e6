-- ===== src/Programs.antt =====
-- binance_orders/main.cpp: what the program starts, and in which order.
pub mod Start
pub mod Follow
pub mod Uploads
mod Examples
use binance_monitor.Base.{
  ltb, if◌then◌else◌, Text, Map, ℕ, ◌-◌, ◌*◌, Bool, Option, none, some, List, [], ◌∷◌,
}
use binance_monitor.Json.{JsonLibrary}
use binance_monitor.Session.{Response}
use binance_monitor.Stream.{UserDataStream}
use binance_monitor.Hosts.{HostRow, get_available_hosts}
use binance_monitor.Hosts.Launcher.{launch_previous_hosts}
use binance_monitor.Database.Connection.{
  DbConfig, DatabaseConnector, parse_config_file, configured, connect,
}
use binance_monitor.Server.{Server, server, run}

-- The command line: the port and the address stand in the answers of the environment below.
pub record CommandLineInterface : Type 0 where
  pub launch_type : Text

pub data Thread : Type 0 where
  websock_launcher persistent_orders_saver monitor_database_host_table_changes : Thread

-- `thread_count` is an `unsigned int`; the subtraction stands where it is more than three.
pub reserved_thread_count : ℕ → ℕ
reserved_thread_count thread_count = if ltb 3 thread_count then thread_count - 3 else thread_count

module _ (lib : JsonLibrary) (rlogon : Text → Bool) (Request : Type 0)
    (handle_requests : Request → Option Response) where
  open lib use {Json}

  -- What the program is given: what the file of the configuration holds, whether `make_address` throws,
  -- which step of opening the acceptor fails, the table of hosts and after how many rows its query
  -- throws, and the number of hardware threads.
  pub record Environment : Type 0 where
    pub file : Option (Map Json)
    pub bad_address : Bool
    pub not_opened : Bool
    pub not_set : Bool
    pub not_bound : Bool
    pub not_listening : Bool
    pub table : List HostRow
    pub throws_after : Option ℕ
    pub hardware_concurrency : ℕ

  -- A program that runs: `workers` counts the threads that run the `io_context` beside the main one.
  pub record Program : Type 0 where
    pub bot_token : Text
    pub connector : DatabaseConnector
    pub server_instance : Server Request handle_requests
    pub threads : List Thread
    pub websocks : List UserDataStream
    pub workers : ℕ

  -- EXIT_FAILURE, an exception that leaves `main`, or the main thread in `io_context.run()`.
  pub data Outcome : Type 0 where
    exit_failure uncaught : Outcome
    running : Program → Outcome

  -- The three detached threads, `launch_previous_hosts` and the workers. Where there are hosts,
  -- `launch_websocket_listeners` runs the `io_context`, which has work as long as the server accepts,
  -- so that the lines behind it are not reached.
  pub start_threads :
      Environment → Text → DatabaseConnector → Server Request handle_requests → Program
  start_threads e bot_token connector server_instance =
      let previous_hosts = get_available_hosts e.table e.throws_after in
      record {
        bot_token = bot_token;
        connector = connector;
        server_instance = server_instance;
        threads =
            websock_launcher ∷ persistent_orders_saver ∷ monitor_database_host_table_changes ∷ [];
        websocks = launch_previous_hosts previous_hosts [];
        workers = elim previous_hosts [
          | [] ↦ reserved_thread_count e.hardware_concurrency
          | h ∷ hosts ↦ 0
        ];
      }

  start_server : Environment → Text → DatabaseConnector → Outcome
  unfolding start_threads
  start_server e bot_token connector =
      if e.bad_address
      then uncaught
      else let made =
          server Request handle_requests e.not_opened e.not_set e.not_bound e.not_listening in
        if made.is_open
        then running (start_threads e bot_token connector (run Request handle_requests made))
        else exit_failure

  pub main : CommandLineInterface → Environment → Outcome
  unfolding start_server
  main args e = elim (parse_config_file lib e.file args.launch_type) [
    | none ↦ exit_failure
    | some software_config ↦ elim (connect rlogon (configured software_config)) [
      | none ↦ uncaught
      | some (connected, connector) ↦
          if connected then start_server e software_config.bot_token connector else exit_failure
    ]
  ]
