-- ===== src/Programs/Start.antt =====
-- What runs once `main` of binance_orders has come to its event loop, and when it comes there.
use binance_monitor.Base.{
  Option-cases, Text, ◌≡◌, refl, sym, ap, ◌∙◌, subst, ◌≢◌, inl, inr, Bool, true, false, Option,
  some, [], ◌∷◌, arith,
}
use binance_monitor.Json.{JsonLibrary}
use binance_monitor.Session.{Response}
use binance_monitor.Hosts.{get_available_hosts}
use binance_monitor.Hosts.Rounds.{hosts_of-launch_previous_hosts}
use binance_monitor.Hosts.Launcher.Mirror.{hosts_of}
use binance_monitor.Database.Connection.{
  DbConfig, DatabaseConnector, is_set, parse_config_file, configured, connect, login_str,
}
use binance_monitor.Database.Connection.Login.{logged_in, connect-configured, connect-some}
use binance_monitor.Server.{server, run}
use binance_monitor.Programs.{
  CommandLineInterface, Environment, Program, running, main, start_server, start_threads,
}

module _ (lib : JsonLibrary) (rlogon : Text → Bool) (Request : Type 0)
    (handle_requests : Request → Option Response) where
  -- The connector is logged in, once, with the names of the configuration; the server accepts; and
  -- there is a stream for each host that was read.
  pub record IsUp (e : Environment lib rlogon Request handle_requests) (c : DbConfig)
      (p : Program lib rlogon Request handle_requests) : Type 0 where
    token : p.bot_token ≡ c.bot_token
    running : p.connector.is_running ≡ true
    logins : p.connector.logins ≡ login_str c ∷ []
    accepting : p.server_instance.accepting ≡ true
    streams : hosts_of p.websocks ≡ get_available_hosts e.table e.throws_after

  abbrev pub started :
      Environment lib rlogon Request handle_requests
      → DbConfig
      → Program lib rlogon Request handle_requests
  started e c =
      start_threads lib rlogon Request handle_requests e c.bot_token (logged_in c)
        (run Request handle_requests (server Request handle_requests false false false false))

  started-IsUp :
      (e : Environment lib rlogon Request handle_requests) (c : DbConfig) → IsUp e c (started e c)
  unfolding start_threads server run configured login_str
  started-IsUp e c = record {
    token = refl;
    running = refl;
    logins = refl;
    accepting = refl;
    streams = hosts_of-launch_previous_hosts (get_available_hosts e.table e.throws_after) [];
  }

  start_server-running :
      (e : Environment lib rlogon Request handle_requests) (c : DbConfig)
      (p : Program lib rlogon Request handle_requests)
      → start_server lib rlogon Request handle_requests e c.bot_token (logged_in c) ≡ running p
      → p ≡ started e c
  unfolding start_server server
  start_server-running e c p runs = ground arith

  main_connected :
      (args : CommandLineInterface) (e : Environment lib rlogon Request handle_requests)
      (c : DbConfig) (p : Program lib rlogon Request handle_requests)
      → parse_config_file lib e.file args.launch_type ≡ some c
      → main lib rlogon Request handle_requests args e ≡ running p
      → (connector : DatabaseConnector) × (connect rlogon (configured c) ≡ some (true, connector))
        × (start_server lib rlogon Request handle_requests e c.bot_token connector ≡ running p)
  unfolding main
  main_connected args e c p found runs = elim (Option-cases (connect rlogon (configured c))) [
    | inl threw ↦ ground arith
    | inr ((true, connector), login) ↦ (connector, login, ground arith)
    | inr ((false, connector), login) ↦ ground arith
  ]

  pub main-running-started :
      (args : CommandLineInterface) (e : Environment lib rlogon Request handle_requests)
      (p : Program lib rlogon Request handle_requests)
      → main lib rlogon Request handle_requests args e ≡ running p
      → (c : DbConfig) × (parse_config_file lib e.file args.launch_type ≡ some c)
        × (rlogon (login_str c) ≡ true)
        × (p ≡ started e c)
  unfolding main
  main-running-started args e p runs =
      elim (Option-cases (parse_config_file lib e.file args.launch_type)) [
        | inl not_found ↦ ground arith
        | inr (c, found) ↦
            let (connector, login, rest) = main_connected args e c p found runs in
            let (accepted, same) = connect-some rlogon c connector login in
            (
              c,
              found,
              accepted,
              start_server-running e c p (
                  ap (start_server lib rlogon Request handle_requests e c.bot_token) (sym same)
                  ∙ rest),
            )
      ]

  pub main-started :
      (args : CommandLineInterface) (e : Environment lib rlogon Request handle_requests)
      (c : DbConfig)
      → parse_config_file lib e.file args.launch_type ≡ some c
      → is_set (configured c).db_config ≡ true
      → rlogon (login_str c) ≡ true
      → e.bad_address ≡ false
      → e.not_opened ≡ false
      → e.not_set ≡ false
      → e.not_bound ≡ false
      → e.not_listening ≡ false
      → main lib rlogon Request handle_requests args e ≡ running (started e c)
  unfolding main start_server server
  main-started args e c found complete accepted address opened option bound listening =
      let login = connect-configured rlogon c complete accepted in
      rw (main, found, login, start_server, address, opened, option, bound, listening) refl

  -- `main` comes to its event loop only with a configuration for the type of the launch and after a login
  -- that the database has accepted; then everything is up.
  pub main-running :
      (args : CommandLineInterface) (e : Environment lib rlogon Request handle_requests)
      (p : Program lib rlogon Request handle_requests)
      → main lib rlogon Request handle_requests args e ≡ running p
      → (c : DbConfig) × (parse_config_file lib e.file args.launch_type ≡ some c)
        × (rlogon (login_str c) ≡ true)
        × IsUp e c p
  unfolding main start_server start_threads server run configured login_str
  main-running args e p runs =
      let (c, found, accepted, same) = main-running-started args e p runs in
      (c, found, accepted, subst (IsUp e c) (sym same) (started-IsUp e c))

  -- Where a host is there at the start, no worker is created: the main thread alone runs the handlers.
  pub no_workers :
      (args : CommandLineInterface) (e : Environment lib rlogon Request handle_requests)
      (p : Program lib rlogon Request handle_requests)
      → main lib rlogon Request handle_requests args e ≡ running p
      → get_available_hosts e.table e.throws_after ≢ []
      → p.workers ≡ 0
  unfolding main start_server start_threads server run configured login_str
  no_workers args e p runs some_host =
      let (c, found, accepted, same) = main-running-started args e p runs in
      ap (λ (q : Program lib rlogon Request handle_requests). q.workers) same ∙ ground arith
