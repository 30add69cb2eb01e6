-- ===== src/Programs/Follow.antt =====
-- The streams of the running program and the table of hosts.
use binance_monitor.Base.{Text, Bool, Option, []}
use binance_monitor.Json.{JsonLibrary}
use binance_monitor.Session.{Response}
use binance_monitor.Hosts.Launcher.{Launcher}
use binance_monitor.Programs.{Program}

module _ (lib : JsonLibrary) (rlogon : Text → Bool) (Request : Type 0)
    (handle_requests : Request → Option Response) where
  -- What the thread `websock_launcher` starts with.
  abbrev pub launcher_of : Program lib rlogon Request handle_requests → Launcher
  launcher_of p = record { websocks = p.websocks; released = [] }
