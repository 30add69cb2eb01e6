-- ===== src/Programs/Uploads.antt =====
-- An upload from the HTTP interface to the streams: upload_handler of session.cpp, add_new_host of
-- database_connector.cpp, the shared container, and the launcher of background_threads.cpp.
use binance_monitor.Base.{◌>>=◌, Text, ◌≡◌, refl, ◌∙◌, Bool, some, List, [], ◌++◌}
use binance_monitor.Records.{HostInfo}
use binance_monitor.Json.{JsonLibrary}
use binance_monitor.Reports.Atomic.{traverse}
use binance_monitor.Database.{host_sql_statement}
use binance_monitor.Containers.{append_list}
use binance_monitor.Session.{host_of_json, json_success, upload_handler}
use binance_monitor.Session.Uploads.{
  accepted, refused, accepted-All, hosts-new, upload_handler-accepted,
}
use binance_monitor.Hosts.Accounts.{IsUnchanged}
use binance_monitor.Hosts.Launcher.{Launcher, websock_launcher}
use binance_monitor.Hosts.Launcher.Mirror.{hosts_of, hosts_of-websock_launcher, apply_changes-new}

module _ (lib : JsonLibrary) (direct_exec : Text → Bool) where
  open lib use {Json, parse, get_array}

  -- `add_new_host`, with the execution of a statement, which fails or not, as a parameter.
  abbrev pub add_new_host : HostInfo → Bool
  add_new_host host_info = direct_exec (host_sql_statement host_info)

  -- An upload of well-formed items: the hosts whose rows the database has taken get a stream each, in their
  -- order, behind the streams that run, once the launcher has taken them from the container; the answer
  -- has the API keys of the others.
  pub upload_starts_streams :
      (body : Text) (items : List Json) (hosts : List HostInfo) (l : Launcher)
      → (parse body >>= get_array) ≡ some items
      → traverse (host_of_json lib add_new_host) items ≡ some hosts
      → ((upload_handler lib add_new_host body).response
          ≡ json_success (refused add_new_host hosts))
        × (hosts_of
              (websock_launcher
                (append_list (upload_handler lib add_new_host body).appended [])
                l).websocks
            ≡ hosts_of l.websocks ++ accepted add_new_host hosts)
  unfolding append_list
  upload_starts_streams body items hosts l parsed well_formed =
      rw (upload_handler-accepted lib add_new_host body items hosts parsed well_formed) (
        refl,
        hosts_of-websock_launcher (accepted add_new_host hosts) l
            ∙ apply_changes-new (accepted add_new_host hosts) (hosts_of l.websocks) (
                accepted-All IsUnchanged add_new_host hosts
                  (hosts-new lib add_new_host items hosts well_formed)),
      )
