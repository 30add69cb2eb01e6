-- ===== src/Stream/Machine/Tags.antt =====
-- What a stream of user_data_stream.cpp appends to the shared container, and its host.
use binance_monitor.Base.{All, All-append, ◌≡◌, refl, some, ◌++◌, arith}
use binance_monitor.Records.{HostInfo}
use binance_monitor.Json.{JsonLibrary}
use binance_monitor.Reports.{interpret_generic_messages}
use binance_monitor.Reports.Atomic.{IsTagged, interpret_generic_messages-IsTagged}
use binance_monitor.Stream.{
  UserDataStream, Operation, Completion, user_data_stream, run, stop, close_frame, rest_resolve,
  ws_read,
}
use binance_monitor.Stream.Machine.{complete, Step, completes, closes, stops, Reach, here, next}

module _ (lib : JsonLibrary) where
  -- The host is the one given, and what is appended is tagged with it.
  pub record IsFor (host : HostInfo) (s : UserDataStream) : Type 0 where
    pub host_info : s.host_info ≡ host
    pub tagged : All (IsTagged lib host) s.appended

  on_message-IsFor :
      (host : HostInfo) (c : Completion) (s t : UserDataStream)
      → IsFor host s
      → complete lib ws_read c s ≡ some t
      → IsFor host t
  unfolding complete
  on_message-IsFor host c s t h e = record {
    host_info = ground arith;
    tagged = ground (
      arith,
      All-append (IsTagged lib host) s.appended (interpret_generic_messages lib host c.body)
          h.tagged (interpret_generic_messages-IsTagged lib host c.body),
    );
  }

  complete-IsFor :
      (host : HostInfo) (op : Operation) (c : Completion) (s t : UserDataStream)
      → IsFor host s
      → complete lib op c s ≡ some t
      → IsFor host t
  complete-IsFor host ws_read c s t h e = on_message-IsFor host c s t h e
  complete-IsFor host rest_resolve c s t h e = unfold complete in ground arith
  complete-IsFor host _ c s t h e = unfold complete in ground arith

  Step-IsFor : {host : HostInfo} {s t : UserDataStream} → IsFor host s → Step lib s t → IsFor host t
  unfolding stop close_frame
  Step-IsFor {host} {s} {t} h (completes before after op c e r) =
      complete-IsFor host op c (record s { pending = before ++ after }) t
        (record { host_info = h.host_info; tagged = h.tagged }) r
  Step-IsFor {host} {s} {t} h (closes _ _ _ e) = ground arith
  Step-IsFor {host} {s} {t} h (stops e) = ground arith

  Reach-IsFor :
      {host : HostInfo} {s t : UserDataStream} → IsFor host s → Reach lib s t → IsFor host t
  Reach-IsFor h here = h
  Reach-IsFor h (next r st) = Step-IsFor (Reach-IsFor h r) st

  -- Whatever the running stream of a host receives, in whatever order its operations end, all that it
  -- appends is tagged with the alias and the group of that host.
  pub stream_tags :
      (host : HostInfo) (t : UserDataStream)
      → Reach lib (run (user_data_stream host)) t
      → All (IsTagged lib host) t.appended
  unfolding run
  stream_tags host t r = (Reach-IsFor (record { host_info = refl; tagged = tt }) r).tagged
