-- ===== src/Stream/Machine/Stopped.antt =====
-- Runs of user_data_stream.cpp after `stop`.
use binance_monitor.Base.{ℕ, ◌+◌, ◌≤◌, ◌≡◌, true, List, [], ◌∷◌}
use binance_monitor.Stream.{UserDataStream, Operation, rest_resolve, ws_resolve}

-- Every connection begins by resolving a name.
abbrev pub is_resolve : Operation → ℕ
is_resolve rest_resolve = 1
is_resolve ws_resolve = 1
is_resolve _ = 0

abbrev pub resolves : List Operation → ℕ
resolves [] = 0
resolves (op ∷ ops) = is_resolve op + resolves ops

-- A stopped object stays stopped, and resolves no more names than are under way.
pub record NoMore (s t : UserDataStream) : Type 0 where
  pub stopped : t.stopped ≡ true
  pub resolves_le : resolves t.pending ≤ resolves s.pending
