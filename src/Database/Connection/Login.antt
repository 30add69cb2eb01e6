-- ===== src/Database/Connection/Login.antt =====
-- The first login, with which the program starts.
use binance_monitor.Base.{set, Text, ◌≡◌, refl, Bool, true, some, [], ◌∷◌, arith}
use binance_monitor.Database.Connection.{
  DbConfig, DatabaseConnector, is_set, configured, connect, login_str,
}

abbrev pub logged_in : DbConfig → DatabaseConnector
logged_in c = record (configured c) { is_running = true; logins = login_str c ∷ [] }

module _ (rlogon : Text → Bool) where
  pub connect-configured :
      (c : DbConfig)
      → is_set (configured c).db_config ≡ true
      → rlogon (login_str c) ≡ true
      → connect rlogon (configured c) ≡ some (true, logged_in c)
  unfolding connect configured login_str
  connect-configured c set accepted = rw (set, accepted) refl

  pub connect-some :
      (c : DbConfig) (s : DatabaseConnector)
      → connect rlogon (configured c) ≡ some (true, s)
      → (rlogon (login_str c) ≡ true) × (s ≡ logged_in c)
  unfolding connect configured login_str
  connect-some c s e = ground arith
