-- ===== src/Database/Connection/Alive.antt =====
-- What connects, and what ends the program.
use binance_monitor.Base.{
  if◌then◌else◌, Text, ℕ, suc, ◌≡◌, ◌↔◌, Bool, true, ◌&&◌, ◌||◌, none, List, [], ◌∷◌, arith,
}
use binance_monitor.Database.Connection.{is_set, DatabaseConnector, connect}

-- The check for an incomplete configuration refuses one only if all four members are empty.
pub connect-eq-none :
    (rlogon : Text → Bool) (s : DatabaseConnector)
    → (connect rlogon s ≡ none) ↔ (
        (s.db_config.db_username ≡ [])
        × (s.db_config.db_password ≡ [])
        × (s.db_config.db_dns ≡ [])
        × (s.db_config.bot_token ≡ []))
unfolding connect is_set
connect-eq-none rlogon s = ground arith

abbrev pub all_survived : List (Bool × Bool) → Bool
all_survived [] = true
all_survived ((selected, logged_in) ∷ rounds) = (selected || logged_in) && all_survived rounds

abbrev pub failures : List (Bool × Bool) → ℕ
failures [] = 0
failures ((selected, logged_in) ∷ rounds) =
    let later = failures rounds in if selected then later else suc later
