-- ===== src/Database/Connection.antt =====
-- The configuration and the connection of binance_orders/src/database_connector.cpp, and what keeps the
-- connection alive. The file is read by `read_object_json_file`, whose result is an argument here.
pub mod Selection
pub mod Alive
pub mod Login
use binance_monitor.Base.{
  if◌then◌else◌, ◌>>=◌, Text, text, text_eq, is_empty, Map, lookup, ◌*◌, ◌/◌, Bool, true, false,
  not, ◌&&◌, Option, none, some, List, [], ◌∷◌, ◌++◌,
}
use binance_monitor.Json.{JsonLibrary, string_value}
use binance_monitor.Database.{concat}

pub record DbConfig : Type 0 where
  pub db_username : Text
  pub db_password : Text
  pub db_dns : Text
  pub bot_token : Text

-- `operator bool`
unfoldable pub is_set : DbConfig → Bool
is_set c = not (
    is_empty c.db_username
    && (is_empty c.db_password && (is_empty c.db_dns && is_empty c.bot_token)))

module _ (lib : JsonLibrary) where
  open lib use {Json, get_object, get_array, get_string}

  -- A JSON value equals a text.
  unfoldable pub equals_text : Json → Text → Bool
  equals_text value name = elim (get_string value) [ none ↦ false | some s ↦ text_eq s name ]

  -- The members of the entry that was found; the token stands outside of it.
  unfoldable pub config_of : Map Json → Map Json → Option DbConfig
  config_of file_content temp_object = do
    db_data ← lookup (text "data") temp_object >>= get_object
    db_username ← string_value lib db_data (text "username")
    db_password ← string_value lib db_data (text "password")
    db_dns ← string_value lib db_data (text "db_dns")
    bot_token ← string_value lib file_content (text "bot_token")
    some (record {
      db_username = db_username;
      db_password = db_password;
      db_dns = db_dns;
      bot_token = bot_token;
    })

  unfoldable pub has_type : Text → Map Json → Bool
  unfolding equals_text
  has_type config_name temp_object = elim (lookup (text "type") temp_object) [
    | none ↦ false
    | some type ↦ equals_text type config_name
  ]

  -- The loop; an exception, `none`, is caught outside of it.
  unfoldable pub find_config : Map Json → Text → List Json → Option DbConfig
  unfolding has_type config_of
  find_config file_content config_name [] = none
  find_config file_content config_name (config_data ∷ database_list) =
      elim (get_object config_data) [
        | none ↦ none
        | some temp_object ↦ elim (has_type config_name temp_object) [
          | true ↦ config_of file_content temp_object
          | false ↦ find_config file_content config_name database_list
        ]
      ]

  unfoldable pub parse_config_file : Option (Map Json) → Text → Option DbConfig
  unfolding find_config
  parse_config_file none config_name = none
  parse_config_file (some file_content) config_name =
      lookup (text "database") file_content >>= get_array >>= find_config file_content config_name

-- `logins` lists the texts that `rlogon` was called with.
pub record DatabaseConnector : Type 0 where
  pub db_config : DbConfig
  pub is_running : Bool
  pub logins : List Text

unfoldable pub login_str : DbConfig → Text
unfolding concat
login_str c = concat (c.db_username ∷ text "/" ∷ c.db_password ∷ text "@" ∷ c.db_dns ∷ [])

-- `set_username`, `set_password` and `set_database_name`, as `main` calls them on the connector that
-- `s_get_db_connector` has made.
unfoldable pub configured : DbConfig → DatabaseConnector
configured c = record { db_config = record c { bot_token = [] }; is_running = false; logins = [] }

module _ (rlogon : Text → Bool) where
  -- `none` is the exception "configuration incomplete".
  unfoldable pub connect : DatabaseConnector → Option (Bool × DatabaseConnector)
  unfolding is_set login_str
  connect s =
      if not (is_set s.db_config)
      then none
      else if s.is_running
      then some (true, s)
      else if rlogon (login_str s.db_config)
      then some
          (true, record s { is_running = true; logins = s.logins ++ login_str s.db_config ∷ [] })
      else some (false, record s { logins = s.logins ++ login_str s.db_config ∷ [] })

-- A round of the thread of `keep_sql_server_busy`: whether "select 1" succeeds, and whether logging in
-- again does where it fails. An exception of `rlogon` leaves the thread, which ends the program: `none`.
pub keep_busy_round : (selected logged_in : Bool) → DatabaseConnector → Option DatabaseConnector
unfolding login_str
keep_busy_round selected logged_in s =
    if selected
    then some s
    else let again = record s { logins = s.logins ++ login_str s.db_config ∷ [] } in
      if logged_in then some again else none

pub keep_sql_server_busy : List (Bool × Bool) → DatabaseConnector → Option DatabaseConnector
unfolding keep_busy_round
keep_sql_server_busy [] s = some s
keep_sql_server_busy ((selected, logged_in) ∷ rounds) s =
    keep_busy_round selected logged_in s >>= keep_sql_server_busy rounds
