-- ===== src/Database/Connection/Selection.antt =====
-- Which entry of the configuration file is taken.
use binance_monitor.Base.{
  All, Text, text, Map, lookup, ◌≡◌, refl, true, false, some, List, [], ◌∷◌, ◌++◌,
}
use binance_monitor.Json.{JsonLibrary}
use binance_monitor.Database.Connection.{has_type, config_of, find_config, parse_config_file}

module _ (lib : JsonLibrary) where
  open lib use {Json, get_object, get_array}

  -- An object of another type, or of none.
  abbrev pub IsOther : Text → Json → Type 0
  IsOther config_name entry =
      (o : Map Json) × (get_object entry ≡ some o) × (has_type lib config_name o ≡ false)

  find_config-skips :
      (file : Map Json) (config_name : Text) (front rest : List Json)
      → All (IsOther config_name) front
      → find_config lib file config_name (front ++ rest) ≡ find_config lib file config_name rest
  unfolding find_config
  find_config-skips file name [] rest h = refl
  find_config-skips file name (entry ∷ front) rest ((o, is_object, other), h) =
      rw (is_object, other) (find_config-skips file name front rest h)

  -- The first entry whose type is that of the launch gives the configuration, or the failure, whatever
  -- entries follow. The entries before it are objects of other types.
  pub parse_config_file-first :
      (file : Map Json) (config_name : Text) (list entry : Json) (o : Map Json)
      (front back : List Json)
      → lookup (text "database") file ≡ some list
      → get_array list ≡ some (front ++ entry ∷ back)
      → All (IsOther config_name) front
      → get_object entry ≡ some o
      → has_type lib config_name o ≡ true
      → parse_config_file lib (some file) config_name ≡ config_of lib file o
  unfolding parse_config_file find_config
  parse_config_file-first file name list entry o front back found items others is_object same =
      rw (found, items, find_config-skips file name front (entry ∷ back) others)
        (rw (find_config, is_object, same) refl)
