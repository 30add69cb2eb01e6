-- ===== src/Json.antt =====
-- nlohmann::json, which the program only calls, as an interface, and `get_value` of
-- common/json_utils.hpp. A `get` or `at` that throws is `none`.
pub mod Arena
use binance_monitor.Base.{◌>>=◌, Text, ℤ, Map, lookup, ◌*◌, Bool, Option, List}

pub record JsonLibrary : Type 1 where
  pub Json : Type 0
  pub parse : Text → Option Json
  pub get_object : Json → Option (Map Json)
  pub get_array : Json → Option (List Json)
  pub get_string : Json → Option Text
  pub get_integer : Json → Option ℤ
  pub get_boolean : Json → Option Bool
  pub is_string : Json → Bool
  pub is_number : Json → Bool
  -- `std::to_string(j.get<json::number_float_t>())`
  pub float_text : Json → Option Text

module _ (lib : JsonLibrary) where
  open lib use {Json, get_string, get_integer}

  -- `get_value<json::string_t>` and `get_value<json::number_integer_t>`
  unfoldable pub string_value : Map Json → Text → Option Text
  string_value object key = lookup key object >>= get_string

  pub integer_value : Map Json → Text → Option ℤ
  integer_value object key = lookup key object >>= get_integer
