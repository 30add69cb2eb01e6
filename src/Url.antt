-- ===== src/Url.antt =====
-- binance_orders/src/session.cpp, lines 311 to 386: `decode_url`, `split_string_view` and
-- `split_optional_queries`. `boost::string_view::find` is the parameter `find`.
mod Examples
pub mod Find
pub mod Search
pub mod Decode
pub mod Split
pub mod Queries
use binance_monitor.Base.{
  ltb, leb, ◌==◌, if◌then◌else◌, ◌>>=◌, length, take, drop, Text, Map, lookup, ℕ, zero, suc, ◌+◌,
  ◌-◌, ◌*◌, ◌%◌, true, false, ◌&&◌, Option, none, some, List, [], ◌∷◌, ◌++◌,
}

-- A hexadecimal digit; any other byte counts as 0.
unfoldable pub hex_digit : ℕ → ℕ
hex_digit c =
    if leb b'0' c && leb c b'9'
    then c - b'0'
    else if leb b'A' c && leb c b'F'
    then c - b'A' + 10
    else if leb b'a' c && leb c b'f'
    then c - b'a' + 10
    else 0

-- `none` is a read past the end of the view, at a `%` that fewer than two bytes follow.
unfoldable pub decode_url : Text → Option Text
decode_url [] = some []
decode_url (ch ∷ []) = if ch == b'%' then none else some (ch ∷ [])
decode_url (ch ∷ c1 ∷ []) =
    let rest = decode_url (c1 ∷ []) in
    if ch == b'%' then none else (rest >>= λ src. some (ch ∷ src))
decode_url (ch ∷ c1 ∷ c2 ∷ tail) = elim (ch == b'%') [
  | true ↦ decode_url tail >>= λ src. some ((hex_digit c1 * 16 + hex_digit c2) % 256 ∷ src)
  | false ↦ decode_url (c1 ∷ c2 ∷ tail) >>= λ src. some (ch ∷ src)
]

-- A part of a view: `n` bytes from `from` on.
abbrev pub substr : Text → ℕ → ℕ → Text
substr str from n = take n (drop from str)

module _ (find : Text → Text → ℕ → Option ℕ) where
  -- `while (index != npos)`, and the last part; `none` if the fuel runs out.
  pub split_loop : ℕ → Text → Text → ℕ → Option ℕ → List Text → Option (List Text)
  split_loop fuel str delim from_pos none result = some (
      if ltb from_pos (length str)
      then result ++ substr str from_pos (length str - from_pos) ∷ []
      else result)
  split_loop zero str delim from_pos (some index) result = none
  split_loop (suc fuel) str delim from_pos (some index) result =
      let next = index + length delim in
      split_loop fuel str delim next (find str delim next)
        (result ++ substr str from_pos (index - from_pos) ∷ [])

  pub split_from : Text → Text → Option ℕ → Option (List Text)
  split_from str delim none = some (str ∷ [])
  split_from str delim (some index) = split_loop (suc (length str)) str delim 0 (some index) []

  pub split_string_view : Text → Text → Option (List Text)
  split_string_view str delim = split_from str delim (find str delim 0)

abbrev pub UrlQuery : Type 0
UrlQuery = Map Text

-- `emplace` leaves a key that is there as it is.
pub emplace : Text → Text → UrlQuery → UrlQuery
emplace k v m = elim (lookup k m) [ none ↦ m ++ (k, v) ∷ [] | some _ ↦ m ]

-- The effect of one `key=value` part on the map.
pub add_part : List Text → UrlQuery → UrlQuery
add_part (key ∷ value ∷ more) m = emplace key value m
add_part _ m = m

module _ (find : Text → Text → ℕ → Option ℕ) where
  pub add_queries : List Text → UrlQuery → Option UrlQuery
  add_queries [] m = some m
  add_queries (q ∷ queries) m =
      split_string_view find q (b'=' ∷ []) >>= λ split. add_queries queries (add_part split m)

  pub split_optional_queries : Text → Option UrlQuery
  split_optional_queries [] = some []
  split_optional_queries (c ∷ query) =
      split_string_view find (c ∷ query) (b'&' ∷ []) >>= λ queries. add_queries queries []
