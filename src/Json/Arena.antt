-- ===== src/Json/Arena.antt =====
-- A concrete `JsonLibrary` for the examples: a value is an index into the nodes of a few documents.
use binance_monitor.Base.{
  if◌then◌else◌, ◌>>=◌, get_elem?, Text, text, text_eq, ℤ, pos, Map, ℕ, Bool, true, false, Option,
  none, some, List, [], ◌∷◌,
}
use binance_monitor.Json.{JsonLibrary}

pub data Node : Type 0 where
  object : Map ℕ → Node
  array : List ℕ → Node
  string : Text → Node
  integer : ℤ → Node

-- Node 0 is an account position with two balances, node 11 the answer to a request for a listen key,
-- node 13 an upload of one host, node 19 one of something else, node 20 a message with a ticker,
-- and node 22 the entries of a configuration file, with its token in node 29. Node 30 is a
-- balance update.
abbrev nodes : List Node
nodes =
    object ((text "e", 1) ∷ (text "E", 2) ∷ (text "u", 3) ∷ (text "B", 4) ∷ [])
    ∷ string (text "outboundAccountPosition")
    ∷ integer (pos 1564034571105)
    ∷ integer (pos 1564034571073)
    ∷ array (5 ∷ 6 ∷ [])
    ∷ object ((text "a", 7) ∷ (text "f", 8) ∷ (text "l", 9) ∷ [])
    ∷ object ((text "a", 10) ∷ (text "f", 8) ∷ (text "l", 9) ∷ [])
    ∷ string (text "ETH")
    ∷ string (text "10.5")
    ∷ string (text "0.0")
    ∷ string (text "BTC")
    ∷ object ((text "listenKey", 12) ∷ [])
    ∷ string (text "pqia91ma19a5s61cv6a81va65sdf19v8")
    ∷ array (14 ∷ [])
    ∷ object (
        (text "api_key", 15)
        ∷ (text "secret_key", 16)
        ∷ (text "alias", 17)
        ∷ (text "tg_group", 18)
        ∷ [])
    ∷ string (text "k1")
    ∷ string (text "s1")
    ∷ string (text "ann")
    ∷ string (text "desk")
    ∷ array (5 ∷ [])
    ∷ array (21 ∷ [])
    ∷ object ((text "s", 7) ∷ (text "c", 8) ∷ (text "o", 9) ∷ [])
    ∷ array (23 ∷ [])
    ∷ object ((text "type", 24) ∷ (text "data", 25) ∷ [])
    ∷ string (text "development")
    ∷ object ((text "username", 26) ∷ (text "password", 27) ∷ (text "db_dns", 28) ∷ [])
    ∷ string (text "u")
    ∷ string (text "p")
    ∷ string (text "d")
    ∷ string (text "token")
    ∷ object ((text "e", 31) ∷ (text "d", 8) ∷ (text "a", 7) ∷ (text "E", 2) ∷ (text "T", 3) ∷ [])
    ∷ string (text "balanceUpdate")
    ∷ []

object_of : Node → Option (Map ℕ)
object_of (object m) = some m
object_of _ = none

array_of : Node → Option (List ℕ)
array_of (array l) = some l
array_of _ = none

string_of : Node → Option Text
string_of (string t) = some t
string_of _ = none

integer_of : Node → Option ℤ
integer_of (integer i) = some i
integer_of _ = none

is_string_node : Node → Bool
is_string_node (string t) = true
is_string_node _ = false

is_number_node : Node → Bool
is_number_node (integer i) = true
is_number_node _ = false

test : (Node → Bool) → Option Node → Bool
test f none = false
test f (some n) = f n

document : Text → ℕ
document t =
    if text_eq t (text "key")
    then 11
    else if text_eq t (text "hosts")
    then 13
    else if text_eq t (text "array")
    then 19
    else if text_eq t (text "tickers")
    then 20
    else if text_eq t (text "deposit")
    then 30
    else 0

unfoldable pub arena : JsonLibrary
unfolding document object_of array_of string_of integer_of is_string_node is_number_node test text
    text_eq
arena = record {
  Json = ℕ;
  parse = λ t. some (document t);
  get_object = λ j. get_elem? nodes j >>= object_of;
  get_array = λ j. get_elem? nodes j >>= array_of;
  get_string = λ j. get_elem? nodes j >>= string_of;
  get_integer = λ j. get_elem? nodes j >>= integer_of;
  get_boolean = λ j. none;
  is_string = λ j. test is_string_node (get_elem? nodes j);
  is_number = λ j. test is_number_node (get_elem? nodes j);
  float_text = λ j. none;
}
