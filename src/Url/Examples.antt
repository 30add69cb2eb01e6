-- ===== src/Url/Examples.antt =====
-- Examples, with the search of Url/Search.
use binance_monitor.Base.{
  leb, ◌>>=◌, All, Text, text, lookup, ◌≡◌, refl, some, List, [], ◌∷◌, ◌++◌, arith,
}
use binance_monitor.Url.{hex_digit, decode_url, split_string_view, split_optional_queries}
use binance_monitor.Url.Decode.{percent_encode, decode_url-percent_encode, decode_url-append}
use binance_monitor.Url.Search.{find, find-FindsFirst}
use binance_monitor.Url.Split.{fields, trimmed, split_string_view-fields}
use binance_monitor.Url.Queries.{query_string, IsPair, with_value, lookup-split_optional_queries}

decode_url-percent_encode_example :
    decode_url (percent_encode (λ c. leb b'a' c) (text "a b%")) ≡ some (text "a b%")
unfolding text
decode_url-percent_encode_example =
    decode_url-percent_encode (λ c. leb b'a' c) (text "a b%") refl
      (omega arith, (omega arith, (omega arith, (omega arith, tt))))

decode_url-append_example :
    decode_url (text "a%20" ++ text "b%21")
    ≡ (decode_url (text "b%21") >>= λ b. some (text "a " ++ b))
unfolding text decode_url hex_digit
decode_url-append_example = decode_url-append (text "a%20") (text "b%21") (text "a ") refl

split_string_view-fields_example :
    split_string_view find (text "/upload?id=3") (b'?' ∷ [])
    ≡ some (trimmed (fields b'?' (text "/upload?id=3")))
split_string_view-fields_example =
    split_string_view-fields find-FindsFirst b'?' (text "/upload?id=3")

abbrev pairs : List (Text × Text)
pairs = (text "a", text "1") ∷ (text "b", []) ∷ (text "a", text "2") ∷ []

pairs-IsPair : All IsPair pairs
unfolding text
pairs-IsPair = (
  record {
    key_amp = ground arith;
    key_eq = ground arith;
    value_amp = ground arith;
    value_eq = ground arith;
  },
  (
    record {
      key_amp = ground arith;
      key_eq = ground arith;
      value_amp = ground arith;
      value_eq = ground arith;
    },
    (
      record {
        key_amp = ground arith;
        key_eq = ground arith;
        value_amp = ground arith;
        value_eq = ground arith;
      },
      tt,
    ),
  ),
)

lookup-split_optional_queries_example :
    (split_optional_queries find (query_string pairs) >>= λ m. some (lookup (text "a") m))
    ≡ some (lookup (text "a") (with_value pairs))
lookup-split_optional_queries_example =
    lookup-split_optional_queries find-FindsFirst pairs (text "a") pairs-IsPair
