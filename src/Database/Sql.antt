-- ===== src/Database/Sql.antt =====
-- A reader of SQL for the statements of the database connector: the words, the quoted texts and the
-- marks of a statement, and from these the row that an INSERT writes.
pub mod Scan
use binance_monitor.Base.{
  leb, ◌==◌, if◌then◌else◌, ◌>>=◌, Text, text, text_eq, is_empty, Map, ℕ, ◌*◌, Bool, ◌&&◌, ◌||◌,
  Option, none, some, List, [], ◌∷◌, ◌++◌,
}

pub data Token : Type 0 where
  word : Text → Token
  quoted : Text → Token
  mark : ℕ → Token

-- Where the reader stands: after a quote it does not know yet whether the text goes on.
pub data Mode : Type 0 where
  outside : Mode
  in_word : Text → Mode
  in_quote : Text → Mode
  escaped : Text → Mode
  after_quote : Text → Mode

unfoldable pub is_word : ℕ → Bool
is_word c =
    (leb b'0' c && leb c b'9')
    || ((leb b'A' c && leb c b'Z') || (leb b'a' c && leb c b'z') || c == b'_')

is_blank : ℕ → Bool
is_blank c = c == b' ' || (c == b'\n' || c == b'\t')

open_token : ℕ → List Token × Mode
unfolding is_word is_blank
open_token c =
    if c == b'\''
    then ([], in_quote [])
    else if is_word c
    then ([], in_word (c ∷ []))
    else if is_blank c
    then ([], outside)
    else (mark c ∷ [], outside)

before : Token → List Token × Mode → List Token × Mode
before t (ts, m) = (t ∷ ts, m)

read_byte : Mode → ℕ → List Token × Mode
unfolding open_token before is_word
read_byte outside c = open_token c
read_byte (in_word w) c =
    if is_word c then ([], in_word (w ++ c ∷ [])) else before (word w) (open_token c)
read_byte (in_quote s) c =
    if c == b'\''
    then ([], after_quote s)
    else if c == b'\\'
    then ([], escaped s)
    else ([], in_quote (s ++ c ∷ []))
read_byte (escaped s) c = ([], in_quote (s ++ c ∷ []))
read_byte (after_quote s) c =
    if c == b'\'' then ([], in_quote (s ++ c ∷ [])) else before (quoted s) (open_token c)

end_of_text : Mode → List Token
end_of_text outside = []
end_of_text (in_word w) = word w ∷ []
end_of_text (in_quote s) = []
end_of_text (escaped s) = []
end_of_text (after_quote s) = quoted s ∷ []

unfoldable pub tokens : Mode → Text → List Token
unfolding read_byte end_of_text
tokens m [] = end_of_text m
tokens m (c ∷ cs) = let (ts, m') = read_byte m c in ts ++ tokens m' cs

-- A row: the name of the table, and the value of each column, `none` for NULL.
pub record Row : Type 0 where
  pub table : Text
  pub columns : Map (Option Text)

-- What stands between the parentheses, and what follows them.
unfoldable pub read_columns : List Token → Option (List Text × List Token)
read_columns (word w ∷ mark c ∷ ts) =
    let rest = read_columns ts in
    if c == b','
    then (rest >>= λ (ws, after). some (w ∷ ws, after))
    else if c == b')'
    then some (w ∷ [], ts)
    else none
read_columns _ = none

unfoldable pub read_value : Token → Option (Option Text)
read_value (quoted s) = some (some s)
read_value (word w) = if text_eq w (text "NULL") then some none else none
read_value (mark c) = none

unfoldable pub read_values : List Token → Option (List (Option Text))
unfolding read_value
read_values (t ∷ mark c ∷ ts) =
    let rest = read_values ts in
    read_value t >>= λ v.
    if c == b','
    then (rest >>= λ vs. some (v ∷ vs))
    else if c == b')' && is_empty ts
    then some (v ∷ [])
    else none
read_values _ = none

unfoldable pub pair_up : List Text → List (Option Text) → Option (Map (Option Text))
pair_up [] [] = some []
pair_up (w ∷ ws) (v ∷ vs) = pair_up ws vs >>= λ row. some ((w, v) ∷ row)
pair_up _ _ = none

unfoldable pub read_body : Text → List Text → List Token → Option Row
unfolding read_values pair_up
read_body table ws (word v ∷ mark c ∷ ts) =
    if text_eq v (text "VALUES") && c == b'('
    then (read_values ts >>= λ vs.
        pair_up ws vs >>= λ row. some (record { table = table; columns = row }))
    else none
read_body table ws _ = none

unfoldable pub read_tokens : List Token → Option Row
unfolding read_columns read_body
read_tokens (word a ∷ word b ∷ word table ∷ mark c ∷ ts) =
    if text_eq a (text "INSERT") && text_eq b (text "INTO") && c == b'('
    then (read_columns ts >>= λ (ws, after). read_body table ws after)
    else none
read_tokens _ = none

-- The row that a statement inserts.
unfoldable pub read_insert : Text → Option Row
unfolding read_tokens tokens
read_insert sql = read_tokens (tokens outside sql)

-- The names between backquotes: the table of a CREATE, and its columns.
unfoldable pub backquoted : List Token → List Text
backquoted [] = []
backquoted (mark c ∷ word w ∷ mark d ∷ ts) =
    let rest = backquoted ts in if c == b'`' && d == b'`' then w ∷ rest else rest
backquoted (t ∷ ts) = backquoted ts
