-- ===== src/Database/Values.antt =====
-- A list of values, as the statements of the database connector print it, and what it is read as.
use binance_monitor.Base.{
  if◌then◌else◌, All, Text, text, text_eq, is_empty, ◌≡◌, refl, ap, ◌∙◌, Option, none, some, List,
  [], ◌∷◌, ◌++◌, map, append_assoc,
}
use binance_monitor.Database.Sql.{
  Token, word, quoted, mark, in_word, in_quote, after_quote, tokens, read_value, read_values,
}
use binance_monitor.Database.Sql.Scan.{IsPlain, tokens-plain}
use binance_monitor.Database.{string_or_null}

-- `'{}'` with the text, and `{}` with its `string_or_null`.
pub data Value : Type 0 where
  literal nullable : Text → Value

abbrev pub content : Value → Text
content (literal s) = s
content (nullable s) = s

-- What the database holds for it.
abbrev pub stored : Value → Option Text
stored (literal s) = some s
stored (nullable s) = if is_empty s then none else some s

token_of : Value → Token
token_of (literal s) = quoted s
token_of (nullable s) = if is_empty s then word (text "NULL") else quoted s

-- The values that follow another one.
unfoldable pub print_from : List Value → Text
print_from [] = b')' ∷ []
print_from (literal s ∷ vs) = b',' ∷ b' ' ∷ b'\'' ∷ (s ++ b'\'' ∷ print_from vs)
print_from (nullable s ∷ vs) = b',' ∷ b' ' ∷ (string_or_null s ++ print_from vs)

separated : List Value → List Token
separated [] = mark b')' ∷ []
separated (v ∷ vs) = mark b',' ∷ token_of v ∷ separated vs

abbrev pub ArePlain : List Value → Type 0
ArePlain vs = All (λ v. IsPlain (content v)) vs

-- Whatever stood before, a quoted text or a word, ends where the other values begin.
tokens-print_from :
    (vs : List Value)
    → ArePlain vs
    → ((s : Text) → tokens (after_quote s) (print_from vs) ≡ quoted s ∷ separated vs)
      × ((w : Text) → tokens (in_word w) (print_from vs) ≡ word w ∷ separated vs)
unfolding tokens print_from separated token_of string_or_null text
tokens-print_from [] p = (λ s. refl, λ w. refl)
tokens-print_from (literal t ∷ vs) (p, ps) =
    let rest = tokens-plain t [] (print_from vs) p ∙ (tokens-print_from vs ps).0 t in
    (λ s. rw rest, λ w. rw rest)
tokens-print_from (nullable [] ∷ vs) (p, ps) =
    let rest = (tokens-print_from vs ps).1 (text "NULL") in
    (
      λ s. ap (λ (ts : List Token). quoted s ∷ mark b',' ∷ ts) rest,
      λ w. ap (λ (ts : List Token). word w ∷ mark b',' ∷ ts) rest,
    )
tokens-print_from (nullable (c ∷ t) ∷ vs) (p, ps) =
    let rest =
      ap (tokens (in_quote [])) (append_assoc (c ∷ t) (b'\'' ∷ []) (print_from vs))
      ∙ tokens-plain (c ∷ t) [] (print_from vs) p
      ∙ (tokens-print_from vs ps).0 (c ∷ t) in
    (
      λ s. ap (λ (ts : List Token). quoted s ∷ mark b',' ∷ ts) rest,
      λ w. ap (λ (ts : List Token). word w ∷ mark b',' ∷ ts) rest,
    )

read_value-token_of : (v : Value) → read_value (token_of v) ≡ some (stored v)
unfolding read_value token_of text text_eq
read_value-token_of (literal s) = refl
read_value-token_of (nullable []) = refl
read_value-token_of (nullable (c ∷ s)) = refl

read_values-separated :
    (t : Token) (x : Option Text) (vs : List Value)
    → read_value t ≡ some x
    → read_values (t ∷ separated vs) ≡ some (x ∷ map stored vs)
unfolding read_values separated
read_values-separated t x [] e = rw e
read_values-separated t x (v ∷ vs) e =
    rw (e, read_values-separated (token_of v) (stored v) vs (read_value-token_of v))

-- From the text of the first value on.
pub read_values-print :
    (s : Text) (vs : List Value)
    → IsPlain s
    → ArePlain vs
    → read_values (tokens (in_quote []) (s ++ b'\'' ∷ print_from vs))
      ≡ some (some s ∷ map stored vs)
unfolding read_value
read_values-print s vs p ps =
    ap read_values (tokens-plain s [] (print_from vs) p ∙ (tokens-print_from vs ps).0 s)
    ∙ read_values-separated (quoted s) (some s) vs refl
