-- ===== src/Database/Sql/Scan.antt =====
-- What the reader makes of the pieces that statements are built of.
use binance_monitor.Base.{
  ◌==◌, Bool-cases, All, Text, ℕ, ◌≡◌, refl, ap, ◌∙◌, ◌≢◌, inl, inr, Bool, true, false, not, ◌&&◌,
  List, [], ◌∷◌, ◌++◌, append-nil, append_assoc, arith,
}
use binance_monitor.Database.Sql.{
  Token, word, outside, in_word, in_quote, after_quote, is_word, tokens,
}

-- Neither a quote nor a backslash.
unfoldable pub is_plain : ℕ → Bool
is_plain c = not (c == b'\'') && not (c == b'\\')

abbrev pub IsPlain : Text → Type 0
IsPlain s = All (λ c. is_plain c ≡ true) s

abbrev pub IsName : Text → Type 0
IsName name = All (λ c. is_word c ≡ true) name

plain-no_quote : (c : ℕ) → is_plain c ≡ true → ((c == b'\'') ≡ false) × ((c == b'\\') ≡ false)
unfolding is_plain
plain-no_quote c p = ground arith

pub word-no_quote : (c : ℕ) → is_word c ≡ true → (c == b'\'') ≡ false
unfolding is_word
word-no_quote c p = ground arith

pub tokens-plain :
    (s read rest : Text)
    → IsPlain s
    → tokens (in_quote read) (s ++ b'\'' ∷ rest) ≡ tokens (after_quote (read ++ s)) rest
unfolding tokens
tokens-plain [] read rest p = rw append-nil
tokens-plain (c ∷ s) read rest (p, ps) =
    let (q, b) = plain-no_quote c p in
    rw (q, b)
      (tokens-plain s (read ++ c ∷ []) rest ps
        ∙ ap (λ (t : Text). tokens (after_quote t) rest) (append_assoc read (c ∷ []) s))

in_word-name :
    (s read rest : Text)
    → IsName s
    → tokens (in_word read) (s ++ rest) ≡ tokens (in_word (read ++ s)) rest
unfolding tokens
in_word-name [] read rest p = rw append-nil
in_word-name (c ∷ s) read rest (p, ps) = rw p (
    in_word-name s (read ++ c ∷ []) rest ps
    ∙ ap (λ (t : Text). tokens (in_word t) rest) (append_assoc read (c ∷ []) s))

pub tokens-name :
    (s rest : Text) → IsName s → s ≢ [] → tokens outside (s ++ rest) ≡ tokens (in_word s) rest
unfolding tokens
tokens-name [] rest p n = absurd (n refl)
tokens-name (c ∷ s) rest (p, ps) n = rw (word-no_quote c p, p) (in_word-name s (c ∷ []) rest ps)

-- A word that has begun ends some time.
pub in_word-starts :
    (s read : Text) → (w : Text) × (ts : List Token) × (tokens (in_word read) s ≡ word w ∷ ts)
unfolding tokens
in_word-starts [] read = (read, [], refl)
in_word-starts (c ∷ s) read = elim (Bool-cases (is_word c)) [
  | inl p ↦ rw p (in_word-starts s (read ++ c ∷ []))
  | inr p ↦ rw p (read, _, refl)
]
