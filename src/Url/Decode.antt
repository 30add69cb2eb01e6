-- ===== src/Url/Decode.antt =====
-- `decode_url` of session.cpp against percent-encoding, and the end of its input.
use native.Mathlib.Decide.{ℕ_discrete}
use binance_monitor.Base.{
  ltb, if◌then◌else◌, Bool-cases, Option-cases, ◌>>=◌, some_inj, length, All, Text, ℕ, ◌+◌, ◌-◌,
  ◌*◌, ◌/◌, ◌%◌, ◌<◌, ◌≡◌, refl, sym, ap, ◌∙◌, subst, ◌≢◌, inl, inr, Bool, false, Option, none,
  some, [], ◌∷◌, ◌++◌, arith,
}
use binance_monitor.Url.{hex_digit, decode_url}

-- Percent-encoding (RFC 3986), for any choice of the bytes that stand for themselves.
abbrev hex_letter : ℕ → ℕ
hex_letter v = if ltb v 10 then b'0' + v else b'A' + (v - 10)

unfoldable pub percent_encode : (ℕ → Bool) → Text → Text
percent_encode keep [] = []
percent_encode keep (c ∷ s) =
    let rest = percent_encode keep s in
    if keep c then c ∷ rest else b'%' ∷ hex_letter (c / 16) ∷ hex_letter (c % 16) ∷ rest

hex_digit-hex_letter : (v : ℕ) → v < 16 → hex_digit (hex_letter v) ≡ v
unfolding hex_digit
hex_digit-hex_letter v h = ground arith

pub decode_plain :
    (c : ℕ) (rest : Text)
    → c ≢ b'%'
    → decode_url (c ∷ rest) ≡ (decode_url rest >>= λ src. some (c ∷ src))
unfolding decode_url
decode_plain c [] h = ground arith
decode_plain c (x ∷ []) h = ground arith
decode_plain c (x ∷ y ∷ rest) h = ground arith

pub decode_escape :
    (h l : ℕ) (rest : Text)
    → decode_url (b'%' ∷ h ∷ l ∷ rest)
      ≡ (decode_url rest >>= λ src. some ((hex_digit h * 16 + hex_digit l) % 256 ∷ src))
unfolding decode_url
decode_escape h l rest = refl

-- Decoding what any percent-encoder that escapes `%` has written gives the bytes back.
pub decode_url-percent_encode :
    (keep : ℕ → Bool) (s : Text)
    → keep b'%' ≡ false
    → All (λ c. c < 256) s
    → decode_url (percent_encode keep s) ≡ some s
unfolding percent_encode
decode_url-percent_encode keep [] k h = unfold decode_url in refl
decode_url-percent_encode keep (c ∷ s) k h = elim (Bool-cases (keep c)) [
  | inl kept ↦
      rw
        (
          kept,
          decode_plain c (percent_encode keep s) (λ e. cc (ap keep e)),
          decode_url-percent_encode keep s k h.1,
        )
        refl
  | inr escaped ↦
      rw
        (
          escaped,
          decode_escape (hex_letter (c / 16)) (hex_letter (c % 16)) (percent_encode keep s),
          decode_url-percent_encode keep s k h.1,
          hex_digit-hex_letter (c / 16) (omega arith),
          hex_digit-hex_letter (c % 16) (omega arith),
        )
        (ap (λ b. some (b ∷ s)) whole)
]
  where
    whole : (c / 16 * 16 + c % 16) % 256 ≡ c
    whole = omega arith

-- A chain in which every part that decodes is put in front of what follows it.
abbrev and_then : Text → Option Text → Option Text
and_then a r = r >>= λ b. some (a ++ b)

and_then_nil : (r : Option Text) → r ≡ and_then [] r
and_then_nil none = refl
and_then_nil (some b) = refl

and_then_cons :
    (x : ℕ) (a : Text) (r : Option Text)
    → (and_then a r >>= λ src. some (x ∷ src)) ≡ and_then (x ∷ a) r
and_then_cons x a none = refl
and_then_cons x a (some b) = refl

Joins : Text → Text → Type 0
Joins p q = (a : Text) → decode_url p ≡ some a → decode_url (p ++ q) ≡ and_then a (decode_url q)

-- One decoded byte in front of a text that can be joined.
join_after :
    (x : ℕ) (p r q : Text)
    → decode_url p ≡ (decode_url r >>= λ src. some (x ∷ src))
    → decode_url (p ++ q) ≡ (decode_url (r ++ q) >>= λ src. some (x ∷ src))
    → Joins r q
    → Joins p q
unfolding Joins
join_after x p r q now later ih a e = elim (Option-cases (decode_url r)) [
  | inl n ↦ cc (sym e ∙ now ∙ ap (λ o. o >>= λ src. some (x ∷ src)) n)
  | inr (b, s) ↦
      later
      ∙ ap (λ o. o >>= λ src. some (x ∷ src)) (ih b s)
      ∙ and_then_cons x b (decode_url q)
      ∙ ap (λ t. and_then t (decode_url q))
          (sym (some_inj (sym e ∙ now ∙ ap (λ o. o >>= λ src. some (x ∷ src)) s)))
]

join_plain : (c : ℕ) (r q : Text) → c ≢ b'%' → Joins r q → Joins (c ∷ r) q
join_plain c r q h ih = join_after c (c ∷ r) r q (decode_plain c r h) (decode_plain c (r ++ q) h) ih

truncated_none : (c : ℕ) → c ≡ b'%' → decode_url (c ∷ []) ≡ none
unfolding decode_url
truncated_none c e = ground arith

truncated_one : (c x : ℕ) → c ≡ b'%' → decode_url (c ∷ x ∷ []) ≡ none
unfolding decode_url
truncated_one c x e = ground arith

joins : (p q : Text) → Joins p q
unfolding Joins
joins [] q a e =
    unfold decode_url in
    subst (λ t. decode_url q ≡ and_then t (decode_url q)) (some_inj e) (and_then_nil _)
joins (c ∷ []) q a e = elim (ℕ_discrete c b'%') [
  | yes is ↦ cc (truncated_none c is)
  | no isnt ↦ join_plain c [] q isnt (joins [] q) a e
]
joins (c ∷ x ∷ []) q a e = elim (ℕ_discrete c b'%') [
  | yes is ↦ cc (truncated_one c x is)
  | no isnt ↦ join_plain c (x ∷ []) q isnt (joins (x ∷ []) q) a e
]
joins (c ∷ x ∷ y ∷ r) q a e = elim (ℕ_discrete c b'%') [
  | yes is ↦ rw is (
      join_after ((hex_digit x * 16 + hex_digit y) % 256) (b'%' ∷ x ∷ y ∷ r) r q
        (decode_escape x y r) (decode_escape x y (r ++ q)) (joins r q) a (rw is at e))
  | no isnt ↦ join_plain c (x ∷ y ∷ r) q isnt (joins (x ∷ y ∷ r) q) a e
]

-- A text that decodes, followed by any text: the decoded text, followed by what the rest decodes to.
pub decode_url-append :
    (p q a : Text)
    → decode_url p ≡ some a
    → decode_url (p ++ q) ≡ (decode_url q >>= λ b. some (a ++ b))
unfolding Joins
decode_url-append p q = joins p q

-- A target that ends in a `%` with fewer than two bytes behind it is read past its end.
decode_url_truncated :
    (p tail a : Text)
    → decode_url p ≡ some a
    → length tail < 2
    → decode_url (p ++ b'%' ∷ tail) ≡ none
decode_url_truncated p [] a e h =
    decode_url-append p (b'%' ∷ []) a e ∙ ap (and_then a) (truncated_none b'%' refl)
decode_url_truncated p (x ∷ []) a e h =
    decode_url-append p (b'%' ∷ x ∷ []) a e ∙ ap (and_then a) (truncated_one b'%' x refl)
decode_url_truncated p (x ∷ y ∷ tail) a e h = absurd (omega arith)
