-- ===== src/Url/Queries.antt =====
-- `split_optional_queries` against the pairs that a query string was written from.
use binance_monitor.Base.{
  if◌then◌else◌, ◌>>=◌, All, All-append, Text, text_eq, text_eq_iff, lookup, lookup-concat, ℕ, ◌≡◌,
  refl, ap, ◌∙◌, ◌≢◌, Option, none, some, List, [], ◌∷◌, ◌++◌, map, append-nil, arith,
}
use binance_monitor.Url.Find.{FindsFirst, Lacks}
use binance_monitor.Url.Split.{
  fields, fields-Lacks, fields-split, trimmed, drop_empty_last, split_string_view-fields,
}
use binance_monitor.Url.{
  UrlQuery, split_string_view, emplace, add_part, add_queries, split_optional_queries,
}

-- `key=value` parts, joined by `&`.
abbrev part : Text × Text → Text
part p = p.0 ++ b'=' ∷ p.1

unfoldable pub query_string : UrlQuery → Text
query_string [] = []
query_string (p ∷ []) = part p
query_string (p ∷ q ∷ more) = part p ++ b'&' ∷ query_string (q ∷ more)

-- Keys and values hold no separator.
pub record IsPair (p : Text × Text) : Type 0 where
  pub key_amp : Lacks b'&' p.0
  pub key_eq : Lacks b'=' p.0
  pub value_amp : Lacks b'&' p.1
  pub value_eq : Lacks b'=' p.1

part-Lacks : (p : Text × Text) → IsPair p → Lacks b'&' (part p)
part-Lacks (k, v) h = All-append (λ x. x ≢ b'&') k (b'=' ∷ v) h.key_amp (omega arith, h.value_amp)

fields-part : (p : Text × Text) → IsPair p → fields b'=' (part p) ≡ p.0 ∷ p.1 ∷ []
fields-part (k, v) h = rw (fields-split b'=' k v h.key_eq, fields-Lacks b'=' v h.value_eq)

fields_query :
    (p : Text × Text) (more : UrlQuery)
    → All IsPair (p ∷ more)
    → fields b'&' (query_string (p ∷ more)) ≡ map part (p ∷ more)
unfolding query_string
fields_query p [] h = fields-Lacks b'&' (part p) (part-Lacks p h.0)
fields_query p (q ∷ more) h =
    fields-split b'&' (part p) (query_string (q ∷ more)) (part-Lacks p h.0)
    ∙ ap (λ r. part p ∷ r) (fields_query q more h.1)

-- No part is empty, so none is dropped.
part_keeps : (p : Text × Text) → drop_empty_last (part p ∷ []) ≡ part p ∷ []
part_keeps ([], v) = refl
part_keeps (x ∷ k, v) = refl

parts_keep :
    (p : Text × Text) (more : UrlQuery)
    → drop_empty_last (map part (p ∷ more)) ≡ map part (p ∷ more)
parts_keep p [] = part_keeps p
parts_keep p (q ∷ more) = ap (λ r. part p ∷ r) (parts_keep q more)

trimmed_parts :
    (p : Text × Text) (more : UrlQuery) → trimmed (map part (p ∷ more)) ≡ map part (p ∷ more)
trimmed_parts p [] = refl
trimmed_parts p (q ∷ more) = parts_keep p (q ∷ more)

-- The pairs that have a value.
abbrev pub with_value : UrlQuery → UrlQuery
with_value [] = []
with_value ((k, []) ∷ ps) = with_value ps
with_value ((k, x ∷ v) ∷ ps) = (k, x ∷ v) ∷ with_value ps

abbrev or_else {ℓ} : {A : Type ℓ} → Option A → Option A → Option A
or_else none r = r
or_else (some a) r = some a

lookup-emplace :
    (j k v : Text) (m : UrlQuery)
    → lookup j (emplace k v m) ≡ or_else (lookup j m) (if text_eq k j then some v else none)
unfolding emplace
lookup-emplace j k v m = ground (arith, lookup-concat j k v m, text_eq_iff k j)

abbrev emplace_all : UrlQuery → UrlQuery → UrlQuery
emplace_all [] m = m
emplace_all (p ∷ ps) m = emplace_all ps (emplace p.0 p.1 m)

lookup-emplace_all :
    (j : Text) (ps m : UrlQuery) → lookup j (emplace_all ps m) ≡ or_else (lookup j m) (lookup j ps)
lookup-emplace_all j [] m = unfold lookup in ground arith
lookup-emplace_all j ((k, v) ∷ ps) m =
    lookup-emplace_all j ps (emplace k v m)
    ∙ rw (lookup-emplace j k v m) (unfold lookup in ground arith)

part-ne : (p : Text × Text) (t : Text) → part p ++ t ≢ []
part-ne ([], v) t e = cc
part-ne (x ∷ k, v) t e = cc

query_string-ne : (p : Text × Text) (more : UrlQuery) → query_string (p ∷ more) ≢ []
unfolding query_string
query_string-ne p [] e = part-ne p [] (append-nil (part p) ∙ e)
query_string-ne p (q ∷ more) e = part-ne p _ e

queries_of_text :
    (find : Text → Text → ℕ → Option ℕ) (t : Text)
    → t ≢ []
    → split_optional_queries find t
      ≡ (split_string_view find t (b'&' ∷ []) >>= λ queries. add_queries find queries [])
unfolding split_optional_queries
queries_of_text find [] h = absurd (h refl)
queries_of_text find (c ∷ t) h = refl

module _ {find : Text → Text → ℕ → Option ℕ} (law : FindsFirst find) where
  split_part :
      (p : Text × Text)
      → IsPair p
      → split_string_view find (part p) (b'=' ∷ []) ≡ some (trimmed (p.0 ∷ p.1 ∷ []))
  split_part p h =
      split_string_view-fields law b'=' (part p) ∙ ap some (ap trimmed (fields-part p h))

  add_queries-parts :
      (ps m : UrlQuery)
      → All IsPair ps
      → add_queries find (map part ps) m ≡ some (emplace_all (with_value ps) m)
  unfolding add_queries add_part
  add_queries-parts [] m h = refl
  add_queries-parts ((k, []) ∷ ps) m h = rw (split_part (k, []) h.0) (add_queries-parts ps m h.1)
  add_queries-parts ((k, x ∷ v) ∷ ps) m h =
      rw (split_part (k, x ∷ v) h.0) (add_queries-parts ps (emplace k (x ∷ v) m) h.1)

  split_optional_queries-pairs :
      (ps : UrlQuery)
      → All IsPair ps
      → split_optional_queries find (query_string ps) ≡ some (emplace_all (with_value ps) [])
  split_optional_queries-pairs [] h = unfold split_optional_queries query_string in refl
  split_optional_queries-pairs (p ∷ more) h =
      queries_of_text find (query_string (p ∷ more)) (query_string-ne p more)
      ∙ rw
          (
            split_string_view-fields law b'&' (query_string (p ∷ more)),
            fields_query p more h,
            trimmed_parts p more,
          )
          (add_queries-parts (p ∷ more) [] h)

  -- A key finds the value of its first pair that has one; pairs with an empty value are not there.
  pub lookup-split_optional_queries :
      (ps : UrlQuery) (key : Text)
      → All IsPair ps
      → (split_optional_queries find (query_string ps) >>= λ m. some (lookup key m))
        ≡ some (lookup key (with_value ps))
  lookup-split_optional_queries ps key h =
      rw (split_optional_queries-pairs ps h)
        (ap some (lookup-emplace_all key (with_value ps) [] ∙ unfold lookup in refl))

  add_queries-total : (queries : List Text) (m : UrlQuery) → add_queries find queries m ≢ none
  unfolding add_queries
  add_queries-total [] m = λ e. cc
  add_queries-total (q ∷ queries) m =
      rw (add_queries, split_string_view-fields law b'=' q)
        (add_queries-total queries (add_part (trimmed (fields b'=' q)) m))

  -- Every query string has a result.
  pub split_optional_queries-total : (q : Text) → split_optional_queries find q ≢ none
  unfolding split_optional_queries
  split_optional_queries-total [] = λ e. cc
  split_optional_queries-total (c ∷ q) =
      rw (split_optional_queries, split_string_view-fields law b'&' (c ∷ q))
        (add_queries-total (trimmed (fields b'&' (c ∷ q))) [])
