-- ===== src/Url/Search.antt =====
-- A search that satisfies what is asked of `boost::string_view::find`.
use native.Mathlib.Decide.{ℕ_discrete}
use binance_monitor.Base.{
  leb, if◌then◌else◌, Bool-cases, some_inj, length, take, drop, Text, text_eq, text_eq_refl,
  text_eq_sound, ℕ, zero, suc, ◌+◌, ◌-◌, ◌≤◌, ◌<◌, ◌≡◌, sym, ◌∙◌, subst, ◌↔◌, inl, inr, Bool, true,
  false, ◌&&◌, Option, none, some, arith,
}
use binance_monitor.Url.Find.{FindsFirst, OccursAt}

occurs : Text → Text → ℕ → Bool
occurs str delim i =
    leb (i + length delim) (length str) && text_eq (take (length delim) (drop i str)) delim

occurs_iff : (str delim : Text) (i : ℕ) → (occurs str delim i ≡ true) ↔ OccursAt str delim i
unfolding occurs
occurs_iff str delim i = (
  (λ h. (ground arith, text_eq_sound _ _ (ground arith))),
  λ (le, e). rw e (ground (arith, text_eq_refl delim)),
)

search : ℕ → Text → Text → ℕ → Option ℕ
search zero str delim i = none
search (suc fuel) str delim i =
    let rest = search fuel str delim (suc i) in if occurs str delim i then some i else rest

pub find : Text → Text → ℕ → Option ℕ
find str delim from = search (suc (length str) - from) str delim from

search-found :
    (fuel : ℕ) (str delim : Text) (i k : ℕ)
    → search fuel str delim i ≡ some k
    → (i ≤ k) × OccursAt str delim k
unfolding search
search-found zero str delim i k e = cc
search-found (suc fuel) str delim i k e = elim (Bool-cases (occurs str delim i)) [
  | inl here ↦
      let same = some_inj (rw here at e) in
      (omega arith, (occurs_iff str delim k).0 (subst (λ n. occurs str delim n ≡ true) same here))
  | inr not_here ↦
      let (le, there) = search-found fuel str delim (suc i) k (rw not_here at e) in
      (omega arith, there)
]

not_there :
    (str delim : Text) (i j : ℕ) → occurs str delim i ≡ false → i ≡ j → ¬ OccursAt str delim j
not_there str delim i j h e o =
    cc (sym h ∙ subst (λ n. occurs str delim n ≡ true) (sym e) ((occurs_iff str delim j).1 o))

search-first :
    (fuel : ℕ) (str delim : Text) (i j k : ℕ)
    → search fuel str delim i ≡ some k
    → i ≤ j
    → j < k
    → ¬ OccursAt str delim j
unfolding search
search-first zero str delim i j k e le lt o = cc
search-first (suc fuel) str delim i j k e le lt o = elim (Bool-cases (occurs str delim i)) [
  | inl here ↦ let same = some_inj (rw here at e) in absurd (omega arith)
  | inr not_here ↦ elim (ℕ_discrete i j) [
    | yes is ↦ not_there str delim i j not_here is o
    | no isnt ↦ search-first fuel str delim (suc i) j k (rw not_here at e) (omega arith) lt o
  ]
]

search-missing :
    (fuel : ℕ) (str delim : Text) (i j : ℕ)
    → search fuel str delim i ≡ none
    → i ≤ j
    → j < i + fuel
    → ¬ OccursAt str delim j
unfolding search
search-missing zero str delim i j e le lt o = absurd (omega arith)
search-missing (suc fuel) str delim i j e le lt o = elim (Bool-cases (occurs str delim i)) [
  | inl here ↦ cc (rw here at e)
  | inr not_here ↦ elim (ℕ_discrete i j) [
    | yes is ↦ not_there str delim i j not_here is o
    | no isnt ↦
        search-missing fuel str delim (suc i) j (rw not_here at e) (omega arith) (omega arith) o
  ]
]

pub find-FindsFirst : FindsFirst find
unfolding find
find-FindsFirst = record {
  found = λ str delim from i e. search-found (suc (length str) - from) str delim from i e;
  first = λ str delim from i j e le lt.
      search-first (suc (length str) - from) str delim from j i e le lt;
  missing = λ str delim from j e le o.
      search-missing (suc (length str) - from) str delim from j e le
        (before_end str delim from j le o) o;
}
  where
    before_end :
        (str delim : Text) (from j : ℕ)
        → from ≤ j
        → OccursAt str delim j
        → j < from + (suc (length str) - from)
    before_end str delim from j le o = let bound = o.0 in omega arith
