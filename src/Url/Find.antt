-- ===== src/Url/Find.antt =====
-- What `boost::string_view::find` is documented to return, and its meaning for one byte.
use native.Mathlib.Nat.{zero-add}
use binance_monitor.Base.{
  ◌==◌, Bool-cases, Option-cases, length, take, drop, length-append, All, Text, ℕ, zero, suc, ◌+◌,
  ◌-◌, ◌≤◌, ◌<◌, ◌≡◌, refl, ap, ◌∙◌, subst, ◌≢◌, ◌⊎◌, inl, inr, Option, none, some, [], ◌∷◌, ◌++◌,
  arith,
}

abbrev pub OccursAt : Text → Text → ℕ → Type 0
OccursAt str delim i = (i + length delim ≤ length str) × (take (length delim) (drop i str) ≡ delim)

-- The first occurrence at or after `pos`, if there is one.
pub record FindsFirst (find : Text → Text → ℕ → Option ℕ) : Type 0 where
  pub found :
      (str delim : Text) (pos i : ℕ)
      → find str delim pos ≡ some i
      → (pos ≤ i) × OccursAt str delim i
  pub first :
      (str delim : Text) (pos i j : ℕ)
      → find str delim pos ≡ some i
      → pos ≤ j
      → j < i
      → ¬ OccursAt str delim j
  pub missing :
      (str delim : Text) (pos j : ℕ) → find str delim pos ≡ none → pos ≤ j → ¬ OccursAt str delim j

abbrev pub Lacks : ℕ → Text → Type 0
Lacks d = All (λ x. x ≢ d)

-- A text lacks the byte, or splits at its first occurrence.
pub first_split :
    (d : ℕ) (t : Text) → Lacks d t ⊎ ((u : Text) × (v : Text) × (t ≡ u ++ d ∷ v) × Lacks d u)
first_split d [] = inl tt
first_split d (x ∷ xs) = elim (Bool-cases (x == d)) [
  | inl e ↦ inr ([], xs, ground arith, tt)
  | inr ne ↦ elim (first_split d xs) [
    | inl no_d ↦ inl (ground arith, no_d)
    | inr (u, v, e, h) ↦ inr (x ∷ u, v, ap (λ (r : Text). x ∷ r) e, (ground arith, h))
  ]
]

-- The text from `k` on begins with `d`.
abbrev HasAt : ℕ → Text → ℕ → Type 0
HasAt d t k = take 1 (drop k t) ≡ d ∷ []

Lacks-not_at : (d : ℕ) (t : Text) (k : ℕ) → Lacks d t → ¬ HasAt d t k
Lacks-not_at d [] zero h e = cc
Lacks-not_at d [] (suc k) h e = cc
Lacks-not_at d (x ∷ xs) zero h e = ground arith
Lacks-not_at d (x ∷ xs) (suc k) h e = Lacks-not_at d xs k h.1 e

Lacks-not_before : (d : ℕ) (u v : Text) (k : ℕ) → Lacks d u → k < length u → ¬ HasAt d (u ++ v) k
Lacks-not_before d [] v k h lt e = absurd (omega arith)
Lacks-not_before d (x ∷ u) v zero h lt e = ground arith
Lacks-not_before d (x ∷ u) v (suc k) h lt e = Lacks-not_before d u v k h.1 (omega arith) e

HasAt-split : (d : ℕ) (u v : Text) → HasAt d (u ++ d ∷ v) (length u)
HasAt-split d [] v = refl
HasAt-split d (x ∷ u) v = HasAt-split d u v

pub drop-append : (pre t : Text) (k : ℕ) → drop (length pre + k) (pre ++ t) ≡ drop k t
drop-append [] t k = rw zero-add
drop-append (x ∷ pre) t k = rw shifted (drop-append pre t k)
  where
    shifted : suc (length pre) + k ≡ suc (length pre + k)
    shifted = omega arith

module _ {find : Text → Text → ℕ → Option ℕ} (law : FindsFirst find) where
  at_suffix :
      (d : ℕ) (pre t : Text) (i : ℕ)
      → length pre ≤ i
      → HasAt d (pre ++ t) i
      → HasAt d t (i - length pre)
  at_suffix d pre t i h e =
      subst (λ r. take 1 r ≡ d ∷ []) (drop-append pre t (i - length pre))
        (subst (λ j. HasAt d (pre ++ t) j) there e)
    where
      there : i ≡ length pre + (i - length pre)
      there = omega arith

  pub find-Lacks : (d : ℕ) (pre t : Text) → Lacks d t → find (pre ++ t) (d ∷ []) (length pre) ≡ none
  find-Lacks d pre t h = elim (Option-cases (find (pre ++ t) (d ∷ []) (length pre))) [
    | inl e ↦ e
    | inr (i, e) ↦
        let f = law.found _ _ _ i e in
        absurd (Lacks-not_at d t (i - length pre) h (at_suffix d pre t i f.0 f.1.1))
  ]

  pub find-split :
      (d : ℕ) (pre u v : Text)
      → Lacks d u
      → find (pre ++ (u ++ d ∷ v)) (d ∷ []) (length pre) ≡ some (length pre + length u)
  find-split d pre u v h = elim (Option-cases (find str (d ∷ []) (length pre))) [
    | inl e ↦
        absurd (law.missing str (d ∷ []) (length pre) (length pre + length u) e (omega arith) here)
    | inr (i, e) ↦ e ∙ ap some (only i e)
  ]
    where
      str : Text
      str = pre ++ (u ++ d ∷ v)

      here : OccursAt str (d ∷ []) (length pre + length u)
      here = (
        omega (arith, length-append pre (u ++ d ∷ v), length-append u (d ∷ v)),
        rw (drop-append pre (u ++ d ∷ v) (length u)) (HasAt-split d u v),
      )

      only : (i : ℕ) → find str (d ∷ []) (length pre) ≡ some i → i ≡ length pre + length u
      only i e =
          let f = law.found str (d ∷ []) (length pre) i e in
          let late : ¬ (i < length pre + length u) = λ lt.
            Lacks-not_before d u (d ∷ v) (i - length pre) h (omega arith)
              (at_suffix d pre (u ++ d ∷ v) i f.0 f.1.1) in
          let early : ¬ (length pre + length u < i) = λ lt.
            law.first str (d ∷ []) (length pre) i (length pre + length u) e (omega arith) lt here in
          omega arith
