-- ===== src/Url/Split.antt =====
-- `split_string_view` by a one-byte separator, as all its callers use it.
use binance_monitor.Base.{
  ◌==◌, if◌then◌else◌, Bool-cases, length, take, drop, length-append, Text, ℕ, zero, suc, ◌+◌, ◌-◌,
  ◌≤◌, ◌<◌, ◌≡◌, refl, sym, ap, ◌∙◌, subst, inl, inr, Option, none, some, List, [], ◌∷◌, ◌++◌,
  append-nil, append_assoc, arith,
}
use binance_monitor.Url.Find.{FindsFirst, Lacks, first_split, find-Lacks, find-split}
use binance_monitor.Url.{substr, split_loop, split_from, split_string_view}

-- The fields of a text between the separators: one more than there are separators.
abbrev pub cons_head : ℕ → List Text → List Text
cons_head x [] = (x ∷ []) ∷ []
cons_head x (f ∷ fs) = (x ∷ f) ∷ fs

unfoldable pub fields : ℕ → Text → List Text
fields d [] = [] ∷ []
fields d (x ∷ xs) = let rest = fields d xs in if x == d then [] ∷ rest else cons_head x rest

-- An empty last field is dropped.
abbrev pub drop_empty_last : List Text → List Text
drop_empty_last [] = []
drop_empty_last ([] ∷ []) = []
drop_empty_last ((x ∷ f) ∷ []) = (x ∷ f) ∷ []
drop_empty_last (f ∷ g ∷ fs) = f ∷ drop_empty_last (g ∷ fs)

-- What the program makes of a text: an only field stays, also if it is empty.
abbrev pub trimmed : List Text → List Text
trimmed (f ∷ []) = f ∷ []
trimmed fs = drop_empty_last fs

pub fields-Lacks : (d : ℕ) (t : Text) → Lacks d t → fields d t ≡ t ∷ []
unfolding fields
fields-Lacks d [] h = refl
fields-Lacks d (x ∷ xs) h = ground (arith, fields-Lacks d xs h.1)

pub fields-split : (d : ℕ) (u v : Text) → Lacks d u → fields d (u ++ d ∷ v) ≡ u ∷ fields d v
unfolding fields
fields-split d [] v h = ground arith
fields-split d (x ∷ u) v h = ground (arith, fields-split d u v h.1)

-- There is always a field.
pub fields_cons : (d : ℕ) (t : Text) → (f : Text) × (fs : List Text) × (fields d t ≡ f ∷ fs)
unfolding fields
fields_cons d [] = ([], [], refl)
fields_cons d (x ∷ xs) =
    let (f, fs, e) = fields_cons d xs in
    elim (Bool-cases (x == d)) [
      | inl is ↦ ([], fields d xs, rw is)
      | inr isn't ↦ (x ∷ f, fs, rw (isn't, e))
    ]

drop_empty_last-cons :
    (d : ℕ) (u v : Text) → drop_empty_last (u ∷ fields d v) ≡ u ∷ drop_empty_last (fields d v)
drop_empty_last-cons d u v =
    let (f, fs, e) = fields_cons d v in
    subst (λ r. drop_empty_last (u ∷ r) ≡ u ∷ drop_empty_last r) (sym e) refl

trimmed_cons : (d : ℕ) (u v : Text) → trimmed (u ∷ fields d v) ≡ drop_empty_last (u ∷ fields d v)
trimmed_cons d u v =
    let (f, fs, e) = fields_cons d v in
    subst (λ r. trimmed (u ∷ r) ≡ drop_empty_last (u ∷ r)) (sym e) refl

trimmed_split :
    (d : ℕ) (u v : Text)
    → Lacks d u
    → drop_empty_last (fields d (u ++ d ∷ v)) ≡ trimmed (fields d (u ++ d ∷ v))
trimmed_split d u v h = rw (fields-split d u v h) (sym (trimmed_cons d u v))

take-length : (u v : Text) → take (length u) (u ++ v) ≡ u
take-length [] v = refl
take-length (x ∷ u) v = rw (take-length u v)

take_whole : (t : Text) (n : ℕ) → length t ≤ n → take n t ≡ t
take_whole [] zero h = refl
take_whole [] (suc n) h = refl
take_whole (x ∷ t) zero h = absurd (omega arith)
take_whole (x ∷ t) (suc n) h = rw (take_whole t n (omega arith))

drop-length : (pre t : Text) → drop (length pre) (pre ++ t) ≡ t
drop-length [] t = refl
drop-length (x ∷ pre) t = drop-length pre t

substr_suffix : (pre t : Text) → substr (pre ++ t) (length pre) (length (pre ++ t) - length pre) ≡ t
substr_suffix pre t = rw (drop-length pre t) (take_whole t _ (omega (arith, length-append pre t)))

substr_part :
    (pre u v : Text)
    → substr (pre ++ (u ++ v)) (length pre) (length pre + length u - length pre) ≡ u
substr_part pre u v = rw (drop-length pre (u ++ v), only) (take-length u v)
  where
    only : length pre + length u - length pre ≡ length u
    only = omega arith

-- The loop with nothing more to find adds the rest, unless it is empty.
loop_end :
    (find : Text → Text → ℕ → Option ℕ) (fuel : ℕ) (pre t delim : Text) (result : List Text)
    → split_loop find fuel (pre ++ t) delim (length pre) none result
      ≡ some (result ++ drop_empty_last (t ∷ []))
unfolding split_loop
loop_end find fuel pre [] delim result = simp append-nil (ground arith)
loop_end find fuel pre (x ∷ t) delim result =
    ground (arith, substr_suffix pre (x ∷ t), length-append pre (x ∷ t))

module _ {find : Text → Text → ℕ → Option ℕ} (law : FindsFirst find) (d : ℕ) where
  abbrev loop_at : ℕ → Text → Text → List Text → Option (List Text)
  loop_at fuel pre t =
      split_loop find fuel (pre ++ t) (d ∷ []) (length pre) (find (pre ++ t) (d ∷ []) (length pre))

  -- One round: the part up to the separator is added, and the position moves behind it.
  loop_round :
      (fuel : ℕ) (pre u v : Text) (result : List Text)
      → Lacks d u
      → loop_at (suc fuel) pre (u ++ d ∷ v) result
        ≡ loop_at fuel (pre ++ (u ++ d ∷ [])) v (result ++ u ∷ [])
  unfolding split_loop
  loop_round fuel pre u v result h = rw (find-split law d pre u v h) (λ i.
      split_loop find fuel (same i) (d ∷ []) (moved i) (find (same i) (d ∷ []) (moved i))
        (result ++ substr_part pre u (d ∷ v) i ∷ []))
    where
      moved : length pre + length u + 1 ≡ length (pre ++ (u ++ d ∷ []))
      moved = omega (arith, length-append pre (u ++ d ∷ []), length-append u (d ∷ []))

      same : pre ++ (u ++ d ∷ v) ≡ (pre ++ (u ++ d ∷ [])) ++ v
      same = simp append_assoc

  -- With fuel for the bytes that are left the loop ends, with the fields of the rest.
  loop-fields :
      (fuel : ℕ) (pre t : Text) (result : List Text)
      → length t < fuel
      → loop_at fuel pre t result ≡ some (result ++ drop_empty_last (fields d t))
  loop-fields zero pre t result h = absurd (omega arith)
  loop-fields (suc fuel) pre t result h = elim (first_split d t) [
    | inl no_d ↦
        rw (find-Lacks law d pre t no_d, fields-Lacks d t no_d)
          (loop_end find (suc fuel) pre t (d ∷ []) result)
    | inr (u, v, e, no_d) ↦ rw e (
        loop_round fuel pre u v result no_d
        ∙ loop-fields fuel (pre ++ (u ++ d ∷ [])) v (result ++ u ∷ [])
            (omega (arith, ap length e, length-append u (d ∷ v)))
        ∙ ap some (
            append_assoc result (u ∷ []) _
            ∙ ap (◌++◌ result) (
                sym (drop_empty_last-cons d u v)
                ∙ ap drop_empty_last (sym (fields-split d u v no_d)))))
  ]

  -- The result is the fields of the text, without a last one that is empty unless it is the only one.
  pub split_string_view-fields :
      (str : Text) → split_string_view find str (d ∷ []) ≡ some (trimmed (fields d str))
  unfolding split_string_view split_from
  split_string_view-fields str = elim (first_split d str) [
    | inl no_d ↦ rw (find-Lacks law d [] str no_d, fields-Lacks d str no_d) refl
    | inr (u, v, e, no_d) ↦ rw e (
        rw (find-split law d [] u v no_d) (
          rw (find-split law d [] u v no_d) at
            (loop-fields (suc (length (u ++ d ∷ v))) [] (u ++ d ∷ v) [] (omega arith)))
        ∙ ap some (trimmed_split d u v no_d))
  ]
