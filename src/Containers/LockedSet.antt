-- ===== src/Containers/LockedSet.antt =====
-- `locked_set_t` as a mathematical set.
use binance_monitor.Base.{
  Bool-cases, ◌≡◌, refl, sym, ap, ◌∙◌, subst, inl, inr, Bool, true, false, ◌&&◌, ◌||◌, List, [],
  ◌∷◌, ◌++◌, arith,
}
use binance_monitor.Containers.{contains, insert, insert_list, all_items_matching}

module _ {ℓ} {T : Type ℓ} (equal : T → T → Bool) where
  contains-append :
      (x : T) (xs ys : List T)
      → contains equal x (xs ++ ys) ≡ contains equal x xs || contains equal x ys
  unfolding contains
  contains-append x [] ys = refl
  contains-append x (y ∷ xs) ys = ground (arith, contains-append x xs ys)

  -- The items of the set are all different.
  abbrev pub IsDistinct : List T → Type 0
  IsDistinct [] = Unit
  IsDistinct (x ∷ xs) = (contains equal x xs ≡ false) × IsDistinct xs

  -- What the theorems ask of `==`.
  pub record IsEquality : Type ℓ where
    pub reflexive : (x : T) → equal x x ≡ true
    pub sound : (x y : T) → equal x y ≡ true → x ≡ y

  absorb : (a b : Bool) → (b ≡ true → a ≡ true) → a ≡ a || b
  absorb true b h = refl
  absorb false true h = h refl
  absorb false false h = refl

  regroup : (a b c : Bool) → (a || b) || c ≡ a || (b || c)
  regroup true b c = refl
  regroup false b c = refl

  and_false : (a : Bool) → a && false ≡ false
  and_false true = refl
  and_false false = refl

  or_false : (a : Bool) → a || false ≡ a
  or_false true = refl
  or_false false = refl

  contains-single : (x y : T) → contains equal x (y ∷ []) ≡ equal y x
  unfolding contains
  contains-single x y = or_false (equal y x)

  contains-insert :
      IsEquality
      → (x y : T) (s : List T)
      → contains equal x (insert equal y s) ≡ contains equal x s || equal y x
  unfolding insert
  contains-insert eq x y s = elim (Bool-cases (contains equal y s)) [
    | inl h ↦ rw h (
        absorb (contains equal x s) (equal y x)
          λ e. subst (λ z. contains equal z s ≡ true) (eq.sound y x e) h)
    | inr h ↦ rw (h, contains-append x s (y ∷ []), contains-single x y) refl
  ]

  or_is_false : (a b : Bool) → a || b ≡ false → (a ≡ false) × (b ≡ false)
  or_is_false true b h = cc
  or_is_false false b h = (refl, h)

  not_equal : IsEquality → (y x : T) → equal x y ≡ false → equal y x ≡ false
  not_equal eq y x h = elim (Bool-cases (equal y x)) [
    | inl e ↦ cc (sym (eq.sound y x e), eq.reflexive x, h)
    | inr e ↦ e
  ]

  IsDistinct-append :
      IsEquality
      → (y : T) (s : List T) → contains equal y s ≡ false
      → IsDistinct s
      → IsDistinct (s ++ y ∷ [])
  unfolding contains
  IsDistinct-append eq y [] h d = (refl, tt)
  IsDistinct-append eq y (x ∷ s) h d =
      let (fresh, later) = or_is_false (equal x y) (contains equal y s) h in
      (
        contains-append x s (y ∷ [])
            ∙ ap (λ b. b || (equal y x || false)) d.0
            ∙ ap (λ b. b || false) (not_equal eq y x fresh),
        IsDistinct-append eq y s later d.1,
      )

  IsDistinct-insert :
      IsEquality → (y : T) (s : List T) → IsDistinct s → IsDistinct (insert equal y s)
  unfolding insert
  IsDistinct-insert eq y s d = elim (Bool-cases (contains equal y s)) [
    | inl h ↦ rw h d
    | inr h ↦ rw h (IsDistinct-append eq y s h d)
  ]

  -- A set is what was inserted: an item is in it if it was there, or is one of the list.
  contains-insert_list :
      IsEquality
      → (x : T) (xs s : List T)
      → contains equal x (insert_list equal xs s) ≡ contains equal x s || contains equal x xs
  unfolding contains insert_list
  contains-insert_list eq x [] s = sym (or_false (contains equal x s))
  contains-insert_list eq x (y ∷ xs) s =
      contains-insert_list eq x xs (insert equal y s)
      ∙ ap (λ b. b || contains equal x xs) (contains-insert eq x y s)
      ∙ regroup (contains equal x s) (equal y x) (contains equal x xs)

  -- No item is twice in the set.
  IsDistinct-insert_list :
      IsEquality → (xs s : List T) → IsDistinct s → IsDistinct (insert_list equal xs s)
  unfolding insert_list
  IsDistinct-insert_list eq [] s d = d
  IsDistinct-insert_list eq (y ∷ xs) s d =
      IsDistinct-insert_list eq xs (insert equal y s) (IsDistinct-insert eq y s d)

  -- The filter keeps what it matches and nothing else.
  contains-all_items_matching :
      IsEquality
      → (filter : T → Bool) (x : T) (s : List T)
      → contains equal x (all_items_matching filter s) ≡ filter x && contains equal x s
  unfolding contains all_items_matching
  contains-all_items_matching eq filter x [] = sym (and_false (filter x))
  contains-all_items_matching eq filter x (y ∷ s) = elim (Bool-cases (filter y)) [
    | inl kept ↦
        rw (kept, contains-all_items_matching eq filter x s)
          (or_and (equal y x) (filter x) (contains equal x s)
            λ e. subst (λ z. filter z ≡ true) (eq.sound y x e) kept)
    | inr dropped ↦
        rw (dropped, contains-all_items_matching eq filter x s)
          (and_or (equal y x) (filter x) (contains equal x s)
            λ e. subst (λ z. filter z ≡ false) (eq.sound y x e) dropped)
  ]
    where
      or_and : (a b c : Bool) → (a ≡ true → b ≡ true) → a || (b && c) ≡ b && (a || c)
      or_and true b c h = sym (ap (λ z. z && true) (h refl))
      or_and false b c h = refl

      and_or : (a b c : Bool) → (a ≡ true → b ≡ false) → b && c ≡ b && (a || c)
      and_or true b c h = rw (h refl) refl
      and_or false b c h = refl
