-- ===== src/Base/Maps.antt =====
-- `std::map` with text keys, as the list of its pairs. No part of the program that is modelled
-- depends on the order in which a map is walked.
use mathlib.Core.Path.{◌≡◌, refl}
use mathlib.Core.Option.{Option, none, some}
use mathlib.Core.List.{List, [], ◌∷◌, ◌++◌}
use native.Mathlib.Omega.{arith}
use binance_monitor.Base.Tests.{if◌then◌else◌}
use binance_monitor.Base.Texts.{Text, text_eq, text_eq_iff}

abbrev pub Map {ℓ} : Type ℓ → Type ℓ
Map V = List (Text × V)

module _ {ℓ} {V : Type ℓ} where
  -- `find` and `at`; `none` where the key is missing.
  unfoldable pub lookup : Text → Map V → Option V
  lookup k [] = none
  lookup k ((j, v) ∷ m) = if text_eq j k then some v else lookup k m

  -- `m[k] = v`
  unfoldable pub assign : Text → V → Map V → Map V
  assign k v [] = (k, v) ∷ []
  assign k v ((j, w) ∷ m) = if text_eq j k then (j, v) ∷ m else (j, w) ∷ assign k v m

  pub lookup-assign :
      (j k : Text) (v : V) (m : Map V)
      → lookup j (assign k v m) ≡ (if text_eq k j then some v else lookup j m)
  unfolding lookup assign
  lookup-assign j k v [] = refl
  lookup-assign j k v ((i, w) ∷ m) =
      ground (arith, text_eq_iff k j, text_eq_iff i k, text_eq_iff i j, lookup-assign j k v m)

  pub lookup-concat :
      (j k : Text) (v : V) (m : Map V)
      → lookup j (m ++ (k, v) ∷ [])
        ≡ elim (lookup j m) [ some a ↦ some a | none ↦ if text_eq k j then some v else none ]
  unfolding lookup
  lookup-concat j k v [] = refl
  lookup-concat j k v ((i, w) ∷ m) = ground (arith, lookup-concat j k v m)
