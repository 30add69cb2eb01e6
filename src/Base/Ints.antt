-- ===== src/Base/Ints.antt =====
-- Signed integers, and `std::to_string` of them.
use Prim.Native.Nat.{ℕ, zero, suc, ◌+◌, ◌-◌, ◌/◌, ◌%◌}
use mathlib.Core.Bool.{true, false}
use mathlib.Core.List.{[], ◌∷◌, ◌++◌}
use binance_monitor.Base.Tests.{ltb}
use binance_monitor.Base.Texts.{Text}

-- `negsuc n` is -(n + 1).
pub data ℤ : Type 0 where
  pos : ℕ → ℤ
  negsuc : ℕ → ℤ

-- The decimal digits, with the fuel of the number itself.
unfoldable pub decimal : ℕ → ℕ → Text
decimal zero n = (48 + n % 10) ∷ []
decimal (suc fuel) n = elim (ltb n 10) [
  | true ↦ (48 + n) ∷ []
  | false ↦ decimal fuel (n / 10) ++ (48 + n % 10) ∷ []
]

unfoldable pub to_string : ℤ → Text
unfolding decimal
to_string (pos n) = decimal n n
to_string (negsuc n) = b'-' ∷ decimal (n + 1) (n + 1)

-- The 64 bits of an `int64_t`, read as a `std::size_t`.
abbrev pub to_size : ℤ → ℕ
to_size (pos n) = n
to_size (negsuc n) = 18446744073709551616 - 1 - n
