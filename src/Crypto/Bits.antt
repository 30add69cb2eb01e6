-- ===== src/Crypto/Bits.antt =====
-- The bit operations of common/crypto.cpp, `|` and `&`, as sums and remainders.
use Prim.Native.Nat.{min, max, digits, bitwise, bit_and, bit_or, bit_and-bitwise, bit_or-bitwise}
use native.Mathlib.Nat.{le_refl, pow-suc}
use binance_monitor.Base.{
  ℕ, zero, suc, ◌+◌, ◌*◌, ◌/◌, ◌%◌, ◌^◌, ◌≤◌, ◌<◌, ◌≡◌, refl, ap, subst, arith,
}

-- Any fuel that reaches the number gives the same digits.
module _ (unary : ℕ → ℕ) (op : ℕ → ℕ → ℕ) where
  fuel_free :
      (fuel more x y : ℕ)
      → x ≤ fuel
      → x ≤ more
      → digits unary op fuel x y ≡ digits unary op more x y
  fuel_free fuel more zero y p q = ends fuel more
    where
      ends : (fuel more : ℕ) → digits unary op fuel zero y ≡ digits unary op more zero y
      ends zero zero = refl
      ends zero (suc more) = refl
      ends (suc fuel) zero = refl
      ends (suc fuel) (suc more) = refl
  fuel_free zero more (suc x) y p q = absurd (omega arith)
  fuel_free (suc fuel) zero (suc x) y p q = absurd (omega arith)
  fuel_free (suc fuel) (suc more) (suc x) y p q =
      rw (fuel_free fuel more (suc x / 2) (y / 2) (omega arith) (omega arith))

  low_digit :
      (x y : ℕ)
      → bitwise unary op (suc x) y
        ≡ bitwise unary op (suc x / 2) (y / 2) * 2 + op (suc x % 2) (y % 2)
  low_digit x y =
      omega (arith, fuel_free x (suc x / 2) (suc x / 2) (y / 2) (omega arith) (le_refl _))

bit_or_digit : (x y : ℕ) → bit_or x y ≡ bit_or (x / 2) (y / 2) * 2 + max (x % 2) (y % 2)
bit_or_digit zero y = simp bit_or-bitwise (omega arith)
bit_or_digit (suc x) y = simp bit_or-bitwise (low_digit (λ z. z) max x y)

bit_and_digit : (x y : ℕ) → bit_and x y ≡ bit_and (x / 2) (y / 2) * 2 + min (x % 2) (y % 2)
bit_and_digit zero y = simp bit_and-bitwise (omega arith)
bit_and_digit (suc x) y = simp bit_and-bitwise (low_digit (λ z. 0) min x y)

bit_or-zero_below : (n a : ℕ) → a ≤ n → bit_or a 0 ≡ a
bit_or-zero_below n zero h = refl
bit_or-zero_below zero (suc a) h = absurd (omega arith)
bit_or-zero_below (suc n) (suc a) h =
    omega (arith, bit_or_digit (suc a) 0, bit_or-zero_below n (suc a / 2) (omega arith))

bit_and-zero_below : (n a : ℕ) → a ≤ n → bit_and a 0 ≡ 0
bit_and-zero_below n zero h = refl
bit_and-zero_below zero (suc a) h = absurd (omega arith)
bit_and-zero_below (suc n) (suc a) h =
    omega (arith, bit_and_digit (suc a) 0, bit_and-zero_below n (suc a / 2) (omega arith))

-- `x | r` where the lowest `k` bits of `x` are clear and `r` has no others.
bit_or_shifted : (k q r : ℕ) → r < 2 ^ k → bit_or (q * 2 ^ k) r ≡ q * 2 ^ k + r
bit_or_shifted zero q r h = rw (whole, low) (omega (arith, bit_or-zero_below q q (le_refl q)))
  where
    low : r ≡ 0
    low = omega arith

    whole : q * 2 ^ 0 ≡ q
    whole = omega arith
bit_or_shifted (suc k) q r h = omega (
  arith,
  bit_or_digit (q * 2 ^ suc k) r,
  ap (λ (t : ℕ). q * t) (pow-suc 2 k),
  pow-suc 2 k,
  bit_or_shifted k q (r / 2) (omega (arith, pow-suc 2 k)),
  ap (λ (t : ℕ). bit_or t (r / 2)) halved,
)
  where
    halved : q * 2 ^ suc k / 2 ≡ q * 2 ^ k
    halved = omega (arith, ap (λ (t : ℕ). q * t) (pow-suc 2 k))

pub bit_or_byte : (x r : ℕ) → r < 256 → x % 256 ≡ 0 → bit_or x r ≡ x + r
bit_or_byte x r h z = subst (λ t. bit_or t r ≡ t + r) multiple (bit_or_shifted 8 (x / 256) r h)
  where
    multiple : x / 256 * 2 ^ 8 ≡ x
    multiple = omega arith

pub bit_or_sextet : (x r : ℕ) → r < 64 → x % 64 ≡ 0 → bit_or x r ≡ x + r
bit_or_sextet x r h z = subst (λ t. bit_or t r ≡ t + r) multiple (bit_or_shifted 6 (x / 64) r h)
  where
    multiple : x / 64 * 2 ^ 6 ≡ x
    multiple = omega arith

bit_and_one : (a : ℕ) → bit_and a 1 ≡ a % 2
bit_and_one a = omega (arith, bit_and_digit a 1, bit_and-zero_below (a / 2) (a / 2) (le_refl _))

bit_and_seven : (a : ℕ) → bit_and a 7 ≡ a % 8
bit_and_seven a = omega (arith, bit_and_digit a 7, bit_and_digit (a / 2) 3, bit_and_one (a / 2 / 2))

pub bit_and_sextet : (a : ℕ) → bit_and a 0x3f ≡ a % 64
bit_and_sextet a = omega (
  arith,
  bit_and_digit a 63,
  bit_and_digit (a / 2) 31,
  bit_and_digit (a / 2 / 2) 15,
  bit_and_seven (a / 2 / 2 / 2),
)

pub bit_and_byte : (a : ℕ) → bit_and a 0xff ≡ a % 256
bit_and_byte a =
    omega (arith, bit_and_digit a 255, bit_and_digit (a / 2) 127, bit_and_sextet (a / 2 / 2))
