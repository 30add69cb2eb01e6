-- ===== src/Crypto/Tables.antt =====
-- The two tables of common/crypto.cpp, of the letters and of their values.
use binance_monitor.Base.{
  ltb, ◌==◌, ==_iff, get_or, Text, text, ℕ, zero, suc, ◌<◌, ◌≡◌, refl, Bool, true, not, ◌&&◌, List,
  [], ◌∷◌, arith,
}

alphabet : Text
unfolding text
alphabet = text "ABCDEFGHIJKLMNOPQRSTUVWXYZabcdefghijklmnopqrstuvwxyz0123456789+/"

-- `b64_table[k]`; the index is always below 64.
unfoldable pub b64_table : ℕ → ℕ
unfolding alphabet
b64_table k = get_or alphabet k 0

sextets : List ℕ
sextets =
    64 ∷ 64 ∷ 64 ∷ 64 ∷ 64 ∷ 64 ∷ 64 ∷ 64 ∷ 64 ∷ 64 ∷ 64 ∷ 64 ∷ 64 ∷ 64 ∷ 64 ∷ 64 ∷ 64 ∷ 64 ∷ 64
    ∷ 64 ∷ 64 ∷ 64 ∷ 64 ∷ 64 ∷ 64 ∷ 64 ∷ 64 ∷ 64 ∷ 64 ∷ 64 ∷ 64 ∷ 64 ∷ 64 ∷ 64 ∷ 64 ∷ 64 ∷ 64 ∷ 64
    ∷ 64 ∷ 64 ∷ 64 ∷ 64 ∷ 64 ∷ 62 ∷ 64 ∷ 64 ∷ 64 ∷ 63 ∷ 52 ∷ 53 ∷ 54 ∷ 55 ∷ 56 ∷ 57 ∷ 58 ∷ 59 ∷ 60
    ∷ 61 ∷ 64 ∷ 64 ∷ 64 ∷ 64 ∷ 64 ∷ 64 ∷ 64 ∷ 0 ∷ 1 ∷ 2 ∷ 3 ∷ 4 ∷ 5 ∷ 6 ∷ 7 ∷ 8 ∷ 9 ∷ 10 ∷ 11 ∷ 12
    ∷ 13 ∷ 14 ∷ 15 ∷ 16 ∷ 17 ∷ 18 ∷ 19 ∷ 20 ∷ 21 ∷ 22 ∷ 23 ∷ 24 ∷ 25 ∷ 64 ∷ 64 ∷ 64 ∷ 64 ∷ 64 ∷ 64
    ∷ 26 ∷ 27 ∷ 28 ∷ 29 ∷ 30 ∷ 31 ∷ 32 ∷ 33 ∷ 34 ∷ 35 ∷ 36 ∷ 37 ∷ 38 ∷ 39 ∷ 40 ∷ 41 ∷ 42 ∷ 43 ∷ 44
    ∷ 45 ∷ 46 ∷ 47 ∷ 48 ∷ 49 ∷ 50 ∷ 51 ∷ 64 ∷ 64 ∷ 64 ∷ 64 ∷ 64 ∷ []

-- `reverse_table[c]`; the index is always below 128.
unfoldable pub reverse_table : ℕ → ℕ
unfolding sextets
reverse_table c = get_or sextets c 64

-- The entries of a table from `count` down to the first all pass a test.
passes : (ℕ → Bool) → ℕ → Bool
passes test zero = true
passes test (suc count) = passes test count && test count

passes_at : (test : ℕ → Bool) (count k : ℕ) → k < count → passes test count ≡ true → test k ≡ true
unfolding passes
passes_at test zero k below all = absurd (omega arith)
passes_at test (suc count) k below all = ground (arith, passes_at test count k)

abbrev inverts : ℕ → Bool
inverts k = reverse_table (b64_table k) == k

abbrev is_plain : ℕ → Bool
is_plain k = ltb 32 (b64_table k) && ltb (b64_table k) 128 && not (b64_table k == b'=')

inverts_table : passes inverts 64 ≡ true
unfolding passes b64_table reverse_table
inverts_table = refl

is_plain_table : passes is_plain 64 ≡ true
unfolding passes b64_table
is_plain_table = refl

pub reverse_table-b64_table : (k : ℕ) → k < 64 → reverse_table (b64_table k) ≡ k
reverse_table-b64_table k h = (==_iff _ k).0 (passes_at inverts 64 k h inverts_table)

-- No letter of the alphabet is white space or padding, and all are ASCII.
pub b64_table_plain : (k : ℕ) → k < 64 → is_plain k ≡ true
b64_table_plain k h = passes_at is_plain 64 k h is_plain_table
