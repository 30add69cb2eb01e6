-- ===== src/Time/Calendar.antt =====
-- The Gregorian calendar, by the lengths of its months and its leap days.
pub mod Civil
use binance_monitor.Base.{
  leb, ◌==◌, if◌then◌else◌, take, ℕ, ◌+◌, ◌-◌, ◌*◌, ◌/◌, ◌%◌, ◌≤◌, ◌<◌, ◌≡◌, Bool, not, ◌&&◌, ◌||◌,
  List, [], ◌∷◌, arith,
}
use binance_monitor.Time.{Tm}

-- The leap years from the year 0 to the one before.
pub leaps_before : ℕ → ℕ
leaps_before y = (y + 3) / 4 - (y + 99) / 100 + (y + 399) / 400

-- The lengths of the months of a year without a leap day.
abbrev pub month_lengths : List ℕ
month_lengths = 31 ∷ 28 ∷ 31 ∷ 30 ∷ 31 ∷ 30 ∷ 31 ∷ 31 ∷ 30 ∷ 31 ∷ 30 ∷ 31 ∷ []

pub sum : List ℕ → ℕ
sum [] = 0
sum (n ∷ ns) = n + sum ns

abbrev pub days_before_month : ℕ → ℕ
days_before_month mon = sum (take (mon - 1) month_lengths)

-- The days before a date, from the first of January of the year 0 on. The leap day of the year itself
-- counts from March on.
pub days_before : (year mon mday : ℕ) → ℕ
days_before year mon mday =
    365 * year
    + leaps_before (if leb mon 2 then year else year + 1)
    + days_before_month mon
    + (mday - 1)

pub is_leap : ℕ → Bool
is_leap y = y % 4 == 0 && (not (y % 100 == 0) || y % 400 == 0)

abbrev pub leap_days : ℕ → ℕ
leap_days y = if is_leap y then 1 else 0

pub leaps_before-suc : (y : ℕ) → leaps_before (y + 1) ≡ leaps_before y + leap_days y
unfolding leaps_before is_leap
leaps_before-suc y = ground arith

pub month_length : (year mon : ℕ) → ℕ
month_length year mon =
    sum (take mon month_lengths)
    - sum (take (mon - 1) month_lengths)
    + (if mon == 2 then leap_days year else 0)

-- A date of the calendar, and a time of the day.
pub record IsDate (tm : Tm) : Type 0 where
  pub mon : (1 ≤ tm.mon) × (tm.mon ≤ 12)
  pub mday : (1 ≤ tm.mday) × (tm.mday ≤ month_length tm.year tm.mon)
  pub hour : tm.hour < 24
  pub min : tm.min < 60
  pub sec : tm.sec < 60

-- The seconds from the first of January 1970 on.
pub seconds_of : Tm → ℕ
seconds_of tm =
    (days_before tm.year tm.mon tm.mday - days_before 1970 1 1) * 86400
    + tm.hour * 3600
    + tm.min * 60
    + tm.sec
