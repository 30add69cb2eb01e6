-- ===== src/Time.antt =====
-- `timet_to_string` of common/json_utils.cpp: `std::gmtime`, and `std::strftime` with the format
-- "%Y-%m-%d %H:%M:%S" into a buffer of 32 bytes.
pub mod Calendar
pub mod RoundTrip
mod Examples
use binance_monitor.Base.{
  ltb, leb, if◌then◌else◌, ◌>>=◌, length, Text, text, decimal, ℕ, ◌+◌, ◌-◌, ◌*◌, ◌/◌, ◌%◌, ◌^◌, ◌≡◌,
  refl, Option, none, some, [], ◌∷◌, ◌++◌,
}

-- The fields of `std::tm` that the format uses, with the year and the month counted as printed.
pub record Tm : Type 0 where
  pub year : ℕ
  pub mon : ℕ
  pub mday : ℕ
  pub hour : ℕ
  pub min : ℕ
  pub sec : ℕ

-- The Gregorian date of a day counted from 1970-01-01, by eras of 400 years that begin in March.
pub civil : ℕ → ℕ → Tm
civil days secs =
    let z = days + 719468 in
    let doe = z % 146097 in
    let yoe = (doe - doe / 1460 + doe / 36524 - doe / 146096) / 365 in
    let doy = doe - (365 * yoe + yoe / 4 - yoe / 100) in
    let mp = (5 * doy + 2) / 153 in
    let m = if ltb mp 10 then mp + 3 else mp - 9 in
    let y = yoe + z / 146097 * 400 in
    record {
      year = if leb m 2 then y + 1 else y;
      mon = m;
      mday = doy - (153 * mp + 2) / 5 + 1;
      hour = secs / 3600;
      min = secs / 60 % 60;
      sec = secs % 60;
    }

-- `gmtime` fails where the year does not fit an `int`.
pub gmtime : ℕ → Option Tm
unfolding civil
gmtime t = let tm = civil (t / 86400) (t % 86400) in if ltb tm.year (2 ^ 31) then some tm else none

-- Two digits, and at least four of the year.
two_digits : ℕ → Text
two_digits n = (48 + n / 10 % 10) ∷ (48 + n % 10) ∷ []

year_digits : ℕ → Text
year_digits y = if ltb y 10000 then two_digits (y / 100) ++ two_digits (y % 100) else decimal y y

pub format_time : Tm → Text
unfolding two_digits year_digits
format_time tm =
    year_digits tm.year
    ++ (b'-' ∷ two_digits tm.mon)
    ++ (b'-' ∷ two_digits tm.mday)
    ++ (b' ' ∷ two_digits tm.hour)
    ++ (b':' ∷ two_digits tm.min)
    ++ (b':' ∷ two_digits tm.sec)

-- `strftime` returns 0 where the text and its final zero byte do not fit.
unfoldable pub timet_to_string : ℕ → Option Text
unfolding gmtime format_time
timet_to_string t = gmtime t >>= λ tm.
    let output = format_time tm in if ltb (length output) 32 then some output else none

noon_of_leap_day : timet_to_string 1582977845 ≡ some (text "2020-02-29 12:04:05")
unfolding timet_to_string decimal text
noon_of_leap_day = refl
