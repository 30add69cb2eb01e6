-- ===== src/Time/RoundTrip.antt =====
-- The texts of `timet_to_string` of common/json_utils.cpp, and a reader of them.
use binance_monitor.Base.{
  Option, ◌^◌, none, Bool, ◌*◌, ◌∙◌, ltb, if◌then◌else◌, ◌>>=◌, length, take, drop, ap, Text, ℕ,
  ◌+◌, ◌-◌, ◌/◌, ◌%◌, ◌<◌, ◌≡◌, refl, arith, true, some, [], ◌∷◌, ◌++◌,
}
use binance_monitor.Time.{Tm, civil, gmtime, two_digits, year_digits, format_time, timet_to_string}
use binance_monitor.Time.Calendar.{IsDate, seconds_of}
use binance_monitor.Time.Calendar.Civil.{civil-IsDate, seconds_of-civil, civil-year}

-- The number that the digits stand for, behind the one of the digits read before them.
pub number : (before : ℕ) → Text → ℕ
number before [] = before
number before (digit ∷ digits) = number (before * 10 + (digit - 48)) digits

-- The seconds since the start of 1970 of a date and a time in the format.
pub read_time : Text → ℕ
read_time s = seconds_of (record {
  year = number 0 (take 4 s);
  mon = number 0 (take 2 (drop 5 s));
  mday = number 0 (take 2 (drop 8 s));
  hour = number 0 (take 2 (drop 11 s));
  min = number 0 (take 2 (drop 14 s));
  sec = number 0 (take 2 (drop 17 s));
})

number-two_digits : (n : ℕ) → n < 100 → number 0 (two_digits n) ≡ n
unfolding number two_digits
number-two_digits n h = omega arith

number-year : (y : ℕ) → y < 10000 → number 0 (two_digits (y / 100) ++ two_digits (y % 100)) ≡ y
unfolding number two_digits
number-year y h = omega arith

civil-mday : (days secs : ℕ) → (civil days secs).mday < 100
unfolding civil
civil-mday days secs = omega arith

same_fields :
    (tm : Tm) (year mon mday hour min sec : ℕ)
    → year ≡ tm.year
    → mon ≡ tm.mon
    → mday ≡ tm.mday
    → hour ≡ tm.hour
    → min ≡ tm.min
    → sec ≡ tm.sec
    → seconds_of (record { year = year; mon = mon; mday = mday; hour = hour; min = min; sec = sec })
      ≡ seconds_of tm
same_fields tm year mon mday hour min sec y m d h n s = rw (y, m, d, h, n, s) refl

ltb-true : (a b : ℕ) → a < b → ltb a b ≡ true
ltb-true a b h = ground arith

read_time-format_time :
    (tm : Tm)
    → tm.year < 10000
    → tm.mday < 100
    → IsDate tm
    → read_time (format_time tm) ≡ seconds_of tm
unfolding read_time format_time year_digits two_digits
read_time-format_time tm y d date = rw (ltb-true tm.year 10000 y) (
    same_fields tm _ _ _ _ _ _ (number-year tm.year y)
      (number-two_digits tm.mon (omega (arith, date.mon))) (number-two_digits tm.mday d)
      (number-two_digits tm.hour (omega (arith, date.hour)))
      (number-two_digits tm.min (omega (arith, date.min)))
      (number-two_digits tm.sec (omega (arith, date.sec))))

length-format_time : (tm : Tm) → tm.year < 10000 → length (format_time tm) ≡ 19
unfolding format_time year_digits two_digits
length-format_time tm y = rw (ltb-true tm.year 10000 y) refl

gmtime-civil :
    (t : ℕ)
    → (civil (t / 86400) (t % 86400)).year < 10000
    → gmtime t ≡ some (civil (t / 86400) (t % 86400))
unfolding gmtime
gmtime-civil t y =
    ap (λ (b : Bool). if b then some (civil (t / 86400) (t % 86400)) else none)
      (ltb-true (civil (t / 86400) (t % 86400)).year (2 ^ 31) (omega arith))

-- A time before the year 10000 has a text, from which the time is read back.
pub read_time-timet_to_string :
    (t : ℕ) → t < 253402300800 → (s : Text) × (timet_to_string t ≡ some s) × (read_time s ≡ t)
unfolding timet_to_string
read_time-timet_to_string t h =
    let year = civil-year t h in
    (
      format_time (civil (t / 86400) (t % 86400)),
      ap
            (λ (o : Option Tm).
              o >>= λ tm. if ltb (length (format_time tm)) 32 then some (format_time tm) else none)
            (gmtime-civil t year)
          ∙ ap (λ n. if ltb n 32 then some (format_time (civil (t / 86400) (t % 86400))) else none)
              (length-format_time (civil (t / 86400) (t % 86400)) year),
      read_time-format_time (civil (t / 86400) (t % 86400)) year
            (civil-mday (t / 86400) (t % 86400))
            (civil-IsDate (t / 86400) (t % 86400) (omega arith))
          ∙ seconds_of-civil t,
    )
